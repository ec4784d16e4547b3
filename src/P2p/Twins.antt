-- ===== src/P2p/Twins.antt =====
-- Two connections between the same two nodes of src/p2p.ts: which one `shouldReplace` keeps.
use Prim.Native.Nat.{Ordering, compare as compare_nat}
use Prim.Native.Char.{code}
use Prim.Native.String.{compare, then}
use Prim.Native.String.compare
use text.Mathlib.TextEquality.{path_by_compare}
use proof_of_authority_block.Common.{ℕ, ◌≡◌, ◌≢◌, refl, String, not, none, some, arith, eq_iff}
use proof_of_authority_block.P2p.Types.{Socket}
use proof_of_authority_block.P2p.Handshake.{lt_string, should_replace}

-- A connection that the node dialed, and one that it accepted, to the node with this identifier.
pub record IsDialed (s : Socket) (remote : String) : Type 0 where
  pub address : String
  pub dialed : s.dial_address ≡ some address
  pub peer : s.remote_node_id ≡ some remote

pub record IsAccepted (s : Socket) (remote : String) : Type 0 where
  pub accepted : s.dial_address ≡ none
  pub peer : s.remote_node_id ≡ some remote

abbrev flip : Ordering → Ordering
flip Ordering.lt = Ordering.gt
flip Ordering.eq = Ordering.eq
flip Ordering.gt = Ordering.lt

flip-compare_nat : (m n : ℕ) → compare_nat n m ≡ flip (compare_nat m n)
flip-compare_nat m n = ground arith

flip-then : (o p : Ordering) → flip (then o p) ≡ then (flip o) (flip p)
flip-then Ordering.lt p = refl
flip-then Ordering.eq p = refl
flip-then Ordering.gt p = refl

flip-compare : (s t : String) → compare t s ≡ flip (compare s t)
flip-compare String.[] String.[] = refl
flip-compare String.[] (String.◌∷◌ d t) = rw (compare.nil-cons d t, compare.cons-nil d t) refl
flip-compare (String.◌∷◌ c s) String.[] = rw (compare.nil-cons c s, compare.cons-nil c s) refl
flip-compare (String.◌∷◌ c s) (String.◌∷◌ d t) =
    rw
      (
        compare.cons-cons c d s t,
        compare.cons-cons d c t s,
        flip-then (compare_nat (code c) (code d)) (compare s t),
        flip-compare_nat (code c) (code d),
        flip-compare s t,
      )
      refl

-- Of two different texts exactly one is the lower.
lt_string_total : (a b : String) → a ≢ b → lt_string a b ≡ not (lt_string b a)
lt_string_total a b apart = ground (arith, flip-compare a b, path_by_compare a b)

-- If two nodes with different identifiers have dialed each other, so that each has a connection
-- that it dialed and one that it accepted, then both ends keep the one that the node with the lower
-- identifier dialed, whichever is there first at either end: by `shouldReplace` a connection that
-- comes second replaces the other at one end exactly if it does so at the other, it does so in one
-- order exactly if it does not in the other order, and the one that a node accepted replaces the
-- one that it dialed exactly if the other node's identifier is the lower.
pub should_replace_agrees :
    (a b : String) (dialed_by_a accepted_by_a dialed_by_b accepted_by_b : Socket)
    → a ≢ b
    → IsDialed dialed_by_a b
    → IsAccepted accepted_by_a b
    → IsDialed dialed_by_b a
    → IsAccepted accepted_by_b a
    → (should_replace a dialed_by_a accepted_by_a ≡ should_replace b accepted_by_b dialed_by_b)
      × (should_replace a accepted_by_a dialed_by_a ≡ should_replace b dialed_by_b accepted_by_b)
      × (should_replace a accepted_by_a dialed_by_a
          ≡ not (should_replace a dialed_by_a accepted_by_a))
      × (should_replace a dialed_by_a accepted_by_a ≡ lt_string b a)
unfolding should_replace
should_replace_agrees a b da aa db ab apart hda haa hdb hab =
    ground (arith, eq_iff a b, eq_iff b a, lt_string_total a b apart)
