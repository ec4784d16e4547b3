-- ===== src/Blockchain/Replay.antt =====
-- A relation for chains that replay, and the functions of src/blockchain.ts that decide it.
use mathlib.Core.Path.{subst}
use proof_of_authority_block.Common.{
  ℕ, ◌+◌, ◌≤◌, ◌≡◌, refl, ◌↔◌, ◌⊎◌, inl, inr, List, [], ◌∷◌, ◌++◌, arith, Result-cases, ok, err,
  ◌>>=◌, >>=-eq-ok,
}
use proof_of_authority_block.Crypto.{NodeCrypto}
use proof_of_authority_block.State.{WorldState, apply_all, apply_each}
use proof_of_authority_block.State.Apply.{apply_all_atomic}
use proof_of_authority_block.Transaction.{Transaction}
use proof_of_authority_block.Block.{Block}
use proof_of_authority_block.Blockchain.Types.{Config}
use proof_of_authority_block.Blockchain.Consensus.{
  BlockError, bad_state, is_valid_new_block, block_transactions, apply_block_transactions,
  replay_one, replay,
}
use proof_of_authority_block.Blockchain.Rules.{IsNextBlock, is_valid_new_block_iff}

-- Block `b` may follow `p`, and its transactions take the state `s` to `s'`.
pub record Extends (c : NodeCrypto) (cfg : Config) (date : ℕ) (p b : Block) (s s' : WorldState)
    : Type 0 where
  pub next : IsNextBlock c cfg date b p
  pub txs : List Transaction
  pub authentic : block_transactions c b ≡ ok txs
  pub applied : apply_each s txs ≡ ok s'

-- The blocks follow `p`, one after another, and take the state to another.
pub data Replays (c : NodeCrypto) (cfg : Config) (date : ℕ)
    : Block → List Block → WorldState → WorldState → Type 0 where
  done : (p : Block) (s : WorldState) → Replays c cfg date p [] s s
  more :
      (p b : Block) (bs : List Block) (s t u : WorldState)
      → Extends c cfg date p b s t
      → Replays c cfg date b bs t u
      → Replays c cfg date p (b ∷ bs) s u

-- A block's transactions are applied all, or the state is untouched.
pub apply_block_cases :
    (c : NodeCrypto) (b : Block) (s : WorldState)
    → ((s' : WorldState) × (txs : List Transaction) × (block_transactions c b ≡ ok txs)
        × (apply_each s txs ≡ ok s')
        × (apply_block_transactions c b s ≡ (s', ok tt)))
      ⊎ ((e : BlockError) × (apply_block_transactions c b s ≡ (s, err e)))
unfolding apply_block_transactions
apply_block_cases c b s = elim (Result-cases (block_transactions c b)) [
  | inl (txs, e) ↦ elim (apply_all_atomic s txs) [
    | inl (s', each, all) ↦ inl (s', txs, e, each, ground arith)
    | inr (x, each, all) ↦ inr (bad_state x, ground arith)
  ]
  | inr (x, e) ↦ inr (x, ground arith)
]

pub apply_block_of_each :
    (c : NodeCrypto) (b : Block) (s s' : WorldState) (txs : List Transaction)
    → block_transactions c b ≡ ok txs
    → apply_each s txs ≡ ok s'
    → apply_block_transactions c b s ≡ (s', ok tt)
unfolding apply_block_transactions apply_all
apply_block_of_each c b s s' txs authentic applied = ground arith

-- The body of the loop of `validateChain` accepts exactly the blocks that extend the chain.
pub replay_one_iff :
    (c : NodeCrypto) (cfg : Config) (date i : ℕ) (p b : Block) (s s' : WorldState)
    → (replay_one c cfg date i p b s ≡ ok s') ↔ Extends c cfg date p b s s'
unfolding replay_one
replay_one_iff c cfg date i p b s s' = (forth, back)
  where
    forth : replay_one c cfg date i p b s ≡ ok s' → Extends c cfg date p b s s'
    forth h = elim (Result-cases (is_valid_new_block c cfg date b p)) [
      | inl (_, valid) ↦ elim (apply_block_cases c b s) [
        | inl (t, txs, authentic, each, all) ↦ record {
          next = (is_valid_new_block_iff c cfg date b p).0 valid;
          txs = txs;
          authentic = authentic;
          applied = ground arith;
        }
        | inr (e, all) ↦ absurd (ground arith)
      ]
      | inr (e, invalid) ↦ absurd (ground arith)
    ]

    back : Extends c cfg date p b s s' → replay_one c cfg date i p b s ≡ ok s'
    back x =
        let valid = (is_valid_new_block_iff c cfg date b p).1 x.next in
        let applied = apply_block_of_each c b s s' x.txs x.authentic x.applied in ground arith

-- The loop of `validateChain` accepts exactly the chains that replay.
pub replay_iff :
    (c : NodeCrypto) (cfg : Config) (date i : ℕ) (p : Block) (bs : List Block) (s s' : WorldState)
    → (replay c cfg date i p bs s ≡ ok s') ↔ Replays c cfg date p bs s s'
unfolding replay
replay_iff c cfg date i p bs s s' = (forth i p bs s, back i)
  where
    forth :
        (i : ℕ) (p : Block) (bs : List Block) (s : WorldState)
        → replay c cfg date i p bs s ≡ ok s'
        → Replays c cfg date p bs s s'
    forth i p [] s h = let e : s ≡ s' = cc in subst (λ u. Replays c cfg date p [] s u) e (done p s)
    forth i p (b ∷ bs) s h =
        let (t, one, rest) =
          >>=-eq-ok (replay_one c cfg date i p b s) (λ u. replay c cfg date (i + 1) b bs u) h in
        more p b bs s t s' ((replay_one_iff c cfg date i p b s t).0 one) (forth (i + 1) b bs t rest)

    back :
        (i : ℕ) {p : Block} {bs : List Block} {s u : WorldState}
        → Replays c cfg date p bs s u
        → replay c cfg date i p bs s ≡ ok u
    back i (done p s) = refl
    back i (more p b bs s t u x rest) =
        rw ((replay_one_iff c cfg date i p b s t).1 x, ◌>>=◌) (back (i + 1) rest)

-- A block may be added behind a chain that replays.
abbrev pub last_of : Block → List Block → Block
last_of p [] = p
last_of p (b ∷ bs) = last_of b bs

pub Replays-snoc :
    (c : NodeCrypto) (cfg : Config) (date : ℕ) {p : Block} {bs : List Block} {s t : WorldState}
    → Replays c cfg date p bs s t
    → (b : Block) (u : WorldState) → Extends c cfg date (last_of p bs) b t u
    → Replays c cfg date p (bs ++ (b ∷ [])) s u
Replays-snoc c cfg date (done p s) b u x = more p b [] s u u x (done b u)
Replays-snoc c cfg date (more p q bs s t u' y rest) b u x =
    more p q (bs ++ (b ∷ [])) s t u y (Replays-snoc c cfg date rest b u x)

-- What replays at one time replays at any later time.
Extends-later :
    (c : NodeCrypto) (cfg : Config) (date date' : ℕ) (p b : Block) (s t : WorldState)
    → date ≤ date'
    → Extends c cfg date p b s t
    → Extends c cfg date' p b s t
Extends-later c cfg date date' p b s t h x = record {
  next = record {
    numbered = x.next.numbered;
    linked = x.next.linked;
    hashed = x.next.hashed;
    signed = x.next.signed;
    later = x.next.later;
    waited = x.next.waited;
    current = omega arith;
    owned = x.next.owned;
  };
  txs = x.txs;
  authentic = x.authentic;
  applied = x.applied;
}

pub Replays-later :
    (c : NodeCrypto) (cfg : Config) (date date' : ℕ) {p : Block} {bs : List Block}
    {s t : WorldState}
    → date ≤ date'
    → Replays c cfg date p bs s t
    → Replays c cfg date' p bs s t
Replays-later c cfg date date' h (done p s) = done p s
Replays-later c cfg date date' h (more p b bs s t u x rest) =
    more p b bs s t u (Extends-later c cfg date date' p b s t h x)
      (Replays-later c cfg date date' h rest)
