-- ===== src/Blockchain/Prune/Kept.antt =====
-- What the loop of `pruneMempool` of src/blockchain.ts keeps.
use mathlib.Core.Path.{subst}
use proof_of_authority_block.Common.{
  ℕ, ◌+◌, ◌≤◌, ◌≡◌, refl, sym, ap, ◌∙◌, ◌⊎◌, inl, inr, true, false, String, List, [], ◌∷◌, arith,
  eq_iff, filter, filter-cong, All, ◌===◌, if◌then◌else◌, Bool-cases, ===_comm, ===_self,
}
use proof_of_authority_block.Common.Dict.{Dict, lookup, insert, lookup-insert}
use proof_of_authority_block.Transaction.{Transaction}
use proof_of_authority_block.State.{get_balance, get_nonce}
use proof_of_authority_block.Blockchain.Types.{Blockchain, Config}
use proof_of_authority_block.Blockchain.Mempool.{is_from, get_or_else, is_kept, keep_loop}
use proof_of_authority_block.Blockchain.Pool.{amounts, Differs, AllDiffer}
use proof_of_authority_block.Blockchain.Prune.Sorted.{is_among}

-- What the loop has kept of a sender so far.
abbrev pub spent_by : Dict ℕ → String → ℕ
spent_by spent a = get_or_else (lookup a spent) 0

pub spent_by-insert :
    (k a : String) (n : ℕ) (spent : Dict ℕ)
    → spent_by (insert k n spent) a ≡ (if k === a then n else spent_by spent a)
spent_by-insert k a n spent = ground (arith, lookup-insert k a n spent)

module _ (cfg : Config) (now : ℕ) (bc : Blockchain) where
  is_kept_sound :
      (spent : ℕ) (t : Transaction)
      → is_kept cfg now bc spent t ≡ true
      → (get_nonce bc.state t.from ≤ t.nonce) × (spent + t.amount ≤ get_balance bc.state t.from)
  unfolding is_kept
  is_kept_sound spent t h = ground arith

  pub keep_loop-nil : (spent : Dict ℕ) → [] ≡ keep_loop cfg now bc [] spent
  unfolding keep_loop
  keep_loop-nil spent = refl

  -- What the loop has kept of each sender stays within the sender's balance.
  pub keep_loop-balance :
      (ts : List Transaction) (spent : Dict ℕ)
      → ((b : String) → spent_by spent b ≤ get_balance bc.state b)
      → (a : String)
      → spent_by spent a + amounts (filter (is_from a) (keep_loop cfg now bc ts spent))
        ≤ get_balance bc.state a
  unfolding keep_loop
  keep_loop-balance [] spent h a = omega (arith, h a)
  keep_loop-balance (t ∷ ts) spent h a =
      let total = spent_by spent t.from in
      elim (Bool-cases (is_kept cfg now bc total t)) [
        | inr dropped ↦ rw dropped (keep_loop-balance ts spent h a)
        | inl kept ↦
            let (_, paid) = is_kept_sound total t kept in
            let rest =
              keep_loop-balance ts (insert t.from (total + t.amount) spent)
                (λ b.
                  ground (
                    arith,
                    eq_iff t.from b,
                    spent_by-insert t.from b (total + t.amount) spent,
                    h b,
                  ))
                a in
            rw kept (
              ground
                (arith, eq_iff t.from a, spent_by-insert t.from a (total + t.amount) spent, rest))
      ]

  -- What the loop keeps has nonces that are not used up.
  pub keep_loop-nonces :
      (ts : List Transaction) (spent : Dict ℕ)
      → All (λ t. get_nonce bc.state t.from ≤ t.nonce) (keep_loop cfg now bc ts spent)
  unfolding keep_loop
  keep_loop-nonces [] spent = tt
  keep_loop-nonces (t ∷ ts) spent =
      let total = spent_by spent t.from in
      elim (Bool-cases (is_kept cfg now bc total t)) [
        | inr dropped ↦ rw dropped (keep_loop-nonces ts spent)
        | inl kept ↦ rw kept (
          (is_kept_sound total t kept).0,
          keep_loop-nonces ts (insert t.from (total + t.amount) spent),
        )
      ]

  -- What holds of all the loop is given holds of all that it keeps.
  keep_loop-All :
      (P : Transaction → Type 0) (ts : List Transaction) (spent : Dict ℕ)
      → All P ts
      → All P (keep_loop cfg now bc ts spent)
  unfolding keep_loop
  keep_loop-All P [] spent h = tt
  keep_loop-All P (t ∷ ts) spent h =
      let total = spent_by spent t.from in
      elim (Bool-cases (is_kept cfg now bc total t)) [
        | inr dropped ↦ rw dropped (keep_loop-All P ts spent h.1)
        | inl kept ↦ rw kept (h.0, keep_loop-All P ts (insert t.from (total + t.amount) spent) h.1)
      ]

  not_among : (t : Transaction) (ks : List Transaction) → All (Differs t) ks → is_among ks t ≡ false
  not_among t [] h = refl
  not_among t (k ∷ ks) h = ground (arith, h.0.hashes, ===_comm t.hash k.hash, not_among t ks h.1)

  among_rest :
      (t : Transaction) (ks ts : List Transaction)
      → All (Differs t) ts
      → All (λ u. is_among (t ∷ ks) u ≡ is_among ks u) ts
  among_rest t ks [] h = tt
  among_rest t ks (u ∷ ts) h = (ground (arith, h.0.hashes), among_rest t ks ts h.1)

  pub keep_loop-cons :
      (t : Transaction) (ts : List Transaction) (spent : Dict ℕ)
      → let total = spent_by spent t.from in
        ((is_kept cfg now bc total t ≡ true)
          × (keep_loop cfg now bc (t ∷ ts) spent
              ≡ t ∷ keep_loop cfg now bc ts (insert t.from (total + t.amount) spent)))
        ⊎ ((is_kept cfg now bc total t ≡ false)
            × (keep_loop cfg now bc (t ∷ ts) spent ≡ keep_loop cfg now bc ts spent))
  unfolding keep_loop
  keep_loop-cons t ts spent = elim (Bool-cases (is_kept cfg now bc (spent_by spent t.from) t)) [
    | inl kept ↦ inl (kept, rw kept)
    | inr dropped ↦ inr (dropped, rw dropped)
  ]

  -- The transactions with a kept hash are those that the loop has kept, if all hashes differ.
  pub keep_loop-filter :
      (ts : List Transaction) (spent : Dict ℕ)
      → AllDiffer ts
      → filter (is_among (keep_loop cfg now bc ts spent)) ts ≡ keep_loop cfg now bc ts spent
  keep_loop-filter [] spent d = keep_loop-nil spent
  keep_loop-filter (t ∷ ts) spent d =
      let P = λ (ks : List Transaction). filter (is_among ks) (t ∷ ts) ≡ ks in
      let spent' = insert t.from (spent_by spent t.from + t.amount) spent in
      elim (keep_loop-cons t ts spent) [
        | inr (_, same) ↦
            let K = keep_loop cfg now bc ts spent in
            let out = not_among t K (keep_loop-All (Differs t) ts spent d.0) in
            subst P (sym same) (rw out (keep_loop-filter ts spent d.1))
        | inl (_, same) ↦
            let K = keep_loop cfg now bc ts spent' in
            let rest : filter (is_among (t ∷ K)) ts ≡ K =
              filter-cong (is_among (t ∷ K)) (is_among K) ts (among_rest t K ts d.0)
              ∙ keep_loop-filter ts spent' d.1 in
            let own = ===_self t.hash in subst P (sym same) (rw own (ap (◌∷◌ t) rest))
      ]
