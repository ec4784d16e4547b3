-- ===== src/Blockchain/Prune.antt =====
-- `pruneMempool` of src/blockchain.ts: what the pool holds afterwards.
pub mod Sorted
pub mod Kept
use mathlib.Core.Path.{subst}
use proof_of_authority_block.Common.{
  ℕ, ◌+◌, ◌≤◌, ◌≡◌, refl, sym, ap, ◌∙◌, ◌⊎◌, inl, inr, true, false, Bool, String, List, [], ◌∷◌,
  map, arith, eq_iff, length, any, filter, filter-cong, filter-filter, All, All-filter,
  All-of-filter, All-to-filter, filter-and, length-filter-le, ◌===◌, ◌&&◌, if◌then◌else◌,
  Bool-cases, ===_comm, ===_self, ok,
}
use proof_of_authority_block.Common.Dict.{Dict, lookup, insert, lookup-insert}
use proof_of_authority_block.Common.Sort.{
  insert_sorted, sort, All-insert_sorted, All-sort, All-of-sort,
}
use proof_of_authority_block.Crypto.{NodeCrypto}
use proof_of_authority_block.Transaction.{Transaction, verify_transaction}
use proof_of_authority_block.State.{get_balance, get_nonce}
use proof_of_authority_block.Blockchain.Types.{Blockchain, Config}
use proof_of_authority_block.Blockchain.Mempool.{
  tx_le, is_from, get_or_else, is_kept, keep_loop, kept_hashes, is_survivor, prune_mempool,
}
use proof_of_authority_block.Blockchain.Pool.{amounts, Differs, AllDiffer, IsPool}
use proof_of_authority_block.Blockchain.Prune.Sorted.{
  is_among, AllDiffer-sort, AllDiffer-filter, amounts-filter-sort,
}
use proof_of_authority_block.Blockchain.Prune.Kept.{
  keep_loop-balance, keep_loop-nonces, keep_loop-filter,
}

-- What does not depend on the accounts: the facts on a pool that a new state leaves alone.
pub record IsQueue (c : NodeCrypto) (cfg : Config) (ts : List Transaction) : Type 0 where
  pub verified : All (λ t. verify_transaction c t.object ≡ ok t) ts
  pub bounded : length ts ≤ cfg.mempool.max_pool_size
  pub distinct : AllDiffer ts
  pub fair : (a : String) → length (filter (is_from a) ts) ≤ cfg.mempool.max_pending_per_sender

-- No pending transaction has a nonce that is used up.
abbrev pub IsFresh : Blockchain → Type 0
IsFresh bc = All (λ t. get_nonce bc.state t.from ≤ t.nonce) bc.pending_transactions

pub IsQueue-filter :
    (c : NodeCrypto) (cfg : Config) (p : Transaction → Bool) (ts : List Transaction)
    → IsQueue c cfg ts
    → IsQueue c cfg (filter p ts)
IsQueue-filter c cfg p ts q = record {
  verified = All-filter (λ t. verify_transaction c t.object ≡ ok t) p ts q.verified;
  bounded = omega (arith, q.bounded, length-filter-le p ts);
  distinct = AllDiffer-filter p ts q.distinct;
  fair = λ a. omega (
    arith,
    q.fair a,
    ap length (filter-filter (is_from a) p ts),
    length-filter-le p (filter (is_from a) ts),
  );
}

module _ (cfg : Config) (now : ℕ) (bc : Blockchain) where
  -- What the loop keeps of the pool.
  abbrev pub kept : List Transaction
  kept = keep_loop cfg now bc (sort tx_le bc.pending_transactions) []

  pub prune_mempool_fields :
      ((prune_mempool cfg now bc).pending_transactions
        ≡ filter (is_among kept) bc.pending_transactions)
      × ((prune_mempool cfg now bc).state ≡ bc.state)
      × ((prune_mempool cfg now bc).chain ≡ bc.chain)
  unfolding prune_mempool is_survivor kept_hashes
  prune_mempool_fields = (refl, refl, refl)

  module _ (d : AllDiffer bc.pending_transactions) where
    kept-filter : filter (is_among kept) (sort tx_le bc.pending_transactions) ≡ kept
    kept-filter =
        keep_loop-filter cfg now bc (sort tx_le bc.pending_transactions) []
          (AllDiffer-sort bc.pending_transactions d)

    survivors-balance :
        (a : String)
        → amounts (filter (is_from a) (filter (is_among kept) bc.pending_transactions))
          ≤ get_balance bc.state a
    survivors-balance a =
        let ts = bc.pending_transactions in
        let p : Transaction → Bool = λ t. is_among kept t && is_from a t in
        let moved : amounts (filter (is_from a) (filter (is_among kept) ts))
            ≡ amounts (filter (is_from a) kept) =
          ap amounts (filter-and (is_from a) (is_among kept) ts)
          ∙ sym (amounts-filter-sort p ts)
          ∙ sym (ap amounts (filter-and (is_from a) (is_among kept) (sort tx_le ts)))
          ∙ ap (λ ks. amounts (filter (is_from a) ks)) kept-filter in
        omega (arith, moved, keep_loop-balance cfg now bc (sort tx_le ts) [] (λ b. omega arith) a)

    survivors-nonces :
        All
          (λ t. get_nonce bc.state t.from ≤ t.nonce)
          (filter (is_among kept) bc.pending_transactions)
    survivors-nonces =
        let P = λ (t : Transaction). get_nonce bc.state t.from ≤ t.nonce in
        let ts = bc.pending_transactions in
        All-to-filter P (is_among kept) ts (
          All-of-sort tx_le (λ t. is_among kept t ≡ true → P t) ts
            (All-of-filter P (is_among kept) (sort tx_le ts)
              (subst (All P) (sym kept-filter) (keep_loop-nonces cfg now bc (sort tx_le ts) []))))

-- Whatever the accounts have become, `pruneMempool` leaves a pool that they can pay for and whose
-- nonces are not used up, if the pool was in order apart from that.
pub prune_mempool-IsPool :
    (c : NodeCrypto) (cfg : Config) (now : ℕ) (bc : Blockchain)
    → IsQueue c cfg bc.pending_transactions
    → IsPool c cfg (prune_mempool cfg now bc) × IsFresh (prune_mempool cfg now bc)
prune_mempool-IsPool c cfg now bc q =
    let (pending, state, _) = prune_mempool_fields cfg now bc in
    let q' = IsQueue-filter c cfg (is_among (kept cfg now bc)) bc.pending_transactions q in
    (
      record {
        verified = rw pending q'.verified;
        bounded = rw pending q'.bounded;
        distinct = rw pending q'.distinct;
        fair = λ a. rw pending (q'.fair a);
        affordable = λ a. rw (pending, state) (survivors-balance cfg now bc q.distinct a);
      },
      rw (pending, state) (survivors-nonces cfg now bc q.distinct),
    )

pub IsPool-IsQueue :
    (c : NodeCrypto) (cfg : Config) (bc : Blockchain)
    → IsPool c cfg bc
    → IsQueue c cfg bc.pending_transactions
IsPool-IsQueue c cfg bc p = record {
  verified = p.verified;
  bounded = p.bounded;
  distinct = p.distinct;
  fair = p.fair;
}
