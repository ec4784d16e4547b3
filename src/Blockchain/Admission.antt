-- ===== src/Blockchain/Admission.antt =====
-- `addTransaction` of src/blockchain.ts and the invariant of the pool.
use proof_of_authority_block.Common.{
  ℕ, ◌+◌, ◌≡◌, ◌⊎◌, inl, inr, false, String, List, [], ◌∷◌, ◌++◌, arith, eq_iff, length, any,
  filter, All, All-append, length-append, filter-append, ◌===◌, ◌==◌, if◌then◌else◌, Result-cases,
  ok, err, Option-cases,
}
use proof_of_authority_block.Common.Dict.{insert}
use proof_of_authority_block.Json.{Value, object_fields}
use proof_of_authority_block.Crypto.{NodeCrypto}
use proof_of_authority_block.Transaction.{Transaction, verify_transaction, read_transaction}
use proof_of_authority_block.Transaction.Verify.{verify_transaction_of_read}
use proof_of_authority_block.Blockchain.Types.{Blockchain, Config, persist}
use proof_of_authority_block.Blockchain.Mempool.{
  PoolError, is_from, has_hash, check_transaction, enqueue, add_transaction,
}
use proof_of_authority_block.Blockchain.Pool.{
  amounts, amounts-append, Differs, AllDiffer-snoc, IsPool, verified_object, check_transaction_iff,
}

has_hash-read :
    (v : Value) (tx t : Transaction)
    → read_transaction v ≡ ok tx
    → has_hash v t ≡ (t.hash === tx.hash)
unfolding has_hash read_transaction
has_hash-read v tx t h = elim (Option-cases (object_fields v)) [
  | inl missing ↦ absurd (ground arith)
  | inr (fs, e) ↦ ground arith
]

fresh :
    (v : Value) (tx : Transaction) (ts : List Transaction)
    → read_transaction v ≡ ok tx
    → any (has_hash v) ts ≡ false
    → any (λ t. t.nonce == tx.nonce) (filter (is_from tx.from) ts) ≡ false
    → All (λ t. Differs t tx) ts
fresh v tx [] r h n = tt
fresh v tx (t ∷ ts) r h n = (
  record { hashes = ground (arith, has_hash-read v tx t r); nonces = λ e. ground arith },
  fresh v tx ts r (ground arith) (ground arith),
)

pub enqueue_fields :
    (cfg : Config) (now : ℕ) (bc : Blockchain) (tx : Transaction)
    → ((enqueue cfg now bc tx).pending_transactions ≡ bc.pending_transactions ++ (tx ∷ []))
      × ((enqueue cfg now bc tx).state ≡ bc.state)
      × ((enqueue cfg now bc tx).received_at ≡ insert tx.hash now bc.received_at)
      × ((enqueue cfg now bc tx).chain ≡ bc.chain)
unfolding enqueue persist
enqueue_fields cfg now bc tx = ground arith

-- The transactions of one sender in the pool, after one more was appended.
module _ (tx : Transaction) (ts : List Transaction) (a : String) where
  length-filter-snoc :
      length (filter (is_from a) (ts ++ (tx ∷ [])))
      ≡ length (filter (is_from a) ts) + (if tx.from === a then 1 else 0)
  length-filter-snoc =
      rw
        (
          filter-append (is_from a) ts (tx ∷ []),
          length-append (filter (is_from a) ts) (filter (is_from a) (tx ∷ [])),
        )
        (ground arith)

  amounts-filter-snoc :
      amounts (filter (is_from a) (ts ++ (tx ∷ [])))
      ≡ amounts (filter (is_from a) ts) + (if tx.from === a then tx.amount else 0)
  amounts-filter-snoc =
      rw
        (
          filter-append (is_from a) ts (tx ∷ []),
          amounts-append (filter (is_from a) ts) (filter (is_from a) (tx ∷ [])),
        )
        (ground arith)

-- `addTransaction` refuses and changes nothing, or appends the verified transaction to the pool.
pub add_transaction_cases :
    (cfg : Config) (c : NodeCrypto) (now : ℕ) (bc : Blockchain) (v : Value)
    → ((tx : Transaction) × (check_transaction cfg c bc v ≡ ok tx)
        × (add_transaction cfg c now bc v ≡ (enqueue cfg now bc tx, ok tt)))
      ⊎ ((e : PoolError) × (check_transaction cfg c bc v ≡ err e)
          × (add_transaction cfg c now bc v ≡ (bc, err e)))
unfolding add_transaction
add_transaction_cases cfg c now bc v = elim (Result-cases (check_transaction cfg c bc v)) [
  | inl (tx, good) ↦ inl (tx, good, ground arith)
  | inr (e, bad) ↦ inr (e, bad, ground arith)
]

-- If a pool holds verified transactions only, no more than its limit in all and for each sender, no
-- two with one hash or with one sender and nonce, and no more from a sender than its balance, then
-- so does the pool after `addTransaction`, whatever value arrives.
pub add_transaction-IsPool :
    (cfg : Config) (c : NodeCrypto) (now : ℕ) (bc : Blockchain) (v : Value)
    → IsPool c cfg bc
    → IsPool c cfg (add_transaction cfg c now bc v).0
add_transaction-IsPool cfg c now bc v p = elim (add_transaction_cases cfg c now bc v) [
  | inr (e, bad, same) ↦ rw same p
  | inl (tx, good, same) ↦
      let (room, unknown, real, adm) = (check_transaction_iff cfg c bc v tx).0 good in
      let (read, _) = (verify_transaction_of_read c v tx).0 real in
      let (_, verified) = verified_object c v tx real in
      let ts = bc.pending_transactions in
      let bc' = enqueue cfg now bc tx in
      let (pending, state, _, _) = enqueue_fields cfg now bc tx in
      rw same (record {
        verified = rw pending (
            All-append (λ t. verify_transaction c t.object ≡ ok t) ts (tx ∷ []) p.verified
              (verified, tt));
        bounded = rw pending (omega (arith, length-append ts (tx ∷ [])));
        distinct =
            rw pending (AllDiffer-snoc ts tx p.distinct (fresh v tx ts read unknown adm.untaken));
        fair = λ a.
            rw pending
              (ground (arith, length-filter-snoc tx ts a, eq_iff tx.from a, adm.room, p.fair a));
        affordable = λ a.
            rw (pending, state)
              (ground (
                arith,
                amounts-filter-snoc tx ts a,
                eq_iff tx.from a,
                adm.covered,
                p.affordable a,
              ));
      })
]
