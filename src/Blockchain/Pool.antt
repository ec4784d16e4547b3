-- ===== src/Blockchain/Pool.antt =====
-- The invariant of the mempool of src/blockchain.ts and the checks of `addTransaction`.
use proof_of_authority_block.Common.{
  ℕ, ◌+◌, ◌≤◌, ◌<◌, ◌≡◌, inl, inr, true, false, String, List, [], ◌∷◌, ◌++◌, arith, length, any,
  filter, All, All-append, ◌===◌, ◌==◌, Result-cases, ok, ap, ◌∙◌, ◌↔◌,
}
use proof_of_authority_block.Json.{Value}
use proof_of_authority_block.Crypto.{NodeCrypto}
use proof_of_authority_block.Transaction.{Transaction, verify_transaction}
use proof_of_authority_block.Transaction.Verify.{verify_transaction_of_read}
use proof_of_authority_block.Transaction.Shape.{read_transaction_sound}
use proof_of_authority_block.State.{get_balance, get_nonce}
use proof_of_authority_block.Blockchain.Types.{Blockchain, Config}
use proof_of_authority_block.Blockchain.Mempool.{
  is_from, has_hash, sum_from, admit, check_transaction,
}

-- What the transactions of a list add up to.
abbrev pub amounts : List Transaction → ℕ
amounts [] = 0
amounts (t ∷ ts) = t.amount + amounts ts

pub sum_from-amounts : (n : ℕ) (ts : List Transaction) → sum_from n ts ≡ n + amounts ts
unfolding sum_from
sum_from-amounts n [] = omega arith
sum_from-amounts n (t ∷ ts) = omega (arith, sum_from-amounts (n + t.amount) ts)

pub amounts-append : (xs ys : List Transaction) → amounts (xs ++ ys) ≡ amounts xs + amounts ys
amounts-append [] ys = omega arith
amounts-append (x ∷ xs) ys = omega (arith, amounts-append xs ys)

-- Two pending transactions differ in their hash, and in their nonce if they have one sender.
pub record Differs (t u : Transaction) : Type 0 where
  pub hashes : (t.hash === u.hash) ≡ false
  pub nonces : (t.from === u.from) ≡ true → (t.nonce == u.nonce) ≡ false

abbrev pub AllDiffer : List Transaction → Type 0
AllDiffer [] = Unit
AllDiffer (t ∷ ts) = All (Differs t) ts × AllDiffer ts

pub AllDiffer-snoc :
    (ts : List Transaction) (u : Transaction)
    → AllDiffer ts
    → All (λ t. Differs t u) ts
    → AllDiffer (ts ++ (u ∷ []))
AllDiffer-snoc [] u h k = (tt, tt)
AllDiffer-snoc (t ∷ ts) u h k =
    (All-append (Differs t) ts (u ∷ []) h.0 (k.0, tt), AllDiffer-snoc ts u h.1 k.1)

pub record IsPool (c : NodeCrypto) (cfg : Config) (bc : Blockchain) : Type 0 where
  pub verified : All (λ t. verify_transaction c t.object ≡ ok t) bc.pending_transactions
  pub bounded : length bc.pending_transactions ≤ cfg.mempool.max_pool_size
  pub distinct : AllDiffer bc.pending_transactions
  pub fair :
      (a : String)
      → length (filter (is_from a) bc.pending_transactions) ≤ cfg.mempool.max_pending_per_sender
  pub affordable :
      (a : String) → amounts (filter (is_from a) bc.pending_transactions) ≤ get_balance bc.state a

-- An object that verifies is read back from itself.
pub verified_object :
    (c : NodeCrypto) (v : Value) (tx : Transaction)
    → verify_transaction c v ≡ ok tx
    → (tx.object ≡ v) × (verify_transaction c tx.object ≡ ok tx)
verified_object c v tx h =
    let (read, _) = (verify_transaction_of_read c v tx).0 h in
    let (_, same) = read_transaction_sound v read in (same, ap (verify_transaction c) same ∙ h)

-- What a transaction must meet to be accepted.
pub record IsAdmissible (cfg : Config) (bc : Blockchain) (tx : Transaction) : Type 0 where
  pub fresh : get_nonce bc.state tx.from ≤ tx.nonce
  pub untaken :
      any (λ t. t.nonce == tx.nonce) (filter (is_from tx.from) bc.pending_transactions) ≡ false
  pub room :
      length (filter (is_from tx.from) bc.pending_transactions) < cfg.mempool.max_pending_per_sender
  pub near : tx.nonce < get_nonce bc.state tx.from + cfg.mempool.max_pending_per_sender
  pub covered :
      amounts (filter (is_from tx.from) bc.pending_transactions) + tx.amount
      ≤ get_balance bc.state tx.from

pub admit_sound :
    (cfg : Config) (bc : Blockchain) (tx : Transaction)
    → admit cfg bc tx ≡ ok tt
    → IsAdmissible cfg bc tx
unfolding admit
admit_sound cfg bc tx h =
    ground (arith, sum_from-amounts 0 (filter (is_from tx.from) bc.pending_transactions))

pub admit_complete :
    (cfg : Config) (bc : Blockchain) (tx : Transaction)
    → IsAdmissible cfg bc tx
    → admit cfg bc tx ≡ ok tt
unfolding admit
admit_complete cfg bc tx h =
    ground (arith, sum_from-amounts 0 (filter (is_from tx.from) bc.pending_transactions))

-- A value passes the checks of `addTransaction` exactly if the pool has room, no pending
-- transaction has its hash, it verifies, and the transaction that it holds has a nonce that is not
-- used, not taken and within the window, from a sender with room in the pool who can pay for it and
-- for all its pending transactions.
pub check_transaction_iff :
    (cfg : Config) (c : NodeCrypto) (bc : Blockchain) (v : Value) (tx : Transaction)
    → (check_transaction cfg c bc v ≡ ok tx) ↔ (
        (length bc.pending_transactions < cfg.mempool.max_pool_size)
        × (any (has_hash v) bc.pending_transactions ≡ false)
        × (verify_transaction c v ≡ ok tx)
        × IsAdmissible cfg bc tx)
unfolding check_transaction
check_transaction_iff cfg c bc v tx = elim (Result-cases (verify_transaction c v)) [
  | inr (e, bad) ↦ ground arith
  | inl (t, good) ↦ elim (Result-cases (admit cfg bc t)) [
    | inr (e, bad) ↦ (
      λ h. absurd (ground arith),
      λ (_, _, same, adm). absurd (ground (arith, admit_complete cfg bc tx adm)),
    )
    | inl (_, good') ↦ ground (arith, admit_sound cfg bc t)
  ]
]
