-- ===== src/Blockchain/Mempool.antt =====
-- The mempool of class `Blockchain` in src/blockchain.ts. `now` is what `this.mempool.now()` shows.
use proof_of_authority_block.Common.{
  ℕ, zero, suc, ◌+◌, ◌-◌, Bool, true, false, not, List, [], ◌∷◌, ◌++◌, map, Option, none, some,
  String, ◌&&◌, ◌||◌, ltb, leb, ◌==◌, ◌===◌, if◌then◌else◌, length, any, filter, Result, ok, err,
  ◌>>=◌, ◌>>◌, check,
}
use proof_of_authority_block.Common.Int.{leb_ℤ}
use proof_of_authority_block.Common.Dict.{Dict, lookup, insert}
use proof_of_authority_block.Common.Sort.{sort}
use proof_of_authority_block.Json.{Value, get, object_fields, as_string}
use proof_of_authority_block.Crypto.{NodeCrypto}
use proof_of_authority_block.Transaction.{Transaction, TxError, verify_transaction}
use proof_of_authority_block.State.{WorldState, get_balance, get_nonce, apply_all}
use proof_of_authority_block.Blockchain.Types.{Blockchain, Config, pending_changed, emit, persist}

-- The reasons of `addTransaction`.
pub data PoolError : Type 0 where
  mempool_full duplicate_transaction nonce_used nonce_taken too_many_pending : PoolError
  nonce_too_far insufficient_funds : PoolError
  invalid_transaction : TxError → PoolError

-- `a.nonce - b.nonce || a.timestamp - b.timestamp`: not after.
abbrev pub tx_le : Transaction → Transaction → Bool
tx_le a b = ltb a.nonce b.nonce || a.nonce == b.nonce && leb_ℤ a.timestamp b.timestamp

abbrev pub is_from : String → Transaction → Bool
is_from address t = t.from === address

-- `tx?.hash === t.hash`, on a value whose shape is not known yet.
unfoldable pub has_hash : Value → Transaction → Bool
has_hash v t = elim (object_fields v) [
  | none ↦ false
  | some fs ↦ elim (as_string (get "hash" fs)) [ none ↦ false | some h ↦ t.hash === h ]
]

-- `mine.reduce((sum, t) => sum + t.amount, 0)`, from the left.
unfoldable pub sum_from : ℕ → List Transaction → ℕ
sum_from sum [] = sum
sum_from sum (t ∷ ts) = sum_from (sum + t.amount) ts

-- The result of `verifyTransaction`, as a reason of the pool.
abbrev pub as_pool_error : Result TxError Transaction → Result PoolError Transaction
as_pool_error (ok tx) = ok tx
as_pool_error (err e) = err (invalid_transaction e)

-- The loop of `getNextNonce`, on fuel.
unfoldable pub next_nonce_from : ℕ → String → List Transaction → ℕ → Option ℕ
next_nonce_from zero address pending next = none
next_nonce_from (suc fuel) address pending next =
    let rest = next_nonce_from fuel address pending (next + 1) in
    if any (λ t. is_from address t && t.nonce == next) pending then rest else some next

-- `getNextNonce`. Each round passes one pending transaction at least, so their number is enough.
unfoldable pub get_next_nonce : Blockchain → String → Option ℕ
get_next_nonce bc address =
    next_nonce_from (suc (length bc.pending_transactions)) address bc.pending_transactions
      (get_nonce bc.state address)

module _ (cfg : Config) where
  -- The checks of `addTransaction` that follow the verification of `tx`.
  unfoldable pub admit : Blockchain → Transaction → Result PoolError (Unit {0})
  admit bc tx = do
    let confirmed_nonce = get_nonce bc.state tx.from
    check (not (ltb tx.nonce confirmed_nonce)) nonce_used
    let mine = filter (is_from tx.from) bc.pending_transactions
    check (not (any (λ t. t.nonce == tx.nonce) mine)) nonce_taken
    check (ltb (length mine) cfg.mempool.max_pending_per_sender) too_many_pending
    check (ltb tx.nonce (confirmed_nonce + cfg.mempool.max_pending_per_sender)) nonce_too_far
    let pending_total = sum_from 0 mine
    check (not (ltb (get_balance bc.state tx.from) (pending_total + tx.amount))) insufficient_funds

  -- All checks of `addTransaction`, in order, with the transaction that passes.
  unfoldable pub check_transaction : NodeCrypto → Blockchain → Value → Result PoolError Transaction
  check_transaction c bc v = do
    check (ltb (length bc.pending_transactions) cfg.mempool.max_pool_size) mempool_full
    check (not (any (has_hash v) bc.pending_transactions)) duplicate_transaction
    tx ← as_pool_error (verify_transaction c v)
    admit bc tx
    ok tx

  -- The writes of `addTransaction`.
  unfoldable pub enqueue : ℕ → Blockchain → Transaction → Blockchain
  enqueue now bc tx = emit pending_changed (
      persist cfg (record bc {
        pending_transactions = bc.pending_transactions ++ (tx ∷ []);
        received_at = insert tx.hash now bc.received_at;
      }))

  -- `addTransaction`: `ok` is `{ added: true }`.
  unfoldable pub add_transaction :
      NodeCrypto → ℕ → Blockchain → Value → Blockchain × Result PoolError (Unit {0})
  add_transaction c now bc v = elim (check_transaction c bc v) [
    | ok tx ↦ (enqueue now bc tx, ok tt)
    | err e ↦ (bc, err e)
  ]

abbrev pub is_ok {ℓ κ} : {E : Type ℓ} {A : Type κ} → Result E A → Bool
is_ok (ok _) = true
is_ok (err _) = false

-- The loop of `selectTransactionsForBlock`, with at most `limit` selected.
unfoldable pub select_loop : ℕ → WorldState → List Transaction → List Transaction → List Transaction
select_loop limit sim [] selected = selected
select_loop limit sim (tx ∷ rest) selected =
    let (sim', result) = apply_all sim (tx ∷ []) in
    let later =
      select_loop limit sim' rest (if is_ok result then selected ++ (tx ∷ []) else selected) in
    if leb limit (length selected) then selected else later

-- `selectTransactionsForBlock`
unfoldable pub select_transactions_for_block : Config → Blockchain → List Transaction
select_transactions_for_block cfg bc =
    select_loop cfg.mempool.max_txs_per_block bc.state (sort tx_le bc.pending_transactions) []

abbrev pub get_or_else {ℓ} : {A : Type ℓ} → Option A → A → A
get_or_else none d = d
get_or_else (some a) d = a

module _ (cfg : Config) (now : ℕ) (bc : Blockchain) where
  -- The test of the loop of `pruneMempool` on `t`, where `spent` is what its sender's kept
  -- transactions add up to.
  unfoldable pub is_kept : ℕ → Transaction → Bool
  is_kept spent t =
      not (ltb t.nonce (get_nonce bc.state t.from))
      && not (ltb cfg.mempool.tx_ttl_ms (now - get_or_else (lookup t.hash bc.received_at) now))
      && not (ltb (get_balance bc.state t.from) (spent + t.amount))

  -- The loop of `pruneMempool`.
  unfoldable pub keep_loop : List Transaction → Dict ℕ → List Transaction
  keep_loop [] spent = []
  keep_loop (t ∷ ts) spent =
      let total = get_or_else (lookup t.from spent) 0 in
      let kept = t ∷ keep_loop ts (insert t.from (total + t.amount) spent) in
      let dropped = keep_loop ts spent in if is_kept total t then kept else dropped

  unfoldable pub kept_hashes : List String
  kept_hashes = map (λ t. t.hash) (keep_loop (sort tx_le bc.pending_transactions) [])

  unfoldable pub is_survivor : String → Bool
  is_survivor h = any (λ k. k === h) kept_hashes

  -- `pruneMempool`
  unfoldable pub prune_mempool : Blockchain
  prune_mempool = record bc {
    received_at = filter (λ e. is_survivor e.0) bc.received_at;
    pending_transactions = filter (λ t. is_survivor t.hash) bc.pending_transactions;
  }

-- `sweepMempool`, with the number of transactions that it removed.
unfoldable pub sweep_mempool : Config → ℕ → Blockchain → Blockchain × ℕ
sweep_mempool cfg now bc =
    let pruned = prune_mempool cfg now bc in
    let removed = length bc.pending_transactions - length pruned.pending_transactions in
    (if ltb 0 removed then emit pending_changed (persist cfg pruned) else pruned, removed)

-- The loop of `restorePending`: the transactions that are kept, and their arrival times.
unfoldable pub restore_loop :
    NodeCrypto → ℕ → List Value → List Transaction → Dict ℕ → List Transaction × Dict ℕ
restore_loop c now [] kept received = (kept, received)
restore_loop c now (v ∷ raw) kept received = elim (verify_transaction c v) [
  | err e ↦ restore_loop c now raw kept received
  | ok tx ↦
      let seen = any (λ k. k.hash === tx.hash) kept in
      restore_loop c now raw (if seen then kept else kept ++ (tx ∷ []))
        (if seen then received else insert tx.hash now received)
]

-- `restorePending`
unfoldable pub restore_pending : NodeCrypto → Config → ℕ → Blockchain → List Value → Blockchain
restore_pending c cfg now bc raw =
    let (kept, received) = restore_loop c now raw [] bc.received_at in
    prune_mempool cfg now (record bc { pending_transactions = kept; received_at = received })
