-- ===== src/Blockchain/Selection.antt =====
-- What `selectTransactionsForBlock` of src/blockchain.ts picks for a block.
use mathlib.Core.Path.{subst}
use proof_of_authority_block.Common.{
  ℕ, ◌≤◌, ◌<◌, ◌≡◌, refl, ◌⊎◌, inl, inr, false, List, [], ◌∷◌, ◌++◌, arith, length, leb,
  length-append, if◌then◌else◌, Bool-cases, All, All-append, ok, err, ◌>>=◌, sym,
}
use proof_of_authority_block.Common.Sort.{sort, All-sort, Elem, here, there, Elem-sort}
use proof_of_authority_block.Transaction.{Transaction}
use proof_of_authority_block.State.{
  WorldState, StateError, apply_each, apply_all, get_nonce, get_balance, transfer,
}
use proof_of_authority_block.State.Apply.{apply_all_atomic, apply_each-append, apply_one_iff}
use proof_of_authority_block.Blockchain.Types.{Blockchain, Config}
use proof_of_authority_block.Blockchain.Mempool.{
  tx_le, is_ok, select_loop, select_transactions_for_block,
}

-- One round of the loop: the transaction goes through and is selected, or nothing changes.
round_cases :
    (sim : WorldState) (tx : Transaction)
    → ((t : WorldState) × (apply_each sim (tx ∷ []) ≡ ok t)
        × (apply_all sim (tx ∷ []) ≡ (t, ok tt)))
      ⊎ ((e : StateError) × (apply_each sim (tx ∷ []) ≡ err e)
          × (apply_all sim (tx ∷ []) ≡ (sim, err e)))
round_cases sim tx = apply_all_atomic sim (tx ∷ [])

-- What is selected, applied in order to the state, goes through.
select_loop_applies :
    (limit : ℕ) (s sim : WorldState) (txs selected : List Transaction)
    → apply_each s selected ≡ ok sim
    → (t : WorldState) × (apply_each s (select_loop limit sim txs selected) ≡ ok t)
unfolding select_loop
select_loop_applies limit s sim [] selected h = (sim, h)
select_loop_applies limit s sim (tx ∷ rest) selected h =
    elim (Bool-cases (leb limit (length selected))) [
      | inl full ↦ (sim, rw full h)
      | inr free ↦ elim (round_cases sim tx) [
        | inl (t, each, all) ↦
            let h' : apply_each s (selected ++ (tx ∷ [])) ≡ ok t =
              rw (apply_each-append s selected (tx ∷ []), h, ◌>>=◌) each in
            rw (free, all) (select_loop_applies limit s t rest (selected ++ (tx ∷ [])) h')
        | inr (e, each, all) ↦ rw (free, all) (select_loop_applies limit s sim rest selected h)
      ]
    ]

-- The selection only grows, so one that is not empty stays so.
select_loop_keeps :
    (limit : ℕ) (sim : WorldState) (txs selected : List Transaction)
    → length selected ≤ length (select_loop limit sim txs selected)
unfolding select_loop
select_loop_keeps limit sim [] selected = omega arith
select_loop_keeps limit sim (tx ∷ rest) selected =
    let (sim', result) = apply_all sim (tx ∷ []) in
    let next = if is_ok result then selected ++ (tx ∷ []) else selected in
    ground (arith, select_loop_keeps limit sim' rest next, length-append selected (tx ∷ []))

-- It stops at the limit.
select_loop_bounded :
    (limit : ℕ) (sim : WorldState) (txs selected : List Transaction)
    → length selected ≤ limit
    → length (select_loop limit sim txs selected) ≤ limit
unfolding select_loop
select_loop_bounded limit sim [] selected h = h
select_loop_bounded limit sim (tx ∷ rest) selected h =
    let (sim', result) = apply_all sim (tx ∷ []) in
    let next = if is_ok result then selected ++ (tx ∷ []) else selected in
    ground (arith, select_loop_bounded limit sim' rest next, length-append selected (tx ∷ []))

-- What holds of every transaction offered holds of every one selected.
select_loop_All :
    (P : Transaction → Type 0) (limit : ℕ) (sim : WorldState) (txs selected : List Transaction)
    → All P txs
    → All P selected
    → All P (select_loop limit sim txs selected)
unfolding select_loop
select_loop_All P limit sim [] selected h k = k
select_loop_All P limit sim (tx ∷ rest) selected h k =
    elim (Bool-cases (leb limit (length selected))) [
      | inl full ↦ rw full k
      | inr free ↦ elim (round_cases sim tx) [
        | inl (t, each, all) ↦
            rw (free, all)
              (select_loop_All P limit t rest (selected ++ (tx ∷ [])) h.1
                (All-append P selected (tx ∷ []) k (h.0, tt)))
        | inr (e, each, all) ↦ rw (free, all) (select_loop_All P limit sim rest selected h.1 k)
      ]
    ]

applies_alone :
    (sim : WorldState) (tx : Transaction)
    → tx.nonce ≡ get_nonce sim tx.from
    → tx.amount ≤ get_balance sim tx.from
    → apply_each sim (tx ∷ []) ≡ ok (transfer sim tx)
unfolding apply_each
applies_alone sim tx n b = rw ((apply_one_iff sim (transfer sim tx) tx).1 (n, b, refl), ◌>>=◌)

-- An empty selection passes over a first transaction that cannot go through, and takes one that can.
select_loop_head :
    (limit : ℕ) (sim : WorldState) (y : Transaction) (ys : List Transaction)
    → 0 < limit
    → (0 < length (select_loop limit sim (y ∷ ys) []))
      ⊎ ((e : StateError) × (apply_each sim (y ∷ []) ≡ err e)
          × (select_loop limit sim (y ∷ ys) [] ≡ select_loop limit sim ys []))
unfolding select_loop
select_loop_head limit sim y ys pos =
    let free : leb limit 0 ≡ false = ground arith in
    elim (round_cases sim y) [
      | inl (t, each, all) ↦ inl (rw (free, all) (select_loop_keeps limit t ys (y ∷ [])))
      | inr (e, each, all) ↦ inr (e, each, rw (free, all))
    ]

-- If some transaction that is offered could go first, something is selected.
select_loop_nonempty :
    (limit : ℕ) (sim : WorldState) (tx : Transaction) (txs : List Transaction)
    → 0 < limit
    → Elem tx txs
    → tx.nonce ≡ get_nonce sim tx.from
    → tx.amount ≤ get_balance sim tx.from
    → 0 < length (select_loop limit sim txs [])
select_loop_nonempty limit sim tx [] pos m n b = elim m [ ]
select_loop_nonempty limit sim tx (y ∷ ys) pos (here same) n b =
    elim (select_loop_head limit sim y ys pos) [
      | inl some_selected ↦ some_selected
      | inr (e, each, skip) ↦
          let each' : apply_each sim (tx ∷ []) ≡ err e =
            subst (λ (z : Transaction). apply_each sim (z ∷ []) ≡ err e) (sym same) each in
          absurd (ground (arith, applies_alone sim tx n b))
    ]
select_loop_nonempty limit sim tx (y ∷ ys) pos (there m) n b =
    elim (select_loop_head limit sim y ys pos) [
      | inl some_selected ↦ some_selected
      | inr (e, each, skip) ↦ rw skip (select_loop_nonempty limit sim tx ys pos m n b)
    ]

-- The transactions that `selectTransactionsForBlock` picks can be applied in order to the current
-- state, there are at most `maxTxsPerBlock` of them, and any property that all pending transactions
-- have holds of each of them.
pub select_transactions_for_block_lem :
    (cfg : Config) (bc : Blockchain) (P : Transaction → Type 0)
    → All P bc.pending_transactions
    → let txs = select_transactions_for_block cfg bc in
      ((s : WorldState) × (apply_each bc.state txs ≡ ok s))
      × (length txs ≤ cfg.mempool.max_txs_per_block)
      × All P txs
unfolding select_transactions_for_block apply_each
select_transactions_for_block_lem cfg bc P h =
    let offered = sort tx_le bc.pending_transactions in
    let limit = cfg.mempool.max_txs_per_block in
    (
      select_loop_applies limit bc.state bc.state offered [] refl,
      select_loop_bounded limit bc.state offered [] (omega arith),
      select_loop_All P limit bc.state offered [] (All-sort tx_le P bc.pending_transactions h) tt,
    )

-- If blocks may hold a transaction and some pending transaction carries its sender's confirmed
-- nonce and the sender can pay, `selectTransactionsForBlock` picks at least one.
pub select_transactions_for_block_nonempty :
    (cfg : Config) (bc : Blockchain) (tx : Transaction)
    → 0 < cfg.mempool.max_txs_per_block
    → Elem tx bc.pending_transactions
    → tx.nonce ≡ get_nonce bc.state tx.from
    → tx.amount ≤ get_balance bc.state tx.from
    → 0 < length (select_transactions_for_block cfg bc)
unfolding select_transactions_for_block
select_transactions_for_block_nonempty cfg bc tx pos m n b =
    select_loop_nonempty cfg.mempool.max_txs_per_block bc.state tx
      (sort tx_le bc.pending_transactions) pos (Elem-sort tx_le tx bc.pending_transactions m) n b
