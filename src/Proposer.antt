-- ===== src/Proposer.antt =====
-- How a validator proposes blocks: the timer of src/node.ts and the `propose` method of src/api.ts.
-- `date` is what `Date.now()` shows at the start, `date'` what it shows when the block is added.
pub mod Accepted
pub mod Liveness
pub mod Running
use proof_of_authority_block.Common.{
  ℕ, ◌+◌, Bool, true, false, not, List, [], ◌∷◌, map, Option, none, some, String, ltb, leb, ◌===◌,
  if◌then◌else◌, Result, ok, err, ◌>>=◌, ◌>>◌, check, require,
}
use proof_of_authority_block.Common.Int.{pos}
use proof_of_authority_block.Json.{Value, arr}
use proof_of_authority_block.Crypto.{NodeCrypto, KeyPair}
use proof_of_authority_block.Transaction.{Transaction}
use proof_of_authority_block.ValidatorSet.{get_validator_for_slot}
use proof_of_authority_block.Block.{Block, propose_block, items}
use proof_of_authority_block.Blockchain.{
  Blockchain, Config, BlockError, get_latest_block, get_slot, get_slot_wait_remaining, is_validator,
  select_transactions_for_block, add_block,
}

-- Why a tick of the timer does nothing.
pub data Idle : Type 0 where
  nothing_pending still_waiting slot_already_used not_my_slot nothing_valid : Idle

-- `proposed` is a block that was added and is broadcast, `rejected` one that was refused locally.
pub data TickResult : Type 0 where
  idle : Idle → TickResult
  proposed : Block → TickResult
  rejected : BlockError → TickResult

-- The errors of the `propose` method, each with its code.
pub data ProposeError : Type 0 where
  no_keys must_wait slot_used_already not_this_node nothing_to_include : ProposeError
  block_rejected : BlockError → ProposeError

abbrev pub error_code : ProposeError → ℕ
error_code ProposeError.no_keys = 400
error_code ProposeError.must_wait = 429
error_code ProposeError.slot_used_already = 409
error_code ProposeError.not_this_node = 409
error_code ProposeError.nothing_to_include = 400
error_code (ProposeError.block_rejected e) = 500

abbrev pub is_empty {ℓ} : {A : Type ℓ} → List A → Bool
is_empty [] = true
is_empty (x ∷ xs) = false

module _ (c : NodeCrypto) (cfg : Config) where
  -- `Block.proposeBlock` on the literal that both callers write.
  unfoldable pub next_block : KeyPair → ℕ → Block → List Transaction → Block
  next_block keys date latest txs =
      propose_block c
        (record {
          index = latest.index + 1;
          timestamp = date;
          transactions = arr (items (map (λ t. t.object) txs));
          previous_hash = latest.hash;
          validator_public_key = keys.public_key;
        })
        keys.private_key

  -- The tests of the timer, in order, with the transactions to propose.
  unfoldable pub check_tick : KeyPair → ℕ → Blockchain → Block → Result Idle (List Transaction)
  check_tick keys date bc latest = do
    let current_slot = get_slot cfg date
    check (not (is_empty bc.pending_transactions)) nothing_pending
    check (not (ltb 0 (get_slot_wait_remaining cfg date))) still_waiting
    check (not (leb current_slot (get_slot cfg latest.timestamp))) slot_already_used
    let owner = get_validator_for_slot cfg.validator_set (pos current_slot)
    check (is_validator owner keys.public_key) not_my_slot
    let txs = select_transactions_for_block cfg bc
    check (not (is_empty txs)) nothing_valid
    ok txs

  abbrev pub tick_result :
      Block → Blockchain × Result BlockError (Unit {0}) → Blockchain × TickResult
  tick_result block (bc, ok _) = (bc, proposed block)
  tick_result block (bc, err e) = (bc, rejected e)

  -- The callback of the timer; `none` is a TypeError. The latest block is read first, since the
  -- chain of a node has at least its genesis block.
  unfoldable pub auto_propose : KeyPair → ℕ → ℕ → ℕ → Blockchain → Option (Blockchain × TickResult)
  auto_propose keys date date' now bc = elim (get_latest_block bc) [
    | none ↦ none
    | some latest ↦ elim (check_tick keys date bc latest) [
      | err why ↦ some (bc, idle why)
      | ok txs ↦
          let block = next_block keys date latest txs in
          elim (add_block c cfg date' now bc (some block)) [
            | none ↦ none
            | some outcome ↦ some (tick_result block outcome)
          ]
    ]
  ]

  -- The tests of the `propose` method, in order.
  unfoldable pub check_propose :
      Option KeyPair → ℕ → Blockchain → Block → Result ProposeError (KeyPair × List Transaction)
  check_propose my_keys date bc latest = do
    keys ← require my_keys no_keys
    check (not (ltb 0 (get_slot_wait_remaining cfg date))) must_wait
    let current_slot = get_slot cfg date
    check (not (leb current_slot (get_slot cfg latest.timestamp))) slot_used_already
    let owner = get_validator_for_slot cfg.validator_set (pos current_slot)
    check (is_validator owner keys.public_key) not_this_node
    let txs = select_transactions_for_block cfg bc
    check (not (is_empty txs)) nothing_to_include
    ok (keys, txs)

  abbrev pub propose_result :
      Block → Blockchain × Result BlockError (Unit {0}) → Blockchain × Result ProposeError Block
  propose_result block (bc, ok _) = (bc, ok block)
  propose_result block (bc, err e) = (bc, err (block_rejected e))

  -- The `propose` method; `ok` is the block that is returned and broadcast, and the latest block is
  -- read first here too.
  unfoldable pub propose :
      Option KeyPair → ℕ → ℕ → ℕ → Blockchain → Option (Blockchain × Result ProposeError Block)
  propose my_keys date date' now bc = elim (get_latest_block bc) [
    | none ↦ none
    | some latest ↦ elim (check_propose my_keys date bc latest) [
      | err why ↦ some (bc, err why)
      | ok (keys, txs) ↦
          let block = next_block keys date latest txs in
          elim (add_block c cfg date' now bc (some block)) [
            | none ↦ none
            | some outcome ↦ some (propose_result block outcome)
          ]
    ]
  ]
