-- ===== src/Blockchain/Consensus.antt =====
-- Validation of blocks and chains in class `Blockchain` of src/blockchain.ts. `date` is what
-- `Date.now()` shows, read once for each call; `now` is the mempool's clock.
use proof_of_authority_block.Common.{
  ℕ, ◌+◌, Bool, true, false, not, List, [], ◌∷◌, ◌++◌, Option, none, some, String, ◌&&◌, ltb, leb,
  ◌==◌, ◌===◌, if◌then◌else◌, length, Result, ok, err, ◌>>=◌, ◌>>◌, check, require,
}
use proof_of_authority_block.Common.Int.{pos}
use proof_of_authority_block.Json.{arr, Items, nil, cons}
use proof_of_authority_block.Crypto.{NodeCrypto}
use proof_of_authority_block.Transaction.{Transaction, TxError, verify_transaction}
use proof_of_authority_block.State.{WorldState, StateError, apply_all, new_world_state}
use proof_of_authority_block.ValidatorSet.{get_validator_for_slot, get_all}
use proof_of_authority_block.Block.{
  Block, RawBlock, create_genesis_block, is_hash_valid, is_signature_valid, from_plain,
}
use proof_of_authority_block.Blockchain.Types.{
  Blockchain, Config, blocks_changed, get_latest_block, emit, persist, get_slot, get_time_into_slot,
}
use proof_of_authority_block.Blockchain.Mempool.{prune_mempool}

-- The reasons of `isValidNewBlock`, `applyBlockTransactions`, `addBlock`, `validateChain` and
-- `replaceChain`.
pub data BlockError : Type 0 where
  bad_index wrong_previous_hash bad_hash bad_signature slot_used too_early : BlockError
  too_far_in_future wrong_validator not_an_array already_have : BlockError
  bad_transaction : TxError → BlockError
  bad_state : StateError → BlockError

pub data ChainError : Type 0 where
  empty_chain malformed_block different_genesis not_longer : ChainError
  at_block : ℕ → BlockError → ChainError

-- MAX_FUTURE_DRIFT_MS
abbrev pub max_future_drift_ms : ℕ
max_future_drift_ms = 2000

-- `block.validatorPublicKey === expectedValidator`, where the latter may be undefined.
abbrev pub is_validator : Option String → String → Bool
is_validator none key = false
is_validator (some expected) key = key === expected

abbrev pub as_bad_transaction : Result TxError Transaction → Result BlockError Transaction
as_bad_transaction (ok tx) = ok tx
as_bad_transaction (err e) = err (bad_transaction e)

-- The outcome of `applyAll` on the state that it was called on.
abbrev pub as_block_result :
    WorldState × Result StateError (Unit {0}) → WorldState × Result BlockError (Unit {0})
as_block_result (s, ok u) = (s, ok u)
as_block_result (s, err e) = (s, err (bad_state e))

module _ (c : NodeCrypto) where
  -- The first loop of `applyBlockTransactions`.
  unfoldable pub verify_each : Items → Result BlockError (List Transaction)
  verify_each nil = ok []
  verify_each (cons v vs) = do
    tx ← as_bad_transaction (verify_transaction c v)
    txs ← verify_each vs
    ok (tx ∷ txs)

  -- `Array.isArray(block.transactions)` and the first loop.
  unfoldable pub block_transactions : Block → Result BlockError (List Transaction)
  block_transactions block = elim (block.transactions) [
    | arr vs ↦ verify_each vs
    | _ ↦ err not_an_array
  ]

  -- `applyBlockTransactions`, which writes to the state that it is given.
  unfoldable pub apply_block_transactions :
      Block → WorldState → WorldState × Result BlockError (Unit {0})
  apply_block_transactions block s = elim (block_transactions block) [
    | err e ↦ (s, err e)
    | ok txs ↦ as_block_result (apply_all s txs)
  ]

-- `rawChain.map((b) => Block.fromPlain(b))` inside its `try`.
unfoldable pub from_plain_each : List RawBlock → Option (List Block)
from_plain_each [] = some []
from_plain_each (raw ∷ rest) = elim (from_plain raw) [
  | none ↦ none
  | some b ↦ elim (from_plain_each rest) [ none ↦ none | some bs ↦ some (b ∷ bs) ]
]

module _ (c : NodeCrypto) (cfg : Config) where
  -- `createGenesis`
  unfoldable pub create_genesis : Block
  create_genesis = create_genesis_block c cfg.genesis_allocations (get_all cfg.validator_set)

  -- `isValidNewBlock`: `ok` is `{ valid: true }`.
  unfoldable pub is_valid_new_block : ℕ → Block → Block → Result BlockError (Unit {0})
  is_valid_new_block date block previous = do
    check (block.index == previous.index + 1) bad_index
    check (block.previous_hash === previous.hash) wrong_previous_hash
    check (is_hash_valid c block) bad_hash
    check (is_signature_valid c block) bad_signature
    let block_slot = get_slot cfg block.timestamp
    check (not (leb block_slot (get_slot cfg previous.timestamp))) slot_used
    check (not (ltb (get_time_into_slot cfg block.timestamp) cfg.slot_wait_ms)) too_early
    check (not (ltb (date + max_future_drift_ms) block.timestamp)) too_far_in_future
    let expected = get_validator_for_slot cfg.validator_set (pos block_slot)
    check (is_validator expected block.validator_public_key) wrong_validator

  -- The writes of `addBlock`, once the block's transactions have been applied.
  unfoldable pub append_block : ℕ → Blockchain → Block → WorldState → Blockchain
  append_block now bc block s =
      let extended = record bc { chain = bc.chain ++ (block ∷ []); state = s } in
      emit blocks_changed (persist cfg (prune_mempool cfg now extended))

  -- The part of `addBlock` that follows the test on the index.
  unfoldable pub extend_chain :
      ℕ → ℕ → Blockchain → Block → Block → Blockchain × Result BlockError (Unit {0})
  extend_chain date now bc block latest = elim (is_valid_new_block date block latest) [
    | err e ↦ (bc, err e)
    | ok _ ↦
        let (s, result) = apply_block_transactions c block bc.state in
        elim result [
          | err e ↦ (record bc { state = s }, err e)
          | ok _ ↦ (append_block now bc block s, ok tt)
        ]
  ]

  -- `addBlock`. `none` is the TypeError for a block, or a latest block, that has no fields.
  unfoldable pub add_block :
      ℕ → ℕ → Blockchain → RawBlock → Option (Blockchain × Result BlockError (Unit {0}))
  add_block date now bc raw = elim (from_plain raw) [
    | none ↦ none
    | some block ↦ elim (get_latest_block bc) [
      | none ↦ none
      | some latest ↦ some (
          if leb block.index latest.index
          then (bc, err already_have)
          else extend_chain date now bc block latest)
    ]
  ]

  -- The body of the loop of `validateChain`, for the block at position `i`.
  unfoldable pub replay_one : ℕ → ℕ → Block → Block → WorldState → Result ChainError WorldState
  replay_one date i previous block s = elim (is_valid_new_block date block previous) [
    | err e ↦ err (at_block i e)
    | ok _ ↦
        let (s', result) = apply_block_transactions c block s in
        elim result [ err e ↦ err (at_block i e) | ok _ ↦ ok s' ]
  ]

  -- The loop of `validateChain` from the block at position `i` on, after `previous`.
  unfoldable pub replay : ℕ → ℕ → Block → List Block → WorldState → Result ChainError WorldState
  replay date i previous [] s = ok s
  replay date i previous (block ∷ rest) s = do
    s' ← replay_one date i previous block s
    replay date (i + 1) block rest s'

  -- The part of `validateChain` that follows the construction of the blocks.
  unfoldable pub validate_blocks : ℕ → List Block → Result ChainError (List Block × WorldState)
  validate_blocks date [] = err empty_chain
  validate_blocks date (first ∷ rest) = do
    check (first.index == 0 && first.hash === create_genesis.hash) different_genesis
    s ← replay date 1 first rest (new_world_state cfg.genesis_allocations)
    ok (first ∷ rest, s)

  -- `validateChain`; `none` stands for a value that is no array.
  unfoldable pub validate_chain :
      ℕ → Option (List RawBlock) → Result ChainError (List Block × WorldState)
  validate_chain date none = err empty_chain
  validate_chain date (some []) = err empty_chain
  validate_chain date (some (raw ∷ rest)) = do
    blocks ← require (from_plain_each (raw ∷ rest)) malformed_block
    validate_blocks date blocks

  -- `isChainValid`
  unfoldable pub is_chain_valid : ℕ → Option (List RawBlock) → Bool
  is_chain_valid date raw = elim (validate_chain date raw) [ ok _ ↦ true | err _ ↦ false ]

  -- The writes of `replaceChain`, once the chain has been validated.
  unfoldable pub adopt_chain : ℕ → Blockchain → List Block → WorldState → Blockchain
  adopt_chain now bc blocks s =
      let adopted = record bc { chain = blocks; state = s } in
      emit blocks_changed (persist cfg (prune_mempool cfg now adopted))

  -- `replaceChain`: `ok` is `{ replaced: true }`.
  unfoldable pub replace_chain :
      ℕ → ℕ → Blockchain → Option (List RawBlock) → Blockchain × Result ChainError (Unit {0})
  replace_chain date now bc none = (bc, err not_longer)
  replace_chain date now bc (some raw) =
      if leb (length raw) (length bc.chain)
      then (bc, err not_longer)
      else elim (validate_chain date (some raw)) [
        | err e ↦ (bc, err e)
        | ok (blocks, s) ↦ (adopt_chain now bc blocks s, ok tt)
      ]
