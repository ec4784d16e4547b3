-- ===== src/Blockchain/Types.antt =====
-- The fields of class `Blockchain` of src/blockchain.ts, its events and its snapshot on disk.
-- What never changes after the constructor is in `Config`.
use proof_of_authority_block.Common.{
  ℕ, ◌-◌, ◌*◌, ◌/◌, Bool, List, [], ◌∷◌, ◌++◌, Option, none, some, if◌then◌else◌,
}
use proof_of_authority_block.Common.Dict.{Dict}
use proof_of_authority_block.Transaction.{Transaction}
use proof_of_authority_block.State.{WorldState, GenesisAllocations}
use proof_of_authority_block.ValidatorSet.{ValidatorSet}
use proof_of_authority_block.Block.{Block}

-- `MempoolOptions`, less its clock: a method takes the time that the clock shows.
pub record MempoolOptions : Type 0 where
  pub max_pool_size : ℕ
  pub max_pending_per_sender : ℕ
  pub max_txs_per_block : ℕ
  pub tx_ttl_ms : ℕ

-- `DEFAULT_MEMPOOL_OPTIONS`
abbrev pub default_mempool_options : MempoolOptions
default_mempool_options = record {
  max_pool_size = 5000;
  max_pending_per_sender = 64;
  max_txs_per_block = 500;
  tx_ttl_ms = 600_000;
}

pub record Config : Type 0 where
  pub validator_set : ValidatorSet
  pub has_data_file : Bool
  pub slot_duration_ms : ℕ
  pub slot_wait_ms : ℕ
  pub genesis_allocations : GenesisAllocations
  pub mempool : MempoolOptions

-- The topics of `emit`.
pub data Event : Type 0 where
  pending_changed blocks_changed : Event

-- What `saveSnapshot` of src/storage.ts writes.
pub record ChainSnapshot : Type 0 where
  pub chain : List Block
  pub pending_transactions : List Transaction

pub record Blockchain : Type 0 where
  pub chain : List Block
  pub pending_transactions : List Transaction
  pub received_at : Dict ℕ
  pub state : WorldState
  pub disk : Option ChainSnapshot
  pub events : List Event

-- `this.chain[this.chain.length - 1]`; `none` is `undefined`, for an empty array.
abbrev pub last : List Block → Option Block
last [] = none
last (b ∷ []) = some b
last (b ∷ b' ∷ bs) = last (b' ∷ bs)

-- `getLatestBlock`
abbrev pub get_latest_block : Blockchain → Option Block
get_latest_block bc = last bc.chain

abbrev pub emit : Event → Blockchain → Blockchain
emit e bc = record bc { events = bc.events ++ (e ∷ []) }

module _ (cfg : Config) where
  -- `persist`: with no data file, nothing.
  unfoldable pub persist : Blockchain → Blockchain
  persist bc =
      if cfg.has_data_file
      then record bc {
        disk = some (record { chain = bc.chain; pending_transactions = bc.pending_transactions });
      }
      else bc

  -- `getSlot`: Math.floor of the quotient.
  unfoldable pub get_slot : ℕ → ℕ
  get_slot timestamp = timestamp / cfg.slot_duration_ms

  -- `getSlotStart`
  unfoldable pub get_slot_start : ℕ → ℕ
  unfolding get_slot
  get_slot_start timestamp = get_slot timestamp * cfg.slot_duration_ms

  -- `getTimeIntoSlot`: a slot starts no later than a moment in it, so nothing is cut off at 0.
  unfoldable pub get_time_into_slot : ℕ → ℕ
  unfolding get_slot_start
  get_time_into_slot timestamp = timestamp - get_slot_start timestamp

  -- `getSlotWaitRemaining`: Math.max(0, wait - into), which is the subtraction on ℕ.
  unfoldable pub get_slot_wait_remaining : ℕ → ℕ
  get_slot_wait_remaining timestamp = cfg.slot_wait_ms - get_time_into_slot timestamp
