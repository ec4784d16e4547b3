-- ===== src/Blockchain/Startup.antt =====
-- The constructor of class `Blockchain` (src/blockchain.ts) and the reading of the snapshot file
-- (src/storage.ts).
use proof_of_authority_block.Common.{
  ℕ, List, [], ◌∷◌, map, Option, none, some, leb, if◌then◌else◌, ok, err,
}
use proof_of_authority_block.Json.{Value}
use proof_of_authority_block.Crypto.{NodeCrypto}
use proof_of_authority_block.State.{new_world_state}
use proof_of_authority_block.Block.{RawBlock}
use proof_of_authority_block.Blockchain.Types.{Blockchain, Config, ChainSnapshot}
use proof_of_authority_block.Blockchain.Mempool.{restore_pending}
use proof_of_authority_block.Blockchain.Consensus.{create_genesis, validate_chain}

-- The parsed file, where `none` stands for a member that is no array.
pub record RawSnapshot : Type 0 where
  pub chain : Option (List RawBlock)
  pub pending_transactions : Option (List Value)

abbrev pub or_empty : Option (List Value) → List Value
or_empty none = []
or_empty (some vs) = vs

-- `loadSnapshot`; `none` as its argument is a file that is missing or cannot be read or parsed.
unfoldable pub load_snapshot : Option RawSnapshot → Option (List RawBlock × List Value)
load_snapshot none = none
load_snapshot (some raw) = elim (raw.chain) [
  | none ↦ none
  | some [] ↦ none
  | some (b ∷ bs) ↦ some (b ∷ bs, or_empty raw.pending_transactions)
]

-- What `saveSnapshot` has written, as it is parsed again.
abbrev pub reload : ChainSnapshot → RawSnapshot
reload s = record {
  chain = some (map some s.chain);
  pending_transactions = some (map (λ t. t.object) s.pending_transactions);
}

module _ (c : NodeCrypto) (cfg : Config) where
  -- A node that starts at genesis.
  unfoldable pub start_at_genesis : Blockchain
  start_at_genesis = record {
    chain = create_genesis c cfg ∷ [];
    pending_transactions = [];
    received_at = [];
    state = new_world_state cfg.genesis_allocations;
    disk = none;
    events = [];
  }

  -- The part of the constructor that follows the reading of the file.
  unfoldable pub start_from : ℕ → ℕ → Option (List RawBlock × List Value) → Blockchain
  start_from date now none = start_at_genesis
  start_from date now (some (raw_chain, raw_pending)) =
      elim (validate_chain c cfg date (some raw_chain)) [
        | err e ↦ start_at_genesis
        | ok (blocks, s) ↦
            restore_pending c cfg now (record start_at_genesis { chain = blocks; state = s })
              raw_pending
      ]

  -- The constructor: `none` is the error for a slot wait that fills the slot.
  unfoldable pub new_blockchain : ℕ → ℕ → Option RawSnapshot → Option Blockchain
  new_blockchain date now file =
      if leb cfg.slot_duration_ms cfg.slot_wait_ms
      then none
      else some (start_from date now (if cfg.has_data_file then load_snapshot file else none))
