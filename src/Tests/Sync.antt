-- ===== src/Tests/Sync.antt =====
-- Instances of the theorems on chains that are received or restored.
use proof_of_authority_block.Common.{
  ◌<◌, ◌≡◌, ◌⊎◌, refl, List, [], ◌∷◌, map, some, ok, err, arith, length, All,
}
use proof_of_authority_block.Json.{str}
use proof_of_authority_block.Block.{Block, RawBlock}
use proof_of_authority_block.Blockchain.{
  ChainSnapshot, ChainError, reload, replace_chain, new_blockchain, start_from, load_snapshot,
  start_at_genesis, validate_chain,
}
use proof_of_authority_block.Blockchain.History.{AreLinked, IsOwned, validate_chain-owners}
use proof_of_authority_block.Blockchain.Sync.{IsReplayed}
use proof_of_authority_block.Blockchain.Adopt.{
  from_plain_each-map-some, validate_chain_iff, replace_chain_cases, replace_chain_adopts,
}
use proof_of_authority_block.Blockchain.Genesis.{replace_chain_forged_genesis}
use proof_of_authority_block.Blockchain.Restart.{new_blockchain-IsReplayed}
use proof_of_authority_block.Tests.World.{toy_crypto, config, paid, genesis, fresh_node, block_one}
use proof_of_authority_block.Tests.Facts.{two_blocks-IsReplayed}

-- The chain of two blocks, as a peer sends it.
abbrev received : List RawBlock
received = some genesis ∷ some block_one ∷ []

-- The genesis block with other transactions.
abbrev forged : Block
forged = record genesis { contents = record genesis.contents { transactions = str "anything" } }

abbrev saved : ChainSnapshot
saved = record { chain = genesis ∷ block_one ∷ []; pending_transactions = [] }

received_valid :
    validate_chain toy_crypto config 12 (some received) ≡ ok (genesis ∷ block_one ∷ [], paid)
received_valid =
    (validate_chain_iff toy_crypto config 12 received (genesis ∷ block_one ∷ []) paid).1
      (from_plain_each-map-some (genesis ∷ block_one ∷ []), two_blocks-IsReplayed)

validate_chain-owners_example :
    AreLinked genesis (block_one ∷ []) × All (IsOwned toy_crypto config) (block_one ∷ [])
validate_chain-owners_example =
    validate_chain-owners toy_crypto config 12 received genesis (block_one ∷ []) paid received_valid

replace_chain_cases_example :
    let r = replace_chain toy_crypto config 12 0 fresh_node (some received) in
    ((r.1 ≡ ok tt)
      × (length fresh_node.chain < length r.0.chain)
      × IsReplayed toy_crypto config 12 r.0.chain r.0.state)
    ⊎ ((e : ChainError) × (r.1 ≡ err e) × (r.0 ≡ fresh_node))
replace_chain_cases_example = replace_chain_cases toy_crypto config 12 0 fresh_node (some received)

replace_chain_adopts_example :
    let r =
      replace_chain toy_crypto config 20 0 fresh_node
        (some (map some (genesis ∷ block_one ∷ []))) in
    (r.1 ≡ ok tt) × (r.0.chain ≡ genesis ∷ block_one ∷ []) × (r.0.state ≡ paid)
unfolding start_at_genesis
replace_chain_adopts_example =
    replace_chain_adopts toy_crypto config 12 20 0 fresh_node (genesis ∷ block_one ∷ []) paid
      (omega arith) two_blocks-IsReplayed (omega arith)

replace_chain_forged_genesis_example :
    let r =
      replace_chain toy_crypto config 12 0 fresh_node (some (map some (forged ∷ block_one ∷ []))) in
    (r.1 ≡ ok tt) × (r.0.chain ≡ forged ∷ block_one ∷ []) × (r.0.state ≡ paid)
unfolding start_at_genesis
replace_chain_forged_genesis_example =
    replace_chain_forged_genesis toy_crypto config 12 0 fresh_node genesis forged (block_one ∷ [])
      paid two_blocks-IsReplayed (omega arith) refl refl refl

new_blockchain-IsReplayed_example :
    IsReplayed toy_crypto config 12
      (start_from toy_crypto config 12 0 (load_snapshot (some (reload saved)))).chain
      (start_from toy_crypto config 12 0 (load_snapshot (some (reload saved)))).state
unfolding new_blockchain
new_blockchain-IsReplayed_example =
    new_blockchain-IsReplayed toy_crypto config 12 0 (some (reload saved))
      (start_from toy_crypto config 12 0 (load_snapshot (some (reload saved)))) refl
