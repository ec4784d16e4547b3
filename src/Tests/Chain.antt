-- ===== src/Tests/Chain.antt =====
-- Instances of the theorems on blocks and chains.
use proof_of_authority_block.Common.{◌≡◌, ◌↔◌, refl, some, ok, arith}
use proof_of_authority_block.Common.Sort.{here}
use proof_of_authority_block.Transaction.{create_signed_transaction}
use proof_of_authority_block.State.{new_world_state, get_account}
use proof_of_authority_block.Blockchain.{is_valid_new_block, append_block}
use proof_of_authority_block.Blockchain.Rules.{IsNextBlock, is_valid_new_block_iff}
use proof_of_authority_block.Blockchain.Sync.{IsReplayed, add_block-IsReplayed}
use proof_of_authority_block.Proposer.{proposed, auto_propose}
use proof_of_authority_block.Proposer.Accepted.{Accepted}
use proof_of_authority_block.Proposer.Liveness.{auto_propose_live}
use proof_of_authority_block.Tests.World.{
  toy_crypto, validator_keys, config, signed_payment, genesis, waiting_node, block_one, paid_node,
}
use proof_of_authority_block.Tests.Facts.{
  key_pair-IsKeyPair, payment_verified, validator_may, block_one_added, genesis-IsReplayed,
}

add_block-IsReplayed_example : IsReplayed toy_crypto config 12 paid_node.chain paid_node.state
add_block-IsReplayed_example =
    add_block-IsReplayed toy_crypto config 0 12 0 waiting_node paid_node (some block_one) (ok tt)
      (omega arith) genesis-IsReplayed block_one_added

is_valid_new_block_iff_example :
    (is_valid_new_block toy_crypto config 12 block_one genesis ≡ ok tt)
    ↔ IsNextBlock toy_crypto config 12 block_one genesis
is_valid_new_block_iff_example = is_valid_new_block_iff toy_crypto config 12 block_one genesis

-- The proposal of the block, by the timer.
auto_propose_live_example :
    (a : Accepted toy_crypto config validator_keys 12 12 0 waiting_node genesis) × (auto_propose
        toy_crypto config validator_keys 12 12 0 waiting_node
      ≡ some (append_block toy_crypto config 0 waiting_node a.block a.after, proposed a.block))
unfolding get_account new_world_state create_signed_transaction
auto_propose_live_example =
    auto_propose_live toy_crypto config validator_keys 12 12 0 waiting_node genesis signed_payment
      (key_pair-IsKeyPair "v") (omega arith) (payment_verified, tt) refl validator_may (omega arith)
      (here refl) refl (omega arith)
