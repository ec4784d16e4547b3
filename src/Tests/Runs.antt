-- ===== src/Tests/Runs.antt =====
-- Instances of the theorems on a node that runs: a first start, a block at time 12, a restart from
-- the file, and a payment that is offered after that.
use proof_of_authority_block.Common.{◌≡◌, ◌⊎◌, refl, [], ◌∷◌, some, ok, arith}
use proof_of_authority_block.Block.{Block}
use proof_of_authority_block.Blockchain.{
  Blockchain, ChainSnapshot, add_block, add_transaction, append_block, get_latest_block, persist,
  prune_mempool, reload, new_blockchain, start_from, load_snapshot, start_at_genesis,
}
use proof_of_authority_block.Blockchain.Sync.{add_block_accepts}
use proof_of_authority_block.Blockchain.Sound.{IsSound}
use proof_of_authority_block.Blockchain.Reach.{
  Reachable, started, restarted, later, block_added, transaction_added, Reachable-IsSound,
  restart_keeps_all,
}
use proof_of_authority_block.Blockchain.History.{AreNumbered, SlotsRise, Reachable-history}
use proof_of_authority_block.Proposer.{Idle, idle, proposed, auto_propose}
use proof_of_authority_block.Proposer.Accepted.{Accepted}
use proof_of_authority_block.Proposer.Running.{running_node_never_rejects}
use proof_of_authority_block.Tests.World.{
  toy_crypto, validator_keys, config, signed_payment, paid, genesis, fresh_node, block_one,
}
use proof_of_authority_block.Tests.Facts.{key_pair-IsKeyPair, block_one-Extends}

abbrev saved : ChainSnapshot
saved = record { chain = genesis ∷ block_one ∷ []; pending_transactions = [] }

abbrev pub grown : Blockchain
grown = append_block toy_crypto config 0 fresh_node block_one paid

abbrev awake : Blockchain
awake = start_from toy_crypto config 12 0 (load_snapshot (some (reload saved)))

abbrev running : Blockchain
running =
    (add_transaction config toy_crypto 0 (record awake { disk = some saved })
      signed_payment.object).0

pub fresh_node-Reachable : Reachable toy_crypto config 0 fresh_node
unfolding new_blockchain start_from load_snapshot
fresh_node-Reachable = started 0 refl

pub block_added_to_fresh :
    add_block toy_crypto config 12 0 fresh_node (some block_one) ≡ some (grown, ok tt)
unfolding start_at_genesis
block_added_to_fresh =
    add_block_accepts toy_crypto config 12 0 fresh_node genesis block_one paid refl
      block_one-Extends

grown-Reachable : Reachable toy_crypto config 12 grown
grown-Reachable =
    block_added 0 (some block_one) (later fresh_node-Reachable (omega arith)) block_added_to_fresh

grown_saved : grown.disk ≡ some saved
unfolding append_block persist prune_mempool start_at_genesis
grown_saved = refl

awake_started : new_blockchain toy_crypto config 12 0 (some (reload saved)) ≡ some awake
unfolding new_blockchain
awake_started = refl

running-Reachable : Reachable toy_crypto config 12 running
running-Reachable =
    transaction_added 0 signed_payment.object
      (restarted 0 grown-Reachable grown_saved awake_started)

Reachable-IsSound_example : IsSound toy_crypto config 12 running
Reachable-IsSound_example = Reachable-IsSound toy_crypto config 12 running running-Reachable

Reachable-history_example : AreNumbered 0 running.chain × SlotsRise config running.chain
Reachable-history_example = Reachable-history toy_crypto config 12 running running-Reachable

restart_keeps_all_example :
    (awake.chain ≡ grown.chain)
    × (awake.state ≡ grown.state)
    × (awake.pending_transactions ≡ grown.pending_transactions)
unfolding persist append_block prune_mempool start_at_genesis
restart_keeps_all_example =
    restart_keeps_all toy_crypto config 12 12 0 grown awake saved grown-Reachable (omega arith) refl
      refl awake_started

running_node_never_rejects_example :
    (latest : Block) × (get_latest_block running ≡ some latest)
    × (((why : Idle) × (auto_propose toy_crypto config validator_keys 12 22 0 running
            ≡ some (running, idle why)))
        ⊎ ((a : Accepted toy_crypto config validator_keys 12 22 0 running latest) × (auto_propose
                toy_crypto config validator_keys 12 22 0 running
              ≡ some (append_block toy_crypto config 0 running a.block a.after, proposed a.block))))
running_node_never_rejects_example =
    running_node_never_rejects toy_crypto config validator_keys 12 22 0 running
      (key_pair-IsKeyPair "v") (omega arith) running-Reachable
