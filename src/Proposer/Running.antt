-- ===== src/Proposer/Running.antt =====
-- The proposal timer of src/node.ts on a node that runs.
use proof_of_authority_block.Common.{ℕ, ◌≤◌, ◌≡◌, ◌⊎◌, some}
use proof_of_authority_block.Crypto.{NodeCrypto, KeyPair, IsKeyPair}
use proof_of_authority_block.Block.{Block}
use proof_of_authority_block.Blockchain.{Blockchain, Config, get_latest_block, append_block}
use proof_of_authority_block.Blockchain.Sync.{IsReplayed-last}
use proof_of_authority_block.Blockchain.Reach.{Reachable, Reachable-IsSound}
use proof_of_authority_block.Proposer.{Idle, idle, proposed, auto_propose}
use proof_of_authority_block.Proposer.Accepted.{Accepted, auto_propose_never_rejected}

-- With a key pair whose signatures verify and a clock that does not go back, a tick of the timer
-- leaves a node that has come to be by a start, by transactions, blocks and chains, by sweeps and
-- by restarts, as it is and is idle, or it appends a block that the rules allow and reports it as
-- proposed: such a node never rejects a block that it has just built.
pub running_node_never_rejects :
    (c : NodeCrypto) (cfg : Config) (keys : KeyPair) (date date' now : ℕ) (bc : Blockchain)
    → IsKeyPair c keys
    → date ≤ date'
    → Reachable c cfg date bc
    → (latest : Block) × (get_latest_block bc ≡ some latest)
      × (((why : Idle) × (auto_propose c cfg keys date date' now bc ≡ some (bc, idle why)))
          ⊎ ((a : Accepted c cfg keys date date' now bc latest) × (auto_propose c cfg keys date
                  date' now bc
                ≡ some (append_block c cfg now bc a.block a.after, proposed a.block))))
running_node_never_rejects c cfg keys date date' now bc pair le reached =
    let sound = Reachable-IsSound c cfg date bc reached in
    let (latest, e) = IsReplayed-last c cfg date bc.chain bc.state sound.replayed in
    (
      latest,
      e,
      auto_propose_never_rejected c cfg keys date date' now bc latest pair le sound.pool.verified e,
    )
