-- ===== src/Tests/Network.antt =====
-- Instances of the theorems on the messages between nodes.
use proof_of_authority_block.Common.{
  ℕ, ◌≡◌, ◌≢◌, ◌===◌, eq_iff, not, refl, ◌⊎◌, String, Bool, true, false, [], ◌∷◌, map, none, some,
  ok, arith,
}
use proof_of_authority_block.Blockchain.{Blockchain, start_at_genesis}
use proof_of_authority_block.PeerTable.{UrlParser, PeerTable}
use proof_of_authority_block.P2p.Twins.{should_replace_agrees}
use proof_of_authority_block.P2p.{
  should_replace, lt_string, on_peer_message, ValidHello, read_hello, own_hello, is_compatible,
  Hello, natural, handle_hello, Socket, Node, chain_request, chain_response, new_block, send,
  opened, handle_message, after_add_block,
}
use proof_of_authority_block.P2p.Gossip.{
  handle_message_once, handle_message_sync, handle_message-add_block,
}
use proof_of_authority_block.P2p.Compatible.{
  IsPartner, handle_hello_compatible, own_hello_compatible,
}
use proof_of_authority_block.Tests.World.{
  toy_crypto, config, genesis, paid, fresh_node, waiting_node, block_one, paid_node,
}
use proof_of_authority_block.Blockchain.Reach.{Reachable}
use proof_of_authority_block.Blockchain.Sound.{IsSound}
use proof_of_authority_block.P2p.Runs.{on_peer_message-Reachable}
use proof_of_authority_block.Tests.Runs.{grown, block_added_to_fresh, fresh_node-Reachable}
use proof_of_authority_block.Tests.Facts.{
  block_one_added, genesis-IsReplayed, two_blocks-IsReplayed,
}

abbrev no_parser : UrlParser
no_parser = λ text. none

abbrev any_address : String → Bool
any_address = λ address. true

abbrev no_peers : PeerTable
no_peers = record {
  entries = [];
  bootnodes = [];
  blocked = [];
  has_file = false;
  max_failures = 10;
  max_size = 200;
  disk = none;
}

abbrev pub connection : ℕ → Socket
connection id = record {
  id = id;
  ready_state = opened;
  dial_address = none;
  remote_ip = none;
  remote_node_id = some "other";
  announced_address = none;
  handshaken = true;
  expected_close = false;
}

-- A node with two connections and this chain.
abbrev pub node_with : Blockchain → Node
node_with bc = record {
  node_id = "self";
  p2p_port = 3000;
  blockchain = bc;
  peer_table = no_peers;
  sockets = connection 0 ∷ connection 1 ∷ [];
  dialing = [];
  next_attempt = [];
  terminated = [];
  outbox = [];
}

abbrev two_block_node : Blockchain
two_block_node = record fresh_node { chain = genesis ∷ block_one ∷ []; state = paid }

handle_message_once_example :
    handle_message no_parser any_address toy_crypto config 30 30
      (connection 1)
      (new_block (some block_one))
      (node_with paid_node)
    ≡ some (node_with paid_node)
handle_message_once_example =
    handle_message_once no_parser any_address toy_crypto config 12 0 waiting_node block_one
      (node_with paid_node) block_one_added 30 30 (connection 1)

-- The block arrives at the node at genesis, from its first connection.
received :
    handle_message no_parser any_address toy_crypto config 12 0
      (connection 0)
      (new_block (some block_one))
      (node_with fresh_node)
    ≡ some (after_add_block (connection 0) (new_block (some block_one)) (node_with grown) (ok tt))
received =
    handle_message-add_block no_parser any_address toy_crypto config 12 0 (connection 0)
      (some block_one) (node_with fresh_node) grown (ok tt) block_added_to_fresh

on_peer_message-Reachable_example :
    let after =
      after_add_block (connection 0) (new_block (some block_one)) (node_with grown) (ok tt) in
    Reachable toy_crypto config 12 after.blockchain × IsSound toy_crypto config 12 after.blockchain
unfolding on_peer_message
on_peer_message-Reachable_example =
    on_peer_message-Reachable no_parser any_address toy_crypto config 0 12 0 (connection 0)
      (some (new_block (some block_one))) (node_with fresh_node)
      (after_add_block (connection 0) (new_block (some block_one)) (node_with grown) (ok tt))
      (omega arith) fresh_node-Reachable received

handle_message_sync_example :
    let answer = chain_response (some (map some (genesis ∷ block_one ∷ []))) in
    (handle_message no_parser any_address toy_crypto config 12 0
        (connection 0)
        chain_request
        (node_with two_block_node)
      ≡ some (send (connection 0) answer (node_with two_block_node)))
    × ((node' : Node) × (handle_message no_parser any_address toy_crypto config 12 0
            (connection 1)
            answer
            (node_with fresh_node)
          ≡ some node')
        × (node'.blockchain.chain ≡ genesis ∷ block_one ∷ [])
        × (node'.blockchain.state ≡ paid))
unfolding start_at_genesis
handle_message_sync_example =
    handle_message_sync no_parser any_address toy_crypto config 12 12 0 (connection 0)
      (connection 1) (node_with two_block_node) (node_with fresh_node) (omega arith)
      two_blocks-IsReplayed (omega arith)

abbrev newcomer : Socket
newcomer = record (connection 2) { handshaken = false; remote_node_id = none }

abbrev greeting : Hello
greeting = record {
  node_id = some "other";
  p2p_port = some 3001;
  genesis_hash = some "elsewhere";
  slot_duration_ms = natural 10;
  slot_wait_ms = natural 2;
}

handle_hello_compatible_example :
    ((handle_hello no_parser any_address 12 config newcomer greeting (node_with fresh_node)).outbox
      ≡ (node_with fresh_node).outbox)
    ⊎ IsPartner config (node_with fresh_node) newcomer greeting
handle_hello_compatible_example =
    handle_hello_compatible no_parser any_address 12 config newcomer greeting (node_with fresh_node)

own_hello_compatible_example :
    (h : ValidHello) × (read_hello (own_hello config (node_with waiting_node)) ≡ some h)
    × (is_compatible config two_block_node h ≡ true)
own_hello_compatible_example =
    own_hello_compatible toy_crypto config 0 12 (node_with waiting_node) (node_with two_block_node)
      refl refl genesis-IsReplayed two_blocks-IsReplayed

-- The two ends of two connections between the nodes "a" and "b".
abbrev dialed_to : String → Socket
dialed_to remote = record (connection 0) {
  dial_address = some "ws://peer:3000";
  remote_node_id = some remote;
}

abbrev accepted_from : String → Socket
accepted_from remote = record (connection 1) { remote_node_id = some remote }

abbrev first_id : String
first_id = "a"

abbrev second_id : String
second_id = "b"

apart : first_id ≢ second_id
apart e =
    let h : (first_id === second_id) ≡ true = (eq_iff first_id second_id).1 e in
    absurd (ground (arith, h))

should_replace_agrees_example :
    (should_replace "a" (dialed_to "b") (accepted_from "b")
      ≡ should_replace "b" (accepted_from "a") (dialed_to "a"))
    × (should_replace "a" (accepted_from "b") (dialed_to "b")
        ≡ should_replace "b" (dialed_to "a") (accepted_from "a"))
    × (should_replace "a" (accepted_from "b") (dialed_to "b")
        ≡ not (should_replace "a" (dialed_to "b") (accepted_from "b")))
    × (should_replace "a" (dialed_to "b") (accepted_from "b") ≡ lt_string "b" "a")
should_replace_agrees_example =
    should_replace_agrees "a" "b" (dialed_to "b") (accepted_from "b") (dialed_to "a")
      (accepted_from "a") apart (record { address = "ws://peer:3000"; dialed = refl; peer = refl })
      (record { accepted = refl; peer = refl })
      (record { address = "ws://peer:3000"; dialed = refl; peer = refl })
      (record { accepted = refl; peer = refl })
