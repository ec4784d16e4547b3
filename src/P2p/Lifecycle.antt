-- ===== src/P2p/Lifecycle.antt =====
-- The constructor of class `P2PNode` of src/p2p.ts, and the life of a socket: it is registered, and
-- later it closes.
use Prim.Native.String.{◌++◌}
use proof_of_authority_block.Common.{
  ℕ, ◌+◌, String, not, [], ◌∷◌, ◌++◌ as append, none, some, ◌&&◌, ◌==◌, ◌===◌, filter,
  if◌then◌else◌,
}
use proof_of_authority_block.Common.Dict.{insert}
use proof_of_authority_block.Json.{decimal}
use proof_of_authority_block.Blockchain.{Blockchain, Config}
use proof_of_authority_block.PeerTable.{UrlParser, PeerTable, normalize_address, block}
use proof_of_authority_block.P2p.Types.{Socket, natural, Hello, hello, Node, send}
use proof_of_authority_block.P2p.Dialing.{on_dial_failed}
use proof_of_authority_block.P2p.Handshake.{genesis_hash_of}

-- The constructor, with the identifier that was drawn: the node blocks its own address.
unfoldable pub new_node : UrlParser → String → ℕ → Blockchain → PeerTable → Node
new_node parse node_id p2p_port bc table =
    let own = "ws://localhost:" ++ decimal p2p_port in
    let table' : PeerTable = elim (normalize_address parse own) [
      | none ↦ table
      | some self ↦ block parse table self
    ] in
    record {
      node_id = node_id;
      p2p_port = p2p_port;
      blockchain = bc;
      peer_table = table';
      sockets = [];
      dialing = [];
      next_attempt = [];
      terminated = [];
      outbox = [];
    }

-- `hello`
unfoldable pub own_hello : Config → Node → Hello
own_hello cfg node = record {
  node_id = some node.node_id;
  p2p_port = some node.p2p_port;
  genesis_hash = some (genesis_hash_of node.blockchain.chain);
  slot_duration_ms = natural cfg.slot_duration_ms;
  slot_wait_ms = natural cfg.slot_wait_ms;
}

-- `registerSocket`, less the listeners that it sets up.
unfoldable pub register_socket : Config → Socket → Node → Node
register_socket cfg socket node =
    send socket (hello (own_hello cfg node))
      (record node { sockets = append node.sockets (socket ∷ []) })

-- The listener of 'close' that `registerSocket` sets up, at the time `date`.
unfoldable pub on_close : ℕ → Socket → Node → Node
on_close date socket node =
    let without = record node { sockets = filter (λ s. not (s.id == socket.id)) node.sockets } in
    elim (socket.announced_address) [
      | none ↦ without
      | some address ↦
          if socket.handshaken && not socket.expected_close
          then record without { next_attempt = insert address (date + 1000) without.next_attempt }
          else without
    ]

-- The listener of 'close' that `dial` sets up for the socket that it opened to the address.
unfoldable pub on_dial_closed : ℕ → String → Socket → Node → Node
on_dial_closed date address socket node =
    let free = record node { dialing = filter (λ a. not (a === address)) node.dialing } in
    if not socket.handshaken && not socket.expected_close
    then on_dial_failed date address free
    else free
