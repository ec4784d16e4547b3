-- ===== src/P2p/Listeners.antt =====
-- The listener of 'message' of a socket, its handshake timer, and the periodic exchange of src/p2p.ts.
use proof_of_authority_block.Common.{
  ℕ, String, Bool, true, List, [], ◌∷◌, ◌++◌, map, Option, none, some, if◌then◌else◌,
}
use proof_of_authority_block.Crypto.{NodeCrypto}
use proof_of_authority_block.Blockchain.{Config}
use proof_of_authority_block.PeerTable.{UrlParser}
use proof_of_authority_block.P2p.Types.{
  Socket, closing, update, Message, hello, get_peers, Node, send,
}
use proof_of_authority_block.P2p.Messages.{handle_message}
use proof_of_authority_block.P2p.Handshake.{handle_hello}

-- The listener of 'message' on what has arrived, where `none` is a text that is no JSON or holds no
-- message of a known type. The result `none` is a TypeError.
unfoldable pub on_peer_message :
    UrlParser
    → (String → Bool)
    → NodeCrypto
    → Config
    → ℕ
    → ℕ
    → Socket
    → Option Message
    → Node
    → Option Node
on_peer_message parse opens c cfg date now socket none node = some node
on_peer_message parse opens c cfg date now socket (some (hello h)) node =
    some (handle_hello parse opens date cfg socket h node)
on_peer_message parse opens c cfg date now socket (some m) node =
    let handled = handle_message parse opens c cfg date now socket m node in
    if socket.handshaken then handled else some node

-- The callback of the handshake timer.
unfoldable pub on_handshake_timeout : Socket → Node → Node
on_handshake_timeout socket node = if socket.handshaken then node else record node {
  sockets = update (record socket { ready_state = closing }) node.sockets;
  terminated = node.terminated ++ (socket.id ∷ []);
}

-- The loop of `requestPeers`.
unfoldable pub request_each : List Socket → Node → Node
request_each [] node = node
request_each (s ∷ ss) node = request_each ss (if s.handshaken then send s get_peers node else node)

-- `requestPeers`
unfoldable pub request_peers : Node → Node
request_peers node = request_each node.sockets node

-- `stop`, less the server and the timers.
unfoldable pub stop : Node → Node
stop node = record node {
  sockets =
      map (λ (s : Socket). record s { expected_close = true; ready_state = closing }) node.sockets;
  terminated = node.terminated ++ map (λ (s : Socket). s.id) node.sockets;
}
