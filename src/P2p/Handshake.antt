-- ===== src/P2p/Handshake.antt =====
-- The handshake of class `P2PNode` of src/p2p.ts.
use Prim.Native.Nat.{Ordering}
use Prim.Native.String.{compare}
use proof_of_authority_block.Common.{
  ℕ, String, Bool, true, false, not, List, [], ◌∷◌, ◌++◌, Option, none, some, ◌&&◌, ◌||◌, ◌==◌,
  ◌===◌, if◌then◌else◌,
}
use proof_of_authority_block.Common.Dict.{erase}
use proof_of_authority_block.Block.{Block}
use proof_of_authority_block.Blockchain.{Blockchain, Config}
use proof_of_authority_block.PeerTable.{
  UrlParser, address_from_remote, is_port, is_blocked, add, record_success, block,
}
use proof_of_authority_block.P2p.Types.{
  Socket, Duration, natural, not_finite, Hello, Node, closing, get_peers, peers, chain_request,
  send, broadcast, update,
}
use proof_of_authority_block.P2p.Dialing.{maintain_connections}

-- A HELLO that passes the test `valid`.
pub record ValidHello : Type 0 where
  pub node_id : String
  pub p2p_port : ℕ
  pub genesis_hash : String
  pub slot_duration_ms : Duration
  pub slot_wait_ms : Duration

abbrev pub is_finite : Duration → Bool
is_finite not_finite = false
is_finite _ = true

-- The test `valid`, with the fields at their types.
unfoldable pub read_hello : Hello → Option ValidHello
read_hello h = elim (h.node_id) [
  | none ↦ none
  | some id ↦ elim (h.p2p_port) [
    | none ↦ none
    | some port ↦ elim (h.genesis_hash) [
      | none ↦ none
      | some hash ↦
          if not (id === "")
            && is_port port
            && is_finite h.slot_duration_ms
            && is_finite h.slot_wait_ms
          then some (record {
            node_id = id;
            p2p_port = port;
            genesis_hash = hash;
            slot_duration_ms = h.slot_duration_ms;
            slot_wait_ms = h.slot_wait_ms;
          })
          else none
    ]
  ]
]

abbrev pub is_duration : Duration → ℕ → Bool
is_duration (natural n) k = n == k
is_duration _ k = false

-- `this.blockchain.chain[0].hash`; a chain has its genesis block.
abbrev pub genesis_hash_of : List Block → String
genesis_hash_of [] = ""
genesis_hash_of (g ∷ bs) = g.hash

-- The node is of this network and agrees on its slots.
unfoldable pub is_compatible : Config → Blockchain → ValidHello → Bool
is_compatible cfg bc h =
    h.genesis_hash === genesis_hash_of bc.chain
    && is_duration h.slot_duration_ms cfg.slot_duration_ms
    && is_duration h.slot_wait_ms cfg.slot_wait_ms

-- `initiator`, where the remote identifier of a handshaken socket is known.
abbrev pub initiator : String → Socket → Option String
initiator node_id s = elim (s.dial_address) [ none ↦ s.remote_node_id | some _ ↦ some node_id ]

-- `<` on strings.
abbrev pub lt_string : String → String → Bool
lt_string a b = elim (compare a b) [ Ordering.lt ↦ true | _ ↦ false ]

-- `shouldReplace`
unfoldable pub should_replace : String → Socket → Socket → Bool
should_replace node_id existing incoming = elim (initiator node_id existing) [
  | none ↦ false
  | some e ↦ elim (initiator node_id incoming) [ none ↦ false | some i ↦ i === e || lt_string i e ]
]

-- `terminate`, on a socket whose close is expected: from then on the socket is not open.
unfoldable pub close : Socket → Node → Node
close s node = record node {
  sockets = update (record s { expected_close = true; ready_state = closing }) node.sockets;
  terminated = node.terminated ++ (s.id ∷ []);
}

-- `reject`
abbrev pub reject : Socket → Node → Node
reject s node = close s node

-- `if (socket.dialAddress) this.peers.block(socket.dialAddress)`
unfoldable pub block_dialed : UrlParser → Socket → Node → Node
block_dialed parse s node = elim (s.dial_address) [
  | none ↦ node
  | some address ↦ record node { peer_table = block parse node.peer_table address }
]

-- `socket.dialAddress ?? addressFromRemote(socket.remoteIp, m.p2pPort)`
abbrev pub announced_of : UrlParser → Socket → ValidHello → Option String
announced_of parse s h = elim (s.dial_address) [
  | none ↦ address_from_remote parse s.remote_ip h.p2p_port
  | some address ↦ some address
]

-- The test of `existing` on a socket of the list.
abbrev pub is_twin : Socket → String → Socket → Bool
is_twin socket node_id s =
    not (s.id == socket.id)
    && s.handshaken
    && not s.expected_close
    && elim (s.remote_node_id) [ none ↦ false | some id ↦ id === node_id ]

-- `this.sockets.find(...)`
abbrev pub find : (Socket → Bool) → List Socket → Option Socket
find p [] = none
find p (s ∷ ss) = if p s then some s else find p ss

module _ (parse : UrlParser) (opens : String → Bool) (date : ℕ) where
  -- The part of `handleHello` from `socket.handshaken = true` on.
  unfoldable pub welcome : Socket → String → Node → Node
  welcome socket announced node =
      let shaken = record socket { handshaken = true } in
      let node' = record node { sockets = update shaken node.sockets } in
      let greeted : Node = elim (socket.dial_address) [
        | none ↦
            maintain_connections opens date
              (record node' { peer_table = (add parse node'.peer_table announced).0 })
        | some address ↦
            let (table, first_time) = record_success node'.peer_table address date in
            let known = record node' {
              peer_table = table;
              next_attempt = erase address node'.next_attempt;
            } in
            if first_time
            then broadcast (peers (some (some announced ∷ []))) (some shaken) known
            else known
      ] in
      send shaken get_peers (send shaken chain_request greeted)

  -- The duplicate that loses: its address did answer, so it counts as a success.
  unfoldable pub lose : Socket → Node → Node
  lose socket node = elim (socket.dial_address) [
    | none ↦ close socket node
    | some address ↦
        close socket (record node { peer_table = (record_success node.peer_table address date).0 })
  ]

  -- The part of `handleHello` from the search for a second connection to the same node on.
  unfoldable pub settle : Socket → String → String → Node → Node
  settle socket remote announced node =
      let named = record socket {
        remote_node_id = some remote;
        announced_address = some announced;
      } in
      let node' = record node { sockets = update named node.sockets } in
      elim (find (is_twin socket remote) node'.sockets) [
        | none ↦ welcome named announced node'
        | some existing ↦
            if should_replace node.node_id existing named
            then welcome named announced (close existing node')
            else lose named node'
      ]

  -- `handleHello`
  unfoldable pub handle_hello : Config → Socket → Hello → Node → Node
  handle_hello cfg socket m node = if socket.handshaken then node else elim (read_hello m) [
    | none ↦ reject socket node
    | some h ↦
        if h.node_id === node.node_id || not (is_compatible cfg node.blockchain h)
        then reject socket (block_dialed parse socket node)
        else elim (announced_of parse socket h) [
          | none ↦ reject socket node
          | some announced ↦
              if is_blocked node.peer_table announced
              then reject socket node
              else settle socket h.node_id announced node
        ]
  ]
