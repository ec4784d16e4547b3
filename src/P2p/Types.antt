-- ===== src/P2p/Types.antt =====
-- The sockets, messages and fields of class `P2PNode` of src/p2p.ts, and how it sends.
use proof_of_authority_block.Common.{
  ℕ, String, Bool, true, false, not, List, [], ◌∷◌, ◌++◌, map, Option, none, some, ◌&&◌, ◌==◌,
  ◌===◌, filter,
}
use proof_of_authority_block.Common.Dict.{Dict}
use proof_of_authority_block.Json.{Value}
use proof_of_authority_block.Block.{RawBlock}
use proof_of_authority_block.Blockchain.{Blockchain}
use proof_of_authority_block.PeerTable.{PeerTable}

-- `readyState`, where `closing` is CLOSING or CLOSED.
pub data ReadyState : Type 0 where
  connecting opened closing : ReadyState

-- `TrackedSocket`, with a number for its identity.
pub record Socket : Type 0 where
  pub id : ℕ
  pub ready_state : ReadyState
  pub dial_address : Option String
  pub remote_ip : Option String
  pub remote_node_id : Option String
  pub announced_address : Option String
  pub handshaken : Bool
  pub expected_close : Bool

-- A number of a HELLO, as it may arrive.
pub data Duration : Type 0 where
  natural : ℕ → Duration
  other_finite not_finite : Duration

-- The fields of a HELLO, where `none` is a value of another type; a port that is no natural number
-- is none too.
pub record Hello : Type 0 where
  pub node_id : Option String
  pub p2p_port : Option ℕ
  pub genesis_hash : Option String
  pub slot_duration_ms : Duration
  pub slot_wait_ms : Duration

-- The union `Message`. Where an array is expected, `none` is a value that is no array, and in the
-- list of addresses it is an element that is no string.
pub data Message : Type 0 where
  hello : Hello → Message
  get_peers : Message
  peers : Option (List (Option String)) → Message
  chain_request : Message
  chain_response : Option (List RawBlock) → Message
  new_block : RawBlock → Message
  new_transaction : Value → Message

-- `terminated` lists the sockets that the node has terminated, `outbox` what it has sent to which
-- socket; a message to a socket that still connects is sent when it opens, if it does.
pub record Node : Type 0 where
  pub node_id : String
  pub p2p_port : ℕ
  pub blockchain : Blockchain
  pub peer_table : PeerTable
  pub sockets : List Socket
  pub dialing : List String
  pub next_attempt : Dict ℕ
  pub terminated : List ℕ
  pub outbox : List (ℕ × Message)

-- `socket.readyState === WebSocket.OPEN`
abbrev pub is_open : Socket → Bool
is_open s = elim (s.ready_state) [ opened ↦ true | _ ↦ false ]

-- `send`: a socket that closes or is closed never opens, so that the listener of 'open' that waits
-- with the message is never called.
abbrev pub send : Socket → Message → Node → Node
send s m node = elim (s.ready_state) [
  | closing ↦ node
  | _ ↦ record node { outbox = node.outbox ++ ((s.id, m) ∷ []) }
]

-- The test of `broadcast` on a socket.
abbrev pub is_receiver : Option Socket → Socket → Bool
is_receiver none s = s.handshaken && is_open s
is_receiver (some x) s = not (s.id == x.id) && s.handshaken && is_open s

-- `broadcast`
unfoldable pub broadcast : Message → Option Socket → Node → Node
broadcast m exclude node =
    let sent = map (λ (s : Socket). (s.id, m)) (filter (is_receiver exclude) node.sockets) in
    record node { outbox = node.outbox ++ sent }

-- The address that a socket has announced is this one.
abbrev pub is_announced : String → Socket → Bool
is_announced address s = elim (s.announced_address) [ none ↦ false | some a ↦ a === address ]

-- The socket with new fields takes its place in the list.
unfoldable pub update : Socket → List Socket → List Socket
update s ss = map (λ (t : Socket). elim (t.id == s.id) [ true ↦ s | false ↦ t ]) ss
