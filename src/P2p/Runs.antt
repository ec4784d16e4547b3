-- ===== src/P2p/Runs.antt =====
-- The messages of src/p2p.ts and the runs of a node.
use mathlib.Core.Path.{subst}
use proof_of_authority_block.Common.{
  ℕ, ◌≤◌, ◌≡◌, sym, ap, ◌∙◌, inl, inr, String, Bool, true, none, some, Option, Option-cases,
  Bool-cases, arith,
}
use proof_of_authority_block.Crypto.{NodeCrypto}
use proof_of_authority_block.Blockchain.{Blockchain, Config}
use proof_of_authority_block.Blockchain.Sound.{IsSound}
use proof_of_authority_block.Blockchain.Reach.{
  Reachable, later, transaction_added, block_added, chain_replaced, Reachable-IsSound,
}
use proof_of_authority_block.PeerTable.{UrlParser, add, record_success, all_entries}
use proof_of_authority_block.P2p.{
  hello, Socket, Message, Node, chain_response, new_block, new_transaction, handle_message, Hello,
  welcome, settle, lose, close, block_dialed, handle_hello, read_hello, announced_of, update,
  broadcast, maintain_connections, on_peer_message, find, is_twin, should_replace,
}
use proof_of_authority_block.P2p.Gossip.{
  Receives, handle_message-Receives, maintain_each-blockchain,
}

Receives-Reachable :
    (c : NodeCrypto) (cfg : Config) (date now : ℕ) (m : Message) (bc bc' : Blockchain)
    → Reachable c cfg date bc
    → Receives c cfg date now m bc bc'
    → Reachable c cfg date bc'
Receives-Reachable c cfg date now (chain_response raw) bc bc' r e =
    subst (Reachable c cfg date) (sym e) (chain_replaced now raw r)
Receives-Reachable c cfg date now (new_block raw) bc bc' r (result, e) = block_added now raw r e
Receives-Reachable c cfg date now (new_transaction v) bc bc' r e =
    subst (Reachable c cfg date) (sym e) (transaction_added now v r)
Receives-Reachable c cfg date now m bc bc' r e = subst (Reachable c cfg date) (sym e) r

-- The messages of a peer that has shaken hands.
handle_message-Reachable :
    (parse : UrlParser) (opens : String → Bool) (c : NodeCrypto) (cfg : Config) (date date' now : ℕ)
    (socket : Socket) (m : Message) (node node' : Node)
    → date ≤ date'
    → Reachable c cfg date node.blockchain
    → handle_message parse opens c cfg date' now socket m node ≡ some node'
    → Reachable c cfg date' node'.blockchain × IsSound c cfg date' node'.blockchain
handle_message-Reachable parse opens c cfg date date' now socket m node node' le r h =
    let received = handle_message-Receives parse opens c cfg date' now socket m node node' h in
    let reached =
      Receives-Reachable c cfg date' now m node.blockchain node'.blockchain (later r le) received in
    (reached, Reachable-IsSound c cfg date' node'.blockchain reached)

-- A HELLO changes nothing of the chain.
welcome-blockchain :
    (parse : UrlParser) (opens : String → Bool) (date : ℕ) (socket : Socket) (announced : String)
    (node : Node)
    → (welcome parse opens date socket announced node).blockchain ≡ node.blockchain
unfolding welcome broadcast maintain_connections
welcome-blockchain parse opens date socket announced node =
    elim (Option-cases socket.dial_address) [
      | inl inbound ↦
          let shaken : Socket = record socket { handshaken = true } in
          let told : Node = record node {
            sockets = update shaken node.sockets;
            peer_table = (add parse node.peer_table announced).0;
          } in
          ground (arith, maintain_each-blockchain opens date (all_entries told.peer_table) told)
      | inr (address, outbound) ↦
          elim (Bool-cases ((record_success node.peer_table address date).1)) [
            | inl first ↦ ground arith
            | inr again ↦ ground arith
          ]
    ]

settle-blockchain :
    (parse : UrlParser) (opens : String → Bool) (date : ℕ) (socket : Socket)
    (remote announced : String) (node : Node)
    → (settle parse opens date socket remote announced node).blockchain ≡ node.blockchain
unfolding settle lose close
settle-blockchain parse opens date socket remote announced node =
    let named : Socket = record socket {
      remote_node_id = some remote;
      announced_address = some announced;
    } in
    let node' : Node = record node { sockets = update named node.sockets } in
    elim (Option-cases (find (is_twin socket remote) node'.sockets)) [
      | inl alone ↦ ground (arith, welcome-blockchain parse opens date named announced node')
      | inr (existing, found) ↦
          let without = close existing node' in
          elim (Bool-cases (should_replace node.node_id existing named)) [
            | inl wins ↦ ground (arith, welcome-blockchain parse opens date named announced without)
            | inr loses ↦ elim (Option-cases socket.dial_address) [
              | inl inbound ↦ ground arith
              | inr (address, outbound) ↦ ground arith
            ]
          ]
    ]

handle_hello-blockchain :
    (parse : UrlParser) (opens : String → Bool) (date : ℕ) (cfg : Config) (socket : Socket)
    (h : Hello) (node : Node)
    → (handle_hello parse opens date cfg socket h node).blockchain ≡ node.blockchain
unfolding handle_hello close block_dialed
handle_hello-blockchain parse opens date cfg socket m node = elim (Option-cases (read_hello m)) [
  | inl malformed ↦ ground arith
  | inr (h, read) ↦ elim (Option-cases (announced_of parse socket h)) [
    | inl unknown ↦ ground arith
    | inr (announced, known) ↦
        ground (arith, settle-blockchain parse opens date socket h.node_id announced node)
  ]
]

-- Whatever arrives on a socket, before or after the handshake, a HELLO and a text that is no
-- message included, if the listener returns without a TypeError, at the same time or later, then a
-- node that has come to be by a first start, by transactions, blocks and chains, by sweeps and by
-- restarts is still one, so that its chain replays from this network's genesis block to its state,
-- its pool is verified, bounded, without duplicates, fresh and affordable, and its file is sound.
pub on_peer_message-Reachable :
    (parse : UrlParser) (opens : String → Bool) (c : NodeCrypto) (cfg : Config) (date date' now : ℕ)
    (socket : Socket) (raw : Option Message) (node node' : Node)
    → date ≤ date'
    → Reachable c cfg date node.blockchain
    → on_peer_message parse opens c cfg date' now socket raw node ≡ some node'
    → Reachable c cfg date' node'.blockchain × IsSound c cfg date' node'.blockchain
unfolding on_peer_message
on_peer_message-Reachable parse opens c cfg date date' now socket none node node' le r h =
    let same : node ≡ node' = ground arith in
    let reached = subst (λ (n : Node). Reachable c cfg date' n.blockchain) same (later r le) in
    (reached, Reachable-IsSound c cfg date' node'.blockchain reached)
on_peer_message-Reachable parse opens c cfg date date' now socket (some (hello m)) node node' le r
      h =
    let greeted : handle_hello parse opens date' cfg socket m node ≡ node' = ground arith in
    let same : node.blockchain ≡ node'.blockchain =
      sym (handle_hello-blockchain parse opens date' cfg socket m node)
      ∙ ap (λ (n : Node). n.blockchain) greeted in
    let reached = subst (Reachable c cfg date') same (later r le) in
    (reached, Reachable-IsSound c cfg date' node'.blockchain reached)
on_peer_message-Reachable parse opens c cfg date date' now socket (some m) node node' le r h =
    elim (Bool-cases socket.handshaken) [
      | inl shaken ↦
          handle_message-Reachable parse opens c cfg date date' now socket m node node' le r
            (ground arith)
      | inr stranger ↦
          let same : node ≡ node' = ground arith in
          let reached =
            subst (λ (n : Node). Reachable c cfg date' n.blockchain) same (later r le) in
          (reached, Reachable-IsSound c cfg date' node'.blockchain reached)
    ]
