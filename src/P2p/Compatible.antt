-- ===== src/P2p/Compatible.antt =====
-- Whom a node of src/p2p.ts talks to after a HELLO.
use proof_of_authority_block.Common.{
  ℕ, List, [], ◌∷◌, sym, ◌∙◌, false, ◌≡◌, ◌≢◌, ◌⊎◌, inl, inr, ◌↔◌, String, Bool, true, not, ◌||◌,
  ◌===◌, some, Option-cases, Bool-cases, arith, eq_iff,
}
use proof_of_authority_block.Crypto.{NodeCrypto}
use proof_of_authority_block.State.{WorldState}
use proof_of_authority_block.Block.{Block}
use proof_of_authority_block.Blockchain.{Config, create_genesis}
use proof_of_authority_block.Blockchain.Sync.{IsReplayed}
use proof_of_authority_block.P2p.Lifecycle.{own_hello}
use proof_of_authority_block.PeerTable.{UrlParser, is_port}
use proof_of_authority_block.P2p.Types.{
  Socket, Duration, natural, other_finite, not_finite, Hello, Node,
}
use proof_of_authority_block.P2p.Handshake.{
  ValidHello, read_hello, is_duration, genesis_hash_of, is_compatible, close, reject, block_dialed,
  handle_hello,
}

is_duration_iff : (d : Duration) (k : ℕ) → (is_duration d k ≡ true) ↔ (d ≡ natural k)
is_duration_iff (natural n) k = ground arith
is_duration_iff other_finite k = ground arith
is_duration_iff not_finite k = ground arith

-- What a node asks of the sender of a HELLO that it goes on with.
pub record IsPartner (cfg : Config) (node : Node) (socket : Socket) (m : Hello) : Type 0 where
  pub h : ValidHello
  pub read : read_hello m ≡ some h
  pub foreign : h.node_id ≢ node.node_id
  pub rooted : h.genesis_hash ≡ genesis_hash_of node.blockchain.chain
  pub same_slots : h.slot_duration_ms ≡ natural cfg.slot_duration_ms
  pub same_wait : h.slot_wait_ms ≡ natural cfg.slot_wait_ms

reject_outbox :
    (parse : UrlParser) (socket : Socket) (node : Node)
    → ((reject socket node).outbox ≡ node.outbox)
      × ((reject socket (block_dialed parse socket node)).outbox ≡ node.outbox)
unfolding close block_dialed
reject_outbox parse socket node = ground arith

-- If handling a HELLO makes a node send anything at all, then the HELLO is well-formed, it does not
-- name the node's own identifier, and it names the hash of the node's genesis block, its slot
-- duration and its slot wait.
pub handle_hello_compatible :
    (parse : UrlParser) (opens : String → Bool) (date : ℕ) (cfg : Config) (socket : Socket)
    (m : Hello) (node : Node)
    → ((handle_hello parse opens date cfg socket m node).outbox ≡ node.outbox)
      ⊎ IsPartner cfg node socket m
unfolding handle_hello is_compatible
handle_hello_compatible parse opens date cfg socket m node = elim (Bool-cases socket.handshaken) [
  | inl shaken ↦ inl (ground arith)
  | inr new ↦ elim (Option-cases (read_hello m)) [
    | inl malformed ↦ inl (ground (arith, reject_outbox parse socket node))
    | inr (h, read) ↦
        elim (Bool-cases
          (h.node_id === node.node_id || not (is_compatible cfg node.blockchain h))) [
            | inl refused ↦ inl (ground (arith, reject_outbox parse socket node))
            | inr fit ↦ inr record {
              h = h;
              read = read;
              foreign = ground (arith, eq_iff h.node_id node.node_id);
              rooted =
                  ground (arith, eq_iff h.genesis_hash (genesis_hash_of node.blockchain.chain));
              same_slots = ground (arith, is_duration_iff h.slot_duration_ms cfg.slot_duration_ms);
              same_wait = ground (arith, is_duration_iff h.slot_wait_ms cfg.slot_wait_ms);
            }
          ]
  ]
]

genesis_hash_of-IsReplayed :
    (c : NodeCrypto) (cfg : Config) (date : ℕ) (bs : List Block) (s : WorldState)
    → IsReplayed c cfg date bs s
    → genesis_hash_of bs ≡ (create_genesis c cfg).hash
genesis_hash_of-IsReplayed c cfg date [] s r = absurd r
genesis_hash_of-IsReplayed c cfg date (g ∷ bs) s r = r.1

-- Two nodes of one configuration whose chains replay find each other compatible, whatever blocks
-- they have: the HELLO of the first, if it has an identifier and a port from 1 to 65535, is
-- well-formed and passes the second one's test of genesis hash and slots.
pub own_hello_compatible :
    (c : NodeCrypto) (cfg : Config) (date date' : ℕ) (a b : Node)
    → (a.node_id === "") ≡ false
    → is_port a.p2p_port ≡ true
    → IsReplayed c cfg date a.blockchain.chain a.blockchain.state
    → IsReplayed c cfg date' b.blockchain.chain b.blockchain.state
    → (h : ValidHello) × (read_hello (own_hello cfg a) ≡ some h)
      × (is_compatible cfg b.blockchain h ≡ true)
unfolding read_hello is_compatible own_hello
own_hello_compatible c cfg date date' a b named port ra rb =
    let same : genesis_hash_of a.blockchain.chain ≡ genesis_hash_of b.blockchain.chain =
      genesis_hash_of-IsReplayed c cfg date a.blockchain.chain a.blockchain.state ra
      ∙ sym (genesis_hash_of-IsReplayed c cfg date' b.blockchain.chain b.blockchain.state rb) in
    let hash = genesis_hash_of a.blockchain.chain in
    (
      record {
        node_id = a.node_id;
        p2p_port = a.p2p_port;
        genesis_hash = hash;
        slot_duration_ms = natural cfg.slot_duration_ms;
        slot_wait_ms = natural cfg.slot_wait_ms;
      },
      ground arith,
      ground (arith, eq_iff hash (genesis_hash_of b.blockchain.chain)),
    )
