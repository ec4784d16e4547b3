-- ===== src/P2p/Gossip.antt =====
-- The messages of src/p2p.ts and the chain of the node that receives them.
use mathlib.Core.Path.{subst}
use proof_of_authority_block.Common.{
  ℕ, ◌≤◌, ◌≡◌, refl, sym, ap, ◌∙◌, inl, inr, String, false, List, [], ◌∷◌, ◌++◌, Option-cases, none,
  some, Result, Result-cases, ok, err, arith, le→leb, Bool, take, if◌then◌else◌, map, length, ◌<◌,
}
use proof_of_authority_block.Crypto.{NodeCrypto}
use proof_of_authority_block.Json.{Value}
use proof_of_authority_block.Block.{Block, RawBlock, from_plain}
use proof_of_authority_block.Blockchain.{
  Blockchain, Config, BlockError, already_have, add_block, add_transaction, replace_chain, last,
}
use proof_of_authority_block.Blockchain.Sync.{
  IsReplayed, add_block-IsReplayed, IsReplayed-later, add_block_cases, append_block_fields,
}
use proof_of_authority_block.Blockchain.Adopt.{replace_chain_cases, replace_chain_adopts}
use proof_of_authority_block.Blockchain.Admission.{add_transaction_cases, enqueue_fields}
use proof_of_authority_block.PeerTable.{UrlParser, PeerEntry, all_entries}
use proof_of_authority_block.P2p.Types.{
  Socket, Message, Node, get_peers, peers, chain_request, chain_response, new_block,
  new_transaction, hello, send, broadcast,
}
use proof_of_authority_block.P2p.Dialing.{
  on_dial_failed, dial, maintain_each, maintain_connections, is_to_dial,
}
use proof_of_authority_block.P2p.Messages.{
  add_each, max_peers_per_message, after_add_block, handle_message,
}

dial-blockchain :
    (opens : String → Bool) (date : ℕ) (address : String) (node : Node)
    → (dial opens date address node).blockchain ≡ node.blockchain
unfolding dial on_dial_failed
dial-blockchain opens date address node = ground arith

pub maintain_each-blockchain :
    (opens : String → Bool) (now : ℕ) (es : List PeerEntry) (node : Node)
    → (maintain_each opens now es node).blockchain ≡ node.blockchain
unfolding maintain_each
maintain_each-blockchain opens now [] node = refl
maintain_each-blockchain opens now (e ∷ es) node =
    let after = if is_to_dial now e node then dial opens now e.address node else node in
    let same : after.blockchain ≡ node.blockchain =
      ground (arith, dial-blockchain opens now e.address node) in
    maintain_each-blockchain opens now es after ∙ same

-- What a message can do to the chain, the pool and the accounts of a node.
abbrev pub Receives : NodeCrypto → Config → ℕ → ℕ → Message → Blockchain → Blockchain → Type 0
Receives c cfg date now (chain_response raw) bc bc' = bc' ≡ (replace_chain c cfg date now bc raw).0
Receives c cfg date now (new_block raw) bc bc' =
    (result : Result BlockError (Unit {0})) × (add_block c cfg date now bc raw ≡ some (bc', result))
Receives c cfg date now (new_transaction v) bc bc' = bc' ≡ (add_transaction cfg c now bc v).0
Receives c cfg date now _ bc bc' = bc' ≡ bc

add_transaction-chain :
    (c : NodeCrypto) (cfg : Config) (now : ℕ) (bc : Blockchain) (v : Value)
    → ((add_transaction cfg c now bc v).0.chain ≡ bc.chain)
      × ((add_transaction cfg c now bc v).0.state ≡ bc.state)
add_transaction-chain c cfg now bc v = elim (add_transaction_cases cfg c now bc v) [
  | inr (e, bad, same) ↦ rw same (refl, refl)
  | inl (tx, good, same) ↦
      let (_, state, _, chain) = enqueue_fields cfg now bc tx in rw same (chain, state)
]

Receives-IsReplayed :
    (c : NodeCrypto) (cfg : Config) (date date' now : ℕ) (m : Message) (bc bc' : Blockchain)
    → date ≤ date'
    → IsReplayed c cfg date bc.chain bc.state
    → Receives c cfg date' now m bc bc'
    → IsReplayed c cfg date' bc'.chain bc'.state
Receives-IsReplayed c cfg date date' now (chain_response raw) bc bc' later r e =
    let kept = IsReplayed-later c cfg date date' bc.chain bc.state later r in
    let P = λ (k : Blockchain). IsReplayed c cfg date' k.chain k.state in
    elim (replace_chain_cases c cfg date' now bc raw) [
      | inl (_, _, replayed) ↦ subst P (sym e) replayed
      | inr (_, _, same) ↦ subst P (sym (e ∙ same)) kept
    ]
Receives-IsReplayed c cfg date date' now (new_block raw) bc bc' later r (result, e) =
    add_block-IsReplayed c cfg date date' now bc bc' raw result later r e
Receives-IsReplayed c cfg date date' now (new_transaction v) bc bc' later r e =
    let kept = IsReplayed-later c cfg date date' bc.chain bc.state later r in
    let (chain, state) = add_transaction-chain c cfg now bc v in
    let P = λ (k : Blockchain). IsReplayed c cfg date' k.chain k.state in
    subst P (sym e) (rw (chain, state) kept)
Receives-IsReplayed c cfg date date' now m bc bc' later r e =
    subst (λ (k : Blockchain). IsReplayed c cfg date' k.chain k.state) (sym e)
      (IsReplayed-later c cfg date date' bc.chain bc.state later r)

pub send-blockchain :
    (s : Socket) (m : Message) (node : Node) → (send s m node).blockchain ≡ node.blockchain
send-blockchain s m node = ground arith

after_add_block-blockchain :
    (socket : Socket) (m : Message) (node : Node) (result : Result BlockError (Unit {0}))
    → (after_add_block socket m node result).blockchain ≡ node.blockchain
unfolding broadcast
after_add_block-blockchain socket m node (ok _) = refl
after_add_block-blockchain socket m node (err already_have) = refl
after_add_block-blockchain socket m node (err e) = send-blockchain socket chain_request node

module _ (parse : UrlParser) (opens : String → Bool) (c : NodeCrypto) (cfg : Config) (date now : ℕ)
    (socket : Socket) where
  pub handle_message-Receives :
      (m : Message) (node node' : Node)
      → handle_message parse opens c cfg date now socket m node ≡ some node'
      → Receives c cfg date now m node.blockchain node'.blockchain
  unfolding handle_message broadcast maintain_connections
  handle_message-Receives (chain_response raw) node node' h = ground arith
  handle_message-Receives (new_block raw) node node' h =
      elim (Option-cases (add_block c cfg date now node.blockchain raw)) [
        | inl thrown ↦ absurd (ground arith)
        | inr ((bc, result), added) ↦
            let told = record node { blockchain = bc } in
            let same : node'.blockchain ≡ bc =
              ground (arith, after_add_block-blockchain socket (new_block raw) told result) in
            (
              result,
              subst
                  (λ (k : Blockchain).
                    add_block c cfg date now node.blockchain raw ≡ some (k, result))
                  (sym same) added,
            )
      ]
  handle_message-Receives (new_transaction v) node node' h =
      elim (Result-cases ((add_transaction cfg c now node.blockchain v).1)) [
        | inl (_, good) ↦ ground arith
        | inr (e, bad) ↦ ground arith
      ]
  handle_message-Receives (peers none) node node' h = ground arith
  handle_message-Receives (peers (some raws)) node node' h =
      let told = record node {
        peer_table = (add_each parse (take max_peers_per_message raws) (node.peer_table, false)).0;
      } in
      ground (arith, maintain_each-blockchain opens date (all_entries told.peer_table) told)
  handle_message-Receives (hello x) node node' h = ground arith
  handle_message-Receives get_peers node node' h = ground arith
  handle_message-Receives chain_request node node' h = ground arith

-- If the chain of a node replays from this network's genesis block to its state, then it does so
-- after any message that the node handles at that time or later without a TypeError.
pub handle_message-IsReplayed :
    (parse : UrlParser) (opens : String → Bool) (c : NodeCrypto) (cfg : Config) (date date' now : ℕ)
    (socket : Socket) (m : Message) (node node' : Node)
    → date ≤ date'
    → IsReplayed c cfg date node.blockchain.chain node.blockchain.state
    → handle_message parse opens c cfg date' now socket m node ≡ some node'
    → IsReplayed c cfg date' node'.blockchain.chain node'.blockchain.state
handle_message-IsReplayed parse opens c cfg date date' now socket m node node' later r h =
    Receives-IsReplayed c cfg date date' now m node.blockchain node'.blockchain later r
      (handle_message-Receives parse opens c cfg date' now socket m node node' h)

-- What the NEW_BLOCK case does, once `addBlock` has returned.
pub handle_message-add_block :
    (parse : UrlParser) (opens : String → Bool) (c : NodeCrypto) (cfg : Config) (date now : ℕ)
    (socket : Socket) (raw : RawBlock) (node : Node) (bc : Blockchain)
    (result : Result BlockError (Unit {0}))
    → add_block c cfg date now node.blockchain raw ≡ some (bc, result)
    → handle_message parse opens c cfg date now socket (new_block raw) node
      ≡ some (after_add_block socket (new_block raw) (record node { blockchain = bc }) result)
unfolding handle_message
handle_message-add_block parse opens c cfg date now socket raw node bc result h = ground arith

last-snoc : (bs : List Block) (b : Block) → last (bs ++ (b ∷ [])) ≡ some b
last-snoc [] b = refl
last-snoc (a ∷ []) b = refl
last-snoc (a ∷ a' ∷ bs) b = last-snoc (a' ∷ bs) b

add_block-known :
    (c : NodeCrypto) (cfg : Config) (date now : ℕ) (bc : Blockchain) (b : Block)
    → last bc.chain ≡ some b
    → add_block c cfg date now bc (some b) ≡ some (bc, err already_have)
unfolding add_block from_plain
add_block-known c cfg date now bc b e =
    let old = le→leb b.index b.index (omega arith) in ground arith

-- The flooding of a block ends: a node that has just accepted a block handles the same block, from
-- any peer and at any time, without a change and without sending anything.
pub handle_message_once :
    (parse : UrlParser) (opens : String → Bool) (c : NodeCrypto) (cfg : Config) (date now : ℕ)
    (bc : Blockchain) (b : Block) (node : Node)
    → add_block c cfg date now bc (some b) ≡ some (node.blockchain, ok tt)
    → (date' now' : ℕ) (socket : Socket)
    → handle_message parse opens c cfg date' now' socket (new_block (some b)) node ≡ some node
unfolding handle_message
handle_message_once parse opens c cfg date now bc b node accepted date' now' socket =
    elim (add_block_cases c cfg date now bc node.blockchain (some b) (ok tt) accepted) [
      | inr (e, wrong, _) ↦ absurd (ground arith)
      | inl (latest, b', s, _, _, same, _, grown) ↦
          let kept : node.blockchain.chain ≡ bc.chain ++ (b' ∷ []) =
            ap (λ (k : Blockchain). k.chain) grown ∙ (append_block_fields c cfg now bc b' s).0 in
          let e : last node.blockchain.chain ≡ some b =
            ap last kept ∙ last-snoc bc.chain b' ∙ sym same in
          let known = add_block-known c cfg date' now' node.blockchain b e in ground arith
    ]

-- A node whose chain replays answers a CHAIN_REQUEST with its chain, which it sends unless the
-- socket is closing, and a node with a shorter chain, which handles that answer at that time or
-- later, has the chain and the state of the first from then on.
pub handle_message_sync :
    (parse : UrlParser) (opens : String → Bool) (c : NodeCrypto) (cfg : Config) (date date' now : ℕ)
    (socket socket' : Socket) (peer node : Node)
    → date ≤ date'
    → IsReplayed c cfg date peer.blockchain.chain peer.blockchain.state
    → length node.blockchain.chain < length peer.blockchain.chain
    → let answer = chain_response (some (map some peer.blockchain.chain)) in
      (handle_message parse opens c cfg date now socket chain_request peer
        ≡ some (send socket answer peer))
      × ((node' : Node) × (handle_message parse opens c cfg date' now socket' answer node
            ≡ some node')
          × (node'.blockchain.chain ≡ peer.blockchain.chain)
          × (node'.blockchain.state ≡ peer.blockchain.state))
unfolding handle_message
handle_message_sync parse opens c cfg date date' now socket socket' peer node later r longer =
    let bs = peer.blockchain.chain in
    let (_, chain, state) =
      replace_chain_adopts c cfg date date' now node.blockchain bs peer.blockchain.state later r
        longer in
    (
      refl,
      (
        record node {
          blockchain = (replace_chain c cfg date' now node.blockchain (some (map some bs))).0;
        },
        refl,
        chain,
        state,
      ),
    )
