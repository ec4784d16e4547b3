-- ===== src/Api/Submission.antt =====
-- `submitTransaction` of src/api.ts on a node that runs.
use proof_of_authority_block.Common.{
  ℕ, ◌≡◌, refl, ap, ◌∙◌, ◌⊎◌, inl, inr, List, [], ◌∷◌, ◌++◌, Option, none, some, arith,
  Option-cases, Bool-cases, Result, ok, err, Bool, filter,
}
use proof_of_authority_block.Json.{Value}
use proof_of_authority_block.Crypto.{NodeCrypto, KeyPair}
use proof_of_authority_block.Transaction.{Transaction, verify_transaction}
use proof_of_authority_block.Block.{Block}
use proof_of_authority_block.Blockchain.{
  Blockchain, Config, PoolError, check_transaction, get_latest_block, enqueue, last,
}
use proof_of_authority_block.Blockchain.Pool.{check_transaction_iff, verified_object}
use proof_of_authority_block.Blockchain.Admission.{add_transaction_cases, enqueue_fields}
use proof_of_authority_block.Blockchain.Sync.{IsReplayed-last}
use proof_of_authority_block.Blockchain.Reach.{Reachable, Reachable-IsSound}
use proof_of_authority_block.P2p.{Message, Node, new_transaction, broadcast}
use proof_of_authority_block.Proposer.{is_empty}
use proof_of_authority_block.Api.{
  Topic, status, blocks, pending, peers, Snapshot, status_now, ApiError, transaction_rejected,
  Reply, submitted, Api, listens, snapshot, get_status, publish, publish_each, topics_of_each,
  on_events, copy_transaction, with_chain, announce, has_keys, submit_transaction,
}
use proof_of_authority_block.Api.Pushes.{on_events-Pushes, heard}

module _ (cfg : Config) (keys : Bool) (date : ℕ) where
  -- A chain with a block has a status.
  pub snapshot_total :
      (t : Topic) (node : Node) (latest : Block)
      → get_latest_block node.blockchain ≡ some latest
      → (now : Snapshot) × (snapshot cfg keys date t node ≡ some now)
  unfolding snapshot get_status
  snapshot_total status node latest e =
      elim (Option-cases (get_status cfg keys date node.blockchain)) [
        | inl thrown ↦ absurd (ground arith)
        | inr (s, e') ↦ (status_now s, ground arith)
      ]
  snapshot_total blocks node latest e = (_, refl)
  snapshot_total pending node latest e = (_, refl)
  snapshot_total peers node latest e = (_, refl)

  publish_ok :
      (t : Topic) (api : Api) (latest : Block)
      → get_latest_block api.node.blockchain ≡ some latest
      → ((publish cfg keys date t api).1 ≡ ok tt)
        × ((publish cfg keys date t api).0.node ≡ api.node)
  unfolding publish
  publish_ok t api latest e =
      let (now, read) = snapshot_total t api.node latest e in
      elim (Bool-cases (is_empty (filter (listens t) api.clients))) [
        | inl nobody ↦ (rw nobody refl, rw nobody refl)
        | inr some_one ↦ (rw (some_one, read) refl, rw (some_one, read) refl)
      ]

  publish_each_ok :
      (ts : List Topic) (api : Api) (latest : Block)
      → get_latest_block api.node.blockchain ≡ some latest
      → (publish_each cfg keys date ts api).1 ≡ ok tt
  unfolding publish_each
  publish_each_ok [] api latest e = refl
  publish_each_ok (t ∷ ts) api latest e =
      let (went, same) = publish_ok t api latest e in
      let next = (publish cfg keys date t api).0 in
      let kept = ap (λ (n : Node). get_latest_block n.blockchain) same ∙ e in
      rw (publish_each, went) (publish_each_ok ts next latest kept)

  -- On a chain with a block no listener throws.
  pub on_events_ok :
      (api : Api) (latest : Block)
      → get_latest_block api.node.blockchain ≡ some latest
      → (on_events cfg keys date api).1 ≡ ok tt
  unfolding on_events
  on_events_ok api latest e =
      publish_each_ok (topics_of_each api.node.blockchain.events) (heard api) latest e

-- What follows for the node from a submission that succeeds: what the pool gets and the peers are
-- sent is the copy of the known fields.
pub record Accepts (c : NodeCrypto) (tx : Value) (node node' : Node) : Type 0 where
  pub accepted : Transaction
  pub valid : verify_transaction c tx ≡ ok accepted
  pub copied : accepted.object ≡ tx
  pub queued :
      node'.blockchain.pending_transactions
      ≡ node.blockchain.pending_transactions ++ (accepted ∷ [])
  pub same_chain : node'.blockchain.chain ≡ node.blockchain.chain
  pub same_state : node'.blockchain.state ≡ node.blockchain.state
  pub gossiped : node'.outbox ≡ (broadcast (new_transaction tx) none node).outbox

broadcast_fields :
    (m : Message) (node : Node) (bc : Blockchain)
    → ((broadcast m none (record node { blockchain = bc })).outbox ≡ (broadcast m none node).outbox)
      × ((broadcast m none (record node { blockchain = bc })).blockchain ≡ bc)
unfolding broadcast
broadcast_fields m node bc = (refl, refl)

announce_ok :
    (m : Message) (reply : Reply) (outcome : Api × Result ApiError (Unit {0}))
    → outcome.1 ≡ ok tt
    → announce m reply outcome
      ≡ (record (outcome.0) { node = broadcast m none outcome.0.node }, ok reply)
announce_ok m reply (api, ok _) h = refl
announce_ok m reply (api, err e) h = absurd (ground arith)

-- The listeners are called and the peers are told, once the transaction is queued.
after_submit_ok :
    (cfg : Config) (keys : Bool) (date : ℕ) (m : Message) (reply : Reply) (bc : Blockchain)
    (api : Api) (latest : Block)
    → get_latest_block bc ≡ some latest
    → let r = announce m reply (on_events cfg keys date (with_chain bc api)) in
      (r.1 ≡ ok reply)
      × (r.0.node ≡ broadcast m none (record (api.node) { blockchain = record bc { events = [] } }))
after_submit_ok cfg keys date m reply bc api latest e =
    let after = with_chain bc api in
    let same =
      announce_ok m reply (on_events cfg keys date after)
        (on_events_ok cfg keys date after latest e) in
    let p = on_events-Pushes cfg keys date after in
    (
      ap (λ (r : Api × Result ApiError Reply). r.1) same,
      ap (λ (r : Api × Result ApiError Reply). r.0.node) same ∙ ap (broadcast m none) p.node,
    )

-- On a node that has come to be by a first start, by transactions, blocks and chains, by sweeps and
-- by restarts, `submitTransaction` refuses with the reason of the pool and changes and sends
-- nothing at all, or it succeeds: then the copy of the eight known fields verifies, the transaction
-- that it holds is appended to the pool with just this object, chain and accounts stay, and this
-- copy, which is also the response, is broadcast to the peers.
pub submit_transaction_lem :
    (c : NodeCrypto) (cfg : Config) (my_keys : Option KeyPair) (date now : ℕ) (transaction : Value)
    (api : Api)
    → Reachable c cfg date api.node.blockchain
    → let r = submit_transaction c cfg my_keys date now transaction api in
      let tx = copy_transaction transaction in
      ((r.1 ≡ ok (submitted tx)) × Accepts c tx api.node r.0.node)
      ⊎ ((e : PoolError) × (check_transaction cfg c api.node.blockchain tx ≡ err e)
          × (r ≡ (api, err (transaction_rejected e))))
unfolding submit_transaction
submit_transaction_lem c cfg my_keys date now transaction api reached =
    let tx = copy_transaction transaction in
    let bc = api.node.blockchain in
    elim (add_transaction_cases cfg c now bc tx) [
      | inr (e, bad, same) ↦ inr (e, bad, rw same refl)
      | inl (t, good, same) ↦
          let (_, _, valid, _) = (check_transaction_iff cfg c bc tx t).0 good in
          let (copied, _) = verified_object c tx t valid in
          let queued = enqueue cfg now bc t in
          let (pending_now, state_now, _, chain_same) = enqueue_fields cfg now bc t in
          let (latest, e) =
            IsReplayed-last c cfg date bc.chain bc.state
              (Reachable-IsSound c cfg date bc reached).replayed in
          let kept = ap (λ (bs : List Block). last bs) chain_same ∙ e in
          let (told, node) =
            after_submit_ok cfg (has_keys my_keys) date (new_transaction tx) (submitted tx) queued
              api latest kept in
          let (gossiped, chain) =
            broadcast_fields (new_transaction tx) api.node (record queued { events = [] }) in
          let now_chain = ap (λ (n : Node). n.blockchain) node ∙ chain in
          inl (
            rw same told,
            rw same (record {
              accepted = t;
              valid = valid;
              copied = copied;
              queued = ap (λ (k : Blockchain). k.pending_transactions) now_chain ∙ pending_now;
              same_chain = ap (λ (k : Blockchain). k.chain) now_chain ∙ chain_same;
              same_state = ap (λ (k : Blockchain). k.state) now_chain ∙ state_now;
              gossiped = ap (λ (n : Node). n.outbox) node ∙ gossiped;
            }),
          )
    ]
