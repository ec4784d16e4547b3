-- ===== src/Api/Chain.antt =====
-- What the methods of src/api.ts do to the node and send to the clients.
use mathlib.Core.Path.{subst}
use proof_of_authority_block.Common.{
  ℕ, ◌≡◌, refl, inl, inr, false, List, [], ◌∷◌, ◌++◌, Option, none, some, arith, All, Option-cases,
  Result, Result-cases, ok, err, Bool,
}
use proof_of_authority_block.Json.{Value}
use proof_of_authority_block.Crypto.{NodeCrypto, KeyPair}
use proof_of_authority_block.Block.{Block}
use proof_of_authority_block.Blockchain.{
  Blockchain, Config, PoolError, enqueue, get_latest_block, add_block,
}
use proof_of_authority_block.Blockchain.Reach.{
  Reachable, transaction_added, block_added, events_heard,
}
use proof_of_authority_block.Blockchain.Admission.{add_transaction_cases}
use proof_of_authority_block.P2p.{Message, Node, broadcast, new_transaction, new_block}
use proof_of_authority_block.Proposer.{ProposeError, check_propose, propose, next_block}
use proof_of_authority_block.Api.{
  Topic, Sent, ApiError, Reply, Client, Api, on_events, with_chain, with_topics, announce,
  subscribe, unsubscribe, submit_transaction, after_propose, propose_method, has_keys, find_client,
  copy_transaction, parse_topics, submitted, block_proposed,
}
use proof_of_authority_block.Api.Pushes.{Pushes-none, IsPush, on_events-Pushes}

-- The socket of the client is open.
abbrev pub is_open_to : ℕ → List Client → Bool
is_open_to id ks = elim (find_client id ks) [ none ↦ false | some k ↦ k.is_open ]

-- A method has run: the node is one that can come to be, no socket has opened or closed, and what
-- was sent are pushes.
pub record Handled (c : NodeCrypto) (cfg : Config) (date : ℕ) (api api' : Api) : Type 0 where
  pub reached : Reachable c cfg date api'.node.blockchain
  pub open_to : (id : ℕ) → is_open_to id api'.clients ≡ is_open_to id api.clients
  pub pushes : List (ℕ × Sent)
  pub sent : api'.outbox ≡ api.outbox ++ pushes
  pub each : All IsPush pushes

with_topics_open :
    (i id : ℕ) (set : List Topic) (ks : List Client)
    → is_open_to i (with_topics id set ks) ≡ is_open_to i ks
with_topics_open i id set [] = refl
with_topics_open i id set (k ∷ ks) = ground (arith, with_topics_open i id set ks)

broadcast-blockchain :
    (m : Message) (node : Node) → (broadcast m none node).blockchain ≡ node.blockchain
unfolding broadcast
broadcast-blockchain m node = refl

-- The body of `propose` leaves a node that can come to be.
propose-Reachable :
    (c : NodeCrypto) (cfg : Config) (my_keys : Option KeyPair) (date date' now : ℕ)
    (bc bc' : Blockchain) (result : Result ProposeError Block)
    → Reachable c cfg date' bc
    → propose c cfg my_keys date date' now bc ≡ some (bc', result)
    → Reachable c cfg date' bc'
unfolding propose
propose-Reachable c cfg my_keys date date' now bc bc' result r h =
    elim (Option-cases (get_latest_block bc)) [
      | inl missing ↦ absurd (ground arith)
      | inr (latest, e) ↦ elim (Result-cases (check_propose c cfg my_keys date bc latest)) [
        | inr (why, stop) ↦
            let same : bc ≡ bc' = ground arith in subst (Reachable c cfg date') same r
        | inl ((keys, txs), go) ↦
            let block = next_block c cfg keys date latest txs in
            elim (Option-cases (add_block c cfg date' now bc (some block))) [
              | inl thrown ↦ absurd (ground arith)
              | inr ((after, ok u), added) ↦
                  let same : after ≡ bc' = ground arith in
                  subst (Reachable c cfg date') same (block_added now (some block) r added)
              | inr ((after, err why), added) ↦
                  let same : after ≡ bc' = ground arith in
                  subst (Reachable c cfg date') same (block_added now (some block) r added)
            ]
      ]
    ]

module _ (c : NodeCrypto) (cfg : Config) (my_keys : Option KeyPair) (date date' now : ℕ) where
  pub Handled-none :
      (api : Api) → Reachable c cfg date' api.node.blockchain → Handled c cfg date' api api
  Handled-none api r =
      let none_sent = Pushes-none api in
      record {
        reached = r;
        open_to = λ id. refl;
        pushes = none_sent.pushes;
        sent = none_sent.sent;
        each = none_sent.each;
      }

  -- The chain has changed, and its listeners are called.
  events-Handled :
      (api : Api) (bc : Blockchain)
      → Reachable c cfg date' bc
      → Handled c cfg date' api (on_events cfg (has_keys my_keys) date' (with_chain bc api)).0
  events-Handled api bc r =
      let p = on_events-Pushes cfg (has_keys my_keys) date' (with_chain bc api) in
      record {
        reached = rw (p.node) (events_heard r);
        open_to = λ id. rw (p.clients) refl;
        pushes = p.pushes;
        sent = p.sent;
        each = p.each;
      }

  announce-Handled :
      (m : Message) (reply : Reply) (api : Api) (outcome : Api × Result ApiError (Unit {0}))
      → Handled c cfg date' api outcome.0
      → Handled c cfg date' api (announce m reply outcome).0
  announce-Handled m reply api (api', err e) h = h
  announce-Handled m reply api (api', ok _) h = record {
    reached = rw (broadcast-blockchain m api'.node) h.reached;
    open_to = h.open_to;
    pushes = h.pushes;
    sent = h.sent;
    each = h.each;
  }

  pub submit_transaction-Handled :
      (transaction : Value) (api : Api)
      → Reachable c cfg date' api.node.blockchain
      → Handled c cfg date' api (submit_transaction c cfg my_keys date' now transaction api).0
  unfolding submit_transaction
  submit_transaction-Handled transaction api r =
      let tx = copy_transaction transaction in
      let bc = api.node.blockchain in
      let r' = transaction_added now tx r in
      elim (add_transaction_cases cfg c now bc tx) [
        | inr (e, _, same) ↦ rw same (Handled-none api r)
        | inl (t, _, same) ↦
            let queued = enqueue cfg now bc t in
            let reached =
              subst (λ (o : Blockchain × Result PoolError (Unit {0})). Reachable c cfg date' o.0)
                same r' in
            rw (same) (
              announce-Handled (new_transaction tx) (submitted tx) api
                (on_events cfg (has_keys my_keys) date' (with_chain queued api))
                (events-Handled api queued reached))
      ]

  after_propose-Handled :
      (api : Api) (bc : Blockchain) (result : Result ProposeError Block)
      → Reachable c cfg date' bc
      → Handled c cfg date' api (after_propose c cfg my_keys date' api (bc, result)).0
  after_propose-Handled api bc (err e) r =
      let h = Handled-none (with_chain bc api) r in
      record { reached = r; open_to = λ id. refl; pushes = h.pushes; sent = h.sent; each = h.each }
  after_propose-Handled api bc (ok block) r =
      announce-Handled (new_block (some block)) (block_proposed block) api
        (on_events cfg (has_keys my_keys) date' (with_chain bc api)) (events-Handled api bc r)

  pub propose_method-Handled :
      (api : Api)
      → Reachable c cfg date' api.node.blockchain
      → Handled c cfg date' api (propose_method c cfg my_keys date date' now api).0
  unfolding propose_method
  propose_method-Handled api r =
      elim (Option-cases (propose c cfg my_keys date date' now api.node.blockchain)) [
        | inl thrown ↦ rw (propose_method, thrown) (Handled-none api r)
        | inr ((bc, result), e) ↦
            rw (propose_method, e)
              (after_propose-Handled api bc result
                (propose-Reachable c cfg my_keys date date' now api.node.blockchain bc result r e))
      ]

  -- Only the topics of a client have changed, and what is deferred.
  topics-Handled :
      (id : ℕ) (set : List Topic) (later : List (ℕ × List Topic)) (api : Api)
      → Reachable c cfg date' api.node.blockchain
      → Handled c cfg date' api
          (record api { clients = with_topics id set api.clients; deferred = later })
  topics-Handled id set later api r =
      let h = Handled-none api r in
      record {
        reached = r;
        open_to = λ i. with_topics_open i id set api.clients;
        pushes = h.pushes;
        sent = h.sent;
        each = h.each;
      }

  pub subscribe-Handled :
      (id : ℕ) (topics : Value) (api : Api)
      → Reachable c cfg date' api.node.blockchain
      → Handled c cfg date' api (subscribe id topics api).0
  unfolding subscribe
  subscribe-Handled id topics api r = elim (Result-cases (parse_topics topics)) [
    | inr (e, bad) ↦ rw (subscribe, bad) (Handled-none api r)
    | inl (requested, good) ↦ elim (Option-cases (find_client id api.clients)) [
      | inl missing ↦ rw (subscribe, good, missing) (Handled-none api r)
      | inr (k, found) ↦ rw (subscribe, good, found) (topics-Handled id _ _ api r)
    ]
  ]

  pub unsubscribe-Handled :
      (id : ℕ) (topics : Value) (api : Api)
      → Reachable c cfg date' api.node.blockchain
      → Handled c cfg date' api (unsubscribe id topics api).0
  unfolding unsubscribe
  unsubscribe-Handled id topics api r = elim (Result-cases (parse_topics topics)) [
    | inr (e, bad) ↦ rw (unsubscribe, bad) (Handled-none api r)
    | inl (requested, good) ↦ elim (Option-cases (find_client id api.clients)) [
      | inl missing ↦ rw (unsubscribe, good, missing) (Handled-none api r)
      | inr (k, found) ↦ rw (unsubscribe, good, found) (topics-Handled id _ api.deferred api r)
    ]
  ]
