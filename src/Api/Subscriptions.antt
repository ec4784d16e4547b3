-- ===== src/Api/Subscriptions.antt =====
-- Subscriptions of src/api.ts: who is sent a push of a topic.
use mathlib.Core.Path.{subst}
use proof_of_authority_block.Common.{
  ℕ, ◌≡◌, refl, sym, inl, inr, true, false, List, [], ◌∷◌, ◌++◌, map, some, arith, Bool-cases, Bool,
  filter, any, All, ◌==◌, ok,
}
use proof_of_authority_block.Common.Sort.{Elem}
use proof_of_authority_block.Json.{Value}
use proof_of_authority_block.Block.{Block}
use proof_of_authority_block.Blockchain.{Config, get_latest_block}
use proof_of_authority_block.Proposer.{is_empty}
use proof_of_authority_block.Api.{
  Topic, is_topic, Snapshot, Sent, push, Client, Api, listens, snapshot, publish, find_client,
  parse_topics, add_topics, delete_topics, with_topics, subscribe, unsubscribe,
}
use proof_of_authority_block.Api.Pushes.{++-[]}
use proof_of_authority_block.Api.Submission.{snapshot_total}
use proof_of_authority_block.Api.Topics.{
  Elem-filter, Elem-map, add_topics_new, delete_topics_lem, find-with_topics, find_client-Elem,
}

-- A push of the topic is sent to the client, with the data of the moment.
pub record Sends (cfg : Config) (keys : Bool) (date : ℕ) (t : Topic) (id : ℕ) (api api' : Api)
    : Type 0 where
  pub now : Snapshot
  pub pushes : List (ℕ × Sent)
  pub read : snapshot cfg keys date t api.node ≡ some now
  pub sent : api'.outbox ≡ api.outbox ++ pushes
  pub reached : Elem (id, push t now) pushes

-- What is sent goes to others than the client.
pub record Spares (id : ℕ) (api api' : Api) : Type 0 where
  pub pushes : List (ℕ × Sent)
  pub sent : api'.outbox ≡ api.outbox ++ pushes
  pub others : All (λ (m : ℕ × Sent). (m.0 == id) ≡ false) pushes

Elem-not-empty {ℓ} : {A : Type ℓ} (x : A) (xs : List A) → Elem x xs → is_empty xs ≡ false
Elem-not-empty x [] m = elim m [ ]
Elem-not-empty x (y ∷ ys) m = refl

-- Every entry of the client has a set without the topic.
IsQuiet : Topic → ℕ → List Client → Type 0
IsQuiet t id ks = All (λ (k : Client). k.id ≡ id → any (is_topic t) k.topics ≡ false) ks

with_topics-IsQuiet :
    (t : Topic) (id : ℕ) (set : List Topic) (ks : List Client)
    → any (is_topic t) set ≡ false
    → IsQuiet t id (with_topics id set ks)
unfolding IsQuiet
with_topics-IsQuiet t id set [] h = tt
with_topics-IsQuiet t id set (k ∷ ks) h = (λ e. ground arith, with_topics-IsQuiet t id set ks h)

quiet_pushes :
    (t : Topic) (id : ℕ) (now : Snapshot) (ks : List Client)
    → IsQuiet t id ks
    → All
        (λ (m : ℕ × Sent). (m.0 == id) ≡ false)
        (map (λ (k : Client). (k.id, push t now)) (filter (listens t) ks))
unfolding IsQuiet
quiet_pushes t id now [] h = tt
quiet_pushes t id now (k ∷ ks) h = elim (Bool-cases (listens t k)) [
  | inl hears ↦ rw (listens, hears) ((ground (arith, h.0), quiet_pushes t id now ks h.1))
  | inr deaf ↦ rw (listens, deaf) (quiet_pushes t id now ks h.1)
]

module _ (cfg : Config) (keys : Bool) (date : ℕ) (t : Topic) (id : ℕ) (api : Api)
    (latest : Block) where
  publish-Sends :
      (k : Client)
      → get_latest_block api.node.blockchain ≡ some latest
      → find_client id api.clients ≡ some k
      → listens t k ≡ true
      → Sends cfg keys date t id api (publish cfg keys date t api).0
  unfolding publish
  publish-Sends k e found hears =
      let (now, read) = snapshot_total cfg keys date t api.node latest e in
      let (m, same) = find_client-Elem id api.clients k found in
      let listener = Elem-filter (listens t) k api.clients m hears in
      rw (Elem-not-empty k (filter (listens t) api.clients) listener, read)
        (record {
          now = now;
          pushes = map (λ (j : Client). (j.id, push t now)) (filter (listens t) api.clients);
          read = read;
          sent = refl;
          reached =
              subst
                (λ (i : ℕ).
                  Elem {A = ℕ × Sent} (i, push t now)
                    (map (λ (j : Client). (j.id, push t now)) (filter (listens t) api.clients)))
                same (Elem-map (λ (j : Client). (j.id, push t now)) k _ listener);
        })

  publish-Spares :
      get_latest_block api.node.blockchain ≡ some latest
      → IsQuiet t id api.clients
      → Spares id api (publish cfg keys date t api).0
  unfolding publish
  publish-Spares e quiet =
      let (now, read) = snapshot_total cfg keys date t api.node latest e in
      elim (Bool-cases (is_empty (filter (listens t) api.clients))) [
        | inl nobody ↦
            rw nobody (record { pushes = []; sent = sym (++-[] api.outbox); others = tt })
        | inr some_one ↦
            rw (some_one, read)
              (record {
                pushes = map (λ (j : Client). (j.id, push t now)) (filter (listens t) api.clients);
                sent = refl;
                others = quiet_pushes t id now api.clients quiet;
              })
      ]

subscribe_ok :
    (id : ℕ) (v : Value) (requested : List Topic) (api : Api) (k : Client)
    → find_client id api.clients ≡ some k
    → parse_topics v ≡ ok requested
    → (subscribe id v api).0 ≡ record api {
      clients = with_topics id (add_topics requested k.topics) api.clients;
      deferred = api.deferred ++ ((id, requested) ∷ []);
    }
unfolding subscribe
subscribe_ok id v requested api k found good = rw (subscribe, good, found) refl

unsubscribe_ok :
    (id : ℕ) (v : Value) (requested : List Topic) (api : Api) (k : Client)
    → find_client id api.clients ≡ some k
    → parse_topics v ≡ ok requested
    → (unsubscribe id v api).0
      ≡ record api { clients = with_topics id (delete_topics requested k.topics) api.clients }
unfolding unsubscribe
unsubscribe_ok id v requested api k found good = rw (unsubscribe, good, found) refl

-- If the chain has a block and the request lists known topics, then after a client with an open
-- socket has subscribed, a push of any of these topics reaches it with the data that the node has
-- then, and after the client has unsubscribed, no push of any of them goes to it.
pub subscribe-publish :
    (cfg : Config) (keys : Bool) (date id : ℕ) (v : Value) (requested : List Topic) (t : Topic)
    (api : Api) (k : Client) (latest : Block)
    → get_latest_block api.node.blockchain ≡ some latest
    → find_client id api.clients ≡ some k
    → k.is_open ≡ true
    → parse_topics v ≡ ok requested
    → Elem t requested
    → let subscribed_api = (subscribe id v api).0 in
      let quiet_api = (unsubscribe id v api).0 in
      Sends cfg keys date t id subscribed_api (publish cfg keys date t subscribed_api).0
      × Spares id quiet_api (publish cfg keys date t quiet_api).0
subscribe-publish cfg keys date id v requested t api k latest e found open_now good m = (
  let set = add_topics requested k.topics in
      let k' : Client = record k { topics = set } in
      let api' : Api = record api {
        clients = with_topics id set api.clients;
        deferred = api.deferred ++ ((id, requested) ∷ []);
      } in
      let hears : listens t k' ≡ true = ground (arith, add_topics_new t requested k.topics m) in
      subst (λ (a : Api). Sends cfg keys date t id a (publish cfg keys date t a).0)
        (sym (subscribe_ok id v requested api k found good))
        (publish-Sends cfg keys date t id api' latest k' e
          (find-with_topics id set api.clients k found) hears),
  let set = delete_topics requested k.topics in
      let api' : Api = record api { clients = with_topics id set api.clients } in
      subst (λ (a : Api). Spares id a (publish cfg keys date t a).0)
        (sym (unsubscribe_ok id v requested api k found good))
        (publish-Spares cfg keys date t id api' latest e
          (with_topics-IsQuiet t id set api.clients (delete_topics_lem t requested k.topics m))),
)
