-- ===== src/Api/Pushes.antt =====
-- `publish` of src/api.ts and the calls of it: what they send, and that they change nothing else.
use proof_of_authority_block.Common.{
  ℕ, ◌≡◌, refl, sym, ap, ◌∙◌, inl, inr, List, [], ◌∷◌, ◌++◌, map, filter, All, All-append,
  Option-cases, Bool-cases, Result-cases, Bool,
}
use proof_of_authority_block.Blockchain.{Blockchain, Config}
use proof_of_authority_block.Proposer.{is_empty}
use proof_of_authority_block.Api.{
  Topic, Snapshot, Sent, push, Client, Api, listens, snapshot, publish, publish_each,
  topics_of_each, on_events,
}

-- A message that is a push.
abbrev pub IsPush : ℕ × Sent → Type 0
IsPush m = (t : Topic) × (now : Snapshot) × (m.1 ≡ push t now)

-- Pushes have been sent, and nothing else has changed.
pub record Pushes (api api' : Api) : Type 0 where
  pub clients : api'.clients ≡ api.clients
  pub node : api'.node ≡ api.node
  pub pushes : List (ℕ × Sent)
  pub sent : api'.outbox ≡ api.outbox ++ pushes
  pub each : All IsPush pushes

pub ++-[] {ℓ} : {A : Type ℓ} (xs : List A) → xs ++ [] ≡ xs
++-[] [] = refl
++-[] (x ∷ xs) = ap (◌∷◌ x) (++-[] xs)

pub ++-assoc {ℓ} : {A : Type ℓ} (xs ys zs : List A) → (xs ++ ys) ++ zs ≡ xs ++ (ys ++ zs)
++-assoc [] ys zs = refl
++-assoc (x ∷ xs) ys zs = ap (◌∷◌ x) (++-assoc xs ys zs)

pub Pushes-none : (api : Api) → Pushes api api
Pushes-none api = record {
  clients = refl;
  node = refl;
  pushes = [];
  sent = sym (++-[] api.outbox);
  each = tt;
}

Pushes-trans : (a b d : Api) → Pushes a b → Pushes b d → Pushes a d
Pushes-trans a b d p q = record {
  clients = q.clients ∙ p.clients;
  node = q.node ∙ p.node;
  pushes = p.pushes ++ q.pushes;
  sent =
      q.sent
      ∙ ap (λ (ms : List (ℕ × Sent)). ms ++ q.pushes) p.sent
      ∙ ++-assoc a.outbox p.pushes q.pushes;
  each = All-append IsPush p.pushes q.pushes p.each q.each;
}

pushes_of : Topic → Snapshot → List Client → List (ℕ × Sent)
pushes_of t now ks = map (λ (k : Client). (k.id, push t now)) ks

pushes_of-IsPush : (t : Topic) (now : Snapshot) (ks : List Client) → All IsPush (pushes_of t now ks)
unfolding pushes_of
pushes_of-IsPush t now [] = tt
pushes_of-IsPush t now (k ∷ ks) = ((t, now, refl), pushes_of-IsPush t now ks)

-- The node, with its events heard.
abbrev pub heard : Api → Api
heard api =
    let bc : Blockchain = record (api.node.blockchain) { events = [] } in
    record api { node = record (api.node) { blockchain = bc } }

module _ (cfg : Config) (keys : Bool) (date : ℕ) where
  publish-Pushes : (t : Topic) (api : Api) → Pushes api (publish cfg keys date t api).0
  unfolding publish pushes_of
  publish-Pushes t api =
      let listeners = filter (listens t) api.clients in
      elim (Bool-cases (is_empty listeners)) [
        | inl nobody ↦ rw nobody (Pushes-none api)
        | inr some_one ↦ elim (Option-cases (snapshot cfg keys date t api.node)) [
          | inl thrown ↦ rw (some_one, thrown) (Pushes-none api)
          | inr (now, e) ↦
              rw (some_one, e)
                (record {
                  clients = refl;
                  node = refl;
                  pushes = pushes_of t now listeners;
                  sent = refl;
                  each = pushes_of-IsPush t now listeners;
                })
        ]
      ]

  publish_each-Pushes :
      (ts : List Topic) (api : Api) → Pushes api (publish_each cfg keys date ts api).0
  unfolding publish_each
  publish_each-Pushes [] api = Pushes-none api
  publish_each-Pushes (t ∷ ts) api =
      let first = publish cfg keys date t api in
      let p = publish-Pushes t api in
      elim (Result-cases first.1) [
        | inl (_, done) ↦
            rw (publish_each, done)
              (Pushes-trans api first.0 (publish_each cfg keys date ts first.0).0 p
                (publish_each-Pushes ts first.0))
        | inr (e, thrown) ↦ rw (publish_each, thrown) p
      ]

  pub on_events-Pushes : (api : Api) → Pushes (heard api) (on_events cfg keys date api).0
  unfolding on_events
  on_events-Pushes api = publish_each-Pushes (topics_of_each api.node.blockchain.events) (heard api)
