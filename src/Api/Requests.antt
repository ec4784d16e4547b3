-- ===== src/Api/Requests.antt =====
-- The listener of 'message' of src/api.ts: every request of a client is answered.
use mathlib.Core.Path.{subst}
use proof_of_authority_block.Common.{
  ℕ, ◌≤◌, ◌≡◌, refl, sym, ap, ◌∙◌, ◌⊎◌, inl, inr, true, false, List, [], ◌∷◌, ◌++◌, Option, none,
  some, arith, All, Option-cases, Result, ok, err,
}
use proof_of_authority_block.Json.{Value, Fields, get, object_fields}
use proof_of_authority_block.Crypto.{NodeCrypto, KeyPair}
use proof_of_authority_block.Blockchain.{Config}
use proof_of_authority_block.Blockchain.Reach.{Reachable, later}
use proof_of_authority_block.Api.{
  Sent, response, failure, ApiError, Reply, Api, KeyFile, Method, invalid_json, request_no_object,
  get_status_method, get_blocks, get_pending, get_validators_method, get_peers_method,
  get_account_method, submit_method, propose_now, subscribe_method, unsubscribe_method, message_of,
  send_json, put, run_method, call, on_message, find_client, to_text, method_named,
}
use proof_of_authority_block.Api.Pushes.{IsPush}
use proof_of_authority_block.Api.Chain.{
  Handled, Handled-none, is_open_to, submit_transaction-Handled, propose_method-Handled,
  subscribe-Handled, unsubscribe-Handled,
}

-- The message answers a request with these fields, or a JSON value that is no object.
abbrev pub AnswersTo : Option Fields → Sent → Type 0
AnswersTo none m = m ≡ failure none request_no_object
AnswersTo (some request) m =
    ((reply : Reply) × (m ≡ response (get "id" request) reply))
    ⊎ ((e : ApiError) × (m ≡ failure (some (get "id" request)) e))

-- The message answers what the client sent.
abbrev pub IsAnswer : Option Value → Sent → Type 0
IsAnswer none m = m ≡ failure none invalid_json
IsAnswer (some v) m = AnswersTo (object_fields v) m

-- After a request the node is one that can come to be, and the client has been sent pushes, if any,
-- and then the answer.
pub record Answered (c : NodeCrypto) (cfg : Config) (date id : ℕ) (raw : Option Value)
    (api api' : Api) : Type 0 where
  pub reached : Reachable c cfg date api'.node.blockchain
  pub pushes : List (ℕ × Sent)
  pub answer : Sent
  pub each : All IsPush pushes
  pub answers : IsAnswer raw answer
  pub sent : api'.outbox ≡ (api.outbox ++ pushes) ++ ((id, answer) ∷ [])

send_json-put :
    (id : ℕ) (m : Sent) (api : Api)
    → is_open_to id api.clients ≡ true
    → send_json id m api ≡ put id m api
unfolding send_json
send_json-put id m api h = elim (Option-cases (find_client id api.clients)) [
  | inl missing ↦ absurd (ground arith)
  | inr (k, found) ↦ ground arith
]

message_of-IsAnswer :
    (v : Value) (request : Fields) (result : Result ApiError Reply)
    → object_fields v ≡ some request
    → IsAnswer (some v) (message_of (get "id" request) result)
message_of-IsAnswer v request (ok reply) e = rw (IsAnswer, e) (inl (reply, refl))
message_of-IsAnswer v request (err why) e = rw (IsAnswer, e) (inr (why, refl))

module _ (c : NodeCrypto) (cfg : Config) (my_keys : Option KeyPair) (files : Option (List KeyFile))
    (date date' now : ℕ) where
  run_method-Handled :
      (id : ℕ) (method : Method) (params : Value) (api : Api)
      → Reachable c cfg date' api.node.blockchain
      → Handled c cfg date' api
          (run_method c cfg my_keys files date date' now id method params api).0
  unfolding run_method
  run_method-Handled id get_status_method params api r =
      Handled-none c cfg my_keys date date' now api r
  run_method-Handled id get_blocks params api r = Handled-none c cfg my_keys date date' now api r
  run_method-Handled id get_pending params api r = Handled-none c cfg my_keys date date' now api r
  run_method-Handled id get_validators_method params api r =
      Handled-none c cfg my_keys date date' now api r
  run_method-Handled id get_peers_method params api r =
      Handled-none c cfg my_keys date date' now api r
  run_method-Handled id get_account_method params api r =
      Handled-none c cfg my_keys date date' now api r
  run_method-Handled id submit_method params api r =
      submit_transaction-Handled c cfg my_keys date date' now _ api r
  run_method-Handled id propose_now params api r =
      propose_method-Handled c cfg my_keys date date' now api r
  run_method-Handled id subscribe_method params api r =
      subscribe-Handled c cfg my_keys date date' now id _ api r
  run_method-Handled id unsubscribe_method params api r =
      unsubscribe-Handled c cfg my_keys date date' now id _ api r

  call-Handled :
      (id : ℕ) (request : Fields) (api : Api)
      → Reachable c cfg date' api.node.blockchain
      → Handled c cfg date' api (call c cfg my_keys files date date' now id request api).0
  unfolding call
  call-Handled id request api r = elim (Option-cases (to_text false (get "method" request))) [
    | inl thrown ↦ rw (call, thrown) (Handled-none c cfg my_keys date date' now api r)
    | inr (name, e) ↦ elim (Option-cases (method_named name)) [
      | inl unknown ↦ rw (call, e, unknown) (Handled-none c cfg my_keys date date' now api r)
      | inr (method, known) ↦
          rw (call, e, known) (run_method-Handled id method (get "params" request) api r)
    ]
  ]

  -- An answer is sent after what a method has sent.
  put-Answered :
      (id : ℕ) (raw : Option Value) (m : Sent) (api api' : Api)
      → is_open_to id api.clients ≡ true
      → IsAnswer raw m
      → Handled c cfg date' api api'
      → Answered c cfg date' id raw api (send_json id m api')
  put-Answered id raw m api api' open_now a h =
      subst (Answered c cfg date' id raw api)
        (sym (send_json-put id m api' (h.open_to id ∙ open_now)))
        (record {
          reached = h.reached;
          pushes = h.pushes;
          answer = m;
          each = h.each;
          answers = a;
          sent = ap (λ (ms : List (ℕ × Sent)). ms ++ ((id, m) ∷ [])) h.sent;
        })

  -- Whatever a client whose socket is open sends, text that is no JSON included, the node that has
  -- come to be by a first start, by transactions, blocks and chains, by sweeps and by restarts is
  -- still one after the request, with a clock that does not go back, and what the server has sent
  -- in the meantime are pushes, if any, and as the last message exactly one answer to that client:
  -- a response or an error with the identifier of the request, or the error for no JSON or for a
  -- value that is no object.
  pub on_message-Answered :
      (id : ℕ) (raw : Option Value) (api : Api)
      → is_open_to id api.clients ≡ true
      → date ≤ date'
      → Reachable c cfg date api.node.blockchain
      → Answered c cfg date' id raw api (on_message c cfg my_keys files date date' now id raw api)
  unfolding on_message
  on_message-Answered id none api open_now le r =
      put-Answered id none (failure none invalid_json) api api open_now refl
        (Handled-none c cfg my_keys date date' now api (later r le))
  on_message-Answered id (some v) api open_now le r =
      let nothing = Handled-none c cfg my_keys date date' now api (later r le) in
      elim (Option-cases (object_fields v)) [
        | inl no_object ↦
            let answers : IsAnswer (some v) (failure none request_no_object) =
              rw (IsAnswer, no_object) refl in
            rw (on_message, no_object)
              (put-Answered id (some v) (failure none request_no_object) api api open_now answers
                nothing)
        | inr (request, e) ↦
            let outcome = call c cfg my_keys files date date' now id request api in
            let m = message_of (get "id" request) outcome.1 in
            rw (on_message, e)
              (put-Answered id (some v) m api outcome.0 open_now
                (message_of-IsAnswer v request outcome.1 e)
                (call-Handled id request api (later r le)))
      ]
