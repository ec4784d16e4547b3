-- ===== src/Api/Server.antt =====
-- The connections of src/api.ts: the listeners of a socket, the dispatch of a request, and the
-- heartbeat.
use proof_of_authority_block.Common.{
  ℕ, String, Bool, true, false, not, List, [], ◌∷◌, ◌++◌, map, Option, none, some, ◌&&◌, ◌==◌,
  ◌===◌, filter, Result, ok, err, if◌then◌else◌,
}
use proof_of_authority_block.Json.{Value, Fields, get, object_fields}
use proof_of_authority_block.Crypto.{NodeCrypto, KeyPair}
use proof_of_authority_block.Blockchain.{Config}
use proof_of_authority_block.Api.Types.{
  Topic, status, blocks, pending, peers, Snapshot, Reply, snapshot_reply, ApiError, invalid_json,
  request_no_object, internal_error, unknown_method, Sent, response, failure, ping, Client, Api,
}
use proof_of_authority_block.Api.Publish.{snapshot, send_json, send_each}
use proof_of_authority_block.Api.Texts.{to_text}
use proof_of_authority_block.Api.Methods.{
  KeyFile, fields_of, or_empty_object, get_validators, get_account_reply, subscribe, unsubscribe,
  submit_transaction, propose_method, has_keys,
}

-- The members of `handlers`.
pub data Method : Type 0 where
  get_status_method get_blocks get_pending get_validators_method get_peers_method : Method
  get_account_method submit_method propose_now subscribe_method unsubscribe_method : Method

abbrev pub method_named : String → Option Method
method_named s =
    if s === "getStatus"
    then some get_status_method
    else if s === "getBlocks"
    then some get_blocks
    else if s === "getPending"
    then some get_pending
    else if s === "getValidators"
    then some get_validators_method
    else if s === "getPeers"
    then some get_peers_method
    else if s === "getAccount"
    then some get_account_method
    else if s === "submitTransaction"
    then some submit_method
    else if s === "propose"
    then some propose_now
    else if s === "subscribe"
    then some subscribe_method
    else if s === "unsubscribe"
    then some unsubscribe_method
    else none

-- A snapshot as a result.
abbrev pub as_result : Option Snapshot → Result ApiError Reply
as_result none = err internal_error
as_result (some data_now) = ok (snapshot_reply data_now)

abbrev pub message_of : Value → Result ApiError Reply → Sent
message_of id (ok reply) = response id reply
message_of id (err e) = failure (some id) e

module _ (c : NodeCrypto) (cfg : Config) (my_keys : Option KeyPair) (files : Option (List KeyFile))
    (date date' now : ℕ) where
  -- `handler(params ?? {}, ws)`
  unfoldable pub run_method : ℕ → Method → Value → Api → Api × Result ApiError Reply
  run_method id get_status_method params api =
      (api, as_result (snapshot cfg (has_keys my_keys) date status api.node))
  run_method id get_blocks params api =
      (api, as_result (snapshot cfg (has_keys my_keys) date blocks api.node))
  run_method id get_pending params api =
      (api, as_result (snapshot cfg (has_keys my_keys) date pending api.node))
  run_method id get_validators_method params api = (api, get_validators files)
  run_method id get_peers_method params api =
      (api, as_result (snapshot cfg (has_keys my_keys) date peers api.node))
  run_method id get_account_method params api = (
    api,
    get_account_reply (get "address" (fields_of (or_empty_object params))) api.node.blockchain,
  )
  run_method id submit_method params api =
      submit_transaction c cfg my_keys date' now
        (get "transaction" (fields_of (or_empty_object params))) api
  run_method id propose_now params api = propose_method c cfg my_keys date date' now api
  run_method id subscribe_method params api =
      subscribe id (get "topics" (fields_of (or_empty_object params))) api
  run_method id unsubscribe_method params api =
      unsubscribe id (get "topics" (fields_of (or_empty_object params))) api

  -- The body of the `try`: the method is looked up and run.
  unfoldable pub call : ℕ → Fields → Api → Api × Result ApiError Reply
  call id request api = elim (to_text false (get "method" request)) [
    | none ↦ (api, err internal_error)
    | some name ↦ elim (method_named name) [
      | none ↦ (api, err (unknown_method name))
      | some method ↦ run_method id method (get "params" request) api
    ]
  ]

  -- The response to a request, or its error.
  abbrev pub respond : ℕ → Value → Api × Result ApiError Reply → Api
  respond id request_id (api, result) = send_json id (message_of request_id result) api

  -- The listener of 'message'; the argument `none` is a text that is no JSON.
  unfoldable pub on_message : ℕ → Option Value → Api → Api
  on_message id none api = send_json id (failure none invalid_json) api
  on_message id (some v) api = elim (object_fields v) [
    | none ↦ send_json id (failure none request_no_object) api
    | some request ↦ respond id (get "id" request) (call id request api)
  ]

  -- The callbacks of `setImmediate`, in order.
  unfoldable pub run_deferred : List (ℕ × List Topic) → Api → Api × Result ApiError (Unit {0})
  run_deferred [] api = (api, ok tt)
  run_deferred ((id, requested) ∷ later) api =
      let first = send_each cfg (has_keys my_keys) date' id requested api in
      let rest = run_deferred later first.0 in
      elim (first.1) [ ok _ ↦ rest | err e ↦ (first.0, err e) ]

  unfoldable pub run_immediate : Api → Api × Result ApiError (Unit {0})
  run_immediate api = run_deferred api.deferred (record api { deferred = [] })

-- The listener of 'connection': a new client, whose socket is open.
unfoldable pub on_connection : ℕ → Api → Api
on_connection id api = record api {
  clients = api.clients ++ (record { id = id; topics = []; is_alive = true; is_open = true } ∷ []);
}

-- The listener of 'pong'
unfoldable pub on_pong : ℕ → Api → Api
on_pong id api = record api {
  clients =
      map (λ (k : Client). if k.id == id then record k { is_alive = true } else k) api.clients;
}

-- The listener of 'close'
unfoldable pub on_client_close : ℕ → Api → Api
on_client_close id api = record api { clients = filter (λ k. not (k.id == id)) api.clients }

-- What a heartbeat does to a client: one that has not answered the last ping is terminated, any
-- other has to answer the next.
abbrev pub beat_client : Client → Client
beat_client k = if k.is_alive then record k { is_alive = false } else record k { is_open = false }

-- The test for a ping that goes out.
abbrev pub is_pinged : Client → Bool
is_pinged k = k.is_alive && k.is_open

-- The callback of the timer of the heartbeat.
unfoldable pub heartbeat : Api → Api
heartbeat api = record api {
  clients = map beat_client api.clients;
  outbox = api.outbox ++ map (λ (k : Client). (k.id, ping)) (filter is_pinged api.clients);
}
