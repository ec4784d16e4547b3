-- ===== src/Tests/Clients.antt =====
-- Instances of the theorems on the API: a server with one client, before a node at genesis.
use proof_of_authority_block.Common.{
  ◌≡◌, ◌⊎◌, refl, [], ◌∷◌, none, some, ok, err, arith, false, true,
}
use proof_of_authority_block.Common.Int.{pos}
use proof_of_authority_block.Common.Sort.{here, there}
use proof_of_authority_block.Json.{Value, num, int, str, arr, obj, nil, cons, end, field}
use proof_of_authority_block.Blockchain.{PoolError, check_transaction, start_at_genesis}
use proof_of_authority_block.Api.{
  status, blocks, Api, Client, transaction_rejected, submitted, heartbeat, on_pong, on_message,
  copy_transaction, submit_transaction, subscribe, unsubscribe, publish, parse_topics,
}
use proof_of_authority_block.Api.Chain.{is_open_to}
use proof_of_authority_block.Api.Requests.{Answered, on_message-Answered}
use proof_of_authority_block.Api.Submission.{Accepts, submit_transaction_lem}
use proof_of_authority_block.Api.Subscriptions.{Sends, Spares, subscribe-publish}
use proof_of_authority_block.Api.Heartbeat.{heartbeat_lem}
use proof_of_authority_block.Tests.World.{
  toy_crypto, validator_keys, config, signed_payment, genesis, fresh_node,
}
use proof_of_authority_block.Tests.Runs.{fresh_node-Reachable}
use proof_of_authority_block.Tests.Network.{node_with}

abbrev listener : Client
listener = record { id = 7; topics = blocks ∷ []; is_alive = true; is_open = true }

abbrev pub server : Api
server = record {
  clients = listener ∷ [];
  last_peers_json = "";
  deferred = [];
  outbox = [];
  node = node_with fresh_node;
}

-- { id: 1, method: 'submitTransaction', params: { transaction } }
abbrev submission : Value
submission = obj (
    field "id" (num (int (pos 1))) (
      field "method" (str "submitTransaction")
        (field "params" (obj (field "transaction" signed_payment.object end)) end)))

-- ['blocks', 'status']
abbrev two_topics : Value
two_topics = arr (cons (str "blocks") (cons (str "status") nil))

on_message-Answered_example :
    Answered toy_crypto config 12 7
      (some submission)
      server
      (on_message toy_crypto config (some validator_keys) none 0 12 0 7 (some submission) server)
on_message-Answered_example =
    on_message-Answered toy_crypto config (some validator_keys) none 0 12 0 7 (some submission)
      server refl (omega arith) fresh_node-Reachable

submit_transaction_lem_example :
    let r = submit_transaction toy_crypto config none 0 0 signed_payment.object server in
    let tx = copy_transaction signed_payment.object in
    ((r.1 ≡ ok (submitted tx)) × Accepts toy_crypto tx server.node r.0.node)
    ⊎ ((e : PoolError) × (check_transaction config toy_crypto server.node.blockchain tx ≡ err e)
        × (r ≡ (server, err (transaction_rejected e))))
submit_transaction_lem_example =
    submit_transaction_lem toy_crypto config none 0 0 signed_payment.object server
      fresh_node-Reachable

subscribe-publish_example :
    let subscribed_api = (subscribe 7 two_topics server).0 in
    let quiet_api = (unsubscribe 7 two_topics server).0 in
    Sends config false 12 status 7 subscribed_api (publish config false 12 status subscribed_api).0
    × Spares 7 quiet_api (publish config false 12 status quiet_api).0
unfolding parse_topics start_at_genesis
subscribe-publish_example =
    subscribe-publish config false 12 7 two_topics (blocks ∷ status ∷ []) status server listener
      genesis refl refl refl refl (there (here refl))

heartbeat_lem_example :
    (is_open_to 7 (heartbeat (heartbeat server)).clients ≡ false)
    × (is_open_to 7 (heartbeat (on_pong 7 (heartbeat server))).clients
        ≡ is_open_to 7 (heartbeat server).clients)
heartbeat_lem_example = heartbeat_lem 7 server
