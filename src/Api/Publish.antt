-- ===== src/Api/Publish.antt =====
-- The pushes of src/api.ts: `sendJson`, `publish`, the listeners on the chain's events, and the
-- timer that pushes the status. `date` is what `Date.now()` shows.
use proof_of_authority_block.Common.{
  ℕ, Bool, List, [], ◌∷◌, ◌++◌, map, Option, none, some, ◌&&◌, ◌===◌, any, filter, String, Result,
  ok, err, if◌then◌else◌,
}
use proof_of_authority_block.Common.Int.{pos}
use proof_of_authority_block.Json.{Value, undefined, num, str, arr, obj, int, end, field, stringify}
use proof_of_authority_block.Block.{items}
use proof_of_authority_block.Blockchain.{Blockchain, Config, Event, pending_changed, blocks_changed}
use proof_of_authority_block.PeerTable.{PeerEntry}
use proof_of_authority_block.P2p.{Node, PeerInfo, Connection, get_peer_info}
use proof_of_authority_block.Proposer.{is_empty}
use proof_of_authority_block.Api.Types.{
  Topic, status, blocks, pending, peers, is_topic, Snapshot, status_now, chain_now, pool_now,
  peers_now, ApiError, internal_error, Sent, push, Client, Api, find_client, get_status,
}

abbrev pub optional_string : Option String → Value
optional_string none = undefined
optional_string (some s) = str s

abbrev pub connection_value : Connection → Value
connection_value k =
    let direction = if k.is_outbound then "outbound" else "inbound" in
    obj (
      field "address" (optional_string k.address)
        (field "nodeId" (optional_string k.node_id) (field "direction" (str direction) end)))

abbrev pub peer_value : PeerEntry → Value
peer_value e = obj (
    field "address" (str e.address) (
      field "lastSeen" (num (int (pos e.last_seen)))
        (field "failures" (num (int (pos e.failures))) end)))

-- The object that `getPeerInfo` returns, in its key order.
unfoldable pub peer_info_value : PeerInfo → Value
peer_info_value p = obj (
    field "nodeId" (str p.node_id) (
      field "p2pPort" (num (int (pos p.p2p_port))) (
        field "connected" (arr (items (map connection_value p.connected)))
          (field "known" (arr (items (map peer_value p.known))) end))))

-- The message is appended to what was sent to the client.
abbrev pub put : ℕ → Sent → Api → Api
put id m api = record api { outbox = api.outbox ++ ((id, m) ∷ []) }

-- `sendJson`; a socket that is in no list has closed.
unfoldable pub send_json : ℕ → Sent → Api → Api
send_json id m api = elim (find_client id api.clients) [
  | none ↦ api
  | some k ↦ if k.is_open then put id m api else api
]

-- The test of `publish` on a client.
abbrev pub listens : Topic → Client → Bool
listens t k = any (is_topic t) k.topics && k.is_open

-- The calls of the listeners on 'pending' and on 'blocks'.
abbrev pub topics_of : Event → List Topic
topics_of pending_changed = pending ∷ status ∷ []
topics_of blocks_changed = blocks ∷ pending ∷ status ∷ []

abbrev pub topics_of_each : List Event → List Topic
topics_of_each [] = []
topics_of_each (e ∷ es) = topics_of e ++ topics_of_each es

module _ (cfg : Config) (has_keys : Bool) (date : ℕ) where
  -- `snapshots[topic]()`; `none` is a TypeError.
  unfoldable pub snapshot : Topic → Node → Option Snapshot
  snapshot status node = elim (get_status cfg has_keys date node.blockchain) [
    | none ↦ none
    | some s ↦ some (status_now s)
  ]
  snapshot blocks node = some (chain_now node.blockchain.chain)
  snapshot pending node = some (pool_now node.blockchain.pending_transactions)
  snapshot peers node = some (peers_now (get_peer_info node))

  -- `publish`: the data are read only if someone listens.
  unfoldable pub publish : Topic → Api → Api × Result ApiError (Unit {0})
  publish t api =
      let listeners = filter (listens t) api.clients in
      if is_empty listeners then (api, ok tt) else elim (snapshot t api.node) [
        | none ↦ (api, err internal_error)
        | some now ↦ (
          record api { outbox = api.outbox ++ map (λ (k : Client). (k.id, push t now)) listeners },
          ok tt,
        )
      ]

  -- Some calls of `publish` in a row, up to the first that throws.
  unfoldable pub publish_each : List Topic → Api → Api × Result ApiError (Unit {0})
  publish_each [] api = (api, ok tt)
  publish_each (t ∷ ts) api =
      let first = publish t api in
      let rest = publish_each ts first.0 in
      elim (first.1) [ ok _ ↦ rest | err e ↦ (first.0, err e) ]

  -- The listeners are called for the events that the chain has emitted. A method of the chain emits
  -- at most once, as the last thing that it does.
  unfoldable pub on_events : Api → Api × Result ApiError (Unit {0})
  on_events api =
      let events = api.node.blockchain.events in
      let heard : Blockchain = record (api.node.blockchain) { events = [] } in
      publish_each (topics_of_each events)
        (record api { node = record (api.node) { blockchain = heard } })

  -- The callback of the timer that pushes the status, and the peers if they have changed.
  unfoldable pub tick : Api → Api × Result ApiError (Unit {0})
  tick api =
      let first = publish status api in
      let json = stringify (peer_info_value (get_peer_info api.node)) in
      let changed = publish peers (record (first.0) { last_peers_json = json }) in
      elim (first.1) [
        | err e ↦ (first.0, err e)
        | ok _ ↦ if json === first.0.last_peers_json then (first.0, ok tt) else changed
      ]

  -- The pushes that a callback of `setImmediate` sends to one client.
  unfoldable pub send_each : ℕ → List Topic → Api → Api × Result ApiError (Unit {0})
  send_each id [] api = (api, ok tt)
  send_each id (t ∷ ts) api = elim (snapshot t api.node) [
    | none ↦ (api, err internal_error)
    | some now ↦ send_each id ts (send_json id (push t now) api)
  ]
