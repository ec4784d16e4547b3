-- ===== src/P2p/Dialing.antt =====
-- The dialing of class `P2PNode` of src/p2p.ts. `opens` says for which addresses the constructor of
-- WebSocket does not throw.
use proof_of_authority_block.Common.{
  ℕ, ◌+◌, ◌-◌, ◌*◌, ◌^◌, String, Bool, not, List, [], ◌∷◌, ◌++◌, Option, none, some, ◌&&◌, ltb, leb,
  ◌===◌, any, filter, if◌then◌else◌,
}
use proof_of_authority_block.Common.Dict.{lookup, insert, erase}
use proof_of_authority_block.Blockchain.{get_or_else}
use proof_of_authority_block.PeerTable.{PeerEntry, all_entries, get, record_failure}
use proof_of_authority_block.P2p.Types.{Node, is_open, is_announced}

-- `isConnected`
abbrev pub is_connected : Node → String → Bool
is_connected node address =
    any (λ s. s.handshaken && is_announced address s && is_open s) node.sockets

abbrev pub failures_of : Option PeerEntry → ℕ
failures_of none = 1
failures_of (some e) = e.failures

-- `onDialFailed` at the time `date`; an entry that is still there has failed at least once.
unfoldable pub on_dial_failed : ℕ → String → Node → Node
on_dial_failed date address node =
    let (table, dropped) = record_failure node.peer_table address in
    let failures = failures_of (get table address) in
    let wait = 1000 * 2 ^ (failures - 1) in
    let delay = if leb wait 30_000 then wait else 30_000 in
    if dropped
    then record node { peer_table = table; next_attempt = erase address node.next_attempt }
    else record node {
      peer_table = table;
      next_attempt = insert address (date + delay) node.next_attempt;
    }

-- `dial`, up to the events of the new socket.
unfoldable pub dial : (String → Bool) → ℕ → String → Node → Node
dial opens date address node =
    if opens address
    then record node { dialing = node.dialing ++ (address ∷ []) }
    else on_dial_failed date address
        (record node { dialing = filter (λ a. not (a === address)) node.dialing })

-- The tests of the loop of `maintainConnections` on an entry.
abbrev pub is_to_dial : ℕ → PeerEntry → Node → Bool
is_to_dial now entry node =
    not (any (λ a. a === entry.address) node.dialing)
    && not (ltb now (get_or_else (lookup entry.address node.next_attempt) 0))
    && not (ltb 0 entry.last_seen && is_connected node entry.address)

unfoldable pub maintain_each : (String → Bool) → ℕ → List PeerEntry → Node → Node
maintain_each opens now [] node = node
maintain_each opens now (entry ∷ rest) node =
    let after = if is_to_dial now entry node then dial opens now entry.address node else node in
    maintain_each opens now rest after

-- `maintainConnections`
unfoldable pub maintain_connections : (String → Bool) → ℕ → Node → Node
maintain_connections opens now node = maintain_each opens now (all_entries node.peer_table) node
