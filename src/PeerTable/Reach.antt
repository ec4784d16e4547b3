-- ===== src/PeerTable/Reach.antt =====
-- The runs of class `PeerTable` (src/peerTable.ts): its constructor and then any calls.
use proof_of_authority_block.Common.{
  ℕ, ◌≤◌, ◌≡◌, refl, inl, inr, String, Bool, true, false, List, [], ◌∷◌, none, some, arith, eq_iff,
  ltb, length, Option-cases, Bool-cases, length-append,
}
use proof_of_authority_block.Common.Dict.{
  lookup, contains, insert, erase, length-insert, lookup-insert,
}
use proof_of_authority_block.PeerTable.Address.{UrlParser, normalize_address}
use proof_of_authority_block.PeerTable.Table.{
  PeerEntry, PeerTable, RawPeer, candidate, has, set_add, is_bootnode, is_blocked, add,
  record_success, record_failure, block, load_one, load, add_bootnodes, new_peer_table, or_zero,
}
use proof_of_authority_block.PeerTable.Members.{IsDistinct, any-set_add, set_add-IsDistinct}
use proof_of_authority_block.PeerTable.Invariant.{
  IsTable, insert-IsTable, refuse-IsTable, persist-IsTable,
}
use proof_of_authority_block.PeerTable.Methods.{
  update-IsTable, add-IsTable, record_success-IsTable, record_failure-IsTable,
}

-- An address without an entry is refused: nothing leaves the table.
refuse-absent :
    (t : PeerTable) (address : String)
    → has t address ≡ false
    → IsTable t
    → IsTable (record t { blocked = set_add address t.blocked })
refuse-absent t address absent h = record {
  each = λ a e found. ground (arith, eq_iff address a, h.each a e, any-set_add address a t.blocked);
  bounded = ground (arith, h.bounded);
  members = h.members;
}

block-IsTable :
    (parse : UrlParser) (t : PeerTable) (raw : String) → IsTable t → IsTable (block parse t raw)
unfolding block
block-IsTable parse t raw h = elim (Option-cases (normalize_address parse raw)) [
  | inl n ↦ ground arith
  | inr (address, n) ↦ elim (Bool-cases (has t address)) [
    | inl there ↦ ground (
      arith,
      persist-IsTable
          (record t { entries = erase address t.entries; blocked = set_add address t.blocked })
          (refuse-IsTable t h address),
    )
    | inr absent ↦ ground (arith, refuse-absent t address absent h)
  ]
]

load_one-IsTable :
    (parse : UrlParser) (t : PeerTable) (p : RawPeer) → IsTable t → IsTable (load_one parse t p)
unfolding load_one
load_one-IsTable parse t p h = elim (Option-cases p.address) [
  | inl n ↦ ground arith
  | inr (raw, r) ↦ elim (Option-cases (normalize_address parse raw)) [
    | inl n ↦ ground arith
    | inr (address, n) ↦ elim (Bool-cases (is_blocked t address)) [
      | inl bad ↦ ground arith
      | inr good ↦ elim (Option-cases (lookup address t.entries)) [
        | inr (e, found) ↦ ground (
          arith,
          update-IsTable t h address e found (record e { last_seen = or_zero p.last_seen }) refl,
        )
        | inl new ↦ elim (Bool-cases (ltb (length t.entries) t.max_size)) [
          | inr full ↦ ground arith
          | inl room ↦ ground (
            arith,
            insert-IsTable t h address
                (record { address = address; last_seen = or_zero p.last_seen; failures = 0 }) refl
                good (inr (ground arith)),
          )
        ]
      ]
    ]
  ]
]

load-IsTable :
    (parse : UrlParser) (t : PeerTable) (ps : List RawPeer) → IsTable t → IsTable (load parse t ps)
unfolding load
load-IsTable parse t [] h = h
load-IsTable parse t (p ∷ ps) h =
    load-IsTable parse (load_one parse t p) ps (load_one-IsTable parse t p h)

-- The table while the constructor adds the bootnodes: nothing is blocked yet.
record IsYoung (t : PeerTable) : Type 0 where
  each : (a : String) (e : PeerEntry) → lookup a t.entries ≡ some e → e.address ≡ a
  unblocked : t.blocked ≡ []
  present : (a : String) → is_bootnode t a ≡ true → contains a t.entries ≡ true
  few : length t.entries ≤ length t.bootnodes
  members : IsDistinct t.bootnodes

add_bootnodes-IsYoung :
    (parse : UrlParser) (t : PeerTable) (raws : List String)
    → IsYoung t
    → IsYoung (add_bootnodes parse t raws)
unfolding add_bootnodes
add_bootnodes-IsYoung parse t [] y = y
add_bootnodes-IsYoung parse t (raw ∷ rest) y = elim (Option-cases (normalize_address parse raw)) [
  | inl n ↦ rw n (add_bootnodes-IsYoung parse t rest y)
  | inr (address, n) ↦ rw n (
      add_bootnodes-IsYoung parse
        (record t {
          bootnodes = set_add address t.bootnodes;
          entries = insert address (candidate address) t.entries;
        })
        rest
        record {
          each = λ a e found. ground (
            arith,
            eq_iff address a,
            lookup-insert address a (candidate address) t.entries,
            y.each a e,
          );
          unblocked = y.unblocked;
          present = λ a h. ground (
            arith,
            eq_iff address a,
            y.present a,
            any-set_add address a t.bootnodes,
            lookup-insert address a (candidate address) t.entries,
          );
          members = set_add-IsDistinct address t.bootnodes y.members;
          few = ground (
            arith,
            y.few,
            y.present address,
            length-insert address (candidate address) t.entries,
            length-append t.bootnodes (address ∷ []),
          );
        })
]

new_peer_table-IsTable :
    (parse : UrlParser) (has_file : Bool) (bootnodes : List String) (max_failures max_size : ℕ)
    (file : List RawPeer)
    → IsTable (new_peer_table parse has_file bootnodes max_failures max_size file)
unfolding new_peer_table
new_peer_table-IsTable parse has_file bootnodes max_failures max_size file =
    let empty : PeerTable = record {
      entries = [];
      bootnodes = [];
      blocked = [];
      has_file = has_file;
      max_failures = max_failures;
      max_size = max_size;
      disk = none;
    } in
    let young = add_bootnodes-IsYoung parse empty bootnodes record {
      each = λ a e found. ground arith;
      unblocked = refl;
      present = λ a h. absurd (ground arith);
      few = omega arith;
      members = tt;
    } in
    load-IsTable parse (add_bootnodes parse empty bootnodes) file record {
      each =
          λ a e found. record { keyed = young.each a e found; allowed = rw young.unblocked refl };
      bounded = inr young.few;
      members = young.members;
    }

-- The tables that a node can hold: the constructor's, then any calls in any order.
pub data Reachable (parse : UrlParser) : PeerTable → Type 0 where
  start :
      (has_file : Bool) (bootnodes : List String) (max_failures max_size : ℕ) (file : List RawPeer)
      → Reachable parse (new_peer_table parse has_file bootnodes max_failures max_size file)
  by_add :
      (t : PeerTable) (raw : String) → Reachable parse t → Reachable parse ((add parse t raw).0)
  by_success :
      (t : PeerTable) (address : String) (now : ℕ)
      → Reachable parse t
      → Reachable parse ((record_success t address now).0)
  by_failure :
      (t : PeerTable) (address : String)
      → Reachable parse t
      → Reachable parse ((record_failure t address).0)
  by_block :
      (t : PeerTable) (raw : String) → Reachable parse t → Reachable parse (block parse t raw)

-- In every table that the constructor and any sequence of calls of `add`, `recordSuccess`,
-- `recordFailure` and `block` lead to, each entry stands under its own address, no blocked address
-- has an entry, no address stands twice among the bootnodes, and there are at most `maxSize`
-- entries or at most as many as bootnodes.
pub Reachable-IsTable : (parse : UrlParser) (t : PeerTable) → Reachable parse t → IsTable t
Reachable-IsTable parse t (start has_file bootnodes max_failures max_size file) =
    new_peer_table-IsTable parse has_file bootnodes max_failures max_size file
Reachable-IsTable parse t (by_add s raw r) = add-IsTable parse s raw (Reachable-IsTable parse s r)
Reachable-IsTable parse t (by_success s address now r) =
    record_success-IsTable s address now (Reachable-IsTable parse s r)
Reachable-IsTable parse t (by_failure s address r) =
    record_failure-IsTable s address (Reachable-IsTable parse s r)
Reachable-IsTable parse t (by_block s raw r) =
    block-IsTable parse s raw (Reachable-IsTable parse s r)
