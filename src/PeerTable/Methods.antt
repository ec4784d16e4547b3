-- ===== src/PeerTable/Methods.antt =====
-- The methods of class `PeerTable` (src/peerTable.ts) and its invariant.
use proof_of_authority_block.Common.{
  ℕ, ◌+◌, ◌<◌, ◌≡◌, refl, ◌⊎◌, inl, inr, String, true, false, none, some, arith, ◌||◌, leb, length,
  Option-cases, Bool-cases,
}
use proof_of_authority_block.Common.Dict.{lookup, contains, insert, erase}
use proof_of_authority_block.PeerTable.Address.{UrlParser, normalize_address}
use proof_of_authority_block.PeerTable.Table.{
  PeerEntry, PeerTable, candidate, has, is_blocked, persist, add, record_success, record_failure,
}
use proof_of_authority_block.PeerTable.Invariant.{
  IsTable, insert-IsTable, erase-IsTable, persist-IsTable,
}

abbrev pub with_entry : PeerTable → String → PeerEntry → PeerTable
with_entry t address e = record t { entries = insert address e t.entries }

-- What `add` does: nothing, or a new candidate under a free, allowed address.
pub record Adds (parse : UrlParser) (t : PeerTable) (raw : String) : Type 0 where
  pub address : String
  pub normal : normalize_address parse raw ≡ some address
  pub allowed : is_blocked t address ≡ false
  pub new : lookup address t.entries ≡ none
  pub room : length t.entries < t.max_size
  pub added : add parse t raw ≡ (persist (with_entry t address (candidate address)), true)

pub add_cases :
    (parse : UrlParser) (t : PeerTable) (raw : String)
    → (add parse t raw ≡ (t, false)) ⊎ Adds parse t raw
unfolding add
add_cases parse t raw = elim (Option-cases (normalize_address parse raw)) [
  | inl n ↦ inl (ground arith)
  | inr (address, n) ↦ elim (Bool-cases (is_blocked t address || has t address)) [
    | inl y ↦ inl (ground arith)
    | inr free ↦ elim (Bool-cases (leb t.max_size (length t.entries))) [
      | inl full ↦ inl (ground arith)
      | inr room ↦ inr record {
        address = address;
        normal = n;
        allowed = ground arith;
        new = elim (Option-cases (lookup address t.entries)) [
          | inl none_there ↦ none_there
          | inr (e, found) ↦ absurd (ground arith)
        ];
        room = ground arith;
        added = ground arith;
      }
    ]
  ]
]

pub add-IsTable :
    (parse : UrlParser) (t : PeerTable) (raw : String) → IsTable t → IsTable ((add parse t raw).0)
add-IsTable parse t raw h = elim (add_cases parse t raw) [
  | inl same ↦ rw same h
  | inr a ↦ rw a.added (
      persist-IsTable (with_entry t a.address (candidate a.address))
        (insert-IsTable t h a.address (candidate a.address) refl a.allowed (inr a.room)))
]

-- An entry that is in the table is replaced.
module _ (t : PeerTable) (h : IsTable t) (address : String) (e : PeerEntry)
    (found : lookup address t.entries ≡ some e) where
  pub update-IsTable :
      (new : PeerEntry) → new.address ≡ e.address → IsTable (with_entry t address new)
  update-IsTable new same =
      let known : contains address t.entries ≡ true = ground arith in
      insert-IsTable t h address new (ground (arith, h.each address e found))
        ((h.each address e found).allowed) (inl known)

pub record_success-IsTable :
    (t : PeerTable) (address : String) (now : ℕ)
    → IsTable t
    → IsTable ((record_success t address now).0)
unfolding record_success
record_success-IsTable t address now h = elim (Option-cases (lookup address t.entries)) [
  | inl n ↦ ground arith
  | inr (e, found) ↦
      let new : PeerEntry = record e { last_seen = now; failures = 0 } in
      ground (
        arith,
        persist-IsTable (with_entry t address new) (update-IsTable t h address e found new refl),
      )
]

pub record_failure-IsTable :
    (t : PeerTable) (address : String) → IsTable t → IsTable ((record_failure t address).0)
unfolding record_failure
record_failure-IsTable t address h = elim (Option-cases (lookup address t.entries)) [
  | inl n ↦ ground arith
  | inr (e, found) ↦
      let new : PeerEntry = record e { failures = e.failures + 1 } in
      ground (
        arith,
        persist-IsTable (record t { entries = erase address t.entries })
            (erase-IsTable t h address),
        update-IsTable t h address e found new refl,
      )
]
