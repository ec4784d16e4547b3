-- ===== src/PeerTable/Health.antt =====
-- Dead addresses: what `recordSuccess` and `recordFailure` of src/peerTable.ts do over a run of calls.
use proof_of_authority_block.Common.{
  ℕ, zero, suc, ◌+◌, ◌<◌, ◌≡◌, refl, ◌⊎◌, inr, String, true, false, none, some, arith, eq_iff, ◌&&◌,
  not, if◌then◌else◌, leb,
}
use proof_of_authority_block.Common.Dict.{lookup, lookup-insert, lookup-erase}
use proof_of_authority_block.PeerTable.Table.{
  PeerEntry, PeerTable, is_bootnode, persist, record_success, record_failure,
}

-- The table after as many failures in a row of one address.
abbrev pub failures_in_a_row : ℕ → PeerTable → String → PeerTable
failures_in_a_row zero t address = t
failures_in_a_row (suc n) t address = (record_failure (failures_in_a_row n t address) address).0

-- What no failure changes, and what one does to the entry of the address.
record SameSetup (s t : PeerTable) : Type 0 where
  bootnodes : s.bootnodes ≡ t.bootnodes
  limit : s.max_failures ≡ t.max_failures

record_failure-SameSetup :
    (t : PeerTable) (address : String) → SameSetup ((record_failure t address).0) t
unfolding record_failure persist
record_failure-SameSetup t address = record { bootnodes = ground arith; limit = ground arith }

in_a_row-SameSetup :
    (n : ℕ) (t : PeerTable) (address : String) → SameSetup (failures_in_a_row n t address) t
in_a_row-SameSetup zero t address = record { bootnodes = refl; limit = refl }
in_a_row-SameSetup (suc n) t address =
    let one = record_failure-SameSetup (failures_in_a_row n t address) address in
    let more = in_a_row-SameSetup n t address in
    record {
      bootnodes = rw (one.bootnodes, more.bootnodes) refl;
      limit = rw (one.limit, more.limit) refl;
    }

lookup-record_failure :
    (t : PeerTable) (address : String) (e : PeerEntry)
    → lookup address t.entries ≡ some e
    → lookup address (record_failure t address).0.entries ≡ (
        if leb t.max_failures (e.failures + 1) && not (is_bootnode t address)
        then none
        else some (record e { failures = e.failures + 1 }))
unfolding record_failure persist
lookup-record_failure t address e found = ground (
  arith,
  eq_iff address address,
  lookup-insert address address (record e { failures = e.failures + 1 }) t.entries,
  lookup-erase address address t.entries,
)

-- A healthy entry after `k` failures, while the table keeps it.
counted :
    (t : PeerTable) (address : String) (e : PeerEntry)
    → lookup address t.entries ≡ some e
    → e.failures ≡ 0
    → (k : ℕ) → (is_bootnode t address ≡ true) ⊎ (k < t.max_failures)
    → lookup address (failures_in_a_row k t address).entries ≡ some (record e { failures = k })
counted t address e found healthy zero kept = rw (found, healthy) refl
counted t address e found healthy (suc k) kept =
    let s = failures_in_a_row k t address in
    let before = counted t address e found healthy k (ground (arith, kept)) in
    let setup = in_a_row-SameSetup k t address in
    ground (
      arith,
      kept,
      before,
      setup.bootnodes,
      setup.limit,
      lookup-record_failure s address (record e { failures = k }) before,
    )

-- The failure that reaches the limit.
last_failure :
    (t : PeerTable) (address : String) (e : PeerEntry)
    → lookup address t.entries ≡ some e
    → e.failures ≡ 0
    → (k : ℕ) → t.max_failures ≡ k
    → is_bootnode t address ≡ false
    → 0 < k
    → lookup address (failures_in_a_row k t address).entries ≡ none
last_failure t address e found healthy zero limit plain positive = absurd (omega arith)
last_failure t address e found healthy (suc k) limit plain positive =
    let s = failures_in_a_row k t address in
    let before = counted t address e found healthy k (inr (omega arith)) in
    let setup = in_a_row-SameSetup k t address in
    ground (
      arith,
      setup.bootnodes,
      setup.limit,
      lookup-record_failure s address (record e { failures = k }) before,
    )

lookup-record_success :
    (t : PeerTable) (address : String) (now : ℕ) (e : PeerEntry)
    → lookup address t.entries ≡ some e
    → (lookup address (record_success t address now).0.entries
        ≡ some (record e { last_seen = now; failures = 0 }))
      × SameSetup ((record_success t address now).0) t
unfolding record_success persist
lookup-record_success t address now e found =
    let written =
      lookup-insert address address (record e { last_seen = now; failures = 0 }) t.entries in
    (
      ground (arith, eq_iff address address, written),
      record { bootnodes = ground arith; limit = ground arith },
    )

-- A known address that just succeeded keeps its entry, with each failure counted, through `k`
-- failures in a row: always if it is a bootnode, and for `k` below `maxFailures` if it is not. An
-- address that is no bootnode has no entry after `maxFailures` failures in a row, if that number is
-- positive.
pub failures_in_a_row_lem :
    (t : PeerTable) (address : String) (now : ℕ) (e : PeerEntry)
    → lookup address t.entries ≡ some e
    → ((k : ℕ)
        → (is_bootnode t address ≡ true) ⊎ (k < t.max_failures)
        → lookup address (failures_in_a_row k ((record_success t address now).0) address).entries
          ≡ some (record e { last_seen = now; failures = k }))
      × (is_bootnode t address ≡ false
          → 0 < t.max_failures
          → lookup address
              (failures_in_a_row t.max_failures ((record_success t address now).0) address).entries
            ≡ none)
failures_in_a_row_lem t address now e found =
    let (written, setup) = lookup-record_success t address now e found in
    let s = (record_success t address now).0 in
    let fresh : PeerEntry = record e { last_seen = now; failures = 0 } in
    (
      λ k kept.
          counted s address fresh written refl k
            (ground (arith, setup.bootnodes, setup.limit, kept)),
      λ plain positive.
          last_failure s address fresh written refl t.max_failures (ground (arith, setup.limit))
            (ground (arith, setup.bootnodes)) positive,
    )
