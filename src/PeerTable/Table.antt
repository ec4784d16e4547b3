-- ===== src/PeerTable/Table.antt =====
-- Class `PeerTable` of src/peerTable.ts. A method returns the new table beside its result.
use proof_of_authority_block.Common.{
  ℕ, ◌+◌, String, Bool, true, false, not, List, [], ◌∷◌, ◌++◌, map, Option, none, some, ◌&&◌, ◌||◌,
  ltb, leb, ◌==◌, ◌===◌, if◌then◌else◌, length, any, filter,
}
use proof_of_authority_block.Common.Dict.{Dict, lookup, contains, insert, erase}
use proof_of_authority_block.PeerTable.Address.{UrlParser, normalize_address}

pub record PeerEntry : Type 0 where
  pub address : String
  pub last_seen : ℕ
  pub failures : ℕ

-- The sets `bootnodes` and `blocked` are lists of their members, each once.
pub record PeerTable : Type 0 where
  pub entries : Dict PeerEntry
  pub bootnodes : List String
  pub blocked : List String
  pub has_file : Bool
  pub max_failures : ℕ
  pub max_size : ℕ
  pub disk : Option (List PeerEntry)

-- `add` of a set.
abbrev pub set_add : String → List String → List String
set_add x xs = if any (λ b. b === x) xs then xs else xs ++ (x ∷ [])

abbrev pub candidate : String → PeerEntry
candidate address = record { address = address; last_seen = 0; failures = 0 }

-- `all`
abbrev pub all_entries : PeerTable → List PeerEntry
all_entries t = map (λ e. e.1) t.entries

-- `get`
abbrev pub get : PeerTable → String → Option PeerEntry
get t address = lookup address t.entries

-- `has`
abbrev pub has : PeerTable → String → Bool
has t address = contains address t.entries

-- `isBootnode`
abbrev pub is_bootnode : PeerTable → String → Bool
is_bootnode t address = any (λ b. b === address) t.bootnodes

-- `isBlocked`
abbrev pub is_blocked : PeerTable → String → Bool
is_blocked t address = any (λ b. b === address) t.blocked

abbrev pub is_verified_entry : PeerEntry → Bool
is_verified_entry e = ltb 0 e.last_seen && e.failures == 0

-- `verified`
unfoldable pub verified : PeerTable → List String
verified t = map (λ e. e.address) (filter is_verified_entry (all_entries t))

-- `persist`: the write replaces the file whole.
unfoldable pub persist : PeerTable → PeerTable
persist t = if t.has_file then record t { disk = some (all_entries t) } else t

-- `add`
unfoldable pub add : UrlParser → PeerTable → String → PeerTable × Bool
add parse t raw = elim (normalize_address parse raw) [
  | none ↦ (t, false)
  | some address ↦
      if is_blocked t address || has t address
      then (t, false)
      else if leb t.max_size (length t.entries)
      then (t, false)
      else (persist (record t { entries = insert address (candidate address) t.entries }), true)
]

-- `recordSuccess`
unfoldable pub record_success : PeerTable → String → ℕ → PeerTable × Bool
record_success t address now = elim (lookup address t.entries) [
  | none ↦ (t, false)
  | some entry ↦ (
    persist (record t {
      entries = insert address (record entry { last_seen = now; failures = 0 }) t.entries;
    }),
    entry.last_seen == 0,
  )
]

-- `recordFailure`, with `dropped`. A failure that drops nobody is not persisted.
unfoldable pub record_failure : PeerTable → String → PeerTable × Bool
record_failure t address = elim (lookup address t.entries) [
  | none ↦ (t, false)
  | some entry ↦
      let counted : PeerEntry = record entry { failures = entry.failures + 1 } in
      if leb t.max_failures counted.failures && not (is_bootnode t address)
      then (persist (record t { entries = erase address t.entries }), true)
      else (record t { entries = insert address counted t.entries }, false)
]

-- `block`
unfoldable pub block : UrlParser → PeerTable → String → PeerTable
block parse t raw = elim (normalize_address parse raw) [
  | none ↦ t
  | some address ↦
      let refused = record t { blocked = set_add address t.blocked } in
      if has t address
      then persist (record refused { entries = erase address t.entries })
      else refused
]

-- One element of the array `peers` of the file: the address, if it is a string, and the time, if it
-- is finite.
pub record RawPeer : Type 0 where
  pub address : Option String
  pub last_seen : Option ℕ

abbrev pub or_zero : Option ℕ → ℕ
or_zero none = 0
or_zero (some n) = n

-- The body of the loop of `load`.
unfoldable pub load_one : UrlParser → PeerTable → RawPeer → PeerTable
load_one parse t p = elim (p.address) [
  | none ↦ t
  | some raw ↦ elim (normalize_address parse raw) [
    | none ↦ t
    | some address ↦ if is_blocked t address then t else elim (lookup address t.entries) [
      | some existing ↦ record t {
        entries = insert address (record existing { last_seen = or_zero p.last_seen }) t.entries;
      }
      | none ↦
          if ltb (length t.entries) t.max_size
          then record t {
            entries =
                insert address
                  (record { address = address; last_seen = or_zero p.last_seen; failures = 0 })
                  t.entries;
          }
          else t
    ]
  ]
]

unfoldable pub load : UrlParser → PeerTable → List RawPeer → PeerTable
load parse t [] = t
load parse t (p ∷ ps) = load parse (load_one parse t p) ps

-- The loop of the constructor over `opts.bootnodes`.
unfoldable pub add_bootnodes : UrlParser → PeerTable → List String → PeerTable
add_bootnodes parse t [] = t
add_bootnodes parse t (raw ∷ rest) =
    add_bootnodes parse
      (elim (normalize_address parse raw) [
        | none ↦ t
        | some address ↦ record t {
          bootnodes = set_add address t.bootnodes;
          entries = insert address (candidate address) t.entries;
        }
      ])
      rest

-- The constructor, with the peers that the file holds.
unfoldable pub new_peer_table : UrlParser → Bool → List String → ℕ → ℕ → List RawPeer → PeerTable
new_peer_table parse has_file bootnodes max_failures max_size file =
    let empty : PeerTable = record {
      entries = [];
      bootnodes = [];
      blocked = [];
      has_file = has_file;
      max_failures = max_failures;
      max_size = max_size;
      disk = none;
    } in
    load parse (add_bootnodes parse empty bootnodes) file
