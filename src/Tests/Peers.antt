-- ===== src/Tests/Peers.antt =====
-- Instances of the theorems on the peer table and on the rotation of the validators.
use proof_of_authority_block.Common.{
  ℕ, ◌<◌, ◌≡◌, ◌⊎◌, refl, String, true, false, List, [], ◌∷◌, none, some, arith,
}
use proof_of_authority_block.Common.Int.{negsuc}
use proof_of_authority_block.Common.Dict.{lookup}
use proof_of_authority_block.PeerTable.{
  UrlParser, PeerEntry, PeerTable, is_bootnode, add, record_success, record_failure, new_peer_table,
}
use proof_of_authority_block.PeerTable.Invariant.{IsTable}
use proof_of_authority_block.PeerTable.Reach.{start, by_add, by_failure, Reachable-IsTable}
use proof_of_authority_block.PeerTable.Health.{failures_in_a_row, failures_in_a_row_lem}
use proof_of_authority_block.ValidatorSet.{ValidatorSet, get_index_for_slot}
use proof_of_authority_block.ValidatorSet.Rotation.{later, get_index_for_slot_fair}

-- A stand-in for `URL`: the text is the host.
abbrev toy_parser : UrlParser
toy_parser = λ text. some (record { protocol = "ws:"; hostname = text; port = "3000" })

abbrev first_table : PeerTable
first_table = new_peer_table toy_parser false ("boot" ∷ []) 3 10 []

abbrev second_table : PeerTable
second_table = (add toy_parser first_table "peer").0

abbrev third_table : PeerTable
third_table = (record_failure second_table "ws://peer:3000").0

Reachable-IsTable_example : IsTable third_table
Reachable-IsTable_example = Reachable-IsTable toy_parser third_table (
    by_failure second_table "ws://peer:3000"
      (by_add first_table "peer" (start false ("boot" ∷ []) 3 10 [])))

abbrev known : PeerEntry
known = record { address = "ws://peer:3000"; last_seen = 5; failures = 1 }

abbrev small_table : PeerTable
small_table = record {
  entries = ("ws://peer:3000", known) ∷ [];
  bootnodes = [];
  blocked = [];
  has_file = false;
  max_failures = 3;
  max_size = 10;
  disk = none;
}

failures_in_a_row_lem_example :
    ((k : ℕ)
      → (is_bootnode small_table "ws://peer:3000" ≡ true) ⊎ (k < small_table.max_failures)
      → lookup "ws://peer:3000"
          (failures_in_a_row k
            ((record_success small_table "ws://peer:3000" 9).0)
            "ws://peer:3000").entries
        ≡ some (record known { last_seen = 9; failures = k }))
    × (is_bootnode small_table "ws://peer:3000" ≡ false
        → 0 < small_table.max_failures
        → lookup "ws://peer:3000"
            (failures_in_a_row small_table.max_failures
              ((record_success small_table "ws://peer:3000" 9).0)
              "ws://peer:3000").entries
          ≡ none)
failures_in_a_row_lem_example = failures_in_a_row_lem small_table "ws://peer:3000" 9 known refl

abbrev three_keys : List String
three_keys = "v0" ∷ "v1" ∷ "v2" ∷ []

abbrev three_validators : ValidatorSet
three_validators = record { validators = three_keys }

get_index_for_slot_fair_example :
    (d : ℕ) × (d < 3)
    × (get_index_for_slot three_validators (later (negsuc 6) d) ≡ 2)
    × ((d' : ℕ) → d' < 3 → get_index_for_slot three_validators (later (negsuc 6) d') ≡ 2 → d' ≡ d)
get_index_for_slot_fair_example =
    get_index_for_slot_fair three_validators (negsuc 6) 2 (omega arith)
