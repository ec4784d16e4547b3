-- ===== src/PeerTable/Invariant.antt =====
-- The invariant of class `PeerTable` (src/peerTable.ts).
use proof_of_authority_block.Common.{
  ◌≤◌, ◌≡◌, ◌<◌, ◌⊎◌, inl, inr, String, true, false, some, arith, eq_iff, length, Bool-cases,
}
use proof_of_authority_block.Common.Dict.{
  lookup, contains, insert, erase, lookup-insert, lookup-erase, length-insert, length-erase-le,
}
use proof_of_authority_block.PeerTable.Table.{PeerEntry, PeerTable, is_blocked, persist, set_add}
use proof_of_authority_block.PeerTable.Members.{IsDistinct, any-set_add}

-- Every entry stands under its own address, and no blocked address has one.
pub record IsEntry (t : PeerTable) (address : String) (e : PeerEntry) : Type 0 where
  pub keyed : e.address ≡ address
  pub allowed : is_blocked t address ≡ false

-- Only the bootnodes of the constructor may take a table past its limit.
abbrev pub IsBounded : PeerTable → Type 0
IsBounded t = (length t.entries ≤ t.max_size) ⊎ (length t.entries ≤ length t.bootnodes)

pub record IsTable (t : PeerTable) : Type 0 where
  pub each : (a : String) (e : PeerEntry) → lookup a t.entries ≡ some e → IsEntry t a e
  pub bounded : IsBounded t
  pub members : IsDistinct t.bootnodes

-- A change of one entry at an address that is not blocked.
module _ (t : PeerTable) (h : IsTable t) (address : String) where
  pub insert-IsTable :
      (e : PeerEntry)
      → e.address ≡ address
      → is_blocked t address ≡ false
      → (contains address t.entries ≡ true) ⊎ (length t.entries < t.max_size)
      → IsTable (record t { entries = insert address e t.entries })
  insert-IsTable e keyed allowed room = record {
    each = λ a e' found.
        ground (arith, eq_iff address a, lookup-insert address a e t.entries, h.each a e');
    bounded = ground (arith, h.bounded, length-insert address e t.entries);
    members = h.members;
  }

  pub erase-IsTable : IsTable (record t { entries = erase address t.entries })
  erase-IsTable = record {
    each = λ a e' found.
        ground (arith, eq_iff address a, lookup-erase address a t.entries, h.each a e');
    bounded = ground (arith, h.bounded, length-erase-le address t.entries);
    members = h.members;
  }

  -- The address joins the blocked ones, and its entry leaves.
  pub refuse-IsTable :
      IsTable (record t { entries = erase address t.entries; blocked = set_add address t.blocked })
  refuse-IsTable = record {
    each = λ a e' found. ground (
      arith,
      eq_iff address a,
      lookup-erase address a t.entries,
      h.each a e',
      any-set_add address a t.blocked,
    );
    bounded = ground (arith, h.bounded, length-erase-le address t.entries);
    members = h.members;
  }

pub persist-IsTable : (t : PeerTable) → IsTable t → IsTable (persist t)
unfolding persist
persist-IsTable t h = record {
  each = λ a e found. elim (Bool-cases t.has_file) [
    | inl y ↦ ground (arith, h.each a e)
    | inr n ↦ ground (arith, h.each a e)
  ];
  bounded = ground (arith, h.bounded);
  members = ground (arith, h.members);
}
