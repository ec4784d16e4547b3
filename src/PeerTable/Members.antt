-- ===== src/PeerTable/Members.antt =====
-- The sets of addresses of class `PeerTable` (src/peerTable.ts), as lists.
use proof_of_authority_block.Common.{
  ◌≡◌, inl, inr, String, false, List, [], ◌∷◌, ◌++◌, arith, eq_iff, ◌||◌, ◌===◌, any, any-append,
  Bool-cases,
}
use proof_of_authority_block.PeerTable.Table.{set_add}

-- No address stands in the list twice.
abbrev pub IsDistinct : List String → Type 0
IsDistinct [] = Unit
IsDistinct (x ∷ xs) = (any (λ b. b === x) xs ≡ false) × IsDistinct xs

-- A set has what is added to it beside what it had.
pub any-set_add :
    (x a : String) (xs : List String)
    → any (λ b. b === a) (set_add x xs) ≡ (any (λ b. b === a) xs || x === a)
any-set_add x a xs = ground (arith, eq_iff x a, any-append (λ b. b === a) xs (x ∷ []))

IsDistinct-snoc :
    (x : String) (xs : List String)
    → any (λ b. b === x) xs ≡ false
    → IsDistinct xs
    → IsDistinct (xs ++ (x ∷ []))
IsDistinct-snoc x [] absent h = ground arith
IsDistinct-snoc x (y ∷ xs) absent h = (
  ground (arith, h.0, eq_iff x y, eq_iff y x, any-append (λ b. b === y) xs (x ∷ [])),
  IsDistinct-snoc x xs (ground arith) h.1,
)

pub set_add-IsDistinct : (x : String) (xs : List String) → IsDistinct xs → IsDistinct (set_add x xs)
set_add-IsDistinct x xs h = elim (Bool-cases (any (λ b. b === x) xs)) [
  | inl there ↦ rw there h
  | inr absent ↦ rw absent (IsDistinct-snoc x xs absent h)
]
