-- ===== src/ValidatorSet/Rotation.antt =====
-- The rotation of src/validatorSet.ts: which slots a validator owns.
use native.Mathlib.Nat.{
  mod-lt, mod-eq_of_lt, mod-mod, mul-add-mod_self_right, div-add-mod', add-mod_left, add-mul,
  add-mod_right, mod-eq-sub-mod, mod_self,
}
use proof_of_authority_block.Common.{
  ℕ, zero, suc, ◌+◌, ◌-◌, ◌*◌, ◌/◌, ◌%◌, ◌≤◌, ◌<◌, ◌≡◌, refl, sym, ap, ◌∙◌, ◌⊎◌, inl, inr, String,
  true, List, [], ◌∷◌, some, arith, length, get_elem?, ltb, leb, if◌then◌else◌, Bool-cases, any,
  ◌===◌, ===_self,
}
use proof_of_authority_block.Common.Int.{ℤ, pos, negsuc, pos_part, neg_part}
use proof_of_authority_block.ValidatorSet.{
  ValidatorSet, new_validator_set, negate, js_remainder, get_index_for_slot, get_validator_for_slot,
  is_known_validator,
}

-- The slot that comes `k` slots later.
abbrev pub later : ℤ → ℕ → ℤ
later (pos a) k = pos (a + k)
later (negsuc a) k = if leb k a then negsuc (a - k) else pos (k - (a + 1))

-- The number of the slot and the index `r` differ by a multiple of `n`.
abbrev Congruent : ℕ → ℤ → ℕ → Type 0
Congruent n slot r = (p : ℕ) × (q : ℕ) × (pos_part slot + p * n ≡ q * n + (r + neg_part slot))

Congruent-unique :
    (n : ℕ) (slot : ℤ) (r r' : ℕ)
    → r < n
    → r' < n
    → Congruent n slot r
    → Congruent n slot r'
    → r ≡ r'
Congruent-unique n slot r r' b b' (p, q, e) (p', q', e') =
    let same : (q + p') * n + r ≡ (q' + p) * n + r' =
      rw (add-mul q p' n, add-mul q' p n) (omega (arith, e, e')) in
    sym (mod-eq_of_lt b)
    ∙ sym (mul-add-mod_self_right (q + p') n r)
    ∙ ap (λ x. x % n) same
    ∙ mul-add-mod_self_right (q' + p) n r'
    ∙ mod-eq_of_lt b'

Congruent-later :
    (n : ℕ) (slot : ℤ) (r k : ℕ) → Congruent n slot r → Congruent n (later slot k) ((r + k) % n)
Congruent-later n slot r k (p, q, e) =
    (p, q + (r + k) / n, rw (add-mul q ((r + k) / n) n) (shifted slot e))
  where
    shifted :
        (slot : ℤ)
        → pos_part slot + p * n ≡ q * n + (r + neg_part slot)
        → pos_part (later slot k) + p * n
          ≡ q * n + (r + k) / n * n + ((r + k) % n + neg_part (later slot k))
    shifted (pos a) e = omega (arith, e, div-add-mod' (r + k) n)
    shifted (negsuc a) e = ground (arith, e, div-add-mod' (r + k) n)

get_index_for_slot-lt :
    (set : ValidatorSet) (slot : ℤ)
    → 0 < length set.validators
    → get_index_for_slot set slot < length set.validators
unfolding get_index_for_slot
get_index_for_slot-lt set slot h =
    let n = length set.validators in
    mod-lt (n + pos_part (js_remainder slot n) - neg_part (js_remainder slot n)) h

-- The index of a remainder of a negative slot.
wrap : ℕ → ℕ → ℕ
wrap n r = (n + pos_part (negate r) - neg_part (negate r)) % n

wrap_lem : (n r : ℕ) → r < n → (wrap n r + r ≡ 0) ⊎ (wrap n r + r ≡ n)
unfolding wrap
wrap_lem n zero h =
    let start : n + 0 - 0 ≡ n = omega arith in
    inl (omega (arith, ap (λ x. x % n) start ∙ mod_self n))
wrap_lem n (suc r) h =
    let start : n + 0 - suc r ≡ n - suc r = omega arith in
    let small : (n + 0 - suc r) % n ≡ n - suc r =
      ap (λ x. x % n) start ∙ mod-eq_of_lt (omega (arith, h)) in
    inr (omega (arith, small, h))

get_index_for_slot-Congruent :
    (set : ValidatorSet) (slot : ℤ)
    → 0 < length set.validators
    → Congruent (length set.validators) slot (get_index_for_slot set slot)
unfolding get_index_for_slot js_remainder wrap
get_index_for_slot-Congruent set (pos a) h =
    let n = length set.validators in
    let index : get_index_for_slot set (pos a) ≡ a % n =
      let start : n + a % n - 0 ≡ n + a % n = omega arith in
      ap (λ x. x % n) start ∙ add-mod_left n (a % n) ∙ mod-mod a n in
    (0, a / n, omega (arith, index, div-add-mod' a n))
get_index_for_slot-Congruent set (negsuc a) h =
    let n = length set.validators in
    let d = (a + 1) / n in
    elim (wrap_lem n ((a + 1) % n) (mod-lt (a + 1) h)) [
      | inl none_over ↦ (d, 0, omega (arith, none_over, div-add-mod' (a + 1) n))
      | inr one_over ↦
          (d + 1, 0, rw (add-mul d 1 n) (omega (arith, one_over, div-add-mod' (a + 1) n)))
    ]

-- `k` slots later the owner stands `k` places later in the rotation, cyclically.
get_index_for_slot-later :
    (set : ValidatorSet) (slot : ℤ) (k : ℕ)
    → 0 < length set.validators
    → get_index_for_slot set (later slot k)
      ≡ (get_index_for_slot set slot + k) % length set.validators
get_index_for_slot-later set slot k h =
    let n = length set.validators in
    let r = get_index_for_slot set slot in
    Congruent-unique n (later slot k) (get_index_for_slot set (later slot k)) ((r + k) % n)
      (get_index_for_slot-lt set (later slot k) h) (mod-lt (r + k) h)
      (get_index_for_slot-Congruent set (later slot k) h)
      (Congruent-later n slot r k (get_index_for_slot-Congruent set slot h))

-- A sum of two numbers below `n` wraps at most once.
mod_cases : (n x : ℕ) → x < n + n → (x < n) × (x % n ≡ x) ⊎ (n ≤ x) × (x % n ≡ x - n)
mod_cases n x h = elim (Bool-cases (ltb x n)) [
  | inl small ↦ let b : x < n = ground arith in inl (b, mod-eq_of_lt b)
  | inr large ↦
      let b : n ≤ x = ground arith in inr (b, mod-eq-sub-mod b ∙ mod-eq_of_lt (omega (arith, b, h)))
]

-- The slots among `n` consecutive ones, from the slot with index `r`, that have index `i`.
one_turn :
    (n r i : ℕ)
    → r < n
    → i < n
    → (d : ℕ) × (d < n) × ((r + d) % n ≡ i) × ((d' : ℕ) → d' < n → (r + d') % n ≡ i → d' ≡ d)
one_turn n r i hr hi =
    let d = if leb r i then i - r else n + i - r in
    let below : d < n = ground (arith, hr, hi) in
    (
      d,
      below,
      ground (arith, hr, hi, mod_cases n (r + d) (omega (arith, hr, below))),
      λ d' h e. ground (arith, hr, hi, e, h, mod_cases n (r + d') (omega (arith, hr, h))),
    )

-- Among as many consecutive slots as there are validators, from any slot of positive or negative
-- number on, `getIndexForSlot` gives each place of the rotation to exactly one slot.
pub get_index_for_slot_fair :
    (set : ValidatorSet) (slot : ℤ) (i : ℕ)
    → i < length set.validators
    → (d : ℕ) × (d < length set.validators)
      × (get_index_for_slot set (later slot d) ≡ i)
      × ((d' : ℕ)
          → d' < length set.validators
          → get_index_for_slot set (later slot d') ≡ i
          → d' ≡ d)
get_index_for_slot_fair set slot i h =
    let some_validator : 0 < length set.validators = omega (arith, h) in
    let turn =
      one_turn (length set.validators) (get_index_for_slot set slot) i
        (get_index_for_slot-lt set slot some_validator) h in
    let (d, below, owned, only) = turn in
    (
      d,
      below,
      get_index_for_slot-later set slot d some_validator ∙ owned,
      λ d' below' owned'.
          only d' below' (sym (get_index_for_slot-later set slot d' some_validator) ∙ owned'),
    )

get_elem?-any :
    (xs : List String) (i : ℕ)
    → i < length xs
    → (v : String) × (get_elem? xs i ≡ some v) × (any (λ w. w === v) xs ≡ true)
get_elem?-any [] i h = absurd (omega arith)
get_elem?-any (x ∷ xs) zero h = (x, refl, rw (===_self x) refl)
get_elem?-any (x ∷ xs) (suc i) h =
    let (v, found, known) = get_elem?-any xs i (omega (arith, h)) in
    (v, found, ground (arith, known))

new_validator_set-validators :
    (keys : List String) (set : ValidatorSet)
    → new_validator_set keys ≡ some set
    → (set.validators ≡ keys) × (0 < length keys)
unfolding new_validator_set
new_validator_set-validators [] set made = absurd (ground arith)
new_validator_set-validators (k ∷ ks) set made = (ground arith, omega arith)

-- In a set that the constructor makes, every slot has an owner, which is a known validator, and the
-- slot as many slots later as there are validators has the same owner.
pub get_validator_for_slot_lem :
    (keys : List String) (set : ValidatorSet) (slot : ℤ)
    → new_validator_set keys ≡ some set
    → (v : String) × (get_validator_for_slot set slot ≡ some v)
      × (is_known_validator set v ≡ true)
      × (get_validator_for_slot set (later slot (length keys)) ≡ some v)
unfolding get_validator_for_slot is_known_validator
get_validator_for_slot_lem keys set slot made =
    let (same, some_key) = new_validator_set-validators keys set made in
    let some_validator : 0 < length set.validators = rw same some_key in
    let n = length set.validators in
    let r = get_index_for_slot set slot in
    let below = get_index_for_slot-lt set slot some_validator in
    let (v, owner, known) = get_elem?-any set.validators r below in
    let again : get_index_for_slot set (later slot (length keys)) ≡ r = rw (← same) (
      get_index_for_slot-later set slot n some_validator
      ∙ add-mod_right r n
      ∙ mod-eq_of_lt below) in
    (v, owner, known, rw again owner)
