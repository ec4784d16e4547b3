-- ===== src/Common/Sort.antt =====
-- `Array.prototype.sort`, which is stable, for a comparator given by its test "not after".
use mathlib.Core.Path.{◌≡◌}
use mathlib.Core.Bool.{Bool, true, false}
use mathlib.Core.List.{List, [], ◌∷◌}
use proof_of_authority_block.Common.Tests.{if◌then◌else◌}
use proof_of_authority_block.Common.Lists.{All}

module _ {ℓ} {A : Type ℓ} (le : A → A → Bool) where
  unfoldable pub insert_sorted : A → List A → List A
  insert_sorted x [] = x ∷ []
  insert_sorted x (y ∷ ys) = if le x y then x ∷ y ∷ ys else y ∷ insert_sorted x ys

  unfoldable pub sort : List A → List A
  unfolding insert_sorted
  sort [] = []
  sort (x ∷ xs) = insert_sorted x (sort xs)

-- Membership, as a family that carries the place.
pub data Elem {ℓ} {A : Type ℓ} (x : A) : List A → Type ℓ where
  here : {y : A} {ys : List A} → x ≡ y → Elem x (y ∷ ys)
  there : {y : A} {ys : List A} → Elem x ys → Elem x (y ∷ ys)

module _ {ℓ} {A : Type ℓ} (le : A → A → Bool) where
  Elem-insert_self : (x y : A) (ys : List A) → x ≡ y → Elem x (insert_sorted le y ys)
  unfolding insert_sorted
  Elem-insert_self x y [] e = here e
  Elem-insert_self x y (z ∷ zs) e =
      elim (le y z) as (λ b. Elem x (if b then y ∷ z ∷ zs else z ∷ insert_sorted le y zs)) [
        | true ↦ here e
        | false ↦ there (Elem-insert_self x y zs e)
      ]

  Elem-insert_old : (x y : A) (ys : List A) → Elem x ys → Elem x (insert_sorted le y ys)
  unfolding insert_sorted
  Elem-insert_old x y [] m = elim m [ ]
  Elem-insert_old x y (z ∷ zs) (here e) =
      elim (le y z) as (λ b. Elem x (if b then y ∷ z ∷ zs else z ∷ insert_sorted le y zs)) [
        | true ↦ there (here e)
        | false ↦ here e
      ]
  Elem-insert_old x y (z ∷ zs) (there m) =
      elim (le y z) as (λ b. Elem x (if b then y ∷ z ∷ zs else z ∷ insert_sorted le y zs)) [
        | true ↦ there (there m)
        | false ↦ there (Elem-insert_old x y zs m)
      ]

  -- Sorting loses nothing.
  pub Elem-sort : (x : A) (xs : List A) → Elem x xs → Elem x (sort le xs)
  unfolding sort
  Elem-sort x [] m = elim m [ ]
  Elem-sort x (y ∷ ys) (here e) = Elem-insert_self x y (sort le ys) e
  Elem-sort x (y ∷ ys) (there m) = Elem-insert_old x y (sort le ys) (Elem-sort x ys m)

module _ {ℓ κ} {A : Type ℓ} (le : A → A → Bool) (P : A → Type κ) where
  pub All-insert_sorted : (x : A) (xs : List A) → P x → All P xs → All P (insert_sorted le x xs)
  unfolding insert_sorted
  All-insert_sorted x [] p h = (p, tt)
  All-insert_sorted x (y ∷ ys) p h =
      elim (le x y) as (λ b. All P (if b then x ∷ y ∷ ys else y ∷ insert_sorted le x ys)) [
        | true ↦ (p, h)
        | false ↦ (h.0, All-insert_sorted x ys p h.1)
      ]

  -- Sorting adds nothing.
  pub All-sort : (xs : List A) → All P xs → All P (sort le xs)
  unfolding sort
  All-sort [] h = tt
  All-sort (x ∷ xs) h = All-insert_sorted x (sort le xs) h.0 (All-sort xs h.1)

module _ {ℓ κ} {A : Type ℓ} (le : A → A → Bool) (P : A → Type κ) where
  All-of-insert_sorted : (x : A) (xs : List A) → All P (insert_sorted le x xs) → P x × All P xs
  unfolding insert_sorted
  All-of-insert_sorted x [] h = h
  All-of-insert_sorted x (y ∷ ys) h =
      elim (le x y)
          as (λ b.
            All P (if b then x ∷ y ∷ ys else y ∷ insert_sorted le x ys) → P x × (P y × All P ys)) [
              | true ↦ λ k. k
              | false ↦ λ k. let (px, rest) = All-of-insert_sorted x ys k.1 in (px, (k.0, rest))
            ]
        h

  -- Nor does it lose any.
  pub All-of-sort : (xs : List A) → All P (sort le xs) → All P xs
  unfolding sort
  All-of-sort [] h = tt
  All-of-sort (x ∷ xs) h =
      let (px, rest) = All-of-insert_sorted x (sort le xs) h in (px, All-of-sort xs rest)
