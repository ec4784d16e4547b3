-- ===== src/ValidatorSet.antt =====
-- src/validatorSet.ts: the validators' public keys in rotation order, and who owns a time slot.
pub mod Rotation
use proof_of_authority_block.Common.{
  ℕ, zero, suc, ◌+◌, ◌-◌, ◌%◌, String, Bool, List, [], ◌∷◌, Option, none, some, length, get_elem?,
  any, ◌==◌, ◌===◌, if◌then◌else◌,
}
use proof_of_authority_block.Common.Int.{ℤ, pos, negsuc, pos_part, neg_part}

pub record ValidatorSet : Type 0 where
  pub validators : List String

-- The constructor: `none` is the error for an empty set.
unfoldable pub new_validator_set : List String → Option ValidatorSet
new_validator_set [] = none
new_validator_set (v ∷ vs) = some (record { validators = v ∷ vs })

-- The integer -n.
abbrev pub negate : ℕ → ℤ
negate zero = pos 0
negate (suc n) = negsuc n

-- JavaScript's `a % n`, whose sign is that of `a`.
unfoldable pub js_remainder : ℤ → ℕ → ℤ
js_remainder (pos a) n = pos (a % n)
js_remainder (negsuc a) n = negate ((a + 1) % n)

-- `getIndexForSlot`: ((slot % n) + n) % n
unfoldable pub get_index_for_slot : ValidatorSet → ℤ → ℕ
unfolding js_remainder
get_index_for_slot set slot =
    let n = length set.validators in
    let r = js_remainder slot n in (n + pos_part r - neg_part r) % n

-- `getValidatorForSlot`; `none` is `undefined`.
unfoldable pub get_validator_for_slot : ValidatorSet → ℤ → Option String
get_validator_for_slot set slot = get_elem? set.validators (get_index_for_slot set slot)

-- `isKnownValidator`
unfoldable pub is_known_validator : ValidatorSet → String → Bool
is_known_validator set public_key = any (λ v. v === public_key) set.validators

-- `getAll`
unfoldable pub get_all : ValidatorSet → List String
get_all set = set.validators
