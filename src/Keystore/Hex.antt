-- ===== src/Keystore/Hex.antt =====
-- The texts in hexadecimal that the keystore functions of src/crypto.ts print and read with `Buffer`.
use mathlib.Core.Path.{subst}
use proof_of_authority_block.Common.{
  ℕ, ◌+◌, ◌/◌, ◌%◌, ◌≡◌, ◌<◌, ◌≤◌, ◌⊎◌, ap, refl, inl, inr, String, true, List, [], ◌∷◌, some,
  arith, length, All, ltb, if◌then◌else◌, Bool-cases,
}
use proof_of_authority_block.Json.{Value, str}
use proof_of_authority_block.Transaction.{codes}
use proof_of_authority_block.Keystore.{is_hex_code, all_hex, hex_text}

abbrev pub IsBytes : List ℕ → Type 0
IsBytes bs = All (λ b. b < 256) bs

-- The code of a digit, from '0' to '9' and from 'a' to 'f'.
abbrev pub hex_code : ℕ → ℕ
hex_code d = if ltb d 10 then 48 + d else 87 + d

-- The digits of bytes, two for each.
abbrev pub hex_digits : List ℕ → List ℕ
hex_digits [] = []
hex_digits (b ∷ bs) = hex_code (b / 16) ∷ hex_code (b % 16) ∷ hex_digits bs

hex_code_lem : (d : ℕ) → d < 16 → is_hex_code (hex_code d) ≡ true
hex_code_lem d h = elim (Bool-cases (ltb d 10)) [ inl low ↦ ground arith | inr high ↦ ground arith ]

hex_digits_lem :
    (bs : List ℕ) → IsBytes bs → (all_hex (hex_digits bs) ≡ true) × (length (hex_digits bs) % 2 ≡ 0)
hex_digits_lem [] h = (refl, refl)
hex_digits_lem (b ∷ bs) h =
    let (digits, even) = hex_digits_lem bs h.1 in
    let first = hex_code_lem (b / 16) (omega (arith, h.0)) in
    let second = hex_code_lem (b % 16) (omega arith) in
    (rw (first, second) digits, omega (arith, even))

-- A text of the digits of at least one byte passes `isHex`.
pub hex_text-hex_digits :
    (text : String) (bs : List ℕ)
    → codes text ≡ hex_digits bs
    → IsBytes bs
    → 0 < length bs
    → hex_text (str text) ≡ some text
unfolding hex_text
hex_text-hex_digits text [] e h long = absurd (omega arith)
hex_text-hex_digits text (b ∷ bs) e h long =
    let (digits, even) = hex_digits_lem (b ∷ bs) h in ground arith

-- The code of a digit from '0' to '9', from 'a' to 'f' or from 'A' to 'F'.
abbrev pub IsHexCode : ℕ → Type 0
IsHexCode ch = (48 ≤ ch × ch ≤ 57) ⊎ (97 ≤ ch × ch ≤ 102) ⊎ (65 ≤ ch × ch ≤ 70)

-- Pairs of digits, at least one.
pub record IsHexText (text : String) : Type 0 where
  pub long : 0 < length (codes text)
  pub even : length (codes text) % 2 ≡ 0
  pub digits : All IsHexCode (codes text)

all_hex_sound : (chs : List ℕ) → all_hex chs ≡ true → All IsHexCode chs
all_hex_sound [] h = tt
all_hex_sound (ch ∷ chs) h =
    let rest : all_hex chs ≡ true = ground arith in (ground arith, all_hex_sound chs rest)

-- What `isHex` accepts is a text of pairs of digits.
pub hex_text_sound :
    (v : Value) (text : String) → hex_text v ≡ some text → (v ≡ str text) × IsHexText text
unfolding hex_text
hex_text_sound (str s) text h =
    let same : s ≡ text = ground arith in
    let digits : all_hex (codes s) ≡ true = ground arith in
    (
      ap str same,
      subst IsHexText same (record {
        long = ground arith;
        even = ground arith;
        digits = all_hex_sound (codes s) digits;
      }),
    )
hex_text_sound v text h = absurd (ground arith)
