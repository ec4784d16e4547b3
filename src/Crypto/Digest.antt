-- ===== src/Crypto/Digest.antt =====
-- The digests that src/crypto.ts makes addresses of.
use Prim.Native.String.{◌++◌ as text_append, count}
use Prim.Native.String.append
use Prim.Native.String.count
use proof_of_authority_block.Common.{
  ℕ, zero, suc, ◌-◌, ◌≤◌, ◌≡◌, refl, ap, ◌∙◌, ◌⊎◌, String, true, List, [], ◌∷◌, arith, length, All,
}
use proof_of_authority_block.Crypto.{NodeCrypto, drop_chars, sha256, last_chars}
use proof_of_authority_block.Transaction.{codes, is_address, address_codes, all_lower_hex}

-- The code of a digit from '0' to '9' or from 'a' to 'f'.
abbrev IsDigit : ℕ → Type 0
IsDigit ch = (48 ≤ ch × ch ≤ 57) ⊎ (97 ≤ ch × ch ≤ 102)

-- The documented behaviour of SHA-256 in hexadecimal: 64 digits.
pub record IsDigest (c : NodeCrypto) : Type 0 where
  pub size : (text : String) → length (codes (c.sha256_hex text)) ≡ 64
  pub digits : (text : String) → All IsDigit (codes (c.sha256_hex text))

count-codes : (s : String) → count s ≡ length (codes s)
count-codes String.[] = refl
count-codes (String.◌∷◌ ch s) = rw (count.cons ch s, count-codes s) refl

-- What is left after some characters, and that it consists of digits.
drop_chars_lem :
    (n : ℕ) (s : String)
    → All IsDigit (codes s)
    → (length (codes (drop_chars n s)) ≡ length (codes s) - n)
      × All IsDigit (codes (drop_chars n s))
unfolding drop_chars
drop_chars_lem zero s h = (omega arith, h)
drop_chars_lem (suc n) String.[] h = (omega arith, h)
drop_chars_lem (suc n) (String.◌∷◌ ch s) h =
    let (size, digits) = drop_chars_lem n s h.1 in (omega (arith, size), digits)

all_lower_hex_lem : (chs : List ℕ) → All IsDigit chs → all_lower_hex chs ≡ true
all_lower_hex_lem [] h = refl
all_lower_hex_lem (ch ∷ chs) h = ground (arith, h.0, all_lower_hex_lem chs h.1)

codes-prefix : (s : String) → codes (text_append "0x" s) ≡ 48 ∷ 120 ∷ codes s
codes-prefix s =
    let zero_first : String → String = String.◌∷◌ "0" in
    let x_first : String → String = String.◌∷◌ "x" in
    ap codes
      (append.cons "0" "x" s ∙ ap zero_first (append.cons "x" "" s ∙ ap x_first (append.nil s)))

-- "0x" and the last 40 digits of a digest are an address.
pub is_address-last_chars :
    (c : NodeCrypto) (text : String)
    → IsDigest c
    → is_address (text_append "0x" (last_chars 40 (sha256 c text))) ≡ true
unfolding sha256 last_chars is_address address_codes
is_address-last_chars c text d =
    let s = c.sha256_hex text in
    let (size, digits) = drop_chars_lem (count s - 40) s (d.digits text) in
    let lower = all_lower_hex_lem (codes (drop_chars (count s - 40) s)) digits in
    let count_64 : count s ≡ 64 = count-codes s ∙ d.size text in
    let whole = codes-prefix (drop_chars (count s - 40) s) in
    let forty : length (codes (drop_chars (count s - 40) s)) ≡ 40 =
      omega (arith, size, count_64, d.size text) in
    rw (is_address, last_chars, sha256, whole, address_codes) (ground (arith, lower, forty))
