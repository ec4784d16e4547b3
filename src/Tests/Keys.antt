-- ===== src/Tests/Keys.antt =====
-- A stand-in for the rest of Node's crypto module: a curve on which the point of a number has the
-- coordinates of this number and of 1, one key pair, with the number 7, and a cipher that adds an
-- empty tag.
use Prim.Native.Char.{Char, char, code, nul}
use Prim.Native.Nat.{Ordering, compare}
use Prim.Native.String.{◌++◌ as text_append}
use proof_of_authority_block.Common.{
  ℕ, ◌+◌, ◌-◌, ◌*◌, ◌/◌, ◌%◌, ◌<◌, ◌≡◌, refl, ap, Bool, String, List, [], ◌∷◌, ◌++◌, none, some,
  arith, ltb, if◌then◌else◌, ◌==◌, ◌&&◌, ===_self,
}
use proof_of_authority_block.Crypto.{NodeCrypto}
use proof_of_authority_block.Transaction.{codes}
use proof_of_authority_block.Keystore.{KeyTools, zeros}
use proof_of_authority_block.Keystore.Hex.{IsBytes, hex_code, hex_digits}
use proof_of_authority_block.Keystore.Tools.{
  IsKeyTools, IsGenerated, value_of, spki_header, length-zeros, zeros-IsBytes,
}
use proof_of_authority_block.Crypto.Digest.{IsDigest}
use proof_of_authority_block.Tests.World.{toy_crypto, key_pair}

-- A hash with one value.
abbrev pub plain_crypto : NodeCrypto
plain_crypto = record toy_crypto {
  sha256_hex = λ text. "0000000000000000000000000000000000000000000000000000000000000005";
}

-- The character of a code point below the surrogates.
abbrev char_at : (n : ℕ) (o : Ordering) → compare n 55296 ≡ o → Char
char_at n Ordering.lt e = char n (rw e tt)
char_at n _ e = nul

abbrev digit_char : ℕ → Char
digit_char d = char_at (hex_code d) (compare (hex_code d) 55296) refl

abbrev pub toy_hex : List ℕ → String
toy_hex [] = ""
toy_hex (b ∷ bs) = String.◌∷◌ (digit_char (b / 16)) (String.◌∷◌ (digit_char (b % 16)) (toy_hex bs))

abbrev digit_value : ℕ → ℕ
digit_value ch = if ltb ch 97 then ch - 48 else ch - 87

abbrev pub toy_read : List ℕ → List ℕ
toy_read (a ∷ b ∷ chs) = (digit_value a * 16 + digit_value b) ∷ toy_read chs
toy_read _ = []

-- 32 bytes of a number below 256.
abbrev coordinate : ℕ → List ℕ
coordinate n = zeros 31 ++ (n ∷ [])

abbrev has_value : List ℕ → ℕ → Bool
has_value bs n = value_of bs == n

abbrev pub toy_tools : KeyTools
toy_tools = record {
  generate_key_pair = λ seed. key_pair "alice";
  random_bytes = λ seed n. zeros n;
  pbkdf2 = λ passphrase salt. salt;
  gcm_encrypt = λ key iv plain. (plain, zeros 16);
  gcm_decrypt = λ key iv tag text. some text;
  private_scalar = λ pem. some (7 ∷ []);
  ecdh_public = λ priv. some (4 ∷ coordinate (value_of priv) ++ coordinate 1);
  public_pem = λ der.
      if has_value der (value_of (spki_header ++ (coordinate 7 ++ coordinate 1)))
      then some "alice"
      else none;
  private_pem =
      λ d x y. if has_value d 7 && has_value x 7 && has_value y 1 then some "alice" else none;
  to_hex = toy_hex;
  from_hex = λ text. toy_read (codes text);
}

code-char_at :
    (n : ℕ) (o : Ordering) (e : compare n 55296 ≡ o) → n < 55296 → code (char_at n o e) ≡ n
code-char_at n Ordering.lt e h = refl
code-char_at n Ordering.eq e h = absurd (ground arith)
code-char_at n Ordering.gt e h = absurd (ground arith)

code-digit_char : (d : ℕ) → d < 16 → code (digit_char d) ≡ hex_code d
code-digit_char d h = code-char_at (hex_code d) (compare (hex_code d) 55296) refl (ground arith)

codes-toy_hex : (bs : List ℕ) → IsBytes bs → codes (toy_hex bs) ≡ hex_digits bs
codes-toy_hex [] h = refl
codes-toy_hex (b ∷ bs) h =
    rw
      (
        code-digit_char (b / 16) (omega (arith, h.0)),
        code-digit_char (b % 16) (omega arith),
        codes-toy_hex bs h.1,
      )
      refl

digit_value-hex_code : (d : ℕ) → d < 16 → digit_value (hex_code d) ≡ d
digit_value-hex_code d h = ground arith

toy_read-hex_digits : (bs : List ℕ) → IsBytes bs → toy_read (hex_digits bs) ≡ bs
toy_read-hex_digits [] h = refl
toy_read-hex_digits (b ∷ bs) h =
    let high = digit_value-hex_code (b / 16) (omega (arith, h.0)) in
    let low = digit_value-hex_code (b % 16) (omega arith) in
    let whole : b / 16 * 16 + b % 16 ≡ b = omega arith in
    rw (high, low, whole, toy_read-hex_digits bs h.1) refl

abbrev alice_scalar : List ℕ
alice_scalar = 7 ∷ []

alice-IsGenerated : IsGenerated plain_crypto toy_tools (key_pair "alice")
alice-IsGenerated = record {
  key_object = refl;
  d = alice_scalar;
  x = coordinate 7;
  y = coordinate 1;
  scalar = refl;
  bytes = (omega arith, tt);
  short = omega arith;
  x_size = refl;
  y_size = refl;
  point = λ priv size value. rw value refl;
  public_printed = refl;
  pem = "alice";
  private_printed = λ priv size value. rw value refl;
  verifies = λ text. ap some (===_self (text_append text "alice"));
}

pub toy_tools-IsKeyTools : IsKeyTools plain_crypto toy_tools
toy_tools-IsKeyTools = record {
  prints_hex = codes-toy_hex;
  reads_hex = λ text bs h e. rw e (toy_read-hex_digits bs h);
  random_size = λ seed n. length-zeros n;
  random_bytes = λ seed n. zeros-IsBytes n;
  sealed_bytes = λ key iv plain h. (h, zeros-IsBytes 16);
  text_size = λ key iv plain. refl;
  tag_size = λ key iv plain. refl;
  opens = λ key iv plain. refl;
  generates = λ seed. alice-IsGenerated;
}

pub plain_crypto-IsDigest : IsDigest plain_crypto
plain_crypto-IsDigest = record { size = λ text. refl; digits = λ text. ground arith }
