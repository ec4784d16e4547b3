-- ===== src/Keystore/Tools.antt =====
-- What src/crypto.ts relies on in Node's crypto module and `Buffer`, and what its conversions of keys
-- make of it.
use mathlib.Core.Path.{subst}
use proof_of_authority_block.Common.{
  ℕ, zero, suc, ◌+◌, ◌-◌, ◌*◌, ◌≤◌, ◌<◌, ◌≡◌, refl, ap, inl, inr, String, true, List, [], ◌∷◌, ◌++◌,
  some, arith, length, take, length-append, Bool-cases, ◌==◌, All-append,
}
use proof_of_authority_block.Crypto.{
  NodeCrypto, KeyPair, IsKeyPair, sign, verify, canonical_public_key_pem,
}
use proof_of_authority_block.Transaction.{codes}
use proof_of_authority_block.Keystore.{
  KeyTools, drop, zeros, pad_to_32, spki_prefix_hex, private_key_bytes_from_pem,
  public_key_pem_from_private_key_bytes, private_key_pem_from_bytes,
}
use proof_of_authority_block.Keystore.Hex.{IsBytes, hex_digits}

-- The number that bytes stand for, the first one the highest.
abbrev pub value_from : ℕ → List ℕ → ℕ
value_from n [] = n
value_from n (b ∷ bs) = value_from (n * 256 + b) bs

abbrev pub value_of : List ℕ → ℕ
value_of bs = value_from 0 bs

-- How a public key on secp256k1 starts in DER: a sequence of the identifiers of an EC key and of the
-- curve, and a bit string without unused bits of a point that is not compressed.
abbrev pub spki_header : List ℕ
spki_header =
    48 ∷ 86 ∷ 48 ∷ 16 ∷ 6 ∷ 7 ∷ 42 ∷ 134 ∷ 72 ∷ 206 ∷ 61 ∷ 2 ∷ 1 ∷ 6 ∷ 5 ∷ 43 ∷ 129 ∷ 4 ∷ 0 ∷ 10 ∷ 3
    ∷ 66 ∷ 0 ∷ 4 ∷ []

-- A generated pair: the public key is a PEM as Node prints it, of a key on the curve, and the private
-- key has a scalar of at most 32 bytes. ECDH makes a point of two coordinates from the 32 bytes of
-- this number, the DER of that point is printed as the public key, and the scalar with the
-- coordinates is printed as a private key, whose signatures the public key verifies.
pub record IsGenerated (c : NodeCrypto) (tools : KeyTools) (keys : KeyPair) : Type 0 where
  pub key_object :
      c.create_public_key keys.public_key
      ≡ some (record {
        asymmetric_key_type = "ec";
        named_curve = "secp256k1";
        spki_pem = keys.public_key;
      })
  pub d : List ℕ
  pub x : List ℕ
  pub y : List ℕ
  pub scalar : tools.private_scalar keys.private_key ≡ some d
  pub bytes : IsBytes d
  pub short : length d ≤ 32
  pub x_size : length x ≡ 32
  pub y_size : length y ≡ 32
  pub point :
      (priv : List ℕ)
      → length priv ≡ 32
      → value_of priv ≡ value_of d
      → tools.ecdh_public priv ≡ some (4 ∷ x ++ y)
  pub public_printed : tools.public_pem (spki_header ++ (x ++ y)) ≡ some keys.public_key
  pub pem : String
  pub private_printed :
      (priv : List ℕ)
      → length priv ≡ 32
      → value_of priv ≡ value_of d
      → tools.private_pem priv x y ≡ some pem
  pub verifies :
      (text : String) → c.ecdsa_verify keys.public_key text (c.ecdsa_sign pem text) ≡ some true

-- The documented behaviour of Node: bytes are printed as two digits each, and such digits are read as
-- these bytes; random bytes are as many as asked for; what AES-GCM encrypts under a key it decrypts
-- under that key with its tag of 16 bytes; and what is generated is a pair.
pub record IsKeyTools (c : NodeCrypto) (tools : KeyTools) : Type 0 where
  pub prints_hex : (bs : List ℕ) → IsBytes bs → codes (tools.to_hex bs) ≡ hex_digits bs
  pub reads_hex :
      (text : String) (bs : List ℕ)
      → IsBytes bs
      → codes text ≡ hex_digits bs
      → tools.from_hex text ≡ bs
  pub random_size : (seed n : ℕ) → length (tools.random_bytes seed n) ≡ n
  pub random_bytes : (seed n : ℕ) → IsBytes (tools.random_bytes seed n)
  pub sealed_bytes :
      (key iv plain : List ℕ)
      → IsBytes plain
      → IsBytes (tools.gcm_encrypt key iv plain).0 × IsBytes (tools.gcm_encrypt key iv plain).1
  pub text_size : (key iv plain : List ℕ) → length (tools.gcm_encrypt key iv plain).0 ≡ length plain
  pub tag_size : (key iv plain : List ℕ) → length (tools.gcm_encrypt key iv plain).1 ≡ 16
  pub opens :
      (key iv plain : List ℕ)
      → tools.gcm_decrypt key iv
          (tools.gcm_encrypt key iv plain).1
          (tools.gcm_encrypt key iv plain).0
        ≡ some plain
  pub generates : (seed : ℕ) → IsGenerated c tools (tools.generate_key_pair seed)

pub drop-append : (xs ys : List ℕ) → drop (length xs) (xs ++ ys) ≡ ys
drop-append [] ys = refl
drop-append (x ∷ xs) ys = drop-append xs ys

pub take-append : (xs ys : List ℕ) → take (length xs) (xs ++ ys) ≡ xs
take-append [] [] = refl
take-append [] (y ∷ ys) = refl
take-append (x ∷ xs) ys = ap (◌∷◌ x) (take-append xs ys)

take_all : (xs : List ℕ) → take (length xs) xs ≡ xs
take_all [] = refl
take_all (x ∷ xs) = ap (◌∷◌ x) (take_all xs)

pub length-zeros : (n : ℕ) → length (zeros n) ≡ n
length-zeros zero = refl
length-zeros (suc n) = ap suc (length-zeros n)

pub zeros-IsBytes : (n : ℕ) → IsBytes (zeros n)
zeros-IsBytes zero = tt
zeros-IsBytes (suc n) = (omega arith, zeros-IsBytes n)

-- Zeros in front do not count.
value_of-zeros : (n : ℕ) (bs : List ℕ) → value_of (zeros n ++ bs) ≡ value_of bs
value_of-zeros zero bs = refl
value_of-zeros (suc n) bs = value_of-zeros n bs

-- `padTo32` gives 32 bytes of the same number.
pub record IsPadded (buf padded : List ℕ) : Type 0 where
  pub result : pad_to_32 buf ≡ some padded
  pub size : length padded ≡ 32
  pub value : value_of padded ≡ value_of buf
  pub bytes : IsBytes padded

pad_to_32_lem :
    (buf : List ℕ) → IsBytes buf → length buf ≤ 32 → (padded : List ℕ) × IsPadded buf padded
unfolding pad_to_32
pad_to_32_lem buf h short = elim (Bool-cases (length buf == 32)) [
  | inl exact ↦
      (buf, record { result = ground arith; size = ground arith; value = refl; bytes = h })
  | inr less ↦
      let k = 32 - length buf in
      (
        zeros k ++ buf,
        record {
          result = ground arith;
          size = ground (arith, length-append (zeros k) buf, length-zeros k);
          value = value_of-zeros k buf;
          bytes = All-append (λ b. b < 256) (zeros k) buf (zeros-IsBytes k) h;
        },
      )
]

module _ (c : NodeCrypto) (tools : KeyTools) (t : IsKeyTools c tools) (keys : KeyPair)
    (g : IsGenerated c tools keys) where
  pub generated_canonical : canonical_public_key_pem c keys.public_key ≡ some keys.public_key
  unfolding canonical_public_key_pem
  generated_canonical = rw (canonical_public_key_pem, g.key_object) refl

  pub generated_scalar :
      (padded : List ℕ) × IsPadded g.d padded
      × (private_key_bytes_from_pem tools keys.private_key ≡ some padded)
  unfolding private_key_bytes_from_pem
  generated_scalar =
      let (padded, p) = pad_to_32_lem g.d g.bytes g.short in
      (padded, p, rw (private_key_bytes_from_pem, g.scalar) p.result)

  spki_prefix : tools.from_hex spki_prefix_hex ≡ spki_header
  spki_prefix = t.reads_hex spki_prefix_hex spki_header (ground arith) refl

  -- The conversions of the padded scalar.
  pub generated_public_key :
      (padded : List ℕ)
      → IsPadded g.d padded
      → public_key_pem_from_private_key_bytes tools padded ≡ some keys.public_key
  unfolding public_key_pem_from_private_key_bytes
  generated_public_key padded p =
      rw (public_key_pem_from_private_key_bytes, g.point padded p.size p.value, spki_prefix)
        g.public_printed

  pub generated_private_key :
      (padded : List ℕ) → IsPadded g.d padded → private_key_pem_from_bytes tools padded ≡ some g.pem
  unfolding private_key_pem_from_bytes
  generated_private_key padded p =
      let first : take 32 (g.x ++ g.y) ≡ g.x =
        subst (λ (n : ℕ). take n (g.x ++ g.y) ≡ g.x) g.x_size (take-append g.x g.y) in
      let rest : drop 32 (g.x ++ g.y) ≡ g.y =
        subst (λ (n : ℕ). drop n (g.x ++ g.y) ≡ g.y) g.x_size (drop-append g.x g.y) in
      let second : take 32 g.y ≡ g.y =
        subst (λ (n : ℕ). take n g.y ≡ g.y) g.y_size (take_all g.y) in
      rw (private_key_pem_from_bytes, g.point padded p.size p.value, first, rest, second)
        (g.private_printed padded p.size p.value)

  pub generated-IsKeyPair :
      IsKeyPair c (record { public_key = keys.public_key; private_key = g.pem })
  unfolding sign verify
  generated-IsKeyPair = record { verifies = λ text. rw (verify, sign, g.verifies text) refl }
