-- ===== src/Keystore.antt =====
-- The keystore functions of src/crypto.ts, over the rest of Node's crypto module and `Buffer` as a
-- parameter. Bytes are natural numbers. `none` stands for a throw.
pub mod Hex
pub mod Shape
pub mod Tools
pub mod Unlock
pub mod Create
use proof_of_authority_block.Common.{
  ℕ, zero, suc, ◌+◌, ◌-◌, ◌*◌, ◌%◌, ◌≡◌, String, Bool, true, false, not, List, [], ◌∷◌, ◌++◌,
  Option, none, some, ◌&&◌, ◌||◌, ◌==◌, ◌===◌, ltb, leb, length, take, if◌then◌else◌, Result, ok,
  err, ◌>>=◌, ◌>>◌, check, require,
}
use proof_of_authority_block.Common.Int.{pos}
use proof_of_authority_block.Json.{
  Value, Fields, undefined, null, bool, num, str, int, obj, end, field, get, object_fields,
  as_string,
}
use proof_of_authority_block.Crypto.{
  NodeCrypto, KeyPair, canonical_public_key_pem, address_from_public_key,
}
use proof_of_authority_block.Transaction.{codes}

-- The calls of Node's crypto module and of `Buffer` that the keystore makes. `gcm_encrypt` gives the
-- ciphertext and the tag; `gcm_decrypt` takes the tag before the ciphertext. `private_scalar` is the
-- member `d` of a private key as a JWK, as bytes; `private_pem` prints the JWK of d, x and y.
pub record KeyTools : Type 0 where
  pub generate_key_pair : ℕ → KeyPair
  pub random_bytes : ℕ → ℕ → List ℕ
  pub pbkdf2 : String → List ℕ → List ℕ
  pub gcm_encrypt : List ℕ → List ℕ → List ℕ → List ℕ × List ℕ
  pub gcm_decrypt : List ℕ → List ℕ → List ℕ → List ℕ → Option (List ℕ)
  pub private_scalar : String → Option (List ℕ)
  pub ecdh_public : List ℕ → Option (List ℕ)
  pub public_pem : List ℕ → Option String
  pub private_pem : List ℕ → List ℕ → List ℕ → Option String
  pub to_hex : List ℕ → String
  pub from_hex : String → List ℕ

-- `EncryptedPrivateKey`
pub record EncryptedPrivateKey : Type 0 where
  pub salt : String
  pub iv : String
  pub ciphertext : String

-- `Keystore`, whose version is always 1.
pub record Keystore : Type 0 where
  pub name : Option String
  pub address : String
  pub public_key : String
  pub encrypted_private_key : EncryptedPrivateKey

-- `xs.subarray(n)`
abbrev pub drop {ℓ} : {A : Type ℓ} → ℕ → List A → List A
drop zero xs = xs
drop (suc n) [] = []
drop (suc n) (x ∷ xs) = drop n xs

-- `Buffer.alloc(n)`
abbrev pub zeros : ℕ → List ℕ
zeros zero = []
zeros (suc n) = 0 ∷ zeros n

-- GCM_TAG_LEN
abbrev pub gcm_tag_len : ℕ
gcm_tag_len = 16

-- SPKI_PREFIX_HEX
abbrev pub spki_prefix_hex : String
spki_prefix_hex = "3056301006072a8648ce3d020106052b8104000a03420004"

-- `padTo32`
unfoldable pub pad_to_32 : List ℕ → Option (List ℕ)
pad_to_32 buf =
    if length buf == 32
    then some buf
    else if ltb 32 (length buf)
    then none
    else some (zeros (32 - length buf) ++ buf)

module _ (tools : KeyTools) where
  -- `deriveKey`
  abbrev pub derive_key : String → List ℕ → List ℕ
  derive_key passphrase salt = tools.pbkdf2 passphrase salt

  -- `encryptBytes`, with the random salt and initialisation vector.
  unfoldable pub encrypt_bytes : List ℕ → List ℕ → List ℕ → String → EncryptedPrivateKey
  encrypt_bytes salt iv plain passphrase =
      let (text, tag) = tools.gcm_encrypt (derive_key passphrase salt) iv plain in
      record {
        salt = tools.to_hex salt;
        iv = tools.to_hex iv;
        ciphertext = tools.to_hex (text ++ tag);
      }

  -- `decryptBytes`: throws on a text that is too short, a wrong passphrase or tampering.
  unfoldable pub decrypt_bytes : EncryptedPrivateKey → String → Option (List ℕ)
  decrypt_bytes enc passphrase =
      let all = tools.from_hex enc.ciphertext in
      let text_len = length all - gcm_tag_len in
      if leb (length all) gcm_tag_len
      then none
      else tools.gcm_decrypt (derive_key passphrase (tools.from_hex enc.salt))
          (tools.from_hex enc.iv) (drop text_len all) (take text_len all)

  -- `privateKeyBytesFromPem`
  unfoldable pub private_key_bytes_from_pem : String → Option (List ℕ)
  private_key_bytes_from_pem pem = elim (tools.private_scalar pem) [
    | none ↦ none
    | some d ↦ pad_to_32 d
  ]

  -- `publicKeyPemFromPrivateKeyBytes`, with `uncompressedPubFromBytes`.
  unfoldable pub public_key_pem_from_private_key_bytes : List ℕ → Option String
  public_key_pem_from_private_key_bytes priv = elim (tools.ecdh_public priv) [
    | none ↦ none
    | some pub_bytes ↦ tools.public_pem (tools.from_hex spki_prefix_hex ++ drop 1 pub_bytes)
  ]

  -- `privateKeyPemFromBytes`
  unfoldable pub private_key_pem_from_bytes : List ℕ → Option String
  private_key_pem_from_bytes priv = elim (tools.ecdh_public priv) [
    | none ↦ none
    | some pub_bytes ↦
        tools.private_pem priv (take 32 (drop 1 pub_bytes)) (take 32 (drop 33 pub_bytes))
  ]

-- `name ? { name } : {}`
abbrev pub used_name : Option String → Option String
used_name none = none
used_name (some name) = if name === "" then none else some name

-- `createKeystore`; `seed` stands for what the generator of keys and of random bytes draws.
unfoldable pub create_keystore :
    NodeCrypto → KeyTools → ℕ → String → Option String → Option Keystore
create_keystore c tools seed passphrase name =
    let keys = tools.generate_key_pair seed in
    elim (private_key_bytes_from_pem tools keys.private_key) [
      | none ↦ none
      | some raw ↦ elim (address_from_public_key c keys.public_key) [
        | none ↦ none
        | some address ↦ some (record {
          name = used_name name;
          address = address;
          public_key = keys.public_key;
          encrypted_private_key =
              encrypt_bytes tools (tools.random_bytes seed 16) (tools.random_bytes seed 12) raw
                passphrase;
        })
      ]
    ]

-- The object of a keystore, as it is stored and parsed again.
abbrev pub encrypted_value : EncryptedPrivateKey → Value
encrypted_value enc = obj (
    field "salt" (str enc.salt)
      (field "iv" (str enc.iv) (field "ciphertext" (str enc.ciphertext) end)))

abbrev pub named_fields : Option String → Fields → Fields
named_fields none rest = rest
named_fields (some name) rest = field "name" (str name) rest

unfoldable pub keystore_value : Keystore → Value
keystore_value ks = obj (
    field "version" (num (int (pos 1))) (
      named_fields ks.name (
        field "address" (str ks.address) (
          field "publicKey" (str ks.public_key)
            (field "encryptedPrivateKey" (encrypted_value ks.encrypted_private_key) end)))))

-- /^[0-9a-f]+$/i
abbrev pub is_hex_code : ℕ → Bool
is_hex_code ch = leb 48 ch && leb ch 57 || leb 97 ch && leb ch 102 || leb 65 ch && leb ch 70

abbrev pub all_hex : List ℕ → Bool
all_hex [] = true
all_hex (ch ∷ chs) = is_hex_code ch && all_hex chs

-- `isHex`, with the text.
unfoldable pub hex_text : Value → Option String
hex_text (str s) =
    let chs = codes s in
    if ltb 0 (length chs) && length chs % 2 == 0 && all_hex chs then some s else none
hex_text _ = none

-- `v?.key`
unfoldable pub member : String → Value → Value
member key v = elim (object_fields v) [ none ↦ undefined | some fs ↦ get key fs ]

pub data KeystoreError : Type 0 where
  missing_fields invalid_public_key address_mismatch wrong_passphrase key_mismatch : KeystoreError
  no_private_key : KeystoreError

-- What `unlockKeystore` returns.
pub record Unlocked : Type 0 where
  pub address : String
  pub keys : KeyPair

-- The checks of `unlockKeystore` on the shape, with the address, the public key and the encrypted
-- private key.
unfoldable pub read_keystore : Value → Result KeystoreError (String × String × EncryptedPrivateKey)
read_keystore ks = do
  let enc = member "encryptedPrivateKey" ks
  address ← require (as_string (member "address" ks)) missing_fields
  public_key ← require (as_string (member "publicKey" ks)) missing_fields
  salt ← require (hex_text (member "salt" enc)) missing_fields
  iv ← require (hex_text (member "iv" enc)) missing_fields
  ciphertext ← require (hex_text (member "ciphertext" enc)) missing_fields
  ok (address, public_key, record { salt = salt; iv = iv; ciphertext = ciphertext })

module _ (c : NodeCrypto) (tools : KeyTools) where
  -- The rest of `unlockKeystore`.
  unfoldable pub unlock_key :
      String → String × String × EncryptedPrivateKey → Result KeystoreError Unlocked
  unlock_key passphrase (address, public_key, enc) = do
    canonical ← require (canonical_public_key_pem c public_key) invalid_public_key
    derived ← require (address_from_public_key c public_key) invalid_public_key
    check (derived === address) address_mismatch
    raw ← require (decrypt_bytes tools enc passphrase) wrong_passphrase
    own ← require (public_key_pem_from_private_key_bytes tools raw) key_mismatch
    check (own === canonical) key_mismatch
    private_key ← require (private_key_pem_from_bytes tools raw) no_private_key
    ok (record {
      address = address;
      keys = record { public_key = canonical; private_key = private_key };
    })

  -- `unlockKeystore`. Zeroing the decrypted bytes has no counterpart.
  unfoldable pub unlock_keystore : Value → String → Result KeystoreError Unlocked
  unlock_keystore ks passphrase = do found ← read_keystore ks; unlock_key passphrase found
