-- ===== src/Keystore/Unlock.antt =====
-- `createKeystore` and `unlockKeystore` of src/crypto.ts.
use proof_of_authority_block.Common.{
  ℕ, ◌+◌, ◌-◌, ◌<◌, ◌≡◌, refl, ap, ◌∙◌, inl, inr, false, String, List, ◌++◌, none, some, arith,
  eq_iff, ===_self, length, All-append, length-append, Option-cases, ok, >>=-eq-ok, leb,
}
use proof_of_authority_block.Json.{Value, str, get, object_fields, as_string}
use proof_of_authority_block.Crypto.{NodeCrypto, canonical_public_key_pem, address_from_public_key}
use proof_of_authority_block.Keystore.{
  KeyTools, EncryptedPrivateKey, Keystore, Unlocked, derive_key, encrypt_bytes, decrypt_bytes,
  public_key_pem_from_private_key_bytes, private_key_pem_from_bytes, encrypted_value,
  keystore_value, hex_text, member, read_keystore, unlock_key, unlock_keystore,
}
use proof_of_authority_block.Keystore.Hex.{IsBytes}
use proof_of_authority_block.Keystore.Shape.{HasShape, read_keystore_sound}
use proof_of_authority_block.Keystore.Tools.{IsKeyTools, drop-append, take-append}

module _ (c : NodeCrypto) (tools : KeyTools) (t : IsKeyTools c tools) where
  -- `decryptBytes` undoes `encryptBytes`.
  pub decrypt-encrypt :
      (salt iv plain : List ℕ) (passphrase : String)
      → IsBytes salt
      → IsBytes iv
      → IsBytes plain
      → 0 < length plain
      → decrypt_bytes tools (encrypt_bytes tools salt iv plain passphrase) passphrase ≡ some plain
  unfolding decrypt_bytes encrypt_bytes
  decrypt-encrypt salt iv plain passphrase hs hi hp long =
      let key = derive_key tools passphrase salt in
      let text = (tools.gcm_encrypt key iv plain).0 in
      let tag = (tools.gcm_encrypt key iv plain).1 in
      let (bt, bg) = t.sealed_bytes key iv plain hp in
      let sum : length (text ++ tag) ≡ length text + 16 =
        length-append text tag ∙ ap (λ (n : ℕ). length text + n) (t.tag_size key iv plain) in
      let short : leb (length (text ++ tag)) 16 ≡ false =
        ground (arith, t.text_size key iv plain) in
      let reads =
        λ (bs : List ℕ) (h : IsBytes bs). t.reads_hex (tools.to_hex bs) bs h (t.prints_hex bs h) in
      let size : length (text ++ tag) - 16 ≡ length text = omega arith in
      rw
        (
          reads (text ++ tag) (All-append (λ b. b < 256) text tag bt bg),
          reads salt hs,
          reads iv hi,
          short,
          size,
          drop-append text tag,
          take-append text tag,
        )
        (t.opens key iv plain)

-- What `unlockKeystore` reads from the object of a keystore.
pub member-keystore_value :
    (ks : Keystore)
    → (member "address" (keystore_value ks) ≡ str ks.address)
      × (member "publicKey" (keystore_value ks) ≡ str ks.public_key)
      × (member "encryptedPrivateKey" (keystore_value ks)
          ≡ encrypted_value ks.encrypted_private_key)
unfolding member keystore_value get object_fields
member-keystore_value ks =
    elim ks.name
      as (λ name.
        let v = keystore_value (record ks { name = name }) in
        (member "address" v ≡ str ks.address)
        × (member "publicKey" v ≡ str ks.public_key)
        × (member "encryptedPrivateKey" v ≡ encrypted_value ks.encrypted_private_key)) [
          | none ↦ (refl, refl, refl)
          | some name ↦ (refl, refl, refl)
        ]

pub member-encrypted_value :
    (enc : EncryptedPrivateKey)
    → (member "salt" (encrypted_value enc) ≡ str enc.salt)
      × (member "iv" (encrypted_value enc) ≡ str enc.iv)
      × (member "ciphertext" (encrypted_value enc) ≡ str enc.ciphertext)
unfolding member get object_fields
member-encrypted_value enc = (refl, refl, refl)

-- The address is that of the public key, and the passphrase brings back a private key from which
-- this public key derives.
pub record Opens (c : NodeCrypto) (tools : KeyTools) (public_key : String)
    (enc : EncryptedPrivateKey) (passphrase : String) (u : Unlocked) : Type 0 where
  pub canonical : canonical_public_key_pem c public_key ≡ some u.keys.public_key
  pub owner : address_from_public_key c public_key ≡ some u.address
  pub raw : List ℕ
  pub decrypted : decrypt_bytes tools enc passphrase ≡ some raw
  pub derived : public_key_pem_from_private_key_bytes tools raw ≡ some u.keys.public_key
  pub printed : private_key_pem_from_bytes tools raw ≡ some u.keys.private_key

unlock_key_complete :
    (c : NodeCrypto) (tools : KeyTools) (public_key : String) (enc : EncryptedPrivateKey)
    (passphrase : String) (u : Unlocked)
    → Opens c tools public_key enc passphrase u
    → unlock_key c tools passphrase (u.address, public_key, enc) ≡ ok u
unfolding unlock_key
unlock_key_complete c tools public_key enc passphrase u o =
    rw
      (
        unlock_key,
        o.canonical,
        o.owner,
        ===_self u.address,
        o.decrypted,
        o.derived,
        ===_self u.keys.public_key,
        o.printed,
      )
      refl

unlock_key_sound :
    (c : NodeCrypto) (tools : KeyTools) (address public_key : String) (enc : EncryptedPrivateKey)
    (passphrase : String) (u : Unlocked)
    → unlock_key c tools passphrase (address, public_key, enc) ≡ ok u
    → (u.address ≡ address) × Opens c tools public_key enc passphrase u
unfolding unlock_key
unlock_key_sound c tools address public_key enc passphrase u h =
    elim (Option-cases (canonical_public_key_pem c public_key)) [
      | inl invalid ↦ absurd (ground arith)
      | inr (canonical, e1) ↦ elim (Option-cases (address_from_public_key c public_key)) [
        | inl invalid ↦ absurd (ground arith)
        | inr (derived, e2) ↦ elim (Option-cases (decrypt_bytes tools enc passphrase)) [
          | inl refused ↦ absurd (ground arith)
          | inr (raw, e3) ↦ elim (Option-cases (public_key_pem_from_private_key_bytes tools raw)) [
            | inl refused ↦ absurd (ground arith)
            | inr (own, e4) ↦ elim (Option-cases (private_key_pem_from_bytes tools raw)) [
              | inl refused ↦ absurd (ground arith)
              | inr (pem, e5) ↦ (
                ground (arith, eq_iff derived address, eq_iff own canonical),
                record {
                  canonical = ground (arith, eq_iff derived address, eq_iff own canonical);
                  owner = ground (arith, eq_iff derived address, eq_iff own canonical);
                  raw = raw;
                  decrypted = e3;
                  derived = ground (arith, eq_iff derived address, eq_iff own canonical);
                  printed = ground (arith, eq_iff derived address, eq_iff own canonical);
                },
              )
            ]
          ]
        ]
      ]
    ]

pub unlock_keystore_complete :
    (c : NodeCrypto) (tools : KeyTools) (ks : Keystore) (passphrase : String) (u : Unlocked)
    → hex_text (str ks.encrypted_private_key.salt) ≡ some ks.encrypted_private_key.salt
    → hex_text (str ks.encrypted_private_key.iv) ≡ some ks.encrypted_private_key.iv
    → hex_text (str ks.encrypted_private_key.ciphertext) ≡ some ks.encrypted_private_key.ciphertext
    → u.address ≡ ks.address
    → Opens c tools ks.public_key ks.encrypted_private_key passphrase u
    → unlock_keystore c tools (keystore_value ks) passphrase ≡ ok u
unfolding unlock_keystore read_keystore as_string
unlock_keystore_complete c tools ks passphrase u salt_hex iv_hex text_hex same o =
    let (address, public_key, enc) = member-keystore_value ks in
    let (salt, iv, ciphertext) = member-encrypted_value ks.encrypted_private_key in
    rw
      (
        unlock_keystore,
        read_keystore,
        address,
        public_key,
        enc,
        salt,
        iv,
        ciphertext,
        salt_hex,
        iv_hex,
        text_hex,
        ← same,
      )
      (unlock_key_complete c tools ks.public_key ks.encrypted_private_key passphrase u o)

-- Whatever object is unlocked, if `unlockKeystore` returns, then the object holds an address, a
-- public key and an encrypted private key, whose salt, initialisation vector and ciphertext are
-- texts of pairs of hexadecimal digits, the address that is returned stands in it and is the
-- address of its public key, the passphrase decrypts its private key, the public key that is
-- returned is the canonical form of the one in the object and derives from the decrypted key, and
-- the private key that is returned is the decrypted one.
pub unlock_keystore_sound :
    (c : NodeCrypto) (tools : KeyTools) (v : Value) (passphrase : String) (u : Unlocked)
    → unlock_keystore c tools v passphrase ≡ ok u
    → (public_key : String) × (enc : EncryptedPrivateKey) × (read_keystore v
        ≡ ok (u.address, public_key, enc))
      × HasShape v u.address public_key enc
      × Opens c tools public_key enc passphrase u
unfolding unlock_keystore
unlock_keystore_sound c tools v passphrase u h =
    let ((address, public_key, enc), shape, h') =
      >>=-eq-ok (read_keystore v) (unlock_key c tools passphrase) h in
    let (same, o) = unlock_key_sound c tools address public_key enc passphrase u h' in
    let read : read_keystore v ≡ ok (u.address, public_key, enc) = rw same shape in
    (public_key, enc, read, read_keystore_sound v u.address public_key enc read, o)
