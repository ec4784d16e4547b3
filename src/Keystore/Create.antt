-- ===== src/Keystore/Create.antt =====
-- `unlockKeystore` of src/crypto.ts undoes `createKeystore`.
use proof_of_authority_block.Common.{
  ℕ, ◌<◌, ◌≡◌, refl, inl, inr, String, List, ◌++◌, Option, some, arith, length, All-append,
  length-append, Option-cases, ok,
}
use proof_of_authority_block.Json.{str}
use proof_of_authority_block.Crypto.{
  NodeCrypto, IsKeyPair, canonical_public_key_pem, address_from_public_key,
}
use proof_of_authority_block.Keystore.{
  KeyTools, Keystore, Unlocked, derive_key, encrypt_bytes, used_name, create_keystore,
  keystore_value, hex_text, unlock_keystore,
}
use proof_of_authority_block.Keystore.Hex.{IsBytes, hex_text-hex_digits}
use proof_of_authority_block.Keystore.Tools.{
  IsKeyTools, generated_canonical, generated_scalar, generated_public_key, generated_private_key,
  generated-IsKeyPair,
}
use proof_of_authority_block.Keystore.Unlock.{decrypt-encrypt, unlock_keystore_complete}

-- What `encryptBytes` prints passes `isHex`.
encrypt_bytes_hex :
    (c : NodeCrypto) (tools : KeyTools) (t : IsKeyTools c tools) (salt iv plain : List ℕ)
    (passphrase : String)
    → IsBytes salt
    → 0 < length salt
    → IsBytes iv
    → 0 < length iv
    → IsBytes plain
    → let enc = encrypt_bytes tools salt iv plain passphrase in
      (hex_text (str enc.salt) ≡ some enc.salt)
      × (hex_text (str enc.iv) ≡ some enc.iv)
      × (hex_text (str enc.ciphertext) ≡ some enc.ciphertext)
unfolding encrypt_bytes
encrypt_bytes_hex c tools t salt iv plain passphrase hs ls hi li hp =
    let key = derive_key tools passphrase salt in
    let text = (tools.gcm_encrypt key iv plain).0 in
    let tag = (tools.gcm_encrypt key iv plain).1 in
    let (bt, bg) = t.sealed_bytes key iv plain hp in
    let printed = λ (bs : List ℕ) (h : IsBytes bs).
      hex_text-hex_digits (tools.to_hex bs) bs (t.prints_hex bs h) h in
    (
      printed salt hs ls,
      printed iv hi li,
      printed (text ++ tag) (All-append (λ b. b < 256) text tag bt bg)
          (omega (arith, length-append text tag, t.tag_size key iv plain)),
    )

address_of_canonical :
    (c : NodeCrypto) (public_key canonical : String)
    → canonical_public_key_pem c public_key ≡ some canonical
    → (address : String) × (address_from_public_key c public_key ≡ some address)
unfolding address_from_public_key
address_of_canonical c public_key canonical e =
    elim (Option-cases (address_from_public_key c public_key)) [
      | inl invalid ↦ absurd (ground arith)
      | inr (address, owner) ↦ (address, owner)
    ]

-- If Node's functions behave as documented (bytes are printed in hexadecimal and read back, AES-GCM
-- decrypts what it encrypts, and a generated pair has a number of at most 32 bytes, from which ECDH
-- makes a point, of which the DER is the public key and the JWK a private key whose signatures it
-- verifies), `createKeystore` does not throw, and `unlockKeystore` opens its keystore with the same
-- passphrase: the address and the public key are those of the keystore, and the public key verifies
-- what the private key signs.
pub unlock-create_keystore :
    (c : NodeCrypto) (tools : KeyTools) (seed : ℕ) (passphrase : String) (name : Option String)
    → IsKeyTools c tools
    → (ks : Keystore) × (u : Unlocked) × (create_keystore c tools seed passphrase name ≡ some ks)
      × (unlock_keystore c tools (keystore_value ks) passphrase ≡ ok u)
      × (u.address ≡ ks.address)
      × (u.keys.public_key ≡ ks.public_key)
      × IsKeyPair c u.keys
unfolding create_keystore
unlock-create_keystore c tools seed passphrase name t =
    let keys = tools.generate_key_pair seed in
    let g = t.generates seed in
    let canonical = generated_canonical c tools t keys g in
    let (raw, p, scalar) = generated_scalar c tools t keys g in
    let (address, owner) = address_of_canonical c keys.public_key keys.public_key canonical in
    let salt = tools.random_bytes seed 16 in
    let iv = tools.random_bytes seed 12 in
    let enc = encrypt_bytes tools salt iv raw passphrase in
    let ks : Keystore = record {
      name = used_name name;
      address = address;
      public_key = keys.public_key;
      encrypted_private_key = enc;
    } in
    let u : Unlocked = record {
      address = address;
      keys = record { public_key = keys.public_key; private_key = g.pem };
    } in
    let (salt_hex, iv_hex, text_hex) =
      encrypt_bytes_hex c tools t salt iv raw passphrase (t.random_bytes seed 16)
        (omega (arith, t.random_size seed 16)) (t.random_bytes seed 12)
        (omega (arith, t.random_size seed 12)) p.bytes in
    (
      ks,
      u,
      rw (create_keystore, scalar, owner) refl,
      unlock_keystore_complete c tools ks passphrase u salt_hex iv_hex text_hex refl (record {
        canonical = canonical;
        owner = owner;
        raw = raw;
        decrypted =
            decrypt-encrypt c tools t salt iv raw passphrase (t.random_bytes seed 16)
              (t.random_bytes seed 12) p.bytes (omega (arith, p.size));
        derived = generated_public_key c tools t keys g raw p;
        printed = generated_private_key c tools t keys g raw p;
      }),
      refl,
      refl,
      generated-IsKeyPair c tools t keys g,
    )
