-- ===== src/Wallet/Files.antt =====
-- `create`, `fromKeystore` and `exportKeystore` of src/wallet.ts.
use proof_of_authority_block.Common.{
  ℕ, ◌≡◌, refl, ap, ◌∙◌, inl, inr, String, Option, none, some, arith, eq_iff, ===_self,
  Option-cases, Bool-cases, ok, ◌===◌,
}
use proof_of_authority_block.Json.{Value, get, object_fields, as_string}
use proof_of_authority_block.Crypto.{NodeCrypto, KeyPair, IsKeyPair, address_from_public_key}
use proof_of_authority_block.Keystore.{
  KeyTools, private_key_bytes_from_pem, Keystore, used_name, create_keystore, keystore_value,
  member,
}
use proof_of_authority_block.Keystore.Tools.{IsKeyTools}
use proof_of_authority_block.Keystore.Unlock.{member-keystore_value, member-encrypted_value}
use proof_of_authority_block.Keystore.Create.{unlock-create_keystore}
use proof_of_authority_block.Wallet.{
  Wallet, read_name, from_keystore, unlock, import_keystore, create, export_keystore,
}

-- A keystore with the address of its key, whose name is not empty.
pub record IsKeystore (c : NodeCrypto) (ks : Keystore) : Type 0 where
  pub named : used_name ks.name ≡ ks.name
  pub owner : address_from_public_key c ks.public_key ≡ some ks.address

used_name_twice : (name : Option String) → used_name (used_name name) ≡ used_name name
used_name_twice none = refl
used_name_twice (some name) = elim (Bool-cases (name === "")) [
  | inl empty ↦ rw empty refl
  | inr given ↦ rw (given, given) refl
]

member-name : (ks : Keystore) → read_name (member "name" (keystore_value ks)) ≡ used_name ks.name
unfolding member keystore_value get object_fields as_string
member-name ks =
    elim ks.name
      as (λ name.
        read_name (member "name" (keystore_value (record ks { name = name }))) ≡ used_name name) [
          | none ↦ refl
          | some name ↦ refl
        ]

pub from_keystore_value :
    (c : NodeCrypto) (ks : Keystore)
    → IsKeystore c ks
    → from_keystore c (keystore_value ks) ≡ ok (record { keys = none; ks = ks })
unfolding from_keystore as_string
from_keystore_value c ks h =
    let (address, public_key, enc) = member-keystore_value ks in
    let (salt, iv, ciphertext) = member-encrypted_value ks.encrypted_private_key in
    rw
      (
        from_keystore,
        address,
        public_key,
        enc,
        salt,
        iv,
        ciphertext,
        h.owner,
        ===_self ks.address,
        member-name ks,
        h.named,
      )
      refl

pub from_keystore-IsKeystore :
    (c : NodeCrypto) (v : Value) (w : Wallet)
    → from_keystore c v ≡ ok w
    → (w.keys ≡ none) × IsKeystore c w.ks
unfolding from_keystore
from_keystore-IsKeystore c v w h =
    let enc = member "encryptedPrivateKey" v in
    let again = used_name_twice (as_string (member "name" v)) in
    elim (Option-cases (as_string (member "address" v))) [
      | inl missing ↦ absurd (ground arith)
      | inr (address, e1) ↦ elim (Option-cases (as_string (member "publicKey" v))) [
        | inl missing ↦ absurd (ground arith)
        | inr (public_key, e2) ↦ elim (Option-cases (address_from_public_key c public_key)) [
          | inl invalid ↦ absurd (ground arith)
          | inr (derived, e3) ↦ (
            ground (arith, eq_iff derived address),
            record {
              named = ground (arith, eq_iff derived address, again);
              owner = ground (arith, eq_iff derived address);
            },
          )
        ]
      ]
    ]

-- If `fromKeystore` accepts an object, then it accepts what `exportKeystore` makes of the wallet,
-- under no new name, and gives the same locked wallet.
pub from_keystore-export_keystore :
    (c : NodeCrypto) (v : Value) (w : Wallet)
    → from_keystore c v ≡ ok w
    → from_keystore c (keystore_value (export_keystore w none)) ≡ ok w
unfolding export_keystore
from_keystore-export_keystore c v w h =
    let (locked, k) = from_keystore-IsKeystore c v w h in
    let same : keystore_value (export_keystore w none) ≡ keystore_value w.ks =
      ap (λ (n : Option String). keystore_value (record (w.ks) { name = n })) k.named in
    let whole : ok (record { keys = none; ks = w.ks }) ≡ ok w = ground arith in
    ap (from_keystore c) same ∙ from_keystore_value c w.ks k ∙ whole

create_keystore-IsKeystore :
    (c : NodeCrypto) (tools : KeyTools) (seed : ℕ) (passphrase : String) (name : Option String)
    (ks : Keystore)
    → create_keystore c tools seed passphrase name ≡ some ks
    → IsKeystore c ks
unfolding create_keystore
create_keystore-IsKeystore c tools seed passphrase name ks h =
    let keys = tools.generate_key_pair seed in
    elim (Option-cases (private_key_bytes_from_pem tools keys.private_key)) [
      | inl missing ↦ absurd (ground arith)
      | inr (raw, e1) ↦ elim (Option-cases (address_from_public_key c keys.public_key)) [
        | inl invalid ↦ absurd (ground arith)
        | inr (address, e2) ↦ record {
          named = ground (arith, used_name_twice name);
          owner = ground arith;
        }
      ]
    ]

-- A wallet that `create` makes is unlocked, with a pair of keys that has its address.
pub create_lem :
    (c : NodeCrypto) (tools : KeyTools) (seed : ℕ) (passphrase : String) (name : Option String)
    → IsKeyTools c tools
    → (w : Wallet) × (keys : KeyPair) × (create c tools seed passphrase name ≡ ok w)
      × (w.keys ≡ some keys)
      × IsKeyPair c keys
      × (address_from_public_key c keys.public_key ≡ some w.ks.address)
unfolding create import_keystore unlock
create_lem c tools seed passphrase name t =
    let (ks, u, made, opened, address, public_key, pair) =
      unlock-create_keystore c tools seed passphrase name t in
    let k = create_keystore-IsKeystore c tools seed passphrase name ks made in
    let read = from_keystore_value c ks k in
    (
      record { keys = some u.keys; ks = ks },
      u.keys,
      rw (create, made, import_keystore, read, unlock, opened) refl,
      refl,
      pair,
      rw public_key k.owner,
    )
