-- ===== src/Crypto.antt =====
-- src/crypto.ts: hashing, signatures and addresses, over Node's crypto module as a parameter.
pub mod Digest
use Prim.Native.String.{◌++◌, count}
use proof_of_authority_block.Common.{
  ℕ, zero, suc, ◌-◌, ◌≡◌, String, Bool, true, false, Option, none, some, ◌&&◌, ◌===◌, if◌then◌else◌,
}

-- What `createPublicKey` returns, as far as the node reads it.
pub record KeyObject : Type 0 where
  pub asymmetric_key_type : String
  pub named_curve : String
  pub spki_pem : String

-- Node's crypto module. `none` stands for a throw.
pub record NodeCrypto : Type 0 where
  pub sha256_hex : String → String
  pub ecdsa_sign : String → String → String
  pub ecdsa_verify : String → String → String → Option Bool
  pub create_public_key : String → Option KeyObject

-- src/crypto.ts `KeyPair`
pub record KeyPair : Type 0 where
  pub public_key : String
  pub private_key : String

module _ (c : NodeCrypto) where
  unfoldable pub sha256 : String → String
  sha256 text = c.sha256_hex text

  -- `sign(data, privateKeyPem)`
  unfoldable pub sign : String → String → String
  sign text private_key = c.ecdsa_sign private_key text

  -- `verify(data, signatureHex, publicKeyPem)`: a throw counts as an invalid signature.
  unfoldable pub verify : String → String → String → Bool
  verify text signature public_key = elim (c.ecdsa_verify public_key text signature) [
    | none ↦ false
    | some b ↦ b
  ]

  -- `canonicalPublicKeyPem`: throws on garbage and on keys of another type or curve.
  unfoldable pub canonical_public_key_pem : String → Option String
  canonical_public_key_pem pem = elim (c.create_public_key pem) [
    | none ↦ none
    | some key ↦
        if key.asymmetric_key_type === "ec" && key.named_curve === "secp256k1"
        then some key.spki_pem
        else none
  ]

drop_chars : ℕ → String → String
drop_chars zero s = s
drop_chars (suc n) String.[] = ""
drop_chars (suc n) (String.◌∷◌ ch s) = drop_chars n s

-- `s.slice(-n)`
unfoldable pub last_chars : ℕ → String → String
unfolding drop_chars
last_chars n s = drop_chars (count s - n) s

module _ (c : NodeCrypto) where
  -- `addressFromPublicKey`
  unfoldable pub address_from_public_key : String → Option String
  unfolding canonical_public_key_pem sha256 last_chars
  address_from_public_key pem = elim (canonical_public_key_pem c pem) [
    | none ↦ none
    | some canonical ↦ some ("0x" ++ last_chars 40 (sha256 c canonical))
  ]

  -- The documented behaviour of a generated pair: what one half signs, the other verifies.
  pub record IsKeyPair (keys : KeyPair) : Type 0 where
    pub verifies :
        (text : String) → verify c text (sign c text keys.private_key) keys.public_key ≡ true
