-- ===== src/Keystore/Shape.antt =====
-- The checks of `unlockKeystore` of src/crypto.ts on the shape of a keystore.
use proof_of_authority_block.Common.{◌≡◌, String, some, arith, ok}
use proof_of_authority_block.Json.{Value, str, as_string}
use proof_of_authority_block.Transaction.Shape.{as_string_iff}
use proof_of_authority_block.Keystore.{EncryptedPrivateKey, hex_text, member, read_keystore}
use proof_of_authority_block.Keystore.Hex.{IsHexText, hex_text_sound}

-- The object holds the address, the public key and an encrypted private key in pairs of digits.
pub record HasShape (v : Value) (address public_key : String) (enc : EncryptedPrivateKey)
    : Type 0 where
  pub address_there : member "address" v ≡ str address
  pub public_key_there : member "publicKey" v ≡ str public_key
  pub salt_there : member "salt" (member "encryptedPrivateKey" v) ≡ str enc.salt
  pub iv_there : member "iv" (member "encryptedPrivateKey" v) ≡ str enc.iv
  pub ciphertext_there : member "ciphertext" (member "encryptedPrivateKey" v) ≡ str enc.ciphertext
  pub salt_hex : IsHexText enc.salt
  pub iv_hex : IsHexText enc.iv
  pub ciphertext_hex : IsHexText enc.ciphertext

pub read_keystore_sound :
    (v : Value) (address public_key : String) (enc : EncryptedPrivateKey)
    → read_keystore v ≡ ok (address, public_key, enc)
    → HasShape v address public_key enc
unfolding read_keystore
read_keystore_sound v address public_key enc h =
    let inner = member "encryptedPrivateKey" v in
    let a : as_string (member "address" v) ≡ some address = ground arith in
    let k : as_string (member "publicKey" v) ≡ some public_key = ground arith in
    let s : hex_text (member "salt" inner) ≡ some enc.salt = ground arith in
    let i : hex_text (member "iv" inner) ≡ some enc.iv = ground arith in
    let t : hex_text (member "ciphertext" inner) ≡ some enc.ciphertext = ground arith in
    let (salt_there, salt_hex) = hex_text_sound (member "salt" inner) enc.salt s in
    let (iv_there, iv_hex) = hex_text_sound (member "iv" inner) enc.iv i in
    let (text_there, text_hex) = hex_text_sound (member "ciphertext" inner) enc.ciphertext t in
    record {
      address_there = (as_string_iff (member "address" v) address).0 a;
      public_key_there = (as_string_iff (member "publicKey" v) public_key).0 k;
      salt_there = salt_there;
      iv_there = iv_there;
      ciphertext_there = text_there;
      salt_hex = salt_hex;
      iv_hex = iv_hex;
      ciphertext_hex = text_hex;
    }
