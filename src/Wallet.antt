-- ===== src/Wallet.antt =====
-- src/wallet.ts: a keystore and, while it is unlocked, its key pair.
pub mod Files
pub mod Signing
pub mod Store
use Prim.Native.String.{◌++◌ as text_append}
use Prim.Native.Char.{code}
use proof_of_authority_block.Common.{
  ℕ, ◌-◌, String, Bool, true, false, not, List, [], ◌∷◌, Option, none, some, ◌&&◌, ◌||◌, ◌==◌,
  ◌===◌, leb, if◌then◌else◌, Result, Result-cases, ok, err, ◌>>=◌, ◌>>◌, check, require,
}
use proof_of_authority_block.Common.Int.{ℤ}
use proof_of_authority_block.Json.{Value, Fields, undefined, null, bool, num, str, obj, as_string}
use proof_of_authority_block.Crypto.{NodeCrypto, KeyPair, address_from_public_key}
use proof_of_authority_block.Transaction.{
  Transaction, TxError, is_address, positive_amount, natural_nonce, create_signed_transaction,
  verify_transaction,
}
use proof_of_authority_block.Keystore.{
  KeyTools, Keystore, KeystoreError, EncryptedPrivateKey, used_name, create_keystore,
  keystore_value, member, unlock_keystore, Unlocked, missing_fields, invalid_public_key,
  address_mismatch, no_private_key,
}

-- The fields of class `Wallet`.
pub record Wallet : Type 0 where
  pub keys : Option KeyPair
  pub ks : Keystore

-- `typeof ks.name === 'string' && ks.name ? { name: ks.name } : {}`
abbrev pub read_name : Value → Option String
read_name v = used_name (as_string v)

-- `fromKeystore`
unfoldable pub from_keystore : NodeCrypto → Value → Result KeystoreError Wallet
from_keystore c v = do
  let enc = member "encryptedPrivateKey" v
  address ← require (as_string (member "address" v)) missing_fields
  public_key ← require (as_string (member "publicKey" v)) missing_fields
  salt ← require (as_string (member "salt" enc)) missing_fields
  iv ← require (as_string (member "iv" enc)) missing_fields
  ciphertext ← require (as_string (member "ciphertext" enc)) missing_fields
  derived ← require (address_from_public_key c public_key) invalid_public_key
  check (derived === address) address_mismatch
  ok (record {
    keys = none;
    ks = record {
      name = read_name (member "name" v);
      address = address;
      public_key = public_key;
      encrypted_private_key = record { salt = salt; iv = iv; ciphertext = ciphertext };
    };
  })

-- `unlock`
unfoldable pub unlock : NodeCrypto → KeyTools → Wallet → String → Result KeystoreError Wallet
unlock c tools w passphrase = do
  u ← unlock_keystore c tools (keystore_value w.ks) passphrase
  ok (record w { keys = some u.keys })

-- `lock`
abbrev pub lock : Wallet → Wallet
lock w = record w { keys = none }

-- `isUnlocked`
abbrev pub is_unlocked : Wallet → Bool
is_unlocked w = elim (w.keys) [ none ↦ false | some _ ↦ true ]

-- `import`
unfoldable pub import_keystore :
    NodeCrypto → KeyTools → Value → String → Result KeystoreError Wallet
import_keystore c tools v passphrase = do w ← from_keystore c v; unlock c tools w passphrase

-- `create`; a throw of `createKeystore` counts as `no_private_key`.
unfoldable pub create :
    NodeCrypto → KeyTools → ℕ → String → Option String → Result KeystoreError Wallet
create c tools seed passphrase name = do
  ks ← require (create_keystore c tools seed passphrase name) no_private_key
  import_keystore c tools (keystore_value ks) passphrase

-- `exportKeystore`
unfoldable pub export_keystore : Wallet → Option String → Keystore
export_keystore w name = record (w.ks) {
  name = used_name (elim name [ none ↦ w.ks.name | some n ↦ some n ]);
}

-- The white space that `trim` removes, by code point.
abbrev pub is_space : ℕ → Bool
is_space ch =
    leb 9 ch && leb ch 13
    || ch == 32
    || ch == 160
    || ch == 5760
    || leb 8192 ch && leb ch 8202
    || ch == 8232
    || ch == 8233
    || ch == 8239
    || ch == 8287
    || ch == 12288
    || ch == 65279

trim_start : String → String
trim_start String.[] = ""
trim_start (String.◌∷◌ ch s) =
    let rest = trim_start s in if is_space (code ch) then rest else String.◌∷◌ ch s

trim_end : String → String
trim_end String.[] = ""
trim_end (String.◌∷◌ ch s) =
    let rest = trim_end s in if rest === "" && is_space (code ch) then "" else String.◌∷◌ ch rest

-- `trim`
unfoldable pub trim : String → String
unfolding trim_start trim_end
trim s = trim_end (trim_start s)

-- `toLowerCase` on one character of an address. No letter outside A to F and X has a lower case that an
-- address can hold, so any other character stays, which an address cannot hold in either case.
abbrev pub lower_char : ℕ → String → String
lower_char ch plain =
    if ch == 65
    then "a"
    else if ch == 66
    then "b"
    else if ch == 67
    then "c"
    else if ch == 68
    then "d"
    else if ch == 69
    then "e"
    else if ch == 70
    then "f"
    else if ch == 88
    then "x"
    else plain

-- `toLowerCase`, as far as an address can tell.
unfoldable pub to_lower_case : String → String
to_lower_case String.[] = ""
to_lower_case (String.◌∷◌ ch s) =
    text_append (lower_char (code ch) (String.◌∷◌ ch String.[])) (to_lower_case s)

-- The errors of `createTransaction`.
pub data SigningError : Type 0 where
  wallet_locked bad_destination send_to_self amount_not_positive nonce_not_natural : SigningError
  built_invalid : TxError → SigningError

abbrev pub after_verification :
    Transaction → Result TxError Transaction → Result SigningError Transaction
after_verification tx (ok _) = ok tx
after_verification tx (err e) = err (built_invalid e)

abbrev pub text_or_empty : Value → String
text_or_empty (str s) = s
text_or_empty _ = ""

-- `createTransaction`; `date` is what `Date.now()` shows.
unfoldable pub create_transaction :
    NodeCrypto → ℤ → Wallet → Value → Value → Value → Result SigningError Transaction
create_transaction c date w to amount_value nonce_value = do
  keys ← require w.keys wallet_locked
  let dest = to_lower_case (trim (text_or_empty to))
  check (is_address dest) bad_destination
  check (not (dest === w.ks.address)) send_to_self
  amount ← require (positive_amount amount_value) amount_not_positive
  nonce ← require (natural_nonce nonce_value) nonce_not_natural
  let tx =
      create_signed_transaction c
        (record {
          from = w.ks.address;
          to = dest;
          amount = amount;
          nonce = nonce;
          timestamp = date;
        })
        keys.public_key keys.private_key
  after_verification tx (verify_transaction c tx.object)
