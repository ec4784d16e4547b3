-- ===== src/Tests/Wallets.antt =====
-- Instances of the theorems on keystores and wallets.
use proof_of_authority_block.Common.{
  ◌≡◌, refl, String, none, some, ok, arith, ◌===◌, eq_iff, true, false, ◌++◌, [], ◌∷◌,
}
use proof_of_authority_block.Common.Int.{pos}
use proof_of_authority_block.Json.{num, int, str, object_fields, as_string, get}
use proof_of_authority_block.Crypto.{
  IsKeyPair, sha256, last_chars, canonical_public_key_pem, address_from_public_key,
}
use proof_of_authority_block.Transaction.{Transaction, is_address, verify_transaction}
use proof_of_authority_block.Keystore.{
  Keystore, EncryptedPrivateKey, Unlocked, create_keystore, keystore_value, unlock_keystore,
  read_keystore, unlock_key, pad_to_32, private_key_bytes_from_pem,
  public_key_pem_from_private_key_bytes, private_key_pem_from_bytes, decrypt_bytes, encrypt_bytes,
  hex_text, member, zeros,
}
use proof_of_authority_block.Keystore.Shape.{HasShape}
use proof_of_authority_block.Keystore.Unlock.{Opens, unlock_keystore_sound}
use proof_of_authority_block.Keystore.Create.{unlock-create_keystore}
use proof_of_authority_block.Wallet.{
  Wallet, from_keystore, export_keystore, import_keystore, unlock, create, create_transaction, lock,
  trim, to_lower_case,
}
use proof_of_authority_block.Wallet.Files.{from_keystore-IsKeystore}
use proof_of_authority_block.Wallet.Store.{
  Files, is_name, path, save_wallet, load_wallet, load-save_wallet,
}
use proof_of_authority_block.Wallet.Signing.{IsRequest, requested, create-create_transaction}
use proof_of_authority_block.Tests.World.{key_pair, alice, bob}
use proof_of_authority_block.Tests.Keys.{
  plain_crypto, toy_tools, toy_hex, toy_tools-IsKeyTools, plain_crypto-IsDigest,
}

abbrev keystore : Keystore
keystore = record {
  name = some "savings";
  address = alice;
  public_key = "alice";
  encrypted_private_key = record {
    salt = toy_hex (zeros 16);
    iv = toy_hex (zeros 12);
    ciphertext = toy_hex ((zeros 31 ++ (7 ∷ [])) ++ zeros 16);
  };
}

abbrev opened : Unlocked
opened = record { address = alice; keys = key_pair "alice" }

abbrev wallet : Wallet
wallet = record { keys = some (key_pair "alice"); ks = keystore }

keystore_unlocks :
    unlock_keystore plain_crypto toy_tools (keystore_value keystore) "secret" ≡ ok opened
unfolding unlock_keystore read_keystore unlock_key keystore_value member get object_fields as_string
    hex_text decrypt_bytes canonical_public_key_pem address_from_public_key sha256 last_chars
    public_key_pem_from_private_key_bytes private_key_pem_from_bytes
keystore_unlocks = refl

keystore_read : from_keystore plain_crypto (keystore_value keystore) ≡ ok (lock wallet)
unfolding from_keystore keystore_value member get object_fields as_string canonical_public_key_pem
    address_from_public_key sha256 last_chars
keystore_read = refl

keystore_created :
    create_keystore plain_crypto toy_tools 0 "secret" (some "savings") ≡ some keystore
unfolding create_keystore private_key_bytes_from_pem pad_to_32 encrypt_bytes
    canonical_public_key_pem address_from_public_key sha256 last_chars
keystore_created = refl

wallet_created : create plain_crypto toy_tools 0 "secret" (some "savings") ≡ ok wallet
unfolding create import_keystore unlock
wallet_created =
    rw (create, keystore_created, import_keystore, keystore_read, unlock, keystore_unlocks) refl

unlock_keystore_sound_example :
    (public_key : String) × (enc : EncryptedPrivateKey) × (read_keystore (keystore_value keystore)
      ≡ ok (alice, public_key, enc))
    × HasShape (keystore_value keystore) alice public_key enc
    × Opens plain_crypto toy_tools public_key enc "secret" opened
unlock_keystore_sound_example =
    unlock_keystore_sound plain_crypto toy_tools (keystore_value keystore) "secret" opened
      keystore_unlocks

unlock-create_keystore_example :
    (ks : Keystore) × (u : Unlocked) × (create_keystore plain_crypto toy_tools 0 "secret"
        (some "savings")
      ≡ some ks)
    × (unlock_keystore plain_crypto toy_tools (keystore_value ks) "secret" ≡ ok u)
    × (u.address ≡ ks.address)
    × (u.keys.public_key ≡ ks.public_key)
    × IsKeyPair plain_crypto u.keys
unlock-create_keystore_example =
    unlock-create_keystore plain_crypto toy_tools 0 "secret" (some "savings") toy_tools-IsKeyTools

-- The directory after the wallet was saved under another name.
abbrev stored : Files
stored = ("main.json", some (keystore_value (export_keystore wallet (some "main")))) ∷ []

wallet_saved : save_wallet [] "main" wallet false ≡ ok stored
unfolding save_wallet path is_name
wallet_saved = refl

load-save_wallet_example :
    load_wallet plain_crypto stored "main"
    ≡ ok (record { keys = none; ks = record keystore { name = some "main" } })
load-save_wallet_example =
    load-save_wallet plain_crypto [] stored "main" wallet false
      (from_keystore-IsKeystore plain_crypto (keystore_value keystore) (lock wallet)
        keystore_read).1
      wallet_saved

-- The recipient is given with spaces and a capital letter.
abbrev written : String
written = " 0X000000000000000000000000000000000000000B "

payment_requested : IsRequest wallet written 30 0 (pos 5)
unfolding is_address trim to_lower_case
payment_requested = record {
  recipient = refl;
  other =
      λ e. let h : (alice === bob) ≡ true = (eq_iff alice bob).1 e in absurd (ground (arith, h));
  positive = omega arith;
  amount_safe = omega arith;
  nonce_safe = omega arith;
  past_safe = omega arith;
  future_safe = omega arith;
}

create-create_transaction_example :
    (tx : Transaction) × (create_transaction plain_crypto
        (pos 5)
        wallet
        (str written)
        (num (int (pos 30)))
        (num (int (pos 0)))
      ≡ ok tx)
    × (tx.unsigned ≡ requested wallet written 30 0 (pos 5))
    × (verify_transaction plain_crypto tx.object ≡ ok tx)
create-create_transaction_example =
    create-create_transaction plain_crypto toy_tools 0 "secret" (some "savings") wallet (pos 5)
      written 30 0 toy_tools-IsKeyTools plain_crypto-IsDigest wallet_created payment_requested
