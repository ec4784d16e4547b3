-- ===== src/Wallet/Signing.antt =====
-- `createTransaction` of src/wallet.ts.
use mathlib.Core.Path.{subst}
use Prim.Native.String.{◌++◌ as text_append}
use proof_of_authority_block.Common.{
  ℕ, ◌≤◌, ◌<◌, ◌≡◌, refl, sym, inl, inr, true, false, String, Option, some, arith, eq_iff,
  Option-cases, Bool-cases, ok, ◌===◌, ◌≢◌,
}
use proof_of_authority_block.Common.Int.{ℤ, pos, pos_part, neg_part}
use proof_of_authority_block.Json.{num, str, int}
use proof_of_authority_block.Crypto.{
  NodeCrypto, KeyPair, IsKeyPair, sha256, last_chars, canonical_public_key_pem,
  address_from_public_key,
}
use proof_of_authority_block.Crypto.Digest.{IsDigest, is_address-last_chars}
use proof_of_authority_block.Keystore.{KeyTools}
use proof_of_authority_block.Keystore.Tools.{IsKeyTools}
use proof_of_authority_block.Wallet.Files.{create_lem}
use proof_of_authority_block.Transaction.{
  UnsignedTransaction, Transaction, max_safe, is_address, positive_amount, natural_nonce,
  safe_integer, create_signed_transaction, verify_transaction,
}
use proof_of_authority_block.Transaction.Verify.{verify-create_signed_transaction}
use proof_of_authority_block.Wallet.{Wallet, trim, to_lower_case, create, create_transaction}

-- What the caller of `createTransaction` must give: a recipient that is an address once it is
-- trimmed and in lower case, other than the wallet's own, and an amount, nonce and time within the
-- bounds.
pub record IsRequest (w : Wallet) (to : String) (amount nonce : ℕ) (date : ℤ) : Type 0 where
  pub recipient : is_address (to_lower_case (trim to)) ≡ true
  pub other : w.ks.address ≢ to_lower_case (trim to)
  pub positive : 0 < amount
  pub amount_safe : amount ≤ max_safe
  pub nonce_safe : nonce ≤ max_safe
  pub past_safe : neg_part date ≤ max_safe
  pub future_safe : pos_part date ≤ max_safe

abbrev pub requested : Wallet → String → ℕ → ℕ → ℤ → UnsignedTransaction
requested w to amount nonce date = record {
  from = w.ks.address;
  to = to_lower_case (trim to);
  amount = amount;
  nonce = nonce;
  timestamp = date;
}

unsigned_of :
    (c : NodeCrypto) (u : UnsignedTransaction) (keys : KeyPair)
    → (create_signed_transaction c u keys.public_key keys.private_key).unsigned ≡ u
unfolding create_signed_transaction
unsigned_of c u keys = refl

-- What `createTransaction` signs for a request, and that it verifies.
pub create_transaction_signs :
    (c : NodeCrypto) (date : ℤ) (w : Wallet) (keys : KeyPair) (to : String) (amount nonce : ℕ)
    → w.keys ≡ some keys
    → IsKeyPair c keys
    → address_from_public_key c keys.public_key ≡ some w.ks.address
    → is_address w.ks.address ≡ true
    → IsRequest w to amount nonce date
    → let u = requested w to amount nonce date in
      let tx = create_signed_transaction c u keys.public_key keys.private_key in
      (create_transaction c date w (str to) (num (int (pos amount))) (num (int (pos nonce)))
        ≡ ok tx)
      × (tx.unsigned ≡ u)
      × (verify_transaction c tx.object ≡ ok tx)
unfolding create_transaction positive_amount natural_nonce safe_integer
create_transaction_signs c date w keys to amount nonce unlocked pair owner own r =
    let u = requested w to amount nonce date in
    let good = verify-create_signed_transaction c keys u pair owner (record {
      sender = own;
      recipient = r.recipient;
      distinct = r.other;
      positive = r.positive;
      amount_safe = r.amount_safe;
      nonce_safe = r.nonce_safe;
      past_safe = r.past_safe;
      future_safe = r.future_safe;
    }) in
    let apart : (to_lower_case (trim to) === w.ks.address) ≡ false =
      elim (Bool-cases (to_lower_case (trim to) === w.ks.address)) [
        | inl same ↦ absurd (r.other (sym ((eq_iff (to_lower_case (trim to)) w.ks.address).0 same)))
        | inr other ↦ other
      ] in
    (ground (arith, r.recipient, apart, good, unlocked), unsigned_of c u keys, good)

address_from_public_key_lem :
    (c : NodeCrypto) (pem address : String)
    → IsDigest c
    → address_from_public_key c pem ≡ some address
    → is_address address ≡ true
unfolding address_from_public_key
address_from_public_key_lem c pem address d h =
    elim (Option-cases (canonical_public_key_pem c pem)) [
      | inl invalid ↦ absurd (ground arith)
      | inr (canonical, e) ↦
          let same : text_append "0x" (last_chars 40 (sha256 c canonical)) ≡ address =
            ground arith in
          subst (λ (a : String). is_address a ≡ true) same (is_address-last_chars c canonical d)
    ]

-- If Node's functions behave as documented, also in that a digest is 64 digits in hexadecimal, a
-- wallet that `create` has made signs every transfer to a recipient that is an address once it is
-- trimmed and in lower case, other than its own, with a positive safe amount, a safe nonce and a
-- safe time: `createTransaction` returns a transaction of exactly these fields, and it passes
-- `verifyTransaction`, as every node runs it.
pub create-create_transaction :
    (c : NodeCrypto) (tools : KeyTools) (seed : ℕ) (passphrase : String) (name : Option String)
    (w : Wallet) (date : ℤ) (to : String) (amount nonce : ℕ)
    → IsKeyTools c tools
    → IsDigest c
    → create c tools seed passphrase name ≡ ok w
    → IsRequest w to amount nonce date
    → (tx : Transaction) × (create_transaction c date w
          (str to)
          (num (int (pos amount)))
          (num (int (pos nonce)))
        ≡ ok tx)
      × (tx.unsigned ≡ requested w to amount nonce date)
      × (verify_transaction c tx.object ≡ ok tx)
create-create_transaction c tools seed passphrase name w date to amount nonce t d made r =
    let (w', keys, made', unlocked, pair, owner) = create_lem c tools seed passphrase name t in
    let same : w' ≡ w = ground arith in
    let unlocked' = subst (λ (k : Wallet). k.keys ≡ some keys) same unlocked in
    let owner' =
      subst (λ (k : Wallet). address_from_public_key c keys.public_key ≡ some k.ks.address) same
        owner in
    let (signed, fields, good) =
      create_transaction_signs c date w keys to amount nonce unlocked' pair owner'
        (address_from_public_key_lem c keys.public_key w.ks.address d owner') r in
    (_, signed, fields, good)
