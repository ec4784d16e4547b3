-- ===== src/Transaction/Verify.antt =====
-- `verifyTransaction` and `createSignedTransaction` of src/transaction.ts.
use proof_of_authority_block.Common.{
  ◌≡◌, refl, ◌↔◌, inl, inr, true, some, arith, eq_iff, ok, err, ◌>>=◌, Option-cases,
}
use proof_of_authority_block.Common.Int.{pos}
use proof_of_authority_block.Json.{Value, num, int, get, object_fields, as_string}
use proof_of_authority_block.Crypto.{
  NodeCrypto, KeyPair, IsKeyPair, verify, address_from_public_key,
}
use proof_of_authority_block.Transaction.Shape.{
  IsWellFormed, IsReading, positive_amount_iff, natural_nonce_iff, safe_integer_iff,
  read_transaction_iff,
}
use proof_of_authority_block.Transaction.{
  UnsignedTransaction, Transaction, compute_tx_hash, create_signed_transaction, verify_ownership,
  read_transaction, verify_transaction, signed_object,
}

-- The sender owns the key, and has signed the hash of exactly these fields.
pub record IsAuthentic (c : NodeCrypto) (tx : Transaction) : Type 0 where
  pub owner : address_from_public_key c tx.public_key ≡ some tx.from
  pub committed : compute_tx_hash c tx.unsigned ≡ tx.hash
  pub signed : verify c tx.hash tx.signature tx.public_key ≡ true

pub verify_ownership_iff :
    (c : NodeCrypto) (tx tx' : Transaction)
    → (verify_ownership c tx ≡ ok tx') ↔ ((tx ≡ tx') × IsAuthentic c tx)
unfolding verify_ownership
verify_ownership_iff c tx tx' = elim (Option-cases (address_from_public_key c tx.public_key)) [
  | inl missing ↦ (λ h. absurd (ground arith), λ (e, a). absurd (ground (arith, a.owner)))
  | inr (derived, e) ↦
      ground (arith, eq_iff derived tx.from, eq_iff (compute_tx_hash c tx.unsigned) tx.hash)
]

pub verify_transaction_of_read :
    (c : NodeCrypto) (v : Value) (tx : Transaction)
    → (verify_transaction c v ≡ ok tx) ↔ ((read_transaction v ≡ ok tx) × IsAuthentic c tx)
unfolding verify_transaction
verify_transaction_of_read c v tx =
    elim (read_transaction v)
      as (λ r. ((r >>= verify_ownership c) ≡ ok tx) ↔ ((r ≡ ok tx) × IsAuthentic c tx)) [
        | ok t ↦ ground (arith, verify_ownership_iff c t tx)
        | err e ↦ ground arith
      ]

-- `verifyTransaction` says `valid` for a value that holds a transaction exactly if it is an object,
-- its members have the types and the values of that transaction's fields, the sender and the
-- recipient are two different addresses, the amount is positive, the amount, the nonce and the
-- timestamp are safe integers, its public key has the sender's address, its hash is the hash of the
-- fields, and its signature on that hash verifies under the key.
pub verify_transaction_iff :
    (c : NodeCrypto) (v : Value) (tx : Transaction)
    → (verify_transaction c v ≡ ok tx)
      ↔ (IsReading v tx × IsWellFormed tx.unsigned × IsAuthentic c tx)
verify_transaction_iff c v tx = (
  λ h.
      let (read, authentic) = (verify_transaction_of_read c v tx).0 h in
      let (reading, formed) = (read_transaction_iff v tx).0 read in (reading, formed, authentic),
  λ (reading, formed, authentic).
      (verify_transaction_of_read c v tx).1
        ((read_transaction_iff v tx).1 (reading, formed), authentic),
)

read_signed :
    (c : NodeCrypto) (keys : KeyPair) (u : UnsignedTransaction)
    → IsWellFormed u
    → let tx = create_signed_transaction c u keys.public_key keys.private_key in
      read_transaction tx.object ≡ ok tx
unfolding read_transaction create_signed_transaction signed_object object_fields as_string get
read_signed c keys u w = ground (
  arith,
  eq_iff u.from u.to,
  positive_amount_iff (num (int (pos u.amount))) u.amount,
  natural_nonce_iff (num (int (pos u.nonce))) u.nonce,
  safe_integer_iff (num (int u.timestamp)) u.timestamp,
)

signed-IsAuthentic :
    (c : NodeCrypto) (keys : KeyPair) (u : UnsignedTransaction)
    → IsKeyPair c keys
    → address_from_public_key c keys.public_key ≡ some u.from
    → IsAuthentic c (create_signed_transaction c u keys.public_key keys.private_key)
unfolding create_signed_transaction
signed-IsAuthentic c keys u pair owner = record {
  owner = owner;
  committed = refl;
  signed = pair.verifies (compute_tx_hash c u);
}

-- A transaction that `createSignedTransaction` builds from fields that the protocol allows, with a
-- key pair whose signatures verify and whose address is the sender's, passes `verifyTransaction`
-- and is read back as it was built.
pub verify-create_signed_transaction :
    (c : NodeCrypto) (keys : KeyPair) (u : UnsignedTransaction)
    → IsKeyPair c keys
    → address_from_public_key c keys.public_key ≡ some u.from
    → IsWellFormed u
    → let tx = create_signed_transaction c u keys.public_key keys.private_key in
      verify_transaction c tx.object ≡ ok tx
verify-create_signed_transaction c keys u pair owner w =
    let tx = create_signed_transaction c u keys.public_key keys.private_key in
    (verify_transaction_of_read c tx.object tx).1
      (read_signed c keys u w, signed-IsAuthentic c keys u pair owner)
