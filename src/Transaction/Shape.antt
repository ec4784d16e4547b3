-- ===== src/Transaction/Shape.antt =====
-- The shape of a transaction: the first part of `verifyTransaction` of src/transaction.ts.
use proof_of_authority_block.Common.{
  ℕ, ◌≤◌, ◌<◌, ◌≡◌, refl, ◌≢◌, ◌↔◌, inl, inr, true, some, arith, eq_iff, ok, String, Option-cases,
}
use proof_of_authority_block.Common.Int.{ℤ, pos, negsuc, pos_part, neg_part}
use proof_of_authority_block.Json.{Value, Fields, obj, str, num, int, get, object_fields, as_string}
use proof_of_authority_block.Transaction.{
  UnsignedTransaction, Transaction, is_address, max_safe, safe_integer, positive_amount,
  natural_nonce, read_transaction,
}

-- The fields hold what the protocol allows.
pub record IsWellFormed (tx : UnsignedTransaction) : Type 0 where
  pub sender : is_address tx.from ≡ true
  pub recipient : is_address tx.to ≡ true
  pub distinct : tx.from ≢ tx.to
  pub positive : 0 < tx.amount
  pub amount_safe : tx.amount ≤ max_safe
  pub nonce_safe : tx.nonce ≤ max_safe
  pub past_safe : neg_part tx.timestamp ≤ max_safe
  pub future_safe : pos_part tx.timestamp ≤ max_safe

-- The value is an object in which the members have the types and the values of the transaction.
pub record IsReading (v : Value) (tx : Transaction) : Type 0 where
  pub fields : Fields
  pub is_object : v ≡ obj fields
  pub from : get "from" fields ≡ str tx.from
  pub to : get "to" fields ≡ str tx.to
  pub amount : get "amount" fields ≡ num (int (pos tx.amount))
  pub nonce : get "nonce" fields ≡ num (int (pos tx.nonce))
  pub timestamp : get "timestamp" fields ≡ num (int tx.timestamp)
  pub public_key : get "publicKey" fields ≡ str tx.public_key
  pub signature : get "signature" fields ≡ str tx.signature
  pub hash : get "hash" fields ≡ str tx.hash
  pub whole : tx.object ≡ v

pub positive_amount_iff :
    (v : Value) (n : ℕ)
    → (positive_amount v ≡ some n) ↔ ((v ≡ num (int (pos n))) × (0 < n) × (n ≤ max_safe))
unfolding positive_amount
positive_amount_iff (num (int (pos k))) n = ground arith
positive_amount_iff v n = ground arith

pub natural_nonce_iff :
    (v : Value) (n : ℕ) → (natural_nonce v ≡ some n) ↔ ((v ≡ num (int (pos n))) × (n ≤ max_safe))
unfolding natural_nonce
natural_nonce_iff (num (int (pos k))) n = ground arith
natural_nonce_iff v n = ground arith

pub safe_integer_iff :
    (v : Value) (z : ℤ)
    → (safe_integer v ≡ some z)
      ↔ ((v ≡ num (int z)) × (neg_part z ≤ max_safe) × (pos_part z ≤ max_safe))
unfolding safe_integer
safe_integer_iff (num (int (pos k))) z = ground arith
safe_integer_iff (num (int (negsuc k))) z = ground arith
safe_integer_iff v z = ground arith

pub as_string_iff : (v : Value) (s : String) → (as_string v ≡ some s) ↔ (v ≡ str s)
unfolding as_string
as_string_iff (str t) s = ground arith
as_string_iff v s = ground arith

-- A value that passes the checks on its shape holds two different well-formed addresses, a positive
-- safe amount, a safe nonce that is not negative and a safe timestamp, and is the object of the
-- transaction that is read.
pub read_transaction_sound :
    (v : Value) {tx : Transaction}
    → read_transaction v ≡ ok tx
    → IsWellFormed tx.unsigned × (tx.object ≡ v)
unfolding read_transaction
read_transaction_sound v {tx} h = elim (Option-cases (object_fields v)) [
  | inl missing ↦ absurd (ground arith)
  | inr (fs, e) ↦ ground (
    arith,
    eq_iff tx.from tx.to,
    positive_amount_iff (get "amount" fs) tx.amount,
    natural_nonce_iff (get "nonce" fs) tx.nonce,
    safe_integer_iff (get "timestamp" fs) tx.timestamp,
  )
]

read_transaction_complete :
    (v : Value) (tx : Transaction)
    → IsReading v tx
    → IsWellFormed tx.unsigned
    → read_transaction v ≡ ok tx
unfolding read_transaction object_fields
read_transaction_complete v tx r w =
    let fs = r.fields in
    rw r.is_object (
      ground (
        arith,
        eq_iff tx.from tx.to,
        as_string_iff (get "from" fs) tx.from,
        as_string_iff (get "to" fs) tx.to,
        as_string_iff (get "publicKey" fs) tx.public_key,
        as_string_iff (get "signature" fs) tx.signature,
        as_string_iff (get "hash" fs) tx.hash,
        positive_amount_iff (get "amount" fs) tx.amount,
        natural_nonce_iff (get "nonce" fs) tx.nonce,
        safe_integer_iff (get "timestamp" fs) tx.timestamp,
      ))

read_transaction-IsReading :
    (v : Value) (tx : Transaction) → read_transaction v ≡ ok tx → IsReading v tx
unfolding read_transaction object_fields as_string get
read_transaction-IsReading (obj fs) tx h = record {
  fields = fs;
  is_object = refl;
  from = ground (arith, as_string_iff (get "from" fs) tx.from);
  to = ground (arith, as_string_iff (get "to" fs) tx.to);
  amount = ground (arith, positive_amount_iff (get "amount" fs) tx.amount);
  nonce = ground (arith, natural_nonce_iff (get "nonce" fs) tx.nonce);
  timestamp = ground (arith, safe_integer_iff (get "timestamp" fs) tx.timestamp);
  public_key = ground (arith, as_string_iff (get "publicKey" fs) tx.public_key);
  signature = ground (arith, as_string_iff (get "signature" fs) tx.signature);
  hash = ground (arith, as_string_iff (get "hash" fs) tx.hash);
  whole = ground arith;
}
read_transaction-IsReading v tx h = absurd (ground arith)

-- A value
pub read_transaction_iff :
    (v : Value) (tx : Transaction)
    → (read_transaction v ≡ ok tx) ↔ (IsReading v tx × IsWellFormed tx.unsigned)
read_transaction_iff v tx = (
  λ h. (read_transaction-IsReading v tx h, (read_transaction_sound v h).0),
  λ (r, w). read_transaction_complete v tx r w,
)
