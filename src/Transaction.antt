-- ===== src/Transaction.antt =====
-- src/types.ts and src/transaction.ts: transactions, their hash, and the stateless checks.
pub mod Shape
pub mod Verify
use Prim.Native.Char.{code}
use proof_of_authority_block.Common.{
  ℕ, ◌≤◌, ◌<◌, ◌≡◌, String, Bool, true, false, not, Option, none, some, List, [], ◌∷◌, ◌&&◌, ◌||◌,
  ltb, leb, ◌==◌, ◌===◌, if◌then◌else◌, length, Result, ok, err, ◌>>=◌, ◌>>◌, check, require,
}
use proof_of_authority_block.Common.Int.{ℤ, pos, negsuc}
use proof_of_authority_block.Json.{
  Value, num, str, obj, Number, int, Fields, end, field, get, object_fields, as_string, stringify,
}
use proof_of_authority_block.Crypto.{NodeCrypto, sha256, sign, verify, address_from_public_key}

-- `UnsignedTransaction`
pub record UnsignedTransaction : Type 0 where
  pub from : String
  pub to : String
  pub amount : ℕ
  pub nonce : ℕ
  pub timestamp : ℤ

-- `Transaction`. `object` is the JavaScript object itself, of which the other fields are readings.
pub record Transaction : Type 0 where
  pub unsigned : UnsignedTransaction
  pub open unsigned use *
  pub public_key : String
  pub signature : String
  pub hash : String
  pub object : Value

-- The object literal that is hashed, in its key order.
unfoldable pub payload : UnsignedTransaction → Value
payload tx = obj (
    field "from" (str tx.from) (
      field "to" (str tx.to) (
        field "amount" (num (int (pos tx.amount))) (
          field "nonce" (num (int (pos tx.nonce)))
            (field "timestamp" (num (int tx.timestamp)) end)))))

-- `{ ...unsigned, publicKey, signature, hash }`
unfoldable pub signed_object : UnsignedTransaction → String → String → String → Value
signed_object tx public_key signature hash = obj (
    field "from" (str tx.from) (
      field "to" (str tx.to) (
        field "amount" (num (int (pos tx.amount))) (
          field "nonce" (num (int (pos tx.nonce))) (
            field "timestamp" (num (int tx.timestamp)) (
              field "publicKey" (str public_key)
                (field "signature" (str signature) (field "hash" (str hash) end))))))))

pub data TxError : Type 0 where
  not_an_object malformed_fields bad_sender bad_recipient bad_amount bad_nonce : TxError
  bad_timestamp self_transfer bad_public_key key_mismatch hash_mismatch bad_signature : TxError

-- The code points of a text.
abbrev pub codes : String → List ℕ
codes String.[] = []
codes (String.◌∷◌ ch s) = code ch ∷ codes s

-- [0-9a-f]
abbrev pub is_lower_hex : ℕ → Bool
is_lower_hex c = leb b'0' c && leb c b'9' || leb b'a' c && leb c b'f'

abbrev pub all_lower_hex : List ℕ → Bool
all_lower_hex [] = true
all_lower_hex (c ∷ cs) = is_lower_hex c && all_lower_hex cs

unfoldable pub address_codes : List ℕ → Bool
address_codes (a ∷ b ∷ rest) = a == b'0' && b == b'x' && length rest == 40 && all_lower_hex rest
address_codes _ = false

-- ADDRESS_RE: /^0x[0-9a-f]{40}$/
unfoldable pub is_address : String → Bool
unfolding address_codes
is_address s = address_codes (codes s)

-- Number.MAX_SAFE_INTEGER
abbrev pub max_safe : ℕ
max_safe = 9007199254740991

-- `Number.isSafeInteger(v)`, with the integer.
unfoldable pub safe_integer : Value → Option ℤ
safe_integer (num (int (pos n))) = if leb n max_safe then some (pos n) else none
safe_integer (num (int (negsuc n))) = if ltb n max_safe then some (negsuc n) else none
safe_integer _ = none

-- `Number.isSafeInteger(amount) && amount > 0`
unfoldable pub positive_amount : Value → Option ℕ
unfolding safe_integer
positive_amount v = elim (safe_integer v) [
  | none ↦ none
  | some (pos n) ↦ if ltb 0 n then some n else none
  | some (negsuc n) ↦ none
]

-- `Number.isSafeInteger(nonce) && nonce >= 0`
unfoldable pub natural_nonce : Value → Option ℕ
unfolding safe_integer
natural_nonce v = elim (safe_integer v) [
  | none ↦ none
  | some (pos n) ↦ some n
  | some (negsuc n) ↦ none
]

-- The checks on the shape of the fields.
unfoldable pub read_transaction : Value → Result TxError Transaction
read_transaction v = do
  fs ← require (object_fields v) not_an_object
  from ← require (as_string (get "from" fs)) malformed_fields
  to ← require (as_string (get "to" fs)) malformed_fields
  public_key ← require (as_string (get "publicKey" fs)) malformed_fields
  signature ← require (as_string (get "signature" fs)) malformed_fields
  hash ← require (as_string (get "hash" fs)) malformed_fields
  check (is_address from) bad_sender
  check (is_address to) bad_recipient
  amount ← require (positive_amount (get "amount" fs)) bad_amount
  nonce ← require (natural_nonce (get "nonce" fs)) bad_nonce
  timestamp ← require (safe_integer (get "timestamp" fs)) bad_timestamp
  check (not (from === to)) self_transfer
  ok (record {
    unsigned = record {
      from = from;
      to = to;
      amount = amount;
      nonce = nonce;
      timestamp = timestamp;
    };
    public_key = public_key;
    signature = signature;
    hash = hash;
    object = v;
  })

module _ (c : NodeCrypto) where
  -- `computeTxHash`
  unfoldable pub compute_tx_hash : UnsignedTransaction → String
  compute_tx_hash tx = sha256 c (stringify (payload tx))

  -- `createSignedTransaction`
  unfoldable pub create_signed_transaction : UnsignedTransaction → String → String → Transaction
  create_signed_transaction unsigned public_key private_key =
      let hash = compute_tx_hash unsigned in
      let signature = sign c hash private_key in
      record {
        unsigned = unsigned;
        public_key = public_key;
        signature = signature;
        hash = hash;
        object = signed_object unsigned public_key signature hash;
      }

  -- The checks on the key, the hash and the signature, once the shape is known.
  unfoldable pub verify_ownership : Transaction → Result TxError Transaction
  verify_ownership tx = do
    derived ← require (address_from_public_key c tx.public_key) bad_public_key
    check (derived === tx.from) key_mismatch
    check (compute_tx_hash tx.unsigned === tx.hash) hash_mismatch
    check (verify c tx.hash tx.signature tx.public_key) bad_signature
    ok tx

  -- `verifyTransaction`: `ok` is `{ valid: true }`, with the object at its TypeScript type.
  unfoldable pub verify_transaction : Value → Result TxError Transaction
  verify_transaction v = do tx ← read_transaction v; verify_ownership tx
