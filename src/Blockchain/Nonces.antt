-- ===== src/Blockchain/Nonces.antt =====
-- The loop of `getNextNonce` of src/blockchain.ts.
use proof_of_authority_block.Common.{
  ℕ, zero, suc, ◌+◌, ◌≤◌, ◌<◌, ◌≡◌, inl, inr, true, false, String, List, [], ◌∷◌, some, arith,
  length, any, ◌&&◌, ◌==◌, leb, Bool-cases, if◌then◌else◌, Bool,
}
use proof_of_authority_block.Transaction.{Transaction}
use proof_of_authority_block.State.{get_nonce}
use proof_of_authority_block.Blockchain.Types.{Blockchain}
use proof_of_authority_block.Blockchain.Mempool.{is_from, next_nonce_from, get_next_nonce}

-- Some pending transaction of the address uses the nonce.
abbrev pub is_taken : String → List Transaction → ℕ → Bool
is_taken address pending nonce = any (λ t. is_from address t && t.nonce == nonce) pending

-- The pending transactions of the address from a nonce on: what is left of the loop.
remaining : String → List Transaction → ℕ → ℕ
remaining address [] nonce = 0
remaining address (t ∷ ts) nonce =
    (if is_from address t && leb nonce t.nonce then 1 else 0) + remaining address ts nonce

remaining-le-length : (a : String) (ts : List Transaction) (n : ℕ) → remaining a ts n ≤ length ts
unfolding remaining
remaining-le-length a [] n = omega arith
remaining-le-length a (t ∷ ts) n = ground (arith, remaining-le-length a ts n)

remaining_mono :
    (a : String) (ts : List Transaction) (n : ℕ) → remaining a ts (n + 1) ≤ remaining a ts n
unfolding remaining
remaining_mono a [] n = omega arith
remaining_mono a (t ∷ ts) n = ground (arith, remaining_mono a ts n)

-- A round of the loop passes a pending transaction.
remaining_falls :
    (a : String) (ts : List Transaction) (n : ℕ)
    → is_taken a ts n ≡ true
    → remaining a ts (n + 1) < remaining a ts n
unfolding remaining
remaining_falls a [] n h = absurd (ground arith)
remaining_falls a (t ∷ ts) n h = ground (arith, remaining_mono a ts n, remaining_falls a ts n)

-- The first free nonce from a start on.
pub record IsFirstFree (address : String) (pending : List Transaction) (start n : ℕ) : Type 0 where
  pub from_start : start ≤ n
  pub free : is_taken address pending n ≡ false
  pub taken_before : (k : ℕ) → start ≤ k → k < n → is_taken address pending k ≡ true

next_nonce_from_ends :
    (fuel : ℕ) (a : String) (ts : List Transaction) (next : ℕ)
    → remaining a ts next < fuel
    → (n : ℕ) × (next_nonce_from fuel a ts next ≡ some n) × IsFirstFree a ts next n
unfolding next_nonce_from
next_nonce_from_ends zero a ts next h = elim h [ ]
next_nonce_from_ends (suc fuel) a ts next h = elim (Bool-cases (is_taken a ts next)) [
  | inr free ↦ (
    next,
    rw free,
    record { from_start = omega arith; free = free; taken_before = λ k p q. absurd (omega arith) },
  )
  | inl taken ↦
      let falls = remaining_falls a ts next taken in
      let (n, found, first) = next_nonce_from_ends fuel a ts (next + 1) (omega arith) in
      (
        n,
        rw taken found,
        record {
          from_start = omega (arith, first.from_start);
          free = first.free;
          taken_before = λ k p q. elim (Bool-cases (next == k)) [
            | inl same ↦ let e : next ≡ k = ground arith in rw (← e) taken
            | inr other ↦ first.taken_before k (ground arith) q
          ];
        },
      )
]

-- The loop of `getNextNonce` ends within one round more than there are pending transactions, at the
-- first nonce, from the confirmed one on, that no pending transaction of the address uses.
pub get_next_nonce_total :
    (bc : Blockchain) (address : String)
    → (n : ℕ) × (get_next_nonce bc address ≡ some n)
      × IsFirstFree address bc.pending_transactions (get_nonce bc.state address) n
unfolding get_next_nonce
get_next_nonce_total bc address =
    let start = get_nonce bc.state address in
    let ts = bc.pending_transactions in
    next_nonce_from_ends (suc (length ts)) address ts start
      (omega (arith, remaining-le-length address ts start))
