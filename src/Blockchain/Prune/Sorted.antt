-- ===== src/Blockchain/Prune/Sorted.antt =====
-- Sorting and filtering the pending transactions (`pruneMempool` of src/blockchain.ts).
use proof_of_authority_block.Common.{
  ◌≡◌, refl, true, false, Bool, String, List, [], ◌∷◌, map, arith, any, filter, All, All-filter,
  ◌===◌, if◌then◌else◌, ===_comm,
}
use proof_of_authority_block.Common.Sort.{insert_sorted, sort, All-insert_sorted, All-sort}
use proof_of_authority_block.Transaction.{Transaction}
use proof_of_authority_block.Blockchain.Mempool.{tx_le}
use proof_of_authority_block.Blockchain.Pool.{amounts, Differs, AllDiffer}

-- The hashes of the transactions.
abbrev pub hashes_of : List Transaction → List String
hashes_of ts = map (λ t. t.hash) ts

abbrev pub is_among : List Transaction → Transaction → Bool
is_among ks t = any (λ k. k === t.hash) (hashes_of ks)

Differs-sym : (t u : Transaction) → Differs t u → Differs u t
Differs-sym t u d = record {
  hashes = ground (arith, d.hashes, ===_comm t.hash u.hash);
  nonces = λ e. ground (arith, d.nonces, ===_comm t.from u.from, e);
}

AllDiffer-insert_sorted :
    (t : Transaction) (ts : List Transaction)
    → All (Differs t) ts
    → AllDiffer ts
    → AllDiffer (insert_sorted tx_le t ts)
unfolding insert_sorted
AllDiffer-insert_sorted t [] d h = (tt, tt)
AllDiffer-insert_sorted t (u ∷ ts) d h =
    elim (tx_le t u) as (λ b. AllDiffer (if b then t ∷ u ∷ ts else u ∷ insert_sorted tx_le t ts)) [
      | true ↦ (d, h)
      | false ↦ (
        All-insert_sorted tx_le (Differs u) t ts (Differs-sym t u d.0) h.0,
        AllDiffer-insert_sorted t ts d.1 h.1,
      )
    ]

pub AllDiffer-sort : (ts : List Transaction) → AllDiffer ts → AllDiffer (sort tx_le ts)
unfolding sort
AllDiffer-sort [] h = tt
AllDiffer-sort (t ∷ ts) h =
    AllDiffer-insert_sorted t (sort tx_le ts) (All-sort tx_le (Differs t) ts h.0)
      (AllDiffer-sort ts h.1)

pub AllDiffer-filter :
    (p : Transaction → Bool) (ts : List Transaction) → AllDiffer ts → AllDiffer (filter p ts)
AllDiffer-filter p [] h = tt
AllDiffer-filter p (t ∷ ts) h =
    ground (arith, AllDiffer-filter p ts h.1, All-filter (Differs t) p ts h.0)

-- What the transactions that pass a test add up to does not depend on their order.
amounts-filter-insert_sorted :
    (p : Transaction → Bool) (t : Transaction) (ts : List Transaction)
    → amounts (filter p (insert_sorted tx_le t ts)) ≡ amounts (filter p (t ∷ ts))
unfolding insert_sorted
amounts-filter-insert_sorted p t [] = refl
amounts-filter-insert_sorted p t (u ∷ ts) =
    elim (tx_le t u)
      as (λ b.
        amounts (filter p (if b then t ∷ u ∷ ts else u ∷ insert_sorted tx_le t ts))
        ≡ amounts (filter p (t ∷ u ∷ ts))) [
          | true ↦ refl
          | false ↦ ground (arith, amounts-filter-insert_sorted p t ts)
        ]

pub amounts-filter-sort :
    (p : Transaction → Bool) (ts : List Transaction)
    → amounts (filter p (sort tx_le ts)) ≡ amounts (filter p ts)
unfolding sort
amounts-filter-sort p [] = refl
amounts-filter-sort p (t ∷ ts) =
    ground (arith, amounts-filter-insert_sorted p t (sort tx_le ts), amounts-filter-sort p ts)
