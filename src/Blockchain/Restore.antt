-- ===== src/Blockchain/Restore.antt =====
-- `restorePending` of src/blockchain.ts on a pool that the node itself has saved.
use mathlib.Core.Path.{subst}
use proof_of_authority_block.Common.{
  ℕ, ◌+◌, ◌≤◌, ◌≡◌, refl, sym, ap, ◌∙◌, inl, inr, true, false, String, List, [], ◌∷◌, ◌++◌, map,
  some, arith, eq_iff, any, filter, filter_all, All, All-map, All-append, All-and, ◌===◌, ===_self,
  ok,
}
use proof_of_authority_block.Common.Dict.{Dict, lookup, insert, lookup-insert}
use proof_of_authority_block.Common.Sort.{sort, All-sort, All-of-sort}
use proof_of_authority_block.Json.{Value}
use proof_of_authority_block.Crypto.{NodeCrypto}
use proof_of_authority_block.Transaction.{Transaction, verify_transaction}
use proof_of_authority_block.State.{get_balance, get_nonce}
use proof_of_authority_block.Blockchain.Types.{Blockchain, Config}
use proof_of_authority_block.Blockchain.Mempool.{
  tx_le, is_from, is_kept, keep_loop, restore_loop, restore_pending, prune_mempool,
}
use proof_of_authority_block.Blockchain.Pool.{amounts, Differs, AllDiffer, IsPool}
use proof_of_authority_block.Blockchain.Prune.{
  kept, prune_mempool_fields, IsFresh, IsQueue, prune_mempool-IsPool,
}
use proof_of_authority_block.Blockchain.Prune.Sorted.{is_among, amounts-filter-sort}
use proof_of_authority_block.Blockchain.Prune.Kept.{
  spent_by, spent_by-insert, keep_loop-cons, keep_loop-nil,
}

append_nil : (xs : List Transaction) → xs ≡ xs ++ []
append_nil [] = refl
append_nil (x ∷ xs) = ap (◌∷◌ x) (append_nil xs)

append_snoc : (xs ys : List Transaction) (t : Transaction) → (xs ++ (t ∷ [])) ++ ys ≡ xs ++ (t ∷ ys)
append_snoc [] ys t = refl
append_snoc (x ∷ xs) ys t = ap (◌∷◌ x) (append_snoc xs ys t)

abbrev ArrivedAt : ℕ → Dict ℕ → Transaction → Type 0
ArrivedAt now received t = lookup t.hash received ≡ some now

ArrivedAt-insert :
    (now : ℕ) (received : Dict ℕ) (h : String) (ts : List Transaction)
    → All (ArrivedAt now received) ts
    → All (ArrivedAt now (insert h now received)) ts
ArrivedAt-insert now received h ts =
    All-map ts (λ t k. ground (arith, eq_iff h t.hash, lookup-insert h t.hash now received, k))

module _ (c : NodeCrypto) (now : ℕ) where
  abbrev IsVerified : Transaction → Type 0
  IsVerified t = verify_transaction c t.object ≡ ok t

  abbrev IsNew : List Transaction → Transaction → Type 0
  IsNew ks t = any (λ k. k.hash === t.hash) ks ≡ false

  IsNew-snoc :
      (ks : List Transaction) (t u : Transaction)
      → (t.hash === u.hash) ≡ false
      → IsNew ks u
      → IsNew (ks ++ (t ∷ [])) u
  IsNew-snoc [] t u d h = ground arith
  IsNew-snoc (k ∷ ks) t u d h = ground (arith, IsNew-snoc ks t u d)

  All-IsNew-snoc :
      (ks : List Transaction) (t : Transaction) (ts : List Transaction)
      → All (Differs t) ts
      → All (IsNew ks) ts
      → All (IsNew (ks ++ (t ∷ []))) ts
  All-IsNew-snoc ks t [] d h = tt
  All-IsNew-snoc ks t (u ∷ ts) d h =
      (IsNew-snoc ks t u d.0.hashes h.0, All-IsNew-snoc ks t ts d.1 h.1)

  restore_loop-cons :
      (t : Transaction) (vs : List Value) (ks : List Transaction) (received : Dict ℕ)
      → IsVerified t
      → IsNew ks t
      → restore_loop c now (t.object ∷ vs) ks received
        ≡ restore_loop c now vs (ks ++ (t ∷ [])) (insert t.hash now received)
  unfolding restore_loop
  restore_loop-cons t vs ks received v n = ground arith

  -- All verified transactions with hashes of their own are restored, in order, as arrived just now.
  restore_loop_all :
      (ts ks : List Transaction) (received : Dict ℕ)
      → All IsVerified ts
      → AllDiffer ts
      → All (IsNew ks) ts
      → All (ArrivedAt now received) ks
      → let r = restore_loop c now (map (λ t. t.object) ts) ks received in
        (r.0 ≡ ks ++ ts) × All (ArrivedAt now r.1) (ks ++ ts)
  unfolding restore_loop
  restore_loop_all [] ks received v d n a =
      (append_nil ks, subst (All (ArrivedAt now received)) (append_nil ks) a)
  restore_loop_all (t ∷ ts) ks received v d n a =
      let received' = insert t.hash now received in
      let own : ArrivedAt now received' t =
        ground (arith, eq_iff t.hash t.hash, lookup-insert t.hash t.hash now received) in
      let added =
        All-append (ArrivedAt now received') ks (t ∷ []) (ArrivedAt-insert now received t.hash ks a)
          (own, tt) in
      let rest =
        restore_loop_all ts (ks ++ (t ∷ [])) received' v.1 d.1 (All-IsNew-snoc ks t ts d.0 n.1)
          added in
      let vs = map (λ (u : Transaction). u.object) ts in
      let R = λ (r : List Transaction × Dict ℕ).
        (r.0 ≡ ks ++ (t ∷ ts)) × All (ArrivedAt now r.1) (ks ++ (t ∷ ts)) in
      let after = restore_loop c now vs (ks ++ (t ∷ [])) received' in
      subst R (sym (restore_loop-cons t vs ks received v.0 n.0)) (
        rest.0 ∙ append_snoc ks ts t,
        subst (All (ArrivedAt now after.1)) (append_snoc ks ts t) rest.1,
      )

All-IsNew-nil : (c : NodeCrypto) (now : ℕ) (ts : List Transaction) → All (IsNew c now []) ts
All-IsNew-nil c now [] = tt
All-IsNew-nil c now (t ∷ ts) = (refl, All-IsNew-nil c now ts)

-- What the loop of `pruneMempool` keeps when nothing is stale and everything can be paid.
module _ (cfg : Config) (now : ℕ) (bc : Blockchain) where
  abbrev IsLive : Transaction → Type 0
  IsLive t = (get_nonce bc.state t.from ≤ t.nonce) × ArrivedAt now bc.received_at t

  is_kept_complete :
      (spent : ℕ) (t : Transaction)
      → IsLive t
      → spent + t.amount ≤ get_balance bc.state t.from
      → is_kept cfg now bc spent t ≡ true
  unfolding is_kept
  is_kept_complete spent t (fresh, arrived) paid = ground arith

  keep_loop_all :
      (ts : List Transaction) (spent : Dict ℕ)
      → All IsLive ts
      → ((a : String) → spent_by spent a + amounts (filter (is_from a) ts) ≤ get_balance bc.state a)
      → keep_loop cfg now bc ts spent ≡ ts
  keep_loop_all [] spent live h = sym (keep_loop-nil cfg now bc spent)
  keep_loop_all (t ∷ ts) spent live h =
      let total = spent_by spent t.from in
      let paid : total + t.amount ≤ get_balance bc.state t.from =
        ground (arith, eq_iff t.from t.from, h t.from) in
      let yes = is_kept_complete total t live.0 paid in
      elim (keep_loop-cons cfg now bc t ts spent) [
        | inr (dropped, _) ↦ absurd (ground arith)
        | inl (_, same) ↦
            same
            ∙ ap (◌∷◌ t) (
                keep_loop_all ts (insert t.from (total + t.amount) spent) live.1 (λ a.
                  ground (
                    arith,
                    eq_iff t.from a,
                    spent_by-insert t.from a (total + t.amount) spent,
                    h a,
                  )))
      ]

among_more :
    (t : Transaction) (ks : List Transaction) (u : Transaction)
    → is_among ks u ≡ true
    → is_among (t ∷ ks) u ≡ true
among_more t ks u h = ground arith

among_self : (ts : List Transaction) → All (λ t. is_among ts t ≡ true) ts
among_self [] = tt
among_self (t ∷ ts) =
    (ground (arith, ===_self t.hash), All-map ts (λ u h. among_more t ts u h) (among_self ts))

-- A pool that is live and can be paid for survives `pruneMempool` whole.
prune_mempool_all :
    (cfg : Config) (now : ℕ) (bc : Blockchain)
    → All (IsLive cfg now bc) bc.pending_transactions
    → ((a : String) → amounts (filter (is_from a) bc.pending_transactions) ≤ get_balance bc.state a)
    → (prune_mempool cfg now bc).pending_transactions ≡ bc.pending_transactions
prune_mempool_all cfg now bc live paid =
    let ts = bc.pending_transactions in
    let sorted = sort tx_le ts in
    let whole : kept cfg now bc ≡ sorted =
      keep_loop_all cfg now bc sorted [] (All-sort tx_le (IsLive cfg now bc) ts live)
        (λ a. omega (arith, paid a, amounts-filter-sort (is_from a) ts)) in
    let among : All (λ t. is_among (kept cfg now bc) t ≡ true) ts =
      All-of-sort tx_le (λ t. is_among (kept cfg now bc) t ≡ true) ts
        (subst (λ ks. All (λ t. is_among ks t ≡ true) sorted) (sym whole) (among_self sorted)) in
    (prune_mempool_fields cfg now bc).0 ∙ filter_all (is_among (kept cfg now bc)) ts among

-- A pool that was in order when it was saved is in order again once it is restored, under any
-- accounts; and if it can be paid for and no nonce is used up, it is the same pool.
pub restore_pending_saved :
    (c : NodeCrypto) (cfg : Config) (now : ℕ) (bc : Blockchain) (ts : List Transaction)
    → IsQueue c cfg ts
    → let bc' = restore_pending c cfg now bc (map (λ t. t.object) ts) in
      IsPool c cfg bc'
      × IsFresh bc'
      × (All (λ t. get_nonce bc.state t.from ≤ t.nonce) ts
          → ((a : String) → amounts (filter (is_from a) ts) ≤ get_balance bc.state a)
          → bc'.pending_transactions ≡ ts)
unfolding restore_pending
restore_pending_saved c cfg now bc ts q =
    let r = restore_loop c now (map (λ (t : Transaction). t.object) ts) [] bc.received_at in
    let (same, arrived) =
      restore_loop_all c now ts [] bc.received_at q.verified q.distinct (All-IsNew-nil c now ts)
        tt in
    let loaded : Blockchain = record bc { pending_transactions = r.0; received_at = r.1 } in
    let sound = prune_mempool-IsPool c cfg now loaded (subst (IsQueue c cfg) (sym same) q) in
    (
      sound.0,
      sound.1,
      λ fresh paid.
          prune_mempool_all cfg now loaded
            (subst (All (IsLive cfg now loaded)) (sym same) (
              All-and (λ t. get_nonce bc.state t.from ≤ t.nonce) (ArrivedAt now r.1) ts fresh
                arrived))
            (λ a.
              subst (λ us. amounts (filter (is_from a) us) ≤ get_balance bc.state a) (sym same)
                (paid a))
          ∙ same,
    )
