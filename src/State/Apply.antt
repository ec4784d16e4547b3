-- ===== src/State/Apply.antt =====
-- `applyAll` of src/state.ts and the accounts.
use proof_of_authority_block.Common.{
  ℕ, ◌+◌, ◌-◌, ◌≤◌, ◌≡◌, refl, ◌↔◌, inl, inr, String, List, [], ◌∷◌, ◌++◌, arith, eq_iff, ◌===◌,
  if◌then◌else◌, Result, ok, err, ◌>>=◌, >>=-eq-ok, ap, ◌⊎◌,
}
use proof_of_authority_block.Transaction.{Transaction}
use proof_of_authority_block.State.Step.{
  Account, WorldState, StateError, get_account, get_account-insert, get_balance, get_nonce, debit,
  credit, transfer, apply_one, apply_each, apply_all,
}

-- Money that leaves and enters an account in one transaction, and its share of the nonces.
abbrev pub spends : String → Transaction → ℕ
spends a tx = if tx.from === a then tx.amount else 0

abbrev pub gains : String → Transaction → ℕ
gains a tx = if tx.to === a then tx.amount else 0

abbrev pub sends : String → Transaction → ℕ
sends a tx = if tx.from === a then 1 else 0

-- The same over a list of transactions.
abbrev pub total : (Transaction → ℕ) → List Transaction → ℕ
total f [] = 0
total f (tx ∷ txs) = f tx + total f txs

module _ (s : WorldState) (tx : Transaction) (a : String) where
  debit_account :
      (get_balance (debit s tx) a
        ≡ (if tx.from === a then get_balance s tx.from - tx.amount else get_balance s a))
      × (get_nonce (debit s tx) a ≡ get_nonce s a + sends a tx)
  unfolding debit
  debit_account =
      let sender = get_account s tx.from in
      let after : Account = record {
        balance = sender.balance - tx.amount;
        nonce = sender.nonce + 1;
      } in
      ground (arith, eq_iff tx.from a, get_account-insert tx.from a after s)

  credit_account :
      (get_balance (credit s tx) a ≡ get_balance s a + gains a tx)
      × (get_nonce (credit s tx) a ≡ get_nonce s a)
  unfolding credit
  credit_account =
      let receiver = get_account s tx.to in
      let after : Account = record {
        balance = receiver.balance + tx.amount;
        nonce = receiver.nonce;
      } in
      ground (arith, eq_iff tx.to a, get_account-insert tx.to a after s)

module _ (s : WorldState) (tx : Transaction) (a : String) where
  -- One transfer moves the balances by what is spent and gained, also from an address to itself.
  pub transfer-balance :
      tx.amount ≤ get_balance s tx.from
      → get_balance (transfer s tx) a + spends a tx ≡ get_balance s a + gains a tx
  transfer-balance h =
      ground (arith, eq_iff tx.from a, debit_account s tx a, credit_account (debit s tx) tx a)

  pub transfer-nonce : get_nonce (transfer s tx) a ≡ get_nonce s a + sends a tx
  transfer-nonce = omega (arith, debit_account s tx a, credit_account (debit s tx) tx a)

-- A transaction goes through exactly if it carries the sender's nonce and the sender can pay.
pub apply_one_iff :
    (s s' : WorldState) (tx : Transaction)
    → (apply_one s tx ≡ ok s') ↔ (
        (tx.nonce ≡ get_nonce s tx.from)
        × (tx.amount ≤ get_balance s tx.from)
        × (s' ≡ transfer s tx))
unfolding apply_one
apply_one_iff s s' tx = ground arith

-- When a list of transactions has been applied, the balance of every address has moved by what the
-- transactions pay to it and by what it pays in them, and its nonce by the number of those that it
-- sends.
pub apply_each_accounts :
    (s s' : WorldState) (txs : List Transaction)
    → apply_each s txs ≡ ok s'
    → (a : String)
    → (get_balance s' a + total (spends a) txs ≡ get_balance s a + total (gains a) txs)
      × (get_nonce s' a ≡ get_nonce s a + total (sends a) txs)
unfolding apply_each
apply_each_accounts s s' [] h a = ground arith
apply_each_accounts s s' (tx ∷ txs) h a =
    let (t, one, rest) = >>=-eq-ok (apply_one s tx) (λ next. apply_each next txs) h in
    let (_, pays, moved) = (apply_one_iff s t tx).0 one in
    let ih = apply_each_accounts t s' txs rest a in
    omega (
      arith,
      ih.0,
      ih.1,
      ap (λ (u : WorldState). get_balance u a) moved,
      ap (λ (u : WorldState). get_nonce u a) moved,
      transfer-balance s tx a pays,
      transfer-nonce s tx a,
    )

pub apply_each-append :
    (s : WorldState) (xs ys : List Transaction)
    → apply_each s (xs ++ ys) ≡ (apply_each s xs >>= λ t. apply_each t ys)
unfolding apply_each
apply_each-append s [] ys = refl
apply_each-append s (x ∷ xs) ys =
    elim (apply_one s x)
      as (λ r.
        (r >>= λ t. apply_each t (xs ++ ys))
        ≡ ((r >>= λ t. apply_each t xs) >>= λ t. apply_each t ys)) [
          | ok t ↦ apply_each-append t xs ys
          | err e ↦ refl
        ]

-- `applyAll` is all or nothing.
pub apply_all_atomic :
    (s : WorldState) (txs : List Transaction)
    → ((s' : WorldState) × (apply_each s txs ≡ ok s') × (apply_all s txs ≡ (s', ok tt)))
      ⊎ ((e : StateError) × (apply_each s txs ≡ err e) × (apply_all s txs ≡ (s, err e)))
unfolding apply_all
apply_all_atomic s txs =
    elim (apply_each s txs)
      as (λ r.
        ((s' : WorldState) × (r ≡ ok s')
          × ◌≡◌ {A = WorldState × Result StateError (Unit {0})}
              (elim r [ ok w ↦ (w, ok tt) | err x ↦ (s, err x) ]) (s', ok tt))
        ⊎ ((e : StateError) × (r ≡ err e)
            × ◌≡◌ {A = WorldState × Result StateError (Unit {0})}
                (elim r [ ok w ↦ (w, ok tt) | err x ↦ (s, err x) ]) (s, err e))) [
                  | ok w ↦ inl (w, refl, refl)
                  | err e ↦ inr (e, refl, refl)
                ]
