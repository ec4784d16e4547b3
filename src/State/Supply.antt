-- ===== src/State/Supply.antt =====
-- The money in the accounts of src/state.ts.
use proof_of_authority_block.Common.{
  ℕ, ◌+◌, ◌-◌, ◌≤◌, ◌≡◌, inl, inr, String, List, [], ◌∷◌, arith, ap, ok, >>=-eq-ok,
}
use proof_of_authority_block.Common.Dict.{insert}
use proof_of_authority_block.Transaction.{Transaction}
use proof_of_authority_block.State.Step.{
  Account, GenesisAllocations, WorldState, get_account, get_balance, debit, credit, transfer,
  apply_one, apply_each, apply_all, allocate, new_world_state,
}
use proof_of_authority_block.State.Apply.{apply_one_iff, apply_all_atomic}

-- The sum of all balances.
abbrev pub supply : WorldState → ℕ
supply [] = 0
supply ((_, account) ∷ s) = account.balance + supply s

-- The sum of what the genesis allocates.
abbrev pub allocated : GenesisAllocations → ℕ
allocated [] = 0
allocated ((_, balance) ∷ rest) = balance + allocated rest

supply-insert :
    (k : String) (v : Account) (s : WorldState)
    → supply (insert k v s) + get_balance s k ≡ supply s + v.balance
unfolding get_account
supply-insert k v [] = omega arith
supply-insert k v ((j, w) ∷ s) = ground (arith, supply-insert k v s)

pub balance-le-supply : (s : WorldState) (a : String) → get_balance s a ≤ supply s
unfolding get_account
balance-le-supply [] a = omega arith
balance-le-supply ((j, w) ∷ s) a = ground (arith, balance-le-supply s a)

supply-debit :
    (s : WorldState) (tx : Transaction)
    → tx.amount ≤ get_balance s tx.from
    → supply (debit s tx) + tx.amount ≡ supply s
unfolding debit
supply-debit s tx h =
    let sender = get_account s tx.from in
    let after : Account = record {
      balance = sender.balance - tx.amount;
      nonce = sender.nonce + 1;
    } in
    omega (arith, supply-insert tx.from after s)

supply-credit : (s : WorldState) (tx : Transaction) → supply (credit s tx) ≡ supply s + tx.amount
unfolding credit
supply-credit s tx =
    let receiver = get_account s tx.to in
    let after : Account = record {
      balance = receiver.balance + tx.amount;
      nonce = receiver.nonce;
    } in
    omega (arith, supply-insert tx.to after s)

supply-transfer :
    (s : WorldState) (tx : Transaction)
    → tx.amount ≤ get_balance s tx.from
    → supply (transfer s tx) ≡ supply s
supply-transfer s tx h = omega (arith, supply-debit s tx h, supply-credit (debit s tx) tx)

pub supply-apply_each :
    (s s' : WorldState) (txs : List Transaction) → apply_each s txs ≡ ok s' → supply s' ≡ supply s
unfolding apply_each
supply-apply_each s s' [] h = ground arith
supply-apply_each s s' (tx ∷ txs) h =
    let (t, one, rest) = >>=-eq-ok (apply_one s tx) (λ next. apply_each next txs) h in
    let (_, pays, moved) = (apply_one_iff s t tx).0 one in
    omega (arith, supply-apply_each t s' txs rest, ap supply moved, supply-transfer s tx pays)

-- `applyAll` leaves the sum of all balances as it is, whether it succeeds or is refused.
pub supply-apply_all :
    (s : WorldState) (txs : List Transaction) → supply (apply_all s txs).0 ≡ supply s
supply-apply_all s txs = elim (apply_all_atomic s txs) [
  | inl (s', each, all) ↦ rw all (supply-apply_each s s' txs each)
  | inr (e, each, all) ↦ rw all
]

supply-allocate-le :
    (g : GenesisAllocations) (s : WorldState) → supply (allocate g s) ≤ allocated g + supply s
unfolding allocate
supply-allocate-le [] s = omega arith
supply-allocate-le ((a, b) ∷ g) s =
    let account : Account = record { balance = b; nonce = 0 } in
    omega (arith, supply-allocate-le g (insert a account s), supply-insert a account s)

-- Whatever list of transactions is applied to the genesis state, no account holds more than the
-- genesis allocates in all.
pub balance-le-allocated :
    (g : GenesisAllocations) (txs : List Transaction) (a : String)
    → get_balance (apply_all (new_world_state g) txs).0 a ≤ allocated g
unfolding new_world_state
balance-le-allocated g txs a =
    let s = (apply_all (new_world_state g) txs).0 in
    omega (
      arith,
      balance-le-supply s a,
      supply-apply_all (new_world_state g) txs,
      supply-allocate-le g [],
    )
