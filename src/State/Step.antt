-- ===== src/State/Step.antt =====
-- `Account` and `WorldState` of src/state.ts. Amounts are natural numbers, and sums are exact as
-- those of safe integers are.
use proof_of_authority_block.Common.{
  ℕ, ◌+◌, ◌-◌, ◌≡◌, String, none, some, List, [], ◌∷◌, not, ltb, ◌==◌, ◌===◌, arith, if◌then◌else◌,
  Result, ok, err, ◌>>=◌, ◌>>◌, check,
}
use proof_of_authority_block.Common.Dict.{Dict, lookup, insert, lookup-insert}
use proof_of_authority_block.Transaction.{Transaction}

pub record Account : Type 0 where
  pub balance : ℕ
  pub nonce : ℕ

-- `GenesisAllocations`, as `Object.entries` lists it.
abbrev pub GenesisAllocations : Type 0
GenesisAllocations = List (String × ℕ)

abbrev pub WorldState : Type 0
WorldState = Dict Account

abbrev pub empty_account : Account
empty_account = record { balance = 0; nonce = 0 }

-- The loop of the constructor.
unfoldable pub allocate : GenesisAllocations → WorldState → WorldState
allocate [] s = s
allocate ((address, balance) ∷ rest) s =
    allocate rest (insert address (record { balance = balance; nonce = 0 }) s)

-- `new WorldState(genesis)`
unfoldable pub new_world_state : GenesisAllocations → WorldState
unfolding allocate
new_world_state genesis = allocate genesis []

-- `get`
unfoldable pub get_account : WorldState → String → Account
get_account s address = elim (lookup address s) [ none ↦ empty_account | some account ↦ account ]

-- A write is seen at its own address alone.
pub get_account-insert :
    (k a : String) (v : Account) (s : WorldState)
    → get_account (insert k v s) a ≡ (if k === a then v else get_account s a)
unfolding get_account
get_account-insert k a v s = ground (arith, lookup-insert k a v s)

abbrev pub get_balance : WorldState → String → ℕ
get_balance s address = (get_account s address).balance

abbrev pub get_nonce : WorldState → String → ℕ
get_nonce s address = (get_account s address).nonce

-- The reasons of `applyAll`, with the sender and the two numbers that the message shows.
pub data StateError : Type 0 where
  bad_nonce : String → ℕ → ℕ → StateError
  insufficient_balance : String → ℕ → ℕ → StateError

-- The first write of the loop's body.
unfoldable pub debit : WorldState → Transaction → WorldState
debit working tx =
    let sender = get_account working tx.from in
    insert tx.from (record { balance = sender.balance - tx.amount; nonce = sender.nonce + 1 })
      working

-- The second write: the receiver is read after the sender has been written.
unfoldable pub credit : WorldState → Transaction → WorldState
credit working tx =
    let receiver = get_account working tx.to in
    insert tx.to (record { balance = receiver.balance + tx.amount; nonce = receiver.nonce }) working

abbrev pub transfer : WorldState → Transaction → WorldState
transfer working tx = credit (debit working tx) tx

-- The body of the loop of `applyAll`, on the working copy.
unfoldable pub apply_one : WorldState → Transaction → Result StateError WorldState
apply_one working tx = do
  let sender = get_account working tx.from
  check (tx.nonce == sender.nonce) (bad_nonce tx.from sender.nonce tx.nonce)
  check (not (ltb sender.balance tx.amount)) (insufficient_balance tx.from sender.balance tx.amount)
  ok (transfer working tx)

unfoldable pub apply_each : WorldState → List Transaction → Result StateError WorldState
apply_each working [] = ok working
apply_each working (tx ∷ txs) = do next ← apply_one working tx; apply_each next txs

-- `applyAll`: the working copy replaces the accounts only if every transaction went through.
unfoldable pub apply_all : WorldState → List Transaction → WorldState × Result StateError (Unit {0})
apply_all s txs = elim (apply_each s txs) [
  | ok working ↦ (working, ok tt)
  | err reason ↦ (s, err reason)
]
