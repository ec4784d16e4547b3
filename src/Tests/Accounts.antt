-- ===== src/Tests/Accounts.antt =====
-- Instances of the theorems on transactions and accounts.
use proof_of_authority_block.Common.{◌+◌, ◌≤◌, ◌≡◌, ◌≢◌, ◌↔◌, [], ◌∷◌, ok}
use proof_of_authority_block.Transaction.{verify_transaction}
use proof_of_authority_block.Transaction.Shape.{IsWellFormed, IsReading}
use proof_of_authority_block.Transaction.Verify.{IsAuthentic, verify_transaction_iff}
use proof_of_authority_block.State.{new_world_state, get_balance, get_nonce, apply_one, apply_all}
use proof_of_authority_block.State.Apply.{spends, gains, sends, total, apply_each_accounts}
use proof_of_authority_block.State.Ledger.{Run, view, apply_all_refines, apply_each_no_replay}
use proof_of_authority_block.State.Supply.{
  supply, allocated, supply-apply_all, balance-le-allocated,
}
use proof_of_authority_block.Tests.World.{
  toy_crypto, alice, bob, config, signed_payment, initial, paid,
}
use proof_of_authority_block.Tests.Facts.{payment_applies}

verify_transaction_iff_example :
    (verify_transaction toy_crypto signed_payment.object ≡ ok signed_payment) ↔ (
      IsReading signed_payment.object signed_payment
      × IsWellFormed signed_payment.unsigned
      × IsAuthentic toy_crypto signed_payment)
verify_transaction_iff_example =
    verify_transaction_iff toy_crypto signed_payment.object signed_payment

apply_all_refines_example : Run (view initial) (signed_payment ∷ []) (view paid) ↔ (
    ((apply_all initial (signed_payment ∷ [])).1 ≡ ok tt)
    × (view (apply_all initial (signed_payment ∷ [])).0 ≡ view paid))
apply_all_refines_example = apply_all_refines initial (signed_payment ∷ []) (view paid)

apply_each_no_replay_example : apply_one paid signed_payment ≢ ok paid
apply_each_no_replay_example =
    apply_each_no_replay initial paid signed_payment [] payment_applies paid

apply_each_accounts_example :
    (get_balance paid bob + total (spends bob) (signed_payment ∷ [])
      ≡ get_balance initial bob + total (gains bob) (signed_payment ∷ []))
    × (get_nonce paid bob ≡ get_nonce initial bob + total (sends bob) (signed_payment ∷ []))
apply_each_accounts_example =
    apply_each_accounts initial paid (signed_payment ∷ []) payment_applies bob

supply-apply_all_example : supply (apply_all initial (signed_payment ∷ [])).0 ≡ supply initial
supply-apply_all_example = supply-apply_all initial (signed_payment ∷ [])

balance-le-allocated_example :
    get_balance
      (apply_all (new_world_state config.genesis_allocations) (signed_payment ∷ [])).0
      alice
    ≤ allocated config.genesis_allocations
balance-le-allocated_example =
    balance-le-allocated config.genesis_allocations (signed_payment ∷ []) alice
