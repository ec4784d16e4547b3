-- ===== src/Tests/Mempool.antt =====
-- Instances of the theorems on the mempool.
use proof_of_authority_block.Common.{
  ℕ, ◌≤◌, ◌<◌, ◌≡◌, ◌↔◌, false, some, ok, arith, All, length, any,
}
use proof_of_authority_block.Transaction.{verify_transaction}
use proof_of_authority_block.State.{WorldState, get_nonce, apply_each}
use proof_of_authority_block.Blockchain.{
  start_at_genesis, has_hash, check_transaction, add_transaction, get_next_nonce,
  select_transactions_for_block,
}
use proof_of_authority_block.Blockchain.Pool.{IsPool, IsAdmissible, check_transaction_iff}
use proof_of_authority_block.Blockchain.Admission.{add_transaction-IsPool}
use proof_of_authority_block.Blockchain.Nonces.{IsFirstFree, get_next_nonce_total}
use proof_of_authority_block.Blockchain.Selection.{select_transactions_for_block_lem}
use proof_of_authority_block.Proposer.Accepted.{IsVerified}
use proof_of_authority_block.Tests.World.{
  toy_crypto, alice, config, signed_payment, fresh_node, waiting_node,
}
use proof_of_authority_block.Tests.Facts.{payment_verified}

fresh_node-IsPool : IsPool toy_crypto config fresh_node
unfolding start_at_genesis
fresh_node-IsPool = record {
  verified = tt;
  bounded = omega arith;
  distinct = tt;
  fair = λ a. omega arith;
  affordable = λ a. omega arith;
}

add_transaction-IsPool_example :
    IsPool toy_crypto config
      ((add_transaction config toy_crypto 0 fresh_node signed_payment.object).0)
add_transaction-IsPool_example =
    add_transaction-IsPool config toy_crypto 0 fresh_node signed_payment.object fresh_node-IsPool

check_transaction_iff_example :
    (check_transaction config toy_crypto fresh_node signed_payment.object ≡ ok signed_payment) ↔ (
      (length fresh_node.pending_transactions < config.mempool.max_pool_size)
      × (any (has_hash signed_payment.object) fresh_node.pending_transactions ≡ false)
      × (verify_transaction toy_crypto signed_payment.object ≡ ok signed_payment)
      × IsAdmissible config fresh_node signed_payment)
check_transaction_iff_example =
    check_transaction_iff config toy_crypto fresh_node signed_payment.object signed_payment

select_transactions_for_block_lem_example :
    let txs = select_transactions_for_block config waiting_node in
    ((s : WorldState) × (apply_each waiting_node.state txs ≡ ok s))
    × (length txs ≤ config.mempool.max_txs_per_block)
    × All (IsVerified toy_crypto) txs
select_transactions_for_block_lem_example =
    select_transactions_for_block_lem config waiting_node (IsVerified toy_crypto)
      (payment_verified, tt)

get_next_nonce_total_example :
    (n : ℕ) × (get_next_nonce waiting_node alice ≡ some n)
    × IsFirstFree alice waiting_node.pending_transactions (get_nonce waiting_node.state alice) n
get_next_nonce_total_example = get_next_nonce_total waiting_node alice
