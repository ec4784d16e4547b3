-- ===== src/Tests/Facts.antt =====
-- What holds of the network of `Tests.World`: the hypotheses that the theorems' instances share.
use Prim.Native.String.{◌++◌ as text_append}
use proof_of_authority_block.Common.{
  ◌≡◌, refl, String, true, [], ◌∷◌, some, ok, arith, ◌===◌, ===_self, eq_iff,
}
use proof_of_authority_block.Crypto.{
  IsKeyPair, sign, verify, sha256, last_chars, canonical_public_key_pem, address_from_public_key,
}
use proof_of_authority_block.Json.{decimal}
use proof_of_authority_block.Transaction.{verify_transaction, create_signed_transaction}
use proof_of_authority_block.Transaction.Shape.{IsWellFormed}
use proof_of_authority_block.Transaction.Verify.{verify-create_signed_transaction}
use proof_of_authority_block.Transaction.{is_address}
use proof_of_authority_block.State.{
  new_world_state, get_account, apply_each, apply_one, debit, credit,
}
use proof_of_authority_block.ValidatorSet.{get_validator_for_slot, get_index_for_slot}
use proof_of_authority_block.Block.{create_genesis_block}
use proof_of_authority_block.Blockchain.{
  create_genesis, get_time_into_slot, get_slot_wait_remaining, add_block, append_block, persist,
  prune_mempool,
}
use proof_of_authority_block.Blockchain.Replay.{Extends, done}
use proof_of_authority_block.Blockchain.Sync.{IsReplayed, add_block-IsReplayed, add_block_accepts}
use proof_of_authority_block.Proposer.Accepted.{MayPropose, next_block-Extends}
use proof_of_authority_block.Tests.World.{
  toy_crypto, key_pair, validator_keys, alice, bob, config, payment, signed_payment, initial, paid,
  genesis, waiting_node, block_one, paid_node,
}

pub key_pair-IsKeyPair : (key : String) → IsKeyPair toy_crypto (key_pair key)
unfolding sign verify
key_pair-IsKeyPair key = record { verifies = λ text. ===_self (text_append text key) }

pub alice_owner : address_from_public_key toy_crypto "alice" ≡ some alice
unfolding address_from_public_key canonical_public_key_pem sha256 last_chars decimal
alice_owner = refl

pub payment-IsWellFormed : IsWellFormed payment
unfolding is_address
payment-IsWellFormed = record {
  sender = refl;
  recipient = refl;
  distinct =
      λ e. let h : (alice === bob) ≡ true = (eq_iff alice bob).1 e in absurd (ground (arith, h));
  positive = omega arith;
  amount_safe = omega arith;
  nonce_safe = omega arith;
  past_safe = omega arith;
  future_safe = omega arith;
}

pub payment_verified : verify_transaction toy_crypto signed_payment.object ≡ ok signed_payment
payment_verified =
    verify-create_signed_transaction toy_crypto (key_pair "alice") payment
      (key_pair-IsKeyPair "alice") alice_owner payment-IsWellFormed

pub payment_applies : apply_each initial (signed_payment ∷ []) ≡ ok paid
unfolding apply_each apply_one debit credit get_account new_world_state create_signed_transaction
payment_applies = refl

pub validator_may : MayPropose config validator_keys 12 genesis
unfolding get_slot_wait_remaining get_time_into_slot create_genesis create_genesis_block
    get_validator_for_slot get_index_for_slot
validator_may = record { waited = refl; unused = omega arith; owner = refl }

pub block_one-Extends : Extends toy_crypto config 12 genesis block_one initial paid
block_one-Extends =
    next_block-Extends toy_crypto config validator_keys 12 12 genesis (signed_payment ∷ []) initial
      paid (key_pair-IsKeyPair "v") (omega arith) validator_may (payment_verified, tt)
      payment_applies

pub block_one_added :
    add_block toy_crypto config 12 0 waiting_node (some block_one) ≡ some (paid_node, ok tt)
block_one_added =
    add_block_accepts toy_crypto config 12 0 waiting_node genesis block_one paid refl
      block_one-Extends

pub genesis-IsReplayed : IsReplayed toy_crypto config 0 (genesis ∷ []) initial
unfolding create_genesis create_genesis_block
genesis-IsReplayed = (refl, refl, done genesis initial)

pub paid_node-IsReplayed : IsReplayed toy_crypto config 12 paid_node.chain paid_node.state
paid_node-IsReplayed =
    add_block-IsReplayed toy_crypto config 0 12 0 waiting_node paid_node (some block_one) (ok tt)
      (omega arith) genesis-IsReplayed block_one_added

pub two_blocks-IsReplayed : IsReplayed toy_crypto config 12 (genesis ∷ block_one ∷ []) paid
unfolding append_block persist prune_mempool
two_blocks-IsReplayed = paid_node-IsReplayed
