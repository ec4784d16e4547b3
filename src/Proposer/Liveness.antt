-- ===== src/Proposer/Liveness.antt =====
-- When a validator proposes (the timer of src/node.ts).
use proof_of_authority_block.Common.{
  ℕ, ◌≤◌, ◌<◌, ◌≡◌, refl, false, List, [], ◌∷◌, arith, length, All, some, ok,
}
use proof_of_authority_block.Common.Int.{pos}
use proof_of_authority_block.Common.Sort.{Elem}
use proof_of_authority_block.Crypto.{NodeCrypto, KeyPair, IsKeyPair}
use proof_of_authority_block.Transaction.{Transaction}
use proof_of_authority_block.State.{get_balance, get_nonce}
use proof_of_authority_block.ValidatorSet.{get_validator_for_slot}
use proof_of_authority_block.Block.{Block}
use proof_of_authority_block.Blockchain.{
  Blockchain, Config, get_latest_block, get_slot, select_transactions_for_block, append_block,
}
use proof_of_authority_block.Blockchain.Rules.{is_validator_iff}
use proof_of_authority_block.Blockchain.Selection.{select_transactions_for_block_nonempty}
use proof_of_authority_block.Proposer.{proposed, is_empty, check_tick, auto_propose}
use proof_of_authority_block.Proposer.Accepted.{
  IsVerified, MayPropose, Accepted, accepted, tick_adds,
}

is_empty_of_pos : (txs : List Transaction) → 0 < length txs → is_empty txs ≡ false
is_empty_of_pos [] h = absurd (omega arith)
is_empty_of_pos (tx ∷ txs) h = refl

is_empty_of_Elem : (tx : Transaction) (txs : List Transaction) → Elem tx txs → is_empty txs ≡ false
is_empty_of_Elem tx [] m = elim m [ ]
is_empty_of_Elem tx (y ∷ txs) m = refl

check_tick_complete :
    (c : NodeCrypto) (cfg : Config) (keys : KeyPair) (date : ℕ) (bc : Blockchain) (latest : Block)
    → MayPropose cfg keys date latest
    → is_empty bc.pending_transactions ≡ false
    → is_empty (select_transactions_for_block cfg bc) ≡ false
    → check_tick c cfg keys date bc latest ≡ ok (select_transactions_for_block cfg bc)
unfolding check_tick
check_tick_complete c cfg keys date bc latest may pending chosen =
    let owner = get_validator_for_slot cfg.validator_set (pos (get_slot cfg date)) in
    let mine = (is_validator_iff owner keys.public_key).1 may.owner in ground arith

-- Suppose that a validator has a key pair whose signatures verify, that its pool holds verified
-- transactions only, that the clock does not go back, that it owns the current slot, which no block
-- has used and whose wait is over, and that blocks may hold a transaction. If some pending
-- transaction carries its sender's confirmed nonce and the sender can pay, the tick of the timer
-- appends a block to the chain, one that the rules allow, and reports it as proposed.
pub auto_propose_live :
    (c : NodeCrypto) (cfg : Config) (keys : KeyPair) (date date' now : ℕ) (bc : Blockchain)
    (latest : Block) (tx : Transaction)
    → IsKeyPair c keys
    → date ≤ date'
    → All (IsVerified c) bc.pending_transactions
    → get_latest_block bc ≡ some latest
    → MayPropose cfg keys date latest
    → 0 < cfg.mempool.max_txs_per_block
    → Elem tx bc.pending_transactions
    → tx.nonce ≡ get_nonce bc.state tx.from
    → tx.amount ≤ get_balance bc.state tx.from
    → (a : Accepted c cfg keys date date' now bc latest) × (auto_propose c cfg keys date date' now
          bc
        ≡ some (append_block c cfg now bc a.block a.after, proposed a.block))
auto_propose_live c cfg keys date date' now bc latest tx pair later verified e may room m n b =
    let a = accepted c cfg keys date date' now bc latest pair later verified e may in
    let txs = select_transactions_for_block cfg bc in
    let chosen =
      is_empty_of_pos txs (select_transactions_for_block_nonempty cfg bc tx room m n b) in
    let pending = is_empty_of_Elem tx bc.pending_transactions m in
    (
      a,
      tick_adds c cfg keys date date' now bc (append_block c cfg now bc a.block a.after) latest
          a.block txs e (check_tick_complete c cfg keys date bc latest may pending chosen) a.built
          a.added,
    )
