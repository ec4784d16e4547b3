-- ===== src/Proposer/Accepted.antt =====
-- How a node's own block fares in its own validation (src/node.ts).
use proof_of_authority_block.Common.{
  ℕ, ◌≤◌, ◌<◌, ◌≡◌, refl, ◌⊎◌, inl, inr, List, [], ◌∷◌, map, arith, All, some, Result-cases, ok, ap,
  sym, ◌∙◌,
}
use proof_of_authority_block.Common.Int.{pos}
use proof_of_authority_block.Crypto.{NodeCrypto, KeyPair, IsKeyPair}
use proof_of_authority_block.Transaction.{Transaction, verify_transaction}
use proof_of_authority_block.State.{WorldState, apply_each}
use proof_of_authority_block.ValidatorSet.{get_validator_for_slot}
use proof_of_authority_block.Block.{Block, propose_block, items}
use proof_of_authority_block.Blockchain.{
  Blockchain, Config, get_latest_block, get_slot, get_time_into_slot, get_slot_wait_remaining,
  select_transactions_for_block, verify_each, block_transactions, add_block, append_block,
}
use proof_of_authority_block.Blockchain.Rules.{IsNextBlock, is_validator_iff}
use proof_of_authority_block.Blockchain.Replay.{Extends}
use proof_of_authority_block.Blockchain.Selection.{select_transactions_for_block_lem}
use proof_of_authority_block.Blockchain.Sync.{add_block_accepts}
use proof_of_authority_block.Proposer.{Idle, idle, proposed, next_block, check_tick, auto_propose}

-- The pool holds only transactions that passed `verifyTransaction`.
abbrev pub IsVerified : NodeCrypto → Transaction → Type 0
IsVerified c tx = verify_transaction c tx.object ≡ ok tx

verify_each-items :
    (c : NodeCrypto) (txs : List Transaction)
    → All (IsVerified c) txs
    → verify_each c (items (map (λ t. t.object) txs)) ≡ ok txs
unfolding verify_each items
verify_each-items c [] h = refl
verify_each-items c (tx ∷ txs) h = rw (h.0, verify_each-items c txs h.1)

-- The tests of a proposer that concern the block.
pub record MayPropose (cfg : Config) (keys : KeyPair) (date : ℕ) (latest : Block) : Type 0 where
  pub waited : get_slot_wait_remaining cfg date ≡ 0
  pub unused : get_slot cfg latest.timestamp < get_slot cfg date
  pub owner :
      get_validator_for_slot cfg.validator_set (pos (get_slot cfg date)) ≡ some keys.public_key

-- The block that a proposer builds may follow the latest block.
pub next_block-IsNextBlock :
    (c : NodeCrypto) (cfg : Config) (keys : KeyPair) (date date' : ℕ) (latest : Block)
    (txs : List Transaction)
    → IsKeyPair c keys
    → date ≤ date'
    → MayPropose cfg keys date latest
    → IsNextBlock c cfg date' (next_block c cfg keys date latest txs) latest
unfolding next_block propose_block get_slot_wait_remaining get_time_into_slot
next_block-IsNextBlock c cfg keys date date' latest txs pair later may = record {
  numbered = refl;
  linked = refl;
  hashed = refl;
  signed = pair.verifies _;
  later = may.unused;
  waited = omega arith;
  current = omega arith;
  owned = may.owner;
}

block_transactions-next_block :
    (c : NodeCrypto) (cfg : Config) (keys : KeyPair) (date : ℕ) (latest : Block)
    (txs : List Transaction)
    → All (IsVerified c) txs
    → block_transactions c (next_block c cfg keys date latest txs) ≡ ok txs
unfolding block_transactions next_block propose_block
block_transactions-next_block c cfg keys date latest txs h = verify_each-items c txs h

-- A block of verified transactions that go through extends the chain.
pub next_block-Extends :
    (c : NodeCrypto) (cfg : Config) (keys : KeyPair) (date date' : ℕ) (latest : Block)
    (txs : List Transaction) (s s' : WorldState)
    → IsKeyPair c keys
    → date ≤ date'
    → MayPropose cfg keys date latest
    → All (IsVerified c) txs
    → apply_each s txs ≡ ok s'
    → Extends c cfg date' latest (next_block c cfg keys date latest txs) s s'
next_block-Extends c cfg keys date date' latest txs s s' pair later may h each = record {
  next = next_block-IsNextBlock c cfg keys date date' latest txs pair later may;
  txs = txs;
  authentic = block_transactions-next_block c cfg keys date latest txs h;
  applied = each;
}

pub check_tick_sound :
    (c : NodeCrypto) (cfg : Config) (keys : KeyPair) (date : ℕ) (bc : Blockchain) (latest : Block)
    (txs : List Transaction)
    → check_tick c cfg keys date bc latest ≡ ok txs
    → MayPropose cfg keys date latest × (txs ≡ select_transactions_for_block cfg bc)
unfolding check_tick
check_tick_sound c cfg keys date bc latest txs h =
    let owner = get_validator_for_slot cfg.validator_set (pos (get_slot cfg date)) in
    ground (arith, is_validator_iff owner keys.public_key)

-- A proposal that the local chain accepts, with the block and the state that it leads to.
pub record Accepted (c : NodeCrypto) (cfg : Config) (keys : KeyPair) (date date' now : ℕ)
    (bc : Blockchain) (latest : Block) : Type 0 where
  pub after : WorldState
  pub block : Block
  pub built : block ≡ next_block c cfg keys date latest (select_transactions_for_block cfg bc)
  pub extends : Extends c cfg date' latest block bc.state after
  pub added :
      add_block c cfg date' now bc (some block)
      ≡ some (append_block c cfg now bc block after, ok tt)

pub accepted :
    (c : NodeCrypto) (cfg : Config) (keys : KeyPair) (date date' now : ℕ) (bc : Blockchain)
    (latest : Block)
    → IsKeyPair c keys
    → date ≤ date'
    → All (IsVerified c) bc.pending_transactions
    → get_latest_block bc ≡ some latest
    → MayPropose cfg keys date latest
    → Accepted c cfg keys date date' now bc latest
accepted c cfg keys date date' now bc latest pair later verified e may =
    let txs = select_transactions_for_block cfg bc in
    let (goes, _, selected) = select_transactions_for_block_lem cfg bc (IsVerified c) verified in
    let (s', each) = goes in
    let block = next_block c cfg keys date latest txs in
    let x =
      next_block-Extends c cfg keys date date' latest txs bc.state s' pair later may selected
        each in
    record {
      after = s';
      block = block;
      built = refl;
      extends = x;
      added = add_block_accepts c cfg date' now bc latest block s' e x;
    }

pub tick_adds :
    (c : NodeCrypto) (cfg : Config) (keys : KeyPair) (date date' now : ℕ) (bc bc' : Blockchain)
    (latest block : Block) (txs : List Transaction)
    → get_latest_block bc ≡ some latest
    → check_tick c cfg keys date bc latest ≡ ok txs
    → block ≡ next_block c cfg keys date latest txs
    → add_block c cfg date' now bc (some block) ≡ some (bc', ok tt)
    → auto_propose c cfg keys date date' now bc ≡ some (bc', proposed block)
unfolding auto_propose
tick_adds c cfg keys date date' now bc bc' latest block txs e go built added = ground arith

-- With a key pair whose signatures verify, a pool of verified transactions and a clock that does
-- not go back, a tick of the timer leaves a node with a chain as it is and is idle, or it appends a
-- block that the rules allow and reports it as proposed: the node never rejects a block that it has
-- just built.
pub auto_propose_never_rejected :
    (c : NodeCrypto) (cfg : Config) (keys : KeyPair) (date date' now : ℕ) (bc : Blockchain)
    (latest : Block)
    → IsKeyPair c keys
    → date ≤ date'
    → All (IsVerified c) bc.pending_transactions
    → get_latest_block bc ≡ some latest
    → ((why : Idle) × (auto_propose c cfg keys date date' now bc ≡ some (bc, idle why)))
      ⊎ ((a : Accepted c cfg keys date date' now bc latest) × (auto_propose c cfg keys date date'
              now bc
            ≡ some (append_block c cfg now bc a.block a.after, proposed a.block)))
unfolding auto_propose
auto_propose_never_rejected c cfg keys date date' now bc latest pair later verified e =
    elim (Result-cases (check_tick c cfg keys date bc latest)) [
      | inr (why, stop) ↦ inl (why, ground arith)
      | inl (txs, go) ↦
          let (may, chosen) = check_tick_sound c cfg keys date bc latest txs go in
          let a = accepted c cfg keys date date' now bc latest pair later verified e may in
          let built = a.built ∙ ap (next_block c cfg keys date latest) (sym chosen) in
          inr (
            a,
            tick_adds c cfg keys date date' now bc (append_block c cfg now bc a.block a.after)
                latest a.block txs e go built a.added,
          )
    ]
