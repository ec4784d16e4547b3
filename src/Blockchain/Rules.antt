-- ===== src/Blockchain/Rules.antt =====
-- `isValidNewBlock` of src/blockchain.ts against the consensus rules of docs/PROTOCOL.md, section 4.
use proof_of_authority_block.Common.{
  ℕ, ◌+◌, ◌-◌, ◌*◌, ◌/◌, ◌≤◌, ◌<◌, ◌≡◌, ◌↔◌, true, Option, none, some, String, arith, eq_iff, ok,
}
use proof_of_authority_block.Common.Int.{pos}
use proof_of_authority_block.Crypto.{NodeCrypto, verify}
use proof_of_authority_block.ValidatorSet.{get_validator_for_slot}
use proof_of_authority_block.Block.{Block, compute_hash, is_hash_valid, is_signature_valid}
use proof_of_authority_block.Blockchain.Types.{Config, get_time_into_slot}
use proof_of_authority_block.Blockchain.Consensus.{is_valid_new_block, is_validator}

-- The structural rules for a block `b` that follows `p`, seen at the time `date`.
pub record IsNextBlock (c : NodeCrypto) (cfg : Config) (date : ℕ) (b p : Block) : Type 0 where
  pub numbered : b.index ≡ p.index + 1
  pub linked : b.previous_hash ≡ p.hash
  pub hashed : compute_hash c b.contents ≡ b.hash
  pub signed : verify c b.hash b.signature b.validator_public_key ≡ true
  pub later : p.timestamp / cfg.slot_duration_ms < b.timestamp / cfg.slot_duration_ms
  pub waited :
      cfg.slot_wait_ms ≤ b.timestamp - b.timestamp / cfg.slot_duration_ms * cfg.slot_duration_ms
  pub current : b.timestamp ≤ date + 2000
  pub owned :
      get_validator_for_slot cfg.validator_set (pos (b.timestamp / cfg.slot_duration_ms))
      ≡ some b.validator_public_key

pub is_validator_iff :
    (o : Option String) (key : String) → (is_validator o key ≡ true) ↔ (o ≡ some key)
is_validator_iff none key = ground arith
is_validator_iff (some e) key = ground (arith, eq_iff key e)

-- `isValidNewBlock` says `valid` for a block after another exactly if the block has the next
-- number, links to the other's hash, carries the hash of its contents and its validator's signature
-- on it, stands in a later slot, not before the slot's wait and at most two seconds ahead of the
-- clock, and names the owner of its slot as its validator.
pub is_valid_new_block_iff :
    (c : NodeCrypto) (cfg : Config) (date : ℕ) (b p : Block)
    → (is_valid_new_block c cfg date b p ≡ ok tt) ↔ IsNextBlock c cfg date b p
unfolding is_valid_new_block is_hash_valid is_signature_valid get_time_into_slot
is_valid_new_block_iff c cfg date b p = (
  λ h. ground (
    arith,
    eq_iff b.previous_hash p.hash,
    eq_iff (compute_hash c b.contents) b.hash,
    is_validator_iff
        (get_validator_for_slot cfg.validator_set (pos (b.timestamp / cfg.slot_duration_ms)))
        b.validator_public_key,
  ),
  λ r. ground (
    arith,
    eq_iff b.previous_hash p.hash,
    eq_iff (compute_hash c b.contents) b.hash,
    is_validator_iff
        (get_validator_for_slot cfg.validator_set (pos (b.timestamp / cfg.slot_duration_ms)))
        b.validator_public_key,
  ),
)
