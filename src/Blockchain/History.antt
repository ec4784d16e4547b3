-- ===== src/Blockchain/History.antt =====
-- The positions, slots and owners of the blocks of a chain (src/blockchain.ts).
use proof_of_authority_block.Common.{
  ℕ, ◌+◌, ◌/◌, ◌<◌, ◌≡◌, true, List, [], ◌∷◌, some, arith, All, ok,
}
use proof_of_authority_block.Common.Int.{pos}
use proof_of_authority_block.Crypto.{NodeCrypto, verify}
use proof_of_authority_block.State.{WorldState}
use proof_of_authority_block.ValidatorSet.{get_validator_for_slot}
use proof_of_authority_block.Block.{Block, RawBlock}
use proof_of_authority_block.Blockchain.Types.{Blockchain, Config}
use proof_of_authority_block.Blockchain.Replay.{Replays}
use proof_of_authority_block.Blockchain.Consensus.{validate_chain}
use proof_of_authority_block.Blockchain.Sync.{IsReplayed}
use proof_of_authority_block.Blockchain.Adopt.{validate_chain_iff}
use proof_of_authority_block.Blockchain.Reach.{Reachable, Reachable-IsSound}

abbrev pub slot_of : Config → Block → ℕ
slot_of cfg b = b.timestamp / cfg.slot_duration_ms

-- The block is signed by the validator that owns its slot.
abbrev pub IsOwned : NodeCrypto → Config → Block → Type 0
IsOwned c cfg b =
    (get_validator_for_slot cfg.validator_set (pos (slot_of cfg b)) ≡ some b.validator_public_key)
    × (verify c b.hash b.signature b.validator_public_key ≡ true)

-- Every later block stands in a later slot.
abbrev pub SlotsRise : Config → List Block → Type 0
SlotsRise cfg [] = Unit
SlotsRise cfg (b ∷ bs) = All (λ b'. slot_of cfg b < slot_of cfg b') bs × SlotsRise cfg bs

-- The blocks are numbered from `n` on.
abbrev pub AreNumbered : ℕ → List Block → Type 0
AreNumbered n [] = Unit
AreNumbered n (b ∷ bs) = (b.index ≡ n) × AreNumbered (n + 1) bs

-- Each block names the hash of the one before it.
abbrev pub AreLinked : Block → List Block → Type 0
AreLinked p [] = Unit
AreLinked p (b ∷ bs) = (b.previous_hash ≡ p.hash) × AreLinked b bs

module _ (c : NodeCrypto) (cfg : Config) (date : ℕ) where
  All-later :
      (n m : ℕ) (bs : List Block)
      → n < m
      → All (λ b. m < slot_of cfg b) bs
      → All (λ b. n < slot_of cfg b) bs
  All-later n m [] h k = tt
  All-later n m (b ∷ bs) h k = (omega (arith, k.0), All-later n m bs h k.1)

  Replays-slots :
      {p : Block} {bs : List Block} {s t : WorldState}
      → Replays c cfg date p bs s t
      → SlotsRise cfg (p ∷ bs)
  Replays-slots (Replays.done p s) = (tt, tt)
  Replays-slots (Replays.more p b bs s t u x rest) =
      let later = Replays-slots rest in
      ((x.next.later, All-later (slot_of cfg p) (slot_of cfg b) bs x.next.later later.0), later)

  Replays-numbers :
      {p : Block} {bs : List Block} {s t : WorldState}
      → Replays c cfg date p bs s t
      → (n : ℕ) → p.index ≡ n
      → AreNumbered n (p ∷ bs)
  Replays-numbers (Replays.done p s) n e = (e, tt)
  Replays-numbers (Replays.more p b bs s t u x rest) n e =
      (e, Replays-numbers rest (n + 1) (omega (arith, x.next.numbered)))

  Replays-owners :
      {p : Block} {bs : List Block} {s t : WorldState}
      → Replays c cfg date p bs s t
      → All (IsOwned c cfg) bs
  Replays-owners (Replays.done p s) = tt
  Replays-owners (Replays.more p b bs s t u x rest) =
      ((x.next.owned, x.next.signed), Replays-owners rest)

  Replays-links :
      {p : Block} {bs : List Block} {s t : WorldState}
      → Replays c cfg date p bs s t
      → AreLinked p bs
  Replays-links (Replays.done p s) = tt
  Replays-links (Replays.more p b bs s t u x rest) = (x.next.linked, Replays-links rest)

  IsReplayed-history :
      (bs : List Block) (s : WorldState)
      → IsReplayed c cfg date bs s
      → AreNumbered 0 bs × SlotsRise cfg bs
  IsReplayed-history [] s r = absurd r
  IsReplayed-history (g ∷ bs) s r = (Replays-numbers r.2 0 r.0, Replays-slots r.2)

  -- On a node that has come to be by a first start, by transactions, blocks and chains, by sweeps
  -- and by restarts, the blocks are numbered from 0, and every block stands in a later slot than
  -- all blocks before it.
  pub Reachable-history :
      (bc : Blockchain) → Reachable c cfg date bc → AreNumbered 0 bc.chain × SlotsRise cfg bc.chain
  Reachable-history bc r =
      IsReplayed-history bc.chain bc.state (Reachable-IsSound c cfg date bc r).replayed

  -- In a chain that `validateChain` accepts, every block after block 0 names the hash of the block
  -- before it, names the owner of its slot as its validator and carries that validator's signature
  -- on its hash.
  pub validate_chain-owners :
      (raw : List RawBlock) (g : Block) (bs : List Block) (s : WorldState)
      → validate_chain c cfg date (some raw) ≡ ok (g ∷ bs, s)
      → AreLinked g bs × All (IsOwned c cfg) bs
  validate_chain-owners raw g bs s h =
      let (_, r) = (validate_chain_iff c cfg date raw (g ∷ bs) s).0 h in
      (Replays-links r.2, Replays-owners r.2)
