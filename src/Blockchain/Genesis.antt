-- ===== src/Blockchain/Genesis.antt =====
-- How `validateChain` of src/blockchain.ts treats block 0: it looks at its index and hash field.
use proof_of_authority_block.Common.{ℕ, ◌<◌, ◌≡◌, sym, ◌∙◌, List, ◌∷◌, map, some, arith, length, ok}
use proof_of_authority_block.Crypto.{NodeCrypto}
use proof_of_authority_block.State.{WorldState}
use proof_of_authority_block.Block.{Block}
use proof_of_authority_block.Blockchain.Types.{Blockchain, Config}
use proof_of_authority_block.Blockchain.Consensus.{replace_chain}
use proof_of_authority_block.Blockchain.Replay.{Replays}
use proof_of_authority_block.Blockchain.Sync.{IsReplayed}
use proof_of_authority_block.Blockchain.Adopt.{replace_chain_adopts}

module _ (c : NodeCrypto) (cfg : Config) (date : ℕ) where
  -- What follows a block looks at its index, its hash field and its timestamp alone.
  Replays-forged :
      {g : Block} {bs : List Block} {s t : WorldState}
      → Replays c cfg date g bs s t
      → (f : Block) → f.index ≡ g.index
      → f.hash ≡ g.hash
      → f.timestamp ≡ g.timestamp
      → Replays c cfg date f bs s t
  Replays-forged (Replays.done g s) f i h w = Replays.done f s
  Replays-forged (Replays.more g b bs s t u x rest) f i h w =
      Replays.more f b bs s t u
        (record {
          next = record {
            numbered = omega (arith, x.next.numbered);
            linked = x.next.linked ∙ sym h;
            hashed = x.next.hashed;
            signed = x.next.signed;
            later = rw w x.next.later;
            waited = x.next.waited;
            current = x.next.current;
            owned = x.next.owned;
          };
          txs = x.txs;
          authentic = x.authentic;
          applied = x.applied;
        })
        rest

-- If a chain replays and is longer than a node's chain, the node adopts it also with its block 0
-- exchanged for any block with the same index, timestamp and hash field, whatever that block's
-- transactions, previous hash, validator and signature are.
pub replace_chain_forged_genesis :
    (c : NodeCrypto) (cfg : Config) (date now : ℕ) (bc : Blockchain) (g f : Block) (bs : List Block)
    (s : WorldState)
    → IsReplayed c cfg date (g ∷ bs) s
    → length bc.chain < length (g ∷ bs)
    → f.index ≡ g.index
    → f.hash ≡ g.hash
    → f.timestamp ≡ g.timestamp
    → let r = replace_chain c cfg date now bc (some (map some (f ∷ bs))) in
      (r.1 ≡ ok tt) × (r.0.chain ≡ f ∷ bs) × (r.0.state ≡ s)
replace_chain_forged_genesis c cfg date now bc g f bs s r longer i h w =
    replace_chain_adopts c cfg date date now bc (f ∷ bs) s (omega arith)
      (i ∙ r.0, h ∙ r.1, Replays-forged c cfg date r.2 f i h w) longer
