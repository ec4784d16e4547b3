-- ===== src/Blockchain/Adopt.antt =====
-- `validateChain` and `replaceChain` of src/blockchain.ts.
use mathlib.Core.Path.{subst}
use proof_of_authority_block.Common.{
  ℕ, suc, ◌≤◌, ◌<◌, ◌≡◌, refl, sym, ap, ◌∙◌, ◌⊎◌, inl, inr, ◌↔◌, false, List, [], ◌∷◌, map, arith,
  length, leb, Result-cases, Bool-cases, Option-cases, ok, err, some, none, Option, ◌>>=◌,
  >>=-eq-ok, require, require-eq-ok,
}
use proof_of_authority_block.Crypto.{NodeCrypto}
use proof_of_authority_block.State.{WorldState}
use proof_of_authority_block.Block.{Block, RawBlock, from_plain}
use proof_of_authority_block.Blockchain.Types.{Blockchain, Config, persist}
use proof_of_authority_block.Blockchain.Mempool.{prune_mempool}
use proof_of_authority_block.Blockchain.Consensus.{
  ChainError, not_longer, malformed_block, from_plain_each, validate_blocks, validate_chain,
  adopt_chain, replace_chain,
}
use proof_of_authority_block.Blockchain.Sync.{IsReplayed, IsReplayed-later, validate_blocks_iff}

-- Every block passes through `Block.fromPlain` unchanged.
pub from_plain_each-map-some : (bs : List Block) → from_plain_each (map some bs) ≡ some bs
unfolding from_plain_each from_plain
from_plain_each-map-some [] = refl
from_plain_each-map-some (b ∷ bs) = rw (from_plain_each-map-some bs)

length-map-some : (bs : List Block) → length (map {B = RawBlock} some bs) ≡ length bs
length-map-some [] = refl
length-map-some (b ∷ bs) = ap suc (length-map-some bs)

length-from_plain_each :
    (raw : List RawBlock) (bs : List Block) → from_plain_each raw ≡ some bs → length bs ≡ length raw
unfolding from_plain_each from_plain
length-from_plain_each [] bs h = ground arith
length-from_plain_each (none ∷ raw) bs h = absurd (ground arith)
length-from_plain_each (some b ∷ raw) bs h = elim (Option-cases (from_plain_each raw)) [
  | inl missing ↦ absurd (ground arith)
  | inr (bs', e) ↦ ground (arith, length-from_plain_each raw bs' e)
]

from_plain_each-nil : from_plain_each [] ≡ some []
unfolding from_plain_each
from_plain_each-nil = refl

-- `validateChain` accepts an array with a chain and a state exactly if blocks can be built from all
-- its elements, they are the chain, and the chain replays from the network's genesis block to the
-- state.
pub validate_chain_iff :
    (c : NodeCrypto) (cfg : Config) (date : ℕ) (raw : List RawBlock) (bs : List Block)
    (s : WorldState)
    → (validate_chain c cfg date (some raw) ≡ ok (bs, s))
      ↔ ((from_plain_each raw ≡ some bs) × IsReplayed c cfg date bs s)
unfolding validate_chain
validate_chain_iff c cfg date [] bs s = (
  λ h. absurd (ground arith),
  λ (e, r).
      let same : [] ≡ bs = cc (from_plain_each-nil) in
      absurd (subst (λ (k : List Block). IsReplayed c cfg date k s) (sym same) r),
)
validate_chain_iff c cfg date (x ∷ raw) bs s = (
  λ h.
      let (bs', built, h') =
        >>=-eq-ok (require (from_plain_each (x ∷ raw)) malformed_block)
          (λ blocks. validate_blocks c cfg date blocks) h in
      let (same, r) = (validate_blocks_iff c cfg date bs' bs s).0 h' in
      (
        require-eq-ok (from_plain_each (x ∷ raw)) malformed_block built ∙ ap some same,
        subst (λ (k : List Block). IsReplayed c cfg date k s) same r,
      ),
  λ (e, r).
      let valid = (validate_blocks_iff c cfg date bs bs s).1 (refl, r) in
      rw (e, require, ◌>>=◌) valid,
)

adopt_chain_fields :
    (c : NodeCrypto) (cfg : Config) (now : ℕ) (bc : Blockchain) (bs : List Block) (s : WorldState)
    → ((adopt_chain c cfg now bc bs s).chain ≡ bs) × ((adopt_chain c cfg now bc bs s).state ≡ s)
unfolding adopt_chain prune_mempool persist
adopt_chain_fields c cfg now bc bs s = ground arith

replace_chain-adopt_chain :
    (c : NodeCrypto) (cfg : Config) (date now : ℕ) (bc : Blockchain) (raw : List RawBlock)
    (bs : List Block) (s : WorldState)
    → leb (length raw) (length bc.chain) ≡ false
    → validate_chain c cfg date (some raw) ≡ ok (bs, s)
    → replace_chain c cfg date now bc (some raw) ≡ (adopt_chain c cfg now bc bs s, ok tt)
unfolding replace_chain
replace_chain-adopt_chain c cfg date now bc raw bs s long valid = ground arith

-- `replaceChain` succeeds, and the new chain is longer than the old one and replays from the
-- network's genesis block to the new state, or it reports an error and changes nothing.
pub replace_chain_cases :
    (c : NodeCrypto) (cfg : Config) (date now : ℕ) (bc : Blockchain) (raw : Option (List RawBlock))
    → let r = replace_chain c cfg date now bc raw in
      ((r.1 ≡ ok tt)
        × (length bc.chain < length r.0.chain)
        × IsReplayed c cfg date r.0.chain r.0.state)
      ⊎ ((e : ChainError) × (r.1 ≡ err e) × (r.0 ≡ bc))
unfolding replace_chain
replace_chain_cases c cfg date now bc none = inr (not_longer, refl, refl)
replace_chain_cases c cfg date now bc (some raw) =
    elim (Bool-cases (leb (length raw) (length bc.chain))) [
      | inl short ↦ inr (not_longer, rw short, rw short)
      | inr long ↦ elim (Result-cases (validate_chain c cfg date (some raw))) [
        | inr (e, refused) ↦ inr (e, ground arith, ground arith)
        | inl ((bs, s), valid) ↦
            let (built, r) = (validate_chain_iff c cfg date raw bs s).0 valid in
            let (same_chain, same_state) = adopt_chain_fields c cfg now bc bs s in
            let longer = length-from_plain_each raw bs built in
            rw (replace_chain-adopt_chain c cfg date now bc raw bs s long valid)
              (inl (refl, rw same_chain (ground arith), rw (same_chain, same_state) r))
      ]
    ]

-- A chain that replayed at some time, offered at that time or later to a node with a shorter chain,
-- is adopted by `replaceChain`, with the state that it replays to.
pub replace_chain_adopts :
    (c : NodeCrypto) (cfg : Config) (date date' now : ℕ) (bc : Blockchain) (bs : List Block)
    (s : WorldState)
    → date ≤ date'
    → IsReplayed c cfg date bs s
    → length bc.chain < length bs
    → let r = replace_chain c cfg date' now bc (some (map some bs)) in
      (r.1 ≡ ok tt) × (r.0.chain ≡ bs) × (r.0.state ≡ s)
replace_chain_adopts c cfg date date' now bc bs s later r longer =
    let raw = map {B = RawBlock} some bs in
    let valid =
      (validate_chain_iff c cfg date' raw bs s).1
        (from_plain_each-map-some bs, IsReplayed-later c cfg date date' bs s later r) in
    let long : leb (length raw) (length bc.chain) ≡ false = ground (arith, length-map-some bs) in
    let (same_chain, same_state) = adopt_chain_fields c cfg now bc bs s in
    rw (replace_chain-adopt_chain c cfg date' now bc raw bs s long valid)
      (refl, same_chain, same_state)
