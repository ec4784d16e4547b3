-- ===== src/Blockchain/Sync.antt =====
-- `addBlock` of src/blockchain.ts, and what it means for a chain to replay from genesis.
use mathlib.Core.Path.{subst}
use proof_of_authority_block.Common.{
  ℕ, ◌≤◌, ◌≡◌, refl, sym, ap, ◌∙◌, ◌⊎◌, inl, inr, ◌↔◌, List, [], ◌∷◌, ◌++◌, arith, eq_iff, leb,
  Result, Result-cases, Bool-cases, Option-cases, ok, err, some, none, ◌>>=◌, >>=-eq-ok, check,
  check-eq-ok, ◌==◌, ◌===◌, ◌&&◌,
}
use proof_of_authority_block.Crypto.{NodeCrypto}
use proof_of_authority_block.State.{WorldState, new_world_state}
use proof_of_authority_block.Block.{Block, RawBlock, from_plain}
use proof_of_authority_block.Blockchain.Types.{Blockchain, Config, last, persist}
use proof_of_authority_block.Blockchain.Mempool.{prune_mempool}
use proof_of_authority_block.Blockchain.Consensus.{
  BlockError, already_have, different_genesis, is_valid_new_block, create_genesis, replay,
  append_block, extend_chain, add_block, validate_blocks,
}
use proof_of_authority_block.Blockchain.Rules.{is_valid_new_block_iff}
use proof_of_authority_block.Blockchain.Replay.{
  Extends, Replays, replay_iff, apply_block_cases, apply_block_of_each, last_of, Replays-snoc,
  Replays-later,
}

-- The chain replays to the state from this network's genesis block, of which block 0 has the index and
-- carries the hash; its other fields may differ, since the code does not look at them.
abbrev pub IsReplayed : NodeCrypto → Config → ℕ → List Block → WorldState → Type 0
IsReplayed c cfg date [] s = ⊥
IsReplayed c cfg date (first ∷ rest) s =
    (first.index ≡ 0)
    × (first.hash ≡ (create_genesis c cfg).hash)
    × Replays c cfg date first rest (new_world_state cfg.genesis_allocations) s

pub persist_fields :
    (cfg : Config) (bc : Blockchain)
    → ((persist cfg bc).chain ≡ bc.chain)
      × ((persist cfg bc).state ≡ bc.state)
      × ((persist cfg bc).pending_transactions ≡ bc.pending_transactions)
      × ((persist cfg bc).received_at ≡ bc.received_at)
unfolding persist
persist_fields cfg bc = ground arith

-- `addBlock` extends the chain by a block that may follow, or it changes nothing.
pub extend_chain_cases :
    (c : NodeCrypto) (cfg : Config) (date now : ℕ) (bc : Blockchain) (b latest : Block)
    → ((s : WorldState) × Extends c cfg date latest b bc.state s
        × (extend_chain c cfg date now bc b latest ≡ (append_block c cfg now bc b s, ok tt)))
      ⊎ ((e : BlockError) × (extend_chain c cfg date now bc b latest ≡ (bc, err e)))
unfolding extend_chain
extend_chain_cases c cfg date now bc b latest =
    elim (Result-cases (is_valid_new_block c cfg date b latest)) [
      | inl (_, valid) ↦ elim (apply_block_cases c b bc.state) [
        | inl (t, txs, authentic, each, all) ↦ inl (
          t,
          record {
            next = (is_valid_new_block_iff c cfg date b latest).0 valid;
            txs = txs;
            authentic = authentic;
            applied = each;
          },
          ground arith,
        )
        | inr (e, all) ↦ inr (e, ground arith)
      ]
      | inr (e, invalid) ↦ inr (e, ground arith)
    ]

-- A list of blocks passes `validateChain` exactly if it replays.
pub validate_blocks_iff :
    (c : NodeCrypto) (cfg : Config) (date : ℕ) (bs bs' : List Block) (s : WorldState)
    → (validate_blocks c cfg date bs ≡ ok (bs', s)) ↔ ((bs ≡ bs') × IsReplayed c cfg date bs s)
unfolding validate_blocks
validate_blocks_iff c cfg date [] bs' s = (λ h. absurd (ground arith), λ h. absurd h.1)
validate_blocks_iff c cfg date (g ∷ rest) bs' s = (
  λ h.
      let initial = new_world_state cfg.genesis_allocations in
      let (_, rooted, h') =
        >>=-eq-ok (check (g.index == 0 && g.hash === (create_genesis c cfg).hash) different_genesis)
          (λ _. replay c cfg date 1 g rest initial >>= λ t. ok (g ∷ rest, t)) h in
      let (t, replayed, h'') =
        >>=-eq-ok (replay c cfg date 1 g rest initial) (λ t. ok (g ∷ rest, t)) h' in
      let same : t ≡ s = ground arith in
      let root = check-eq-ok _ different_genesis rooted in
      (
        ground arith,
        (
          ground arith,
          ground (arith, eq_iff g.hash (create_genesis c cfg).hash),
          (replay_iff c cfg date 1 g rest initial s).0 (replayed ∙ ap ok same),
        ),
      ),
  λ (e, r).
      let (index, hash, replays) = r in
      let replayed =
        (replay_iff c cfg date 1 g rest (new_world_state cfg.genesis_allocations) s).1 replays in
      ground (arith, eq_iff g.hash (create_genesis c cfg).hash),
)

last-cons : (p : Block) (bs : List Block) → last (p ∷ bs) ≡ some (last_of p bs)
last-cons p [] = refl
last-cons p (b ∷ bs) = last-cons b bs

pub IsReplayed-later :
    (c : NodeCrypto) (cfg : Config) (date date' : ℕ) (bs : List Block) (s : WorldState)
    → date ≤ date'
    → IsReplayed c cfg date bs s
    → IsReplayed c cfg date' bs s
IsReplayed-later c cfg date date' [] s h r = r
IsReplayed-later c cfg date date' (g ∷ bs) s h r = (r.0, r.1, Replays-later c cfg date date' h r.2)

IsReplayed-snoc :
    (c : NodeCrypto) (cfg : Config) (date : ℕ) (bs : List Block) (s u : WorldState)
    (latest b : Block)
    → IsReplayed c cfg date bs s
    → last bs ≡ some latest
    → Extends c cfg date latest b s u
    → IsReplayed c cfg date (bs ++ (b ∷ [])) u
IsReplayed-snoc c cfg date [] s u latest b r e x = absurd r
IsReplayed-snoc c cfg date (g ∷ bs) s u latest b r e x =
    let same : latest ≡ last_of g bs = cc (last-cons g bs) in
    (
      r.0,
      r.1,
      Replays-snoc c cfg date r.2 b u (subst (λ (l : Block). Extends c cfg date l b s u) same x),
    )

pub append_block_fields :
    (c : NodeCrypto) (cfg : Config) (now : ℕ) (bc : Blockchain) (b : Block) (s : WorldState)
    → ((append_block c cfg now bc b s).chain ≡ bc.chain ++ (b ∷ []))
      × ((append_block c cfg now bc b s).state ≡ s)
unfolding append_block prune_mempool persist
append_block_fields c cfg now bc b s = ground arith

-- If `addBlock` returns, it has appended the block that arrived, which the rules allow after the
-- latest block and whose transactions apply to the state, and reports success, or it reports an
-- error and has changed nothing.
pub add_block_cases :
    (c : NodeCrypto) (cfg : Config) (date now : ℕ) (bc bc' : Blockchain) (raw : RawBlock)
    (result : Result BlockError (Unit {0}))
    → add_block c cfg date now bc raw ≡ some (bc', result)
    → ((latest b : Block) × (s : WorldState) × (last bc.chain ≡ some latest)
        × Extends c cfg date latest b bc.state s
        × (raw ≡ some b)
        × (result ≡ ok tt)
        × (bc' ≡ append_block c cfg now bc b s))
      ⊎ ((e : BlockError) × (result ≡ err e) × (bc' ≡ bc))
unfolding add_block from_plain
add_block_cases c cfg date now bc bc' none result h = absurd (ground arith)
add_block_cases c cfg date now bc bc' (some b) result h = elim (Option-cases (last bc.chain)) [
  | inl missing ↦ absurd (ground arith)
  | inr (latest, e) ↦ elim (extend_chain_cases c cfg date now bc b latest) [
    | inl (s, x, extended) ↦ elim (Bool-cases (leb b.index latest.index)) [
      | inl old ↦ inr (already_have, ground arith, ground arith)
      | inr new ↦ inl (latest, b, s, e, x, refl, ground arith, ground arith)
    ]
    | inr (x, refused) ↦ elim (Bool-cases (leb b.index latest.index)) [
      | inl old ↦ inr (already_have, ground arith, ground arith)
      | inr new ↦ inr (x, ground arith, ground arith)
    ]
  ]
]

-- If the chain of a node replays from this network's genesis block to its state at one time, then
-- at any later time, whatever arrives as a block, if `addBlock` returns at all, the chain that it
-- leaves replays to the state that it leaves.
pub add_block-IsReplayed :
    (c : NodeCrypto) (cfg : Config) (date date' now : ℕ) (bc bc' : Blockchain) (raw : RawBlock)
    (result : Result BlockError (Unit {0}))
    → date ≤ date'
    → IsReplayed c cfg date bc.chain bc.state
    → add_block c cfg date' now bc raw ≡ some (bc', result)
    → IsReplayed c cfg date' bc'.chain bc'.state
add_block-IsReplayed c cfg date date' now bc bc' raw result later r h =
    let kept = IsReplayed-later c cfg date date' bc.chain bc.state later r in
    elim (add_block_cases c cfg date' now bc bc' raw result h) [
      | inl (latest, b, s, e, x, same, success, moved) ↦
          let grown = IsReplayed-snoc c cfg date' bc.chain bc.state s latest b kept e x in
          rw
            (
              moved,
              (append_block_fields c cfg now bc b s).0,
              (append_block_fields c cfg now bc b s).1,
            )
            grown
      | inr (x, refused, unmoved) ↦
          subst (λ (k : Blockchain). IsReplayed c cfg date' k.chain k.state) (sym unmoved) kept
    ]

-- `addBlock` accepts every block that may follow the latest.
pub add_block_accepts :
    (c : NodeCrypto) (cfg : Config) (date now : ℕ) (bc : Blockchain) (latest b : Block)
    (s : WorldState)
    → last bc.chain ≡ some latest
    → Extends c cfg date latest b bc.state s
    → add_block c cfg date now bc (some b) ≡ some (append_block c cfg now bc b s, ok tt)
unfolding add_block extend_chain from_plain
add_block_accepts c cfg date now bc latest b s e x =
    let valid = (is_valid_new_block_iff c cfg date b latest).1 x.next in
    let applied = apply_block_of_each c b bc.state s x.txs x.authentic x.applied in
    let numbered = x.next.numbered in ground arith

pub IsReplayed-last :
    (c : NodeCrypto) (cfg : Config) (date : ℕ) (bs : List Block) (s : WorldState)
    → IsReplayed c cfg date bs s
    → (latest : Block) × (last bs ≡ some latest)
IsReplayed-last c cfg date [] s r = absurd r
IsReplayed-last c cfg date (g ∷ bs) s r = (last_of g bs, last-cons g bs)
