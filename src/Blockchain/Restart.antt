-- ===== src/Blockchain/Restart.antt =====
-- The constructor of class `Blockchain` of src/blockchain.ts and its snapshot file.
use mathlib.Core.Path.{subst, subst₂}
use proof_of_authority_block.Common.{
  ℕ, ◌≤◌, ◌≡◌, refl, inl, inr, true, List, [], ◌∷◌, map, Option, none, some, arith, Result-cases,
  ok, err, sym, ap, ◌∙◌, if◌then◌else◌,
}
use proof_of_authority_block.Json.{Value}
use proof_of_authority_block.Crypto.{NodeCrypto}
use proof_of_authority_block.Transaction.{Transaction}
use proof_of_authority_block.State.{WorldState}
use proof_of_authority_block.Block.{Block, RawBlock, create_genesis_block}
use proof_of_authority_block.Blockchain.Types.{Blockchain, Config, ChainSnapshot, persist}
use proof_of_authority_block.Blockchain.Mempool.{restore_pending, prune_mempool}
use proof_of_authority_block.Blockchain.Consensus.{ChainError, create_genesis, validate_chain}
use proof_of_authority_block.Blockchain.Replay.{Replays}
use proof_of_authority_block.Blockchain.Sync.{IsReplayed, IsReplayed-later}
use proof_of_authority_block.Blockchain.Adopt.{validate_chain_iff, from_plain_each-map-some}
use proof_of_authority_block.Blockchain.Startup.{
  RawSnapshot, load_snapshot, reload, start_at_genesis, start_from, new_blockchain,
}

pub restore_pending_fields :
    (c : NodeCrypto) (cfg : Config) (now : ℕ) (bc : Blockchain) (raw : List Value)
    → ((restore_pending c cfg now bc raw).chain ≡ bc.chain)
      × ((restore_pending c cfg now bc raw).state ≡ bc.state)
unfolding restore_pending prune_mempool
restore_pending_fields c cfg now bc raw = (refl, refl)

pub start_at_genesis-IsReplayed :
    (c : NodeCrypto) (cfg : Config) (date : ℕ)
    → IsReplayed c cfg date (start_at_genesis c cfg).chain (start_at_genesis c cfg).state
unfolding start_at_genesis create_genesis create_genesis_block
start_at_genesis-IsReplayed c cfg date = (refl, refl, Replays.done _ _)

start_from_valid :
    (c : NodeCrypto) (cfg : Config) (date now : ℕ) (raw : List RawBlock) (pending : List Value)
    (bs : List Block) (s : WorldState)
    → validate_chain c cfg date (some raw) ≡ ok (bs, s)
    → start_from c cfg date now (some (raw, pending))
      ≡ restore_pending c cfg now
          (record (start_at_genesis c cfg) { chain = bs; state = s })
          pending
unfolding start_from
start_from_valid c cfg date now raw pending bs s good = ground arith

start_from_invalid :
    (c : NodeCrypto) (cfg : Config) (date now : ℕ) (raw : List RawBlock) (pending : List Value)
    (e : ChainError)
    → validate_chain c cfg date (some raw) ≡ err e
    → start_from c cfg date now (some (raw, pending)) ≡ start_at_genesis c cfg
unfolding start_from
start_from_invalid c cfg date now raw pending e bad = ground arith

start_from-IsReplayed :
    (c : NodeCrypto) (cfg : Config) (date now : ℕ) (found : Option (List RawBlock × List Value))
    → let bc = start_from c cfg date now found in IsReplayed c cfg date bc.chain bc.state
unfolding start_from
start_from-IsReplayed c cfg date now none = start_at_genesis-IsReplayed c cfg date
start_from-IsReplayed c cfg date now (some (raw, pending)) =
    let P = λ (k : Blockchain). IsReplayed c cfg date k.chain k.state in
    elim (Result-cases (validate_chain c cfg date (some raw))) [
      | inr (e, bad) ↦
          subst P (sym (start_from_invalid c cfg date now raw pending e bad))
            (start_at_genesis-IsReplayed c cfg date)
      | inl ((bs, s), good) ↦
          let (_, r) = (validate_chain_iff c cfg date raw bs s).0 good in
          let bc : Blockchain = record (start_at_genesis c cfg) { chain = bs; state = s } in
          let (same_chain, same_state) = restore_pending_fields c cfg now bc pending in
          subst P (sym (start_from_valid c cfg date now raw pending bs s good))
            (subst₂ (IsReplayed c cfg date) (sym same_chain) (sym same_state) r)
    ]

-- Whatever the snapshot file holds, a node that the constructor makes has a chain that replays from
-- the network's genesis block to its state.
pub new_blockchain-IsReplayed :
    (c : NodeCrypto) (cfg : Config) (date now : ℕ) (file : Option RawSnapshot) (bc : Blockchain)
    → new_blockchain c cfg date now file ≡ some bc
    → IsReplayed c cfg date bc.chain bc.state
unfolding new_blockchain
new_blockchain-IsReplayed c cfg date now file bc h =
    let found = if cfg.has_data_file then load_snapshot file else none in
    let started : start_from c cfg date now found ≡ bc = ground arith in
    subst (λ (k : Blockchain). IsReplayed c cfg date k.chain k.state) started
      (start_from-IsReplayed c cfg date now found)

load_snapshot-reload :
    (g : Block) (bs : List Block) (pending : List Transaction)
    → load_snapshot (some (reload (record { chain = g ∷ bs; pending_transactions = pending })))
      ≡ some (map some (g ∷ bs), map (λ t. t.object) pending)
unfolding load_snapshot
load_snapshot-reload g bs pending = refl

-- A node that starts again from its own file has its chain, and restores its pool.
pub restored :
    (c : NodeCrypto) (cfg : Config) (date now : ℕ) (bs : List Block) (s : WorldState)
    (pending : List Transaction) (bc' : Blockchain)
    → cfg.has_data_file ≡ true
    → IsReplayed c cfg date bs s
    → new_blockchain c cfg date now
        (some (reload (record { chain = bs; pending_transactions = pending })))
      ≡ some bc'
    → bc'
      ≡ restore_pending c cfg now
          (record (start_at_genesis c cfg) { chain = bs; state = s })
          (map (λ t. t.object) pending)
unfolding new_blockchain
restored c cfg date now [] s pending bc' on r h = absurd r
restored c cfg date now (g ∷ bs) s pending bc' on r h =
    let raw = map {B = RawBlock} some (g ∷ bs) in
    let objects = map (λ (t : Transaction). t.object) pending in
    let good =
      (validate_chain_iff c cfg date raw (g ∷ bs) s).1 (from_plain_each-map-some (g ∷ bs), r) in
    let file = reload (record { chain = g ∷ bs; pending_transactions = pending }) in
    let started : start_from c cfg date now (load_snapshot (some file)) ≡ bc' = ground arith in
    sym started
    ∙ ap (start_from c cfg date now) (load_snapshot-reload g bs pending)
    ∙ start_from_valid c cfg date now raw objects (g ∷ bs) s good

restart :
    (c : NodeCrypto) (cfg : Config) (date date' now : ℕ) (bs : List Block) (s : WorldState)
    (pending : List Transaction) (bc' : Blockchain)
    → cfg.has_data_file ≡ true
    → date ≤ date'
    → IsReplayed c cfg date bs s
    → new_blockchain c cfg date' now
        (some (reload (record { chain = bs; pending_transactions = pending })))
      ≡ some bc'
    → (bc'.chain ≡ bs) × (bc'.state ≡ s)
restart c cfg date date' now bs s pending bc' on later r h =
    let bc : Blockchain = record (start_at_genesis c cfg) { chain = bs; state = s } in
    let (same_chain, same_state) =
      restore_pending_fields c cfg now bc (map (λ (t : Transaction). t.object) pending) in
    let kept = IsReplayed-later c cfg date date' bs s later r in
    let same = restored c cfg date' now bs s pending bc' on kept h in
    (
      ap (λ (k : Blockchain). k.chain) same ∙ same_chain,
      ap (λ (k : Blockchain). k.state) same ∙ same_state,
    )

-- If the chain of a node with a data file replays to its state, the constructor, run at that time
-- or later on the snapshot that the node persists, gives a node with the same chain and state, if
-- it does not refuse its options.
pub new_blockchain-persist :
    (c : NodeCrypto) (cfg : Config) (date date' now : ℕ) (bc bc' : Blockchain)
    (saved : ChainSnapshot)
    → cfg.has_data_file ≡ true
    → date ≤ date'
    → IsReplayed c cfg date bc.chain bc.state
    → (persist cfg bc).disk ≡ some saved
    → new_blockchain c cfg date' now (some (reload saved)) ≡ some bc'
    → (bc'.chain ≡ bc.chain) × (bc'.state ≡ bc.state)
unfolding persist
new_blockchain-persist c cfg date date' now bc bc' saved on later r written h =
    let same : saved ≡ record { chain = bc.chain; pending_transactions = bc.pending_transactions } =
      ground arith in
    restart c cfg date date' now bc.chain bc.state bc.pending_transactions bc' on later r
      (ap (λ (k : ChainSnapshot). new_blockchain c cfg date' now (some (reload k))) (sym same) ∙ h)
