-- ===== src/Blockchain/Reach.antt =====
-- The runs of class `Blockchain` of src/blockchain.ts: a start without a file, then any calls in any
-- order, and restarts from the file that the node itself has written.
use mathlib.Core.Path.{subst, subst₂}
use proof_of_authority_block.Common.{
  ℕ, ◌≤◌, ◌≡◌, refl, sym, ap, ◌∙◌, inl, inr, true, List, [], map, Option, none, some, Bool-cases,
  arith, if◌then◌else◌, Result,
}
use proof_of_authority_block.Json.{Value}
use proof_of_authority_block.Crypto.{NodeCrypto}
use proof_of_authority_block.Transaction.{Transaction}
use proof_of_authority_block.Block.{RawBlock}
use proof_of_authority_block.Blockchain.Types.{Blockchain, ChainSnapshot, Config, persist}
use proof_of_authority_block.Blockchain.Mempool.{add_transaction, sweep_mempool, restore_pending}
use proof_of_authority_block.Blockchain.Consensus.{BlockError, add_block, replace_chain}
use proof_of_authority_block.Blockchain.Startup.{
  reload, start_at_genesis, RawSnapshot, start_from, new_blockchain, load_snapshot,
}
use proof_of_authority_block.Blockchain.Sync.{IsReplayed, IsReplayed-later}
use proof_of_authority_block.Blockchain.Pool.{IsPool}
use proof_of_authority_block.Blockchain.Prune.{IsFresh, IsPool-IsQueue}
use proof_of_authority_block.Blockchain.Restore.{restore_pending_saved}
use proof_of_authority_block.Blockchain.Sound.{IsSaved, IsSound, IsSound-later, same-IsPool}
use proof_of_authority_block.Blockchain.Sound.Steps.{
  add_block-IsSound, sweep_mempool-IsSound, replace_chain-IsSound, add_transaction-IsSound,
}
use proof_of_authority_block.Blockchain.Restart.{
  new_blockchain-persist, restored, restore_pending_fields, start_at_genesis-IsReplayed,
}

-- The nodes that can come to be by a time of the clock `Date.now()`, each with its file.
pub data Reachable (c : NodeCrypto) (cfg : Config) : ℕ → Blockchain → Type 0 where
  -- A first start, without a file.
  started :
      {date : ℕ} (now : ℕ) {bc : Blockchain}
      → new_blockchain c cfg date now none ≡ some bc
      → Reachable c cfg date bc
  -- A start from the file that the node has left.
  restarted :
      {date : ℕ} (now : ℕ) {bc bc' : Blockchain} {saved : ChainSnapshot}
      → Reachable c cfg date bc
      → bc.disk ≡ some saved
      → new_blockchain c cfg date now (some (reload saved)) ≡ some bc'
      → Reachable c cfg date (record bc' { disk = some saved })
  later :
      {date date' : ℕ} {bc : Blockchain}
      → Reachable c cfg date bc
      → date ≤ date'
      → Reachable c cfg date' bc
  transaction_added :
      {date : ℕ} (now : ℕ) {bc : Blockchain} (v : Value)
      → Reachable c cfg date bc
      → Reachable c cfg date (add_transaction cfg c now bc v).0
  block_added :
      {date : ℕ} (now : ℕ) {bc bc' : Blockchain} (raw : RawBlock)
      {result : Result BlockError (Unit {0})}
      → Reachable c cfg date bc
      → add_block c cfg date now bc raw ≡ some (bc', result)
      → Reachable c cfg date bc'
  chain_replaced :
      {date : ℕ} (now : ℕ) {bc : Blockchain} (raw : Option (List RawBlock))
      → Reachable c cfg date bc
      → Reachable c cfg date (replace_chain c cfg date now bc raw).0
  swept :
      {date : ℕ} (now : ℕ) {bc : Blockchain}
      → Reachable c cfg date bc
      → Reachable c cfg date (sweep_mempool cfg now bc).0
  -- The listeners have been called for what was emitted.
  events_heard :
      {date : ℕ} {bc : Blockchain}
      → Reachable c cfg date bc
      → Reachable c cfg date (record bc { events = [] })

module _ (c : NodeCrypto) (cfg : Config) where
  start_at_genesis-IsSound : (date : ℕ) → IsSound c cfg date (start_at_genesis c cfg)
  unfolding start_at_genesis
  start_at_genesis-IsSound date = record {
    replayed = start_at_genesis-IsReplayed c cfg date;
    pool = record {
      verified = tt;
      bounded = omega arith;
      distinct = tt;
      fair = λ a. omega arith;
      affordable = λ a. omega arith;
    };
    fresh = tt;
    saved = λ s e. absurd (ground arith);
  }

  -- Without a file, or without the option, a node starts at genesis.
  unsaved :
      (date now : ℕ) (file : Option RawSnapshot) (bc : Blockchain)
      → (if cfg.has_data_file then load_snapshot file else none) ≡ none
      → new_blockchain c cfg date now file ≡ some bc
      → bc ≡ start_at_genesis c cfg
  unfolding new_blockchain start_from
  unsaved date now file bc e h = ground arith

  missing : (if cfg.has_data_file then load_snapshot none else none) ≡ none
  unfolding load_snapshot
  missing = ground arith

  with_file :
      (date : ℕ) (bc : Blockchain) (saved : ChainSnapshot)
      → IsReplayed c cfg date bc.chain bc.state
      → IsPool c cfg bc
      → IsFresh bc
      → IsSaved c cfg date saved
      → IsSound c cfg date (record bc { disk = some saved })
  with_file date bc saved r p f h = record {
    replayed = r;
    pool = same-IsPool c cfg bc (record bc { disk = some saved }) refl refl p;
    fresh = f;
    saved = λ s e. subst (IsSaved c cfg date) (ground arith) h;
  }

  without_events-IsSound :
      (date : ℕ) (bc : Blockchain)
      → IsSound c cfg date bc
      → IsSound c cfg date (record bc { events = [] })
  without_events-IsSound date bc h = record {
    replayed = h.replayed;
    pool = same-IsPool c cfg bc (record bc { events = [] }) refl refl h.pool;
    fresh = h.fresh;
    saved = h.saved;
  }

  restarted-IsSound :
      (date now : ℕ) (bc' : Blockchain) (saved : ChainSnapshot)
      → IsSaved c cfg date saved
      → new_blockchain c cfg date now (some (reload saved)) ≡ some bc'
      → IsSound c cfg date (record bc' { disk = some saved })
  restarted-IsSound date now bc' saved h e =
      let P = λ (k : Blockchain). IsSound c cfg date (record k { disk = some saved }) in
      elim (Bool-cases cfg.has_data_file) [
        | inr off ↦
            let genesis = start_at_genesis-IsSound date in
            let same = unsaved date now (some (reload saved)) bc' (rw off refl) e in
            subst P (sym same) (
              with_file date (start_at_genesis c cfg) saved genesis.replayed genesis.pool
                genesis.fresh h)
        | inl on ↦
            let ts = saved.pending_transactions in
            let objects = map (λ (t : Transaction). t.object) ts in
            let root : Blockchain = record (start_at_genesis c cfg) {
              chain = saved.chain;
              state = h.accounts;
            } in
            let same = restored c cfg date now saved.chain h.accounts ts bc' on h.replayed e in
            let (chain, state) = restore_pending_fields c cfg now root objects in
            let (pool, fresh, _) = restore_pending_saved c cfg now root ts h.queue in
            subst P (sym same) (
              with_file date (restore_pending c cfg now root objects) saved
                (subst₂ (IsReplayed c cfg date) (sym chain) (sym state) h.replayed) pool fresh h)
      ]

-- A node that has come to be by a first start without a file, by any values offered as
-- transactions, blocks or chains, by sweeps and by starts from its own file, in any order and with
-- a clock that does not go back, has a chain that replays from this network's genesis block to its
-- state; its pool holds verified transactions only, within the limits in all and for each sender,
-- no two with one hash or with one sender and nonce, none with a used nonce, and no more from a
-- sender than its balance; and its file holds a chain that replays and a pool of which the same
-- holds, save nonces and balances.
pub Reachable-IsSound :
    (c : NodeCrypto) (cfg : Config) (date : ℕ) (bc : Blockchain)
    → Reachable c cfg date bc
    → IsSound c cfg date bc
Reachable-IsSound c cfg date bc (started now h) =
    let same = unsaved c cfg date now none bc (missing c cfg) h in
    subst (IsSound c cfg date) (sym same) (start_at_genesis-IsSound c cfg date)
Reachable-IsSound c cfg date bc (restarted now {bc = bc0} {bc' = bc'} {saved = saved} r d h) =
    let sound = Reachable-IsSound c cfg date bc0 r in
    restarted-IsSound c cfg date now bc' saved (sound.saved saved d) h
Reachable-IsSound c cfg date bc (later {date = date0} r le) =
    IsSound-later c cfg date0 date bc le (Reachable-IsSound c cfg date0 bc r)
Reachable-IsSound c cfg date bc (transaction_added now {bc = bc0} v r) =
    add_transaction-IsSound c cfg date now bc0 v (Reachable-IsSound c cfg date bc0 r)
Reachable-IsSound c cfg date bc (block_added now {bc = bc0} raw {result = result} r h) =
    add_block-IsSound c cfg date now bc0 bc raw result (Reachable-IsSound c cfg date bc0 r) h
Reachable-IsSound c cfg date bc (chain_replaced now {bc = bc0} raw r) =
    replace_chain-IsSound c cfg date now bc0 raw (Reachable-IsSound c cfg date bc0 r)
Reachable-IsSound c cfg date bc (swept now {bc = bc0} r) =
    sweep_mempool-IsSound c cfg date now bc0 (Reachable-IsSound c cfg date bc0 r)
Reachable-IsSound c cfg date bc (events_heard {bc = bc0} r) =
    without_events-IsSound c cfg date bc0 (Reachable-IsSound c cfg date bc0 r)

-- If the constructor, run at the same time or later on what a node that has come to be in these
-- ways persists to its data file, does not refuse its options, the new node has the chain, the
-- state and the pending transactions of the old one, these in the same order.
pub restart_keeps_all :
    (c : NodeCrypto) (cfg : Config) (date date' now : ℕ) (bc bc' : Blockchain)
    (saved : ChainSnapshot)
    → Reachable c cfg date bc
    → date ≤ date'
    → cfg.has_data_file ≡ true
    → (persist cfg bc).disk ≡ some saved
    → new_blockchain c cfg date' now (some (reload saved)) ≡ some bc'
    → (bc'.chain ≡ bc.chain)
      × (bc'.state ≡ bc.state)
      × (bc'.pending_transactions ≡ bc.pending_transactions)
unfolding persist
restart_keeps_all c cfg date date' now bc bc' saved reached le on written h =
    let sound = Reachable-IsSound c cfg date bc reached in
    let kept =
      new_blockchain-persist c cfg date date' now bc bc' saved on le sound.replayed written h in
    let ts = bc.pending_transactions in
    let same : saved ≡ record { chain = bc.chain; pending_transactions = ts } = ground arith in
    let root : Blockchain = record (start_at_genesis c cfg) {
      chain = bc.chain;
      state = bc.state;
    } in
    let from_file =
      restored c cfg date' now bc.chain bc.state ts bc' on
        (IsReplayed-later c cfg date date' bc.chain bc.state le sound.replayed)
        (ap (λ (k : ChainSnapshot). new_blockchain c cfg date' now (some (reload k))) (sym same)
          ∙ h) in
    let (_, _, whole) =
      restore_pending_saved c cfg now root ts (IsPool-IsQueue c cfg bc sound.pool) in
    (
      kept.0,
      kept.1,
      ap (λ (k : Blockchain). k.pending_transactions) from_file
          ∙ whole sound.fresh sound.pool.affordable,
    )
