-- ===== src/Blockchain/Sound.antt =====
-- What holds of class `Blockchain` of src/blockchain.ts at all times, its snapshot file included.
pub mod Steps
use mathlib.Core.Path.{subst, subst₂}
use proof_of_authority_block.Common.{
  ℕ, ◌+◌, ◌-◌, ◌≤◌, ◌<◌, ◌≡◌, refl, sym, ap, ◌∙◌, ◌⊎◌, inl, inr, true, false, Bool, String, List,
  [], ◌∷◌, ◌++◌, map, Option, none, some, Option-cases, Bool-cases, Result-cases, arith, filter,
  All, All-append, ltb, leb, if◌then◌else◌, Result, ok, err, length,
}
use proof_of_authority_block.Common.Dict.{insert}
use proof_of_authority_block.Json.{Value}
use proof_of_authority_block.Crypto.{NodeCrypto}
use proof_of_authority_block.Transaction.{Transaction}
use proof_of_authority_block.State.{WorldState, new_world_state, get_nonce}
use proof_of_authority_block.Block.{Block, RawBlock}
use proof_of_authority_block.Blockchain.Types.{
  Blockchain, ChainSnapshot, Event, Config, pending_changed, blocks_changed, emit, persist,
}
use proof_of_authority_block.Blockchain.Mempool.{
  PoolError, enqueue, add_transaction, prune_mempool, sweep_mempool, restore_pending,
}
use proof_of_authority_block.Blockchain.Consensus.{
  BlockError, create_genesis, append_block, add_block, adopt_chain, replace_chain, validate_chain,
}
use proof_of_authority_block.Blockchain.Startup.{
  reload, start_at_genesis, start_from, new_blockchain, load_snapshot,
}
use proof_of_authority_block.Blockchain.Sync.{
  IsReplayed, IsReplayed-later, add_block-IsReplayed, add_block_cases, append_block_fields,
}
use proof_of_authority_block.Blockchain.Adopt.{validate_chain_iff}
use proof_of_authority_block.Blockchain.Pool.{IsPool, check_transaction_iff}
use proof_of_authority_block.Blockchain.Admission.{
  add_transaction-IsPool, add_transaction_cases, enqueue_fields,
}
use proof_of_authority_block.Blockchain.Prune.{
  IsQueue, IsFresh, IsPool-IsQueue, prune_mempool-IsPool, prune_mempool_fields,
}
use proof_of_authority_block.Blockchain.Restore.{restore_pending_saved}

-- A snapshot that a node can have written: its chain replays, and its pool was in order.
pub record IsSaved (c : NodeCrypto) (cfg : Config) (date : ℕ) (saved : ChainSnapshot) : Type 0 where
  pub accounts : WorldState
  pub replayed : IsReplayed c cfg date saved.chain accounts
  pub queue : IsQueue c cfg saved.pending_transactions

-- What holds of a node at all times.
pub record IsSound (c : NodeCrypto) (cfg : Config) (date : ℕ) (bc : Blockchain) : Type 0 where
  pub replayed : IsReplayed c cfg date bc.chain bc.state
  pub pool : IsPool c cfg bc
  pub fresh : IsFresh bc
  pub saved : (s : ChainSnapshot) → bc.disk ≡ some s → IsSaved c cfg date s

module _ (c : NodeCrypto) (cfg : Config) where
  pub IsSaved-later :
      (date date' : ℕ) (s : ChainSnapshot)
      → date ≤ date'
      → IsSaved c cfg date s
      → IsSaved c cfg date' s
  IsSaved-later date date' s later h = record {
    accounts = h.accounts;
    replayed = IsReplayed-later c cfg date date' s.chain h.accounts later h.replayed;
    queue = h.queue;
  }

  pub IsSound-later :
      (date date' : ℕ) (bc : Blockchain)
      → date ≤ date'
      → IsSound c cfg date bc
      → IsSound c cfg date' bc
  IsSound-later date date' bc later h = record {
    replayed = IsReplayed-later c cfg date date' bc.chain bc.state later h.replayed;
    pool = h.pool;
    fresh = h.fresh;
    saved = λ s e. IsSaved-later date date' s later (h.saved s e);
  }

  -- The pool and the accounts are the same.
  pub same-IsPool :
      (bc bc' : Blockchain)
      → bc'.pending_transactions ≡ bc.pending_transactions
      → bc'.state ≡ bc.state
      → IsPool c cfg bc
      → IsPool c cfg bc'
  same-IsPool bc bc' pending state p = record {
    verified = rw pending p.verified;
    bounded = rw pending p.bounded;
    distinct = rw pending p.distinct;
    fair = λ a. rw pending (p.fair a);
    affordable = λ a. rw (pending, state) (p.affordable a);
  }

  -- Only the file and the events have changed, and the file holds what it held or what the node has.
  pub record SameNode (bc bc' : Blockchain) : Type 0 where
    chain : bc'.chain ≡ bc.chain
    state : bc'.state ≡ bc.state
    pending : bc'.pending_transactions ≡ bc.pending_transactions
    disk :
        (bc'.disk ≡ bc.disk)
        ⊎ (bc'.disk
            ≡ some (record { chain = bc.chain; pending_transactions = bc.pending_transactions }))

  SameNode-IsSound :
      (date : ℕ) (bc bc' : Blockchain)
      → SameNode bc bc'
      → IsSound c cfg date bc
      → IsSound c cfg date bc'
  SameNode-IsSound date bc bc' e h = record {
    replayed = rw (e.chain, e.state) h.replayed;
    pool = same-IsPool bc bc' e.pending e.state h.pool;
    fresh = rw (e.pending, e.state) h.fresh;
    saved = λ s d. elim e.disk [
      | inl kept ↦ h.saved s (sym kept ∙ d)
      | inr written ↦
          let now_saved : ChainSnapshot = record {
            chain = bc.chain;
            pending_transactions = bc.pending_transactions;
          } in
          let same : now_saved ≡ s = ground arith in
          subst (IsSaved c cfg date) same record {
            accounts = bc.state;
            replayed = h.replayed;
            queue = IsPool-IsQueue c cfg bc h.pool;
          }
    ];
  }

  persist-SameNode : (bc : Blockchain) → SameNode bc (persist cfg bc)
  unfolding persist
  persist-SameNode bc = record {
    chain = ground arith;
    state = ground arith;
    pending = ground arith;
    disk = ground arith;
  }

  -- A change, then `persist` and an event.
  persist-IsSound :
      (date : ℕ) (bc : Blockchain) → IsSound c cfg date bc → IsSound c cfg date (persist cfg bc)
  persist-IsSound date bc h = SameNode-IsSound date bc (persist cfg bc) (persist-SameNode bc) h

  -- The accounts or the chain are new, and `pruneMempool` follows.
  pub prune_mempool-IsSound :
      (date now : ℕ) (bc : Blockchain)
      → IsReplayed c cfg date bc.chain bc.state
      → IsQueue c cfg bc.pending_transactions
      → ((s : ChainSnapshot) → bc.disk ≡ some s → IsSaved c cfg date s)
      → IsSound c cfg date (prune_mempool cfg now bc)
  unfolding prune_mempool
  prune_mempool-IsSound date now bc r q saved =
      let sound = prune_mempool-IsPool c cfg now bc q in
      record { replayed = r; pool = sound.0; fresh = sound.1; saved = saved }

  -- `persist`, then an event.
  pub emitted-IsSound :
      (date : ℕ) (event : Event) (bc : Blockchain)
      → IsSound c cfg date bc
      → IsSound c cfg date (emit event (persist cfg bc))
  emitted-IsSound date event bc h =
      let sound = persist-IsSound date bc h in
      record {
        replayed = sound.replayed;
        pool = record {
          verified = sound.pool.verified;
          bounded = sound.pool.bounded;
          distinct = sound.pool.distinct;
          fair = sound.pool.fair;
          affordable = sound.pool.affordable;
        };
        fresh = sound.fresh;
        saved = sound.saved;
      }
