-- ===== src/Blockchain/Sound/Steps.antt =====
-- The operations of class `Blockchain` of src/blockchain.ts keep what holds at all times.
use mathlib.Core.Path.{subst, subst₂}
use proof_of_authority_block.Common.{
  ℕ, ◌-◌, ◌≤◌, ◌≡◌, refl, sym, ap, ◌∙◌, inl, inr, true, false, List, [], ◌∷◌, ◌++◌, Option, none,
  some, Bool-cases, Result-cases, arith, All-append, ltb, leb, if◌then◌else◌, Result, length,
}
use proof_of_authority_block.Common.Dict.{insert}
use proof_of_authority_block.Json.{Value}
use proof_of_authority_block.Crypto.{NodeCrypto}
use proof_of_authority_block.Transaction.{Transaction}
use proof_of_authority_block.State.{WorldState, get_nonce}
use proof_of_authority_block.Block.{Block, RawBlock}
use proof_of_authority_block.Blockchain.Types.{
  Blockchain, Config, pending_changed, blocks_changed, emit, persist,
}
use proof_of_authority_block.Blockchain.Mempool.{
  PoolError, enqueue, add_transaction, prune_mempool, sweep_mempool,
}
use proof_of_authority_block.Blockchain.Consensus.{
  BlockError, append_block, add_block, adopt_chain, replace_chain, validate_chain,
}
use proof_of_authority_block.Blockchain.Sync.{
  IsReplayed, add_block-IsReplayed, add_block_cases, append_block_fields,
}
use proof_of_authority_block.Blockchain.Adopt.{validate_chain_iff}
use proof_of_authority_block.Blockchain.Pool.{IsPool, check_transaction_iff}
use proof_of_authority_block.Blockchain.Admission.{
  add_transaction-IsPool, add_transaction_cases, enqueue_fields,
}
use proof_of_authority_block.Blockchain.Prune.{IsPool-IsQueue}
use proof_of_authority_block.Blockchain.Sound.{
  IsSound, same-IsPool, emitted-IsSound, prune_mempool-IsSound,
}

module _ (c : NodeCrypto) (cfg : Config) where
  append_block-IsSound :
      (date now : ℕ) (bc : Blockchain) (b : Block) (s : WorldState)
      → IsReplayed c cfg date (bc.chain ++ (b ∷ [])) s
      → IsSound c cfg date bc
      → IsSound c cfg date (append_block c cfg now bc b s)
  unfolding append_block
  append_block-IsSound date now bc b s r h =
      let extended : Blockchain = record bc { chain = bc.chain ++ (b ∷ []); state = s } in
      emitted-IsSound c cfg date blocks_changed (prune_mempool cfg now extended)
        (prune_mempool-IsSound c cfg date now extended r (IsPool-IsQueue c cfg bc h.pool) h.saved)

  adopt_chain-IsSound :
      (date now : ℕ) (bc : Blockchain) (bs : List Block) (s : WorldState)
      → IsReplayed c cfg date bs s
      → IsSound c cfg date bc
      → IsSound c cfg date (adopt_chain c cfg now bc bs s)
  unfolding adopt_chain
  adopt_chain-IsSound date now bc bs s r h =
      let adopted : Blockchain = record bc { chain = bs; state = s } in
      emitted-IsSound c cfg date blocks_changed (prune_mempool cfg now adopted)
        (prune_mempool-IsSound c cfg date now adopted r (IsPool-IsQueue c cfg bc h.pool) h.saved)

  pub add_block-IsSound :
      (date now : ℕ) (bc bc' : Blockchain) (raw : RawBlock) (result : Result BlockError (Unit {0}))
      → IsSound c cfg date bc
      → add_block c cfg date now bc raw ≡ some (bc', result)
      → IsSound c cfg date bc'
  add_block-IsSound date now bc bc' raw result h e =
      let r =
        add_block-IsReplayed c cfg date date now bc bc' raw result (omega arith) h.replayed e in
      elim (add_block_cases c cfg date now bc bc' raw result e) [
        | inr (_, _, same) ↦ subst (IsSound c cfg date) (sym same) h
        | inl (latest, b, s, _, _, _, _, grown) ↦
            let (chain, state) = append_block_fields c cfg now bc b s in
            subst (IsSound c cfg date) (sym grown) (
              append_block-IsSound date now bc b s
                (subst₂ (IsReplayed c cfg date) (ap (λ (k : Blockchain). k.chain) grown ∙ chain)
                  (ap (λ (k : Blockchain). k.state) grown ∙ state) r)
                h)
      ]

  pub sweep_mempool-IsSound :
      (date now : ℕ) (bc : Blockchain)
      → IsSound c cfg date bc
      → IsSound c cfg date (sweep_mempool cfg now bc).0
  unfolding sweep_mempool
  sweep_mempool-IsSound date now bc h =
      let pruned = prune_mempool cfg now bc in
      let sound =
        prune_mempool-IsSound c cfg date now bc h.replayed (IsPool-IsQueue c cfg bc h.pool)
          h.saved in
      elim (ltb 0 (length bc.pending_transactions - length pruned.pending_transactions))
        as (λ b.
          IsSound c cfg date (if b then emit pending_changed (persist cfg pruned) else pruned)) [
            | true ↦ emitted-IsSound c cfg date pending_changed pruned sound
            | false ↦ sound
          ]

  pub replace_chain-IsSound :
      (date now : ℕ) (bc : Blockchain) (raw : Option (List RawBlock))
      → IsSound c cfg date bc
      → IsSound c cfg date (replace_chain c cfg date now bc raw).0
  unfolding replace_chain
  replace_chain-IsSound date now bc none h = h
  replace_chain-IsSound date now bc (some raw) h =
      elim (Bool-cases (leb (length raw) (length bc.chain))) [
        | inl short ↦ rw short h
        | inr long ↦ elim (Result-cases (validate_chain c cfg date (some raw))) [
          | inr (e, refused) ↦ rw (long, refused) h
          | inl ((bs, s), valid) ↦
              rw (long, valid)
                (adopt_chain-IsSound date now bc bs s
                  ((validate_chain_iff c cfg date raw bs s).0 valid).1 h)
        ]
      ]

  -- `addTransaction` before it writes the file.
  queued : ℕ → Blockchain → Transaction → Blockchain
  queued now bc tx = record bc {
    pending_transactions = bc.pending_transactions ++ (tx ∷ []);
    received_at = insert tx.hash now bc.received_at;
  }

  enqueue-queued :
      (now : ℕ) (bc : Blockchain) (tx : Transaction)
      → emit pending_changed (persist cfg (queued now bc tx)) ≡ enqueue cfg now bc tx
  unfolding enqueue queued
  enqueue-queued now bc tx = refl

  queued-IsSound :
      (date now : ℕ) (bc : Blockchain) (tx : Transaction)
      → IsPool c cfg (queued now bc tx)
      → get_nonce bc.state tx.from ≤ tx.nonce
      → IsSound c cfg date bc
      → IsSound c cfg date (queued now bc tx)
  unfolding queued
  queued-IsSound date now bc tx p fresh h = record {
    replayed = h.replayed;
    pool = p;
    fresh =
        All-append (λ (t : Transaction). get_nonce bc.state t.from ≤ t.nonce)
          bc.pending_transactions (tx ∷ []) h.fresh (fresh, tt);
    saved = h.saved;
  }

  queued_fields :
      (now : ℕ) (bc : Blockchain) (tx : Transaction)
      → ((queued now bc tx).pending_transactions ≡ bc.pending_transactions ++ (tx ∷ []))
        × ((queued now bc tx).state ≡ bc.state)
  unfolding queued
  queued_fields now bc tx = (refl, refl)

  enqueue-IsSound :
      (date now : ℕ) (bc : Blockchain) (tx : Transaction)
      → IsPool c cfg (enqueue cfg now bc tx)
      → get_nonce bc.state tx.from ≤ tx.nonce
      → IsSound c cfg date bc
      → IsSound c cfg date (enqueue cfg now bc tx)
  enqueue-IsSound date now bc tx p fresh h =
      let (pending, state, _, _) = enqueue_fields cfg now bc tx in
      let (pending', state') = queued_fields now bc tx in
      let p' =
        same-IsPool c cfg (enqueue cfg now bc tx) (queued now bc tx) (pending' ∙ sym pending)
          (state' ∙ sym state) p in
      subst (IsSound c cfg date) (enqueue-queued now bc tx) (
        emitted-IsSound c cfg date pending_changed (queued now bc tx)
          (queued-IsSound date now bc tx p' fresh h))

  pub add_transaction-IsSound :
      (date now : ℕ) (bc : Blockchain) (v : Value)
      → IsSound c cfg date bc
      → IsSound c cfg date (add_transaction cfg c now bc v).0
  add_transaction-IsSound date now bc v h =
      let p = add_transaction-IsPool cfg c now bc v h.pool in
      elim (add_transaction_cases cfg c now bc v) [
        | inr (_, _, same) ↦ rw same h
        | inl (tx, good, same) ↦
            let (_, _, _, adm) = (check_transaction_iff cfg c bc v tx).0 good in
            let p' =
              subst (λ (r : Blockchain × Result PoolError (Unit {0})). IsPool c cfg r.0) same p in
            subst (λ (r : Blockchain × Result PoolError (Unit {0})). IsSound c cfg date r.0)
              (sym same) (enqueue-IsSound date now bc tx p' adm.fresh h)
      ]
