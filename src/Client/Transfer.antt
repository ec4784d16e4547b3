-- ===== src/Client/Transfer.antt =====
-- `send` of src/nodeClient.ts, from a wallet to the pool of a node.
use mathlib.Core.Path.{subst}
use proof_of_authority_block.Common.{
  ℕ, ◌+◌, ◌≤◌, ◌<◌, ◌≡◌, ◌⊎◌, refl, inl, inr, true, false, String, List, [], ◌∷◌, Option, some,
  arith, eq_iff, any, filter, length, Bool-cases, ok, err, ◌==◌, ◌===◌,
}
use proof_of_authority_block.Common.Int.{ℤ, pos}
use proof_of_authority_block.Json.{Value, num, int, str, get}
use proof_of_authority_block.Crypto.{NodeCrypto, KeyPair, IsKeyPair, address_from_public_key}
use proof_of_authority_block.Transaction.{
  UnsignedTransaction, Transaction, is_address, create_signed_transaction, signed_object,
}
use proof_of_authority_block.State.{get_balance, get_nonce}
use proof_of_authority_block.Blockchain.{
  Blockchain, Config, PoolError, is_from, has_hash, get_next_nonce, check_transaction,
}
use proof_of_authority_block.Blockchain.Pool.{amounts, IsAdmissible, check_transaction_iff}
use proof_of_authority_block.Blockchain.Nonces.{IsFirstFree, is_taken, get_next_nonce_total}
use proof_of_authority_block.Blockchain.Reach.{Reachable}
use proof_of_authority_block.Api.{
  Api, get_account_info, get_account_reply, account_reply, copy_transaction, submit_transaction,
  submitted, transaction_rejected,
}
use proof_of_authority_block.Api.Submission.{Accepts, submit_transaction_lem}
use proof_of_authority_block.Wallet.{Wallet}
use proof_of_authority_block.Wallet.Signing.{IsRequest, requested, create_transaction_signs}
use proof_of_authority_block.Client.{send, api_service}

-- The copy that `submitTransaction` makes of a signed transaction is the transaction.
copy-signed :
    (c : NodeCrypto) (u : UnsignedTransaction) (keys : KeyPair)
    → let tx = create_signed_transaction c u keys.public_key keys.private_key in
      copy_transaction tx.object ≡ tx.object
unfolding copy_transaction create_signed_transaction signed_object get
copy-signed c u keys = refl

untaken-of-free :
    (a : String) (n : ℕ) (ts : List Transaction)
    → is_taken a ts n ≡ false
    → any (λ t. t.nonce == n) (filter (is_from a) ts) ≡ false
untaken-of-free a n [] h = refl
untaken-of-free a n (t ∷ ts) h = ground (arith, untaken-of-free a n ts (ground arith))

-- The pool has room and the sender can pay.
pub record IsPayable (cfg : Config) (bc : Blockchain) (a : String) (amount nonce : ℕ) : Type 0 where
  pub pool_room : length bc.pending_transactions < cfg.mempool.max_pool_size
  pub sender_room :
      length (filter (is_from a) bc.pending_transactions) < cfg.mempool.max_pending_per_sender
  pub near : nonce < get_nonce bc.state a + cfg.mempool.max_pending_per_sender
  pub covered :
      amounts (filter (is_from a) bc.pending_transactions) + amount ≤ get_balance bc.state a

first_free :
    (bc : Blockchain) (a : String) (n : ℕ)
    → get_next_nonce bc a ≡ some n
    → IsFirstFree a bc.pending_transactions (get_nonce bc.state a) n
first_free bc a n h =
    let (m, e, first) = get_next_nonce_total bc a in
    let same : m ≡ n = ground arith in
    subst (IsFirstFree a bc.pending_transactions (get_nonce bc.state a)) same first

payable-IsAdmissible :
    (cfg : Config) (bc : Blockchain) (tx : Transaction)
    → get_next_nonce bc tx.from ≡ some tx.nonce
    → IsPayable cfg bc tx.from tx.amount tx.nonce
    → IsAdmissible cfg bc tx
payable-IsAdmissible cfg bc tx h p =
    let first = first_free bc tx.from tx.nonce h in
    record {
      fresh = first.from_start;
      untaken = untaken-of-free tx.from tx.nonce bc.pending_transactions first.free;
      room = p.sender_room;
      near = p.near;
      covered = p.covered;
    }

address_given : (a : String) → is_address a ≡ true → (a === "") ≡ false
unfolding is_address
address_given a h = elim (Bool-cases (a === "")) [
  | inr other ↦ other
  | inl empty ↦
      let same : a ≡ "" = (eq_iff a "").0 empty in
      absurd (ground (arith, subst (λ (s : String). is_address s ≡ true) same h))
]

-- The account that the API tells.
account_told :
    (bc : Blockchain) (a : String) (n : ℕ)
    → is_address a ≡ true
    → get_next_nonce bc a ≡ some n
    → get_account_reply (str a) bc
      ≡ ok (
          account_reply (record {
            address = a;
            balance = get_balance bc.state a;
            nonce = get_nonce bc.state a;
            next_nonce = n;
          }))
unfolding get_account_reply get_account_info
account_told bc a n own h = rw (get_account_reply, address_given a own, get_account_info, h) refl

-- A submission of a signed transfer that the pool can take succeeds.
submission_accepted :
    (c : NodeCrypto) (cfg : Config) (my_keys : Option KeyPair) (date now : ℕ) (api : Api)
    (tx : Transaction)
    → Reachable c cfg date api.node.blockchain
    → copy_transaction tx.object ≡ tx.object
    → check_transaction cfg c api.node.blockchain tx.object ≡ ok tx
    → let r = submit_transaction c cfg my_keys date now tx.object api in
      (r.1 ≡ ok (submitted tx.object)) × Accepts c tx.object api.node r.0.node
submission_accepted c cfg my_keys date now api tx reached copied good =
    elim (subst
      (λ (v : Value).
        let r = submit_transaction c cfg my_keys date now tx.object api in
        ((r.1 ≡ ok (submitted v)) × Accepts c v api.node r.0.node)
        ⊎ ((e : PoolError) × (check_transaction cfg c api.node.blockchain v ≡ err e)
            × (r ≡ (api, err (transaction_rejected e)))))
      copied (submit_transaction_lem c cfg my_keys date now tx.object api reached)) [
        | inl accepted ↦ accepted
        | inr (e, bad, _) ↦ absurd (ground arith)
      ]

-- What the wallet signs for the request.
abbrev pub transfer : NodeCrypto → ℤ → Wallet → KeyPair → String → ℕ → ℕ → Transaction
transfer c client_date w keys to amount n =
    create_signed_transaction c (requested w to amount n client_date) keys.public_key
      keys.private_key

-- `send` gets a transfer into the pool: if the node of the API has come to be by a first start, by
-- transactions, blocks and chains, by sweeps and by restarts, the wallet is unlocked with its own
-- key pair, the request is one that it signs, the pool has room, also for the sender, the next
-- nonce is within the window, the sender can pay for this and for all that is pending, and no
-- pending transaction has the hash of the new one, then `send` returns the transfer with the next
-- nonce that the node has told, and just this object is in the pool and broadcast to the peers.
pub send_lem :
    (c : NodeCrypto) (cfg : Config) (my_keys : Option KeyPair) (date now : ℕ) (client_date : ℤ)
    (w : Wallet) (keys : KeyPair) (to : String) (amount n : ℕ) (api : Api)
    → Reachable c cfg date api.node.blockchain
    → w.keys ≡ some keys
    → IsKeyPair c keys
    → address_from_public_key c keys.public_key ≡ some w.ks.address
    → is_address w.ks.address ≡ true
    → get_next_nonce api.node.blockchain w.ks.address ≡ some n
    → IsRequest w to amount n client_date
    → IsPayable cfg api.node.blockchain w.ks.address amount n
    → any
        (has_hash (transfer c client_date w keys to amount n).object)
        api.node.blockchain.pending_transactions
      ≡ false
    → let tx = transfer c client_date w keys to amount n in
      let r =
        send c
          (api_service c cfg my_keys date now)
          client_date
          w
          (str to)
          (num (int (pos amount)))
          api in
      (r.1 ≡ ok tx) × Accepts c tx.object api.node r.0.node
unfolding send
send_lem c cfg my_keys date now client_date w keys to amount n api reached unlocked pair owner own
      next r payable unknown =
    let bc = api.node.blockchain in
    let u = requested w to amount n client_date in
    let tx = create_signed_transaction c u keys.public_key keys.private_key in
    let (signed, fields, good) =
      create_transaction_signs c client_date w keys to amount n unlocked pair owner own r in
    let admissible : IsAdmissible cfg bc tx =
      payable-IsAdmissible cfg bc tx (rw fields next) (rw fields payable) in
    let checked =
      (check_transaction_iff cfg c bc tx.object tx).1
        (payable.pool_room, unknown, good, admissible) in
    let (went, accepted) =
      submission_accepted c cfg my_keys date now api tx reached (copy-signed c u keys) checked in
    (
      rw (send, account_told bc w.ks.address n own next, signed, went) refl,
      rw (send, account_told bc w.ks.address n own next, signed) accepted,
    )
