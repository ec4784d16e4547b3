-- ===== src/Api/Types.antt =====
-- The topics, clients, answers and fields of the API server of src/api.ts.
use proof_of_authority_block.Common.{
  ℕ, ◌+◌, String, Bool, true, false, List, [], ◌∷◌, Option, none, some, ◌==◌, length, if◌then◌else◌,
}
use proof_of_authority_block.Common.Int.{pos}
use proof_of_authority_block.Json.{Value, Fields}
use proof_of_authority_block.Transaction.{Transaction}
use proof_of_authority_block.State.{get_balance, get_nonce}
use proof_of_authority_block.ValidatorSet.{get_index_for_slot}
use proof_of_authority_block.Block.{Block}
use proof_of_authority_block.Blockchain.{
  Blockchain, Config, PoolError, get_latest_block, get_slot, get_next_nonce,
}
use proof_of_authority_block.P2p.{Node, PeerInfo}
use proof_of_authority_block.Proposer.{ProposeError, error_code}

-- `Topic`
pub data Topic : Type 0 where
  status blocks pending peers : Topic

abbrev pub is_topic : Topic → Topic → Bool
is_topic status status = true
is_topic blocks blocks = true
is_topic pending pending = true
is_topic peers peers = true
is_topic _ _ = false

-- What `getStatus` returns.
pub record Status : Type 0 where
  pub chain_length : ℕ
  pub latest_block_index : ℕ
  pub latest_block_hash : String
  pub latest_block_timestamp : ℕ
  pub pending_transactions : ℕ
  pub is_validator : Bool
  pub server_time : ℕ
  pub slot_duration_ms : ℕ
  pub slot_wait_ms : ℕ
  pub current_slot : ℕ
  pub current_proposer_index : ℕ
  pub next_proposer_index : ℕ

-- The data of a topic.
pub data Snapshot : Type 0 where
  status_now : Status → Snapshot
  chain_now : List Block → Snapshot
  pool_now : List Transaction → Snapshot
  peers_now : PeerInfo → Snapshot

-- What `getAccount` of class `Blockchain` returns.
pub record AccountInfo : Type 0 where
  pub address : String
  pub balance : ℕ
  pub nonce : ℕ
  pub next_nonce : ℕ

-- `getAccount` of class `Blockchain`; `get_next_nonce` always ends.
unfoldable pub get_account_info : Blockchain → String → Option AccountInfo
get_account_info bc address = elim (get_next_nonce bc address) [
  | none ↦ none
  | some next ↦ some (record {
    address = address;
    balance = get_balance bc.state address;
    nonce = get_nonce bc.state address;
    next_nonce = next;
  })
]

-- The value of `result`, by method. A validator's public data are the fields of its key file.
pub data Reply : Type 0 where
  snapshot_reply : Snapshot → Reply
  validators_reply : List Fields → Reply
  account_reply : AccountInfo → Reply
  submitted : Value → Reply
  block_proposed : Block → Reply
  subscribed : List Topic → Reply

-- The errors that a client is told.
pub data ApiError : Type 0 where
  invalid_json request_no_object topics_no_array unknown_topic : ApiError
  address_required internal_error : ApiError
  unknown_method : String → ApiError
  transaction_rejected : PoolError → ApiError
  not_proposed : ProposeError → ApiError

-- The member `code` of an error.
abbrev pub code_of : ApiError → ℕ
code_of ApiError.invalid_json = 400
code_of ApiError.request_no_object = 400
code_of ApiError.topics_no_array = 400
code_of ApiError.unknown_topic = 400
code_of ApiError.address_required = 400
code_of ApiError.internal_error = 500
code_of (ApiError.unknown_method m) = 404
code_of (ApiError.transaction_rejected e) = 400
code_of (ApiError.not_proposed e) = error_code e

-- What is sent to a client: a push, the response to a request with its `id`, an error (without an
-- `id` if none could be read), or a ping.
pub data Sent : Type 0 where
  push : Topic → Snapshot → Sent
  response : Value → Reply → Sent
  failure : Option Value → ApiError → Sent
  ping : Sent

-- A client's entries in `subscriptions` and `alive`, with a number for its identity and whether its
-- `readyState` is OPEN.
pub record Client : Type 0 where
  pub id : ℕ
  pub topics : List Topic
  pub is_alive : Bool
  pub is_open : Bool

-- The variables of `startApi`, with the node that it serves. `deferred` holds what `setImmediate`
-- has been given: pushes of topics to a client. `outbox` is what was sent to which client.
pub record Api : Type 0 where
  pub clients : List Client
  pub last_peers_json : String
  pub deferred : List (ℕ × List Topic)
  pub outbox : List (ℕ × Sent)
  pub node : Node

abbrev pub find_client : ℕ → List Client → Option Client
find_client id [] = none
find_client id (k ∷ ks) = if k.id == id then some k else find_client id ks

-- `getStatus`; `none` is the TypeError for a chain without blocks.
unfoldable pub get_status : Config → Bool → ℕ → Blockchain → Option Status
get_status cfg has_keys date bc = elim (get_latest_block bc) [
  | none ↦ none
  | some latest ↦
      let slot = get_slot cfg date in
      some (record {
        chain_length = length bc.chain;
        latest_block_index = latest.index;
        latest_block_hash = latest.hash;
        latest_block_timestamp = latest.timestamp;
        pending_transactions = length bc.pending_transactions;
        is_validator = has_keys;
        server_time = date;
        slot_duration_ms = cfg.slot_duration_ms;
        slot_wait_ms = cfg.slot_wait_ms;
        current_slot = slot;
        current_proposer_index = get_index_for_slot cfg.validator_set (pos slot);
        next_proposer_index = get_index_for_slot cfg.validator_set (pos (slot + 1));
      })
]
