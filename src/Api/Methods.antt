-- ===== src/Api/Methods.antt =====
-- The methods of src/api.ts: the object `handlers`.
use text.Mathlib.Text.{starts_with}
use proof_of_authority_block.Common.{
  ℕ, String, Bool, true, false, not, List, [], ◌∷◌, ◌++◌, map, Option, none, some, ◌&&◌, ◌==◌,
  ◌===◌, any, filter, Result, ok, err, if◌then◌else◌,
}
use proof_of_authority_block.Json.{
  Value, Fields, Items, undefined, null, str, arr, obj, nil, cons, end, field, get,
}
use proof_of_authority_block.Crypto.{NodeCrypto, KeyPair, last_chars}
use proof_of_authority_block.Blockchain.{Blockchain, Config, PoolError, add_transaction}
use proof_of_authority_block.Block.{Block}
use proof_of_authority_block.P2p.{Message, new_block, new_transaction, broadcast}
use proof_of_authority_block.Proposer.{ProposeError, propose}
use proof_of_authority_block.Api.Types.{
  Topic, status, blocks, pending, peers, is_topic, Reply, validators_reply, account_reply,
  submitted, block_proposed, subscribed, ApiError, topics_no_array, unknown_topic, address_required,
  internal_error, transaction_rejected, not_proposed, Client, Api, find_client, get_account_info,
}
use proof_of_authority_block.Api.Texts.{join}
use proof_of_authority_block.Api.Publish.{on_events}

-- The fields that a destructuring or a member access finds on a value that is not null or undefined.
abbrev pub fields_of : Value → Fields
fields_of (obj fs) = fs
fields_of _ = end

-- `v ?? {}`
abbrev pub or_empty_object : Value → Value
or_empty_object undefined = obj end
or_empty_object null = obj end
or_empty_object v = v

-- A file of the directory `keys`, with the object that it holds; `none` is a file that cannot be
-- read or holds no object.
pub record KeyFile : Type 0 where
  pub name : String
  pub content : Option Fields

abbrev pub is_validator_file : KeyFile → Bool
is_validator_file f = starts_with f.name "validator-" && (last_chars 5 f.name === ".json")

-- An object without the member `key`.
unfoldable pub without : String → Fields → Fields
without key end = end
without key (field j v fs) = let rest = without key fs in if j === key then rest else field j v rest

abbrev pub public_data_each : List KeyFile → Option (List Fields)
public_data_each [] = some []
public_data_each (f ∷ fs) = elim (f.content) [
  | none ↦ none
  | some content ↦ elim (public_data_each fs) [
    | none ↦ none
    | some rest ↦ some (without "encryptedPrivateKey" content ∷ rest)
  ]
]

-- `getValidators`, where the argument `none` is a directory that cannot be read.
unfoldable pub get_validators : Option (List KeyFile) → Result ApiError Reply
get_validators none = err internal_error
get_validators (some files) = elim (public_data_each (filter is_validator_file files)) [
  | none ↦ err internal_error
  | some data_each ↦ ok (validators_reply data_each)
]

-- The method `getAccount`
unfoldable pub get_account_reply : Value → Blockchain → Result ApiError Reply
get_account_reply (str address) bc =
    if address === "" then err address_required else elim (get_account_info bc address) [
      | none ↦ err internal_error
      | some info ↦ ok (account_reply info)
    ]
get_account_reply _ bc = err address_required

-- `TOPICS.includes(t)`, with the topic.
abbrev pub topic_of : Value → Option Topic
topic_of (str s) =
    if s === "status"
    then some status
    else if s === "blocks"
    then some blocks
    else if s === "pending"
    then some pending
    else if s === "peers"
    then some peers
    else none
topic_of _ = none

abbrev pub topics_of_items : Items → Option (List Topic)
topics_of_items nil = some []
topics_of_items (cons v vs) = elim (topic_of v) [
  | none ↦ none
  | some t ↦ elim (topics_of_items vs) [ none ↦ none | some ts ↦ some (t ∷ ts) ]
]

-- `bad`
abbrev pub bad_items : Items → Items
bad_items nil = nil
bad_items (cons v vs) = elim (topic_of v) [ none ↦ cons v (bad_items vs) | some t ↦ bad_items vs ]

-- `parseTopics`; the text of the error throws where `bad.join` does, whatever stands in between.
unfoldable pub parse_topics : Value → Result ApiError (List Topic)
parse_topics (arr vs) = elim (topics_of_items vs) [
  | some requested ↦ ok requested
  | none ↦ elim (join true (bad_items vs)) [
    | none ↦ err internal_error
    | some text ↦ err unknown_topic
  ]
]
parse_topics _ = err topics_no_array

-- `set.add` of each, in order.
abbrev pub add_topics : List Topic → List Topic → List Topic
add_topics [] set = set
add_topics (t ∷ ts) set = add_topics ts (if any (is_topic t) set then set else set ++ (t ∷ []))

-- `set.delete` of each.
abbrev pub delete_topics : List Topic → List Topic → List Topic
delete_topics [] set = set
delete_topics (t ∷ ts) set = delete_topics ts (filter (λ u. not (is_topic t u)) set)

-- The client with this set of topics.
abbrev pub with_topics : ℕ → List Topic → List Client → List Client
with_topics id set ks = map (λ (k : Client). if k.id == id then record k { topics = set } else k) ks

-- `subscribe`
unfoldable pub subscribe : ℕ → Value → Api → Api × Result ApiError Reply
subscribe id topics api = elim (parse_topics topics) [
  | err e ↦ (api, err e)
  | ok requested ↦ elim (find_client id api.clients) [
    | none ↦ (api, err internal_error)
    | some k ↦
        let set = add_topics requested k.topics in
        (
          record api {
            clients = with_topics id set api.clients;
            deferred = api.deferred ++ ((id, requested) ∷ []);
          },
          ok (subscribed set),
        )
  ]
]

-- `unsubscribe`, which reads the client's set first.
unfoldable pub unsubscribe : ℕ → Value → Api → Api × Result ApiError Reply
unsubscribe id topics api = elim (parse_topics topics) [
  | err e ↦ (api, err e)
  | ok requested ↦ elim (find_client id api.clients) [
    | none ↦ (api, err internal_error)
    | some k ↦
        let set = delete_topics requested k.topics in
        (record api { clients = with_topics id set api.clients }, ok (subscribed set))
  ]
]

-- The copy of the known fields that `submitTransaction` makes.
unfoldable pub copy_transaction : Value → Value
copy_transaction transaction =
    let b = fields_of (or_empty_object transaction) in
    obj (
      field "from" (get "from" b) (
        field "to" (get "to" b) (
          field "amount" (get "amount" b) (
            field "nonce" (get "nonce" b) (
              field "timestamp" (get "timestamp" b) (
                field "publicKey" (get "publicKey" b)
                  (field "signature" (get "signature" b) (field "hash" (get "hash" b) end))))))))

abbrev pub has_keys : Option KeyPair → Bool
has_keys none = false
has_keys (some keys) = true

-- The node's chain after a method of it, as the API's other parts see it.
abbrev pub with_chain : Blockchain → Api → Api
with_chain bc api = record api { node = record (api.node) { blockchain = bc } }

-- The listeners have been called; if none of them threw, the message goes to the peers.
abbrev pub announce :
    Message → Reply → Api × Result ApiError (Unit {0}) → Api × Result ApiError Reply
announce m reply (api, err e) = (api, err e)
announce m reply (api, ok _) = (record api { node = broadcast m none api.node }, ok reply)

module _ (c : NodeCrypto) (cfg : Config) (my_keys : Option KeyPair) where
  -- What `submitTransaction` does with the outcome of `addTransaction`.
  abbrev pub after_submit :
      ℕ → Api → Value → Blockchain × Result PoolError (Unit {0}) → Api × Result ApiError Reply
  after_submit date api tx (bc, err e) = (with_chain bc api, err (transaction_rejected e))
  after_submit date api tx (bc, ok _) =
      announce (new_transaction tx) (submitted tx)
        (on_events cfg (has_keys my_keys) date (with_chain bc api))

  -- `submitTransaction`; `now` is what the clock of the pool shows.
  unfoldable pub submit_transaction : ℕ → ℕ → Value → Api → Api × Result ApiError Reply
  submit_transaction date now transaction api =
      let tx = copy_transaction transaction in
      after_submit date api tx (add_transaction cfg c now api.node.blockchain tx)

  -- What `propose` does with the outcome of its body.
  abbrev pub after_propose :
      ℕ → Api → Blockchain × Result ProposeError Block → Api × Result ApiError Reply
  after_propose date api (bc, err e) = (with_chain bc api, err (not_proposed e))
  after_propose date api (bc, ok block) =
      announce (new_block (some block)) (block_proposed block)
        (on_events cfg (has_keys my_keys) date (with_chain bc api))

  -- The method `propose`; `date` is what `Date.now()` shows at its start, `date'` when the block is
  -- added.
  unfoldable pub propose_method : ℕ → ℕ → ℕ → Api → Api × Result ApiError Reply
  propose_method date date' now api =
      elim (propose c cfg my_keys date date' now api.node.blockchain) [
        | none ↦ (api, err internal_error)
        | some outcome ↦ after_propose date' api outcome
      ]
