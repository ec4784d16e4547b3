-- ===== src/Tests/World.antt =====
-- A network of one validator and two users, with a stand-in for Node's crypto module: a hash is the
-- length of a text in forty digits, and a signature is the text followed by the key.
use Prim.Native.String.{◌++◌, count}
use proof_of_authority_block.Common.{String, true, [], ◌∷◌, none, some, ◌===◌}
use proof_of_authority_block.Common.Int.{pos}
use proof_of_authority_block.Json.{decimal}
use proof_of_authority_block.Crypto.{NodeCrypto, KeyPair, last_chars}
use proof_of_authority_block.Transaction.{
  UnsignedTransaction, Transaction, create_signed_transaction,
}
use proof_of_authority_block.State.{WorldState, new_world_state}
use proof_of_authority_block.Block.{Block}
use proof_of_authority_block.Blockchain.{
  Blockchain, Config, default_mempool_options, create_genesis, start_at_genesis, append_block,
}
use proof_of_authority_block.Proposer.{next_block}

abbrev pub toy_hash : String → String
toy_hash s = last_chars 40 ("0000000000000000000000000000000000000000" ++ decimal (count s))

abbrev pub toy_crypto : NodeCrypto
toy_crypto = record {
  sha256_hex = toy_hash;
  ecdsa_sign = λ key text. text ++ key;
  ecdsa_verify = λ key text signature. some (signature === (text ++ key));
  create_public_key = λ pem.
      some (record { asymmetric_key_type = "ec"; named_curve = "secp256k1"; spki_pem = pem });
}

abbrev pub key_pair : String → KeyPair
key_pair key = record { public_key = key; private_key = key }

abbrev pub validator_keys : KeyPair
validator_keys = key_pair "v"

-- The address of the key "alice", and some other address.
abbrev pub alice : String
alice = "0x0000000000000000000000000000000000000005"

abbrev pub bob : String
bob = "0x000000000000000000000000000000000000000b"

abbrev pub config : Config
config = record {
  validator_set = record { validators = "v" ∷ [] };
  has_data_file = true;
  slot_duration_ms = 10;
  slot_wait_ms = 2;
  genesis_allocations = (alice, 100) ∷ [];
  mempool = default_mempool_options;
}

-- Alice sends 30 to Bob.
abbrev pub payment : UnsignedTransaction
payment = record { from = alice; to = bob; amount = 30; nonce = 0; timestamp = pos 5 }

abbrev pub signed_payment : Transaction
signed_payment = create_signed_transaction toy_crypto payment "alice" "alice"

abbrev pub initial : WorldState
initial = new_world_state config.genesis_allocations

abbrev pub paid : WorldState
paid = (alice, record { balance = 70; nonce = 1 }) ∷ (bob, record { balance = 30; nonce = 0 }) ∷ []

abbrev pub genesis : Block
genesis = create_genesis toy_crypto config

-- A node at genesis, and the same node with the payment in its pool.
abbrev pub fresh_node : Blockchain
fresh_node = start_at_genesis toy_crypto config

abbrev pub waiting_node : Blockchain
waiting_node = record {
  chain = genesis ∷ [];
  pending_transactions = signed_payment ∷ [];
  received_at = (signed_payment.hash, 0) ∷ [];
  state = initial;
  disk = none;
  events = [];
}

-- The block that the validator proposes at time 12, and the node that has it.
abbrev pub block_one : Block
block_one = next_block toy_crypto config validator_keys 12 genesis (signed_payment ∷ [])

abbrev pub paid_node : Blockchain
paid_node = append_block toy_crypto config 0 waiting_node block_one paid
