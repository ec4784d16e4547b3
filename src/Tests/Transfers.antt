-- ===== src/Tests/Transfers.antt =====
-- An instance of the theorem on transfers: Alice's wallet and a node at genesis.
use proof_of_authority_block.Common.{◌≡◌, refl, none, some, ok, arith, ◌===◌, eq_iff, true}
use proof_of_authority_block.Common.Int.{pos}
use proof_of_authority_block.Json.{num, int, str}
use proof_of_authority_block.Transaction.{is_address}
use proof_of_authority_block.State.{new_world_state, get_account}
use proof_of_authority_block.Blockchain.{get_next_nonce, next_nonce_from, start_at_genesis}
use proof_of_authority_block.Wallet.{Wallet, trim, to_lower_case}
use proof_of_authority_block.Wallet.Signing.{IsRequest}
use proof_of_authority_block.Api.Submission.{Accepts}
use proof_of_authority_block.Client.{send, api_service}
use proof_of_authority_block.Client.Transfer.{IsPayable, transfer, send_lem}
use proof_of_authority_block.Tests.World.{toy_crypto, key_pair, alice, bob, config, fresh_node}
use proof_of_authority_block.Tests.Facts.{key_pair-IsKeyPair, alice_owner}
use proof_of_authority_block.Tests.Runs.{fresh_node-Reachable}
use proof_of_authority_block.Tests.Clients.{server}

abbrev wallet : Wallet
wallet = record {
  keys = some (key_pair "alice");
  ks = record {
    name = none;
    address = alice;
    public_key = "alice";
    encrypted_private_key = record { salt = "00"; iv = "00"; ciphertext = "00" };
  };
}

alice-is_address : is_address alice ≡ true
unfolding is_address
alice-is_address = refl

first_nonce : get_next_nonce fresh_node alice ≡ some 0
unfolding get_next_nonce next_nonce_from start_at_genesis new_world_state get_account
first_nonce = refl

transfer-IsRequest : IsRequest wallet bob 30 0 (pos 5)
unfolding is_address trim to_lower_case
transfer-IsRequest = record {
  recipient = refl;
  other =
      λ e. let h : (alice === bob) ≡ true = (eq_iff alice bob).1 e in absurd (ground (arith, h));
  positive = omega arith;
  amount_safe = omega arith;
  nonce_safe = omega arith;
  past_safe = omega arith;
  future_safe = omega arith;
}

transfer-IsPayable : IsPayable config fresh_node alice 30 0
unfolding start_at_genesis new_world_state get_account
transfer-IsPayable = record {
  pool_room = omega arith;
  sender_room = omega arith;
  near = omega arith;
  covered = omega arith;
}

send_lem_example :
    let tx = transfer toy_crypto (pos 5) wallet (key_pair "alice") bob 30 0 in
    let r =
      send toy_crypto
        (api_service toy_crypto config none 0 0)
        (pos 5)
        wallet
        (str bob)
        (num (int (pos 30)))
        server in
    (r.1 ≡ ok tx) × Accepts toy_crypto tx.object server.node r.0.node
unfolding start_at_genesis
send_lem_example =
    send_lem toy_crypto config none 0 0 (pos 5) wallet (key_pair "alice") bob 30 0 server
      fresh_node-Reachable refl (key_pair-IsKeyPair "alice") alice_owner alice-is_address
      first_nonce transfer-IsRequest transfer-IsPayable refl
