-- ===== src/Client.antt =====
-- src/nodeClient.ts: a transfer from a wallet over the API of a node. What a request needs of the
-- server is an interface; the API fills it.
pub mod Transfer
use proof_of_authority_block.Common.{ℕ, String, Option, Result, ok, err}
use proof_of_authority_block.Common.Int.{ℤ, pos}
use proof_of_authority_block.Json.{Value, num, int, str}
use proof_of_authority_block.Crypto.{NodeCrypto, KeyPair}
use proof_of_authority_block.Transaction.{Transaction}
use proof_of_authority_block.Blockchain.{Config}
use proof_of_authority_block.Api.{
  AccountInfo, ApiError, Reply, account_reply, internal_error, Api, get_account_reply,
  submit_transaction,
}
use proof_of_authority_block.Wallet.{Wallet, SigningError, create_transaction}

-- The ways in which `send` fails: the server's error, no answer, or a refusal of the wallet.
pub data ClientError : Type 0 where
  server_error : ApiError → ClientError
  no_answer : ClientError
  not_signed : SigningError → ClientError

-- The requests that the client makes of a server with states `S`.
pub record Service (S : Type 0) : Type 0 where
  pub get_account : S → String → Result ClientError AccountInfo
  pub submit_transaction : S → Value → S × Result ClientError (Unit {0})

abbrev pub after_submission :
    Transaction → Result ClientError (Unit {0}) → Result ClientError Transaction
after_submission tx (ok _) = ok tx
after_submission tx (err e) = err e

-- `send`; `date` is what `Date.now()` shows.
unfoldable pub send :
    {S : Type 0}
    → NodeCrypto
    → Service S
    → ℤ
    → Wallet
    → Value
    → Value
    → S
    → S × Result ClientError Transaction
send c service date w to amount s = elim (service.get_account s w.ks.address) [
  | err e ↦ (s, err e)
  | ok account ↦ elim (create_transaction c date w to amount (num (int (pos account.next_nonce)))) [
    | err e ↦ (s, err (not_signed e))
    | ok tx ↦
        let (s', result) = service.submit_transaction s tx.object in
        (s', after_submission tx result)
  ]
]

abbrev account_of : Result ApiError Reply → Result ClientError AccountInfo
account_of (ok (account_reply account)) = ok account
account_of (ok _) = err no_answer
account_of (err e) = err (server_error e)

abbrev submission_of : Result ApiError Reply → Result ClientError (Unit {0})
submission_of (ok _) = ok tt
submission_of (err e) = err (server_error e)

-- The requests, answered by the API at once. `date` and `now` are the clocks of the server.
abbrev pub api_service : NodeCrypto → Config → Option KeyPair → ℕ → ℕ → Service Api
api_service c cfg my_keys date now = record {
  get_account = λ api address. account_of (get_account_reply (str address) api.node.blockchain);
  submit_transaction = λ api transaction.
      let (api', result) = submit_transaction c cfg my_keys date now transaction api in
      (api', submission_of result);
}
