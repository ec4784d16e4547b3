-- ===== src/Lib.antt =====
-- A proof-of-authority blockchain node.
--
-- The program is a node of a small network. Validators own time slots in rotation
-- (src/validatorSet.ts); in its slot a validator builds and signs a block of pending transactions
-- (src/block.ts, src/node.ts, src/api.ts); every node validates blocks and transactions, keeps the
-- chain, the pool of pending transactions and the accounts that the chain leads to
-- (src/blockchain.ts, src/state.ts, src/transaction.ts), and remembers the addresses of its peers
-- (src/peerTable.ts). Nodes exchange blocks, transactions and chains over sockets, after a handshake
-- (src/p2p.ts).
--
-- The files, each with the code that it models:
--
--   Common         helpers: tests, lists, results, Maps (Common/Dict), sorting, signed integers
--   Json           parsed JSON values, and JSON.stringify on them
--   Crypto         src/crypto.ts: sha256, sign, verify, canonicalPublicKeyPem, addressFromPublicKey;
--                  Crypto/Digest says of which digests addresses are made
--   Keystore       src/crypto.ts: the keystore functions; Keystore/Hex and Keystore/Tools say what Node
--                  does for them, Keystore/Shape is about reading, Keystore/Unlock and Keystore/Create are about
--                  unlocking and creating
--   Wallet         src/wallet.ts; Wallet/Store is src/walletStore.ts; Wallet/Files is about keystores,
--                  Wallet/Signing about transfers
--   Transaction    src/transaction.ts and src/types.ts; Transaction/Shape and
--                  Transaction/Verify are about verifyTransaction
--   State          src/state.ts: State/Step has the operations, Apply, Ledger and Supply their effect
--   Client         src/nodeClient.ts: `send`, over the interface `Service`, which `api_service` fills with
--                  the API; Client/Transfer follows a transfer into the pool
--   ValidatorSet   src/validatorSet.ts; ValidatorSet/Rotation is about the rotation
--   Block          src/block.ts
--   Blockchain     src/blockchain.ts and src/storage.ts. Types has the fields and the slot arithmetic,
--                  Mempool the pool, Consensus validation and chains, Startup the constructor; the
--                  other children hold what relates them
--   Proposer       the timer of src/node.ts and the `propose` method of src/api.ts
--   PeerTable      src/peerTable.ts: Address and Table have the methods, Members the sets of addresses;
--                  the other children hold what relates them
--   P2p            src/p2p.ts: Types has the sockets, messages and fields, Dialing, Messages, Handshake,
--                  Lifecycle, Listeners and Info the methods; Gossip, Runs and Compatible are about
--                  messages and about HELLO, Twins about two connections to one node
--   Api            src/api.ts: Types has the fields and the status, Publish the pushes, Texts the texts that
--                  are made of values, Methods the object `handlers`, Server the listeners and the heartbeat; the other children hold what
--                  relates them
--   Tests          concrete runs
--
-- How code becomes definitions. A method is a function by clauses from the state to the new state and
-- its result; its name is the source's in lower case with underscores (addBlock is `add_block`). A
-- record field is a field of the class, and what the constructor fixes for good is in `Config`. The
-- reason texts of refusals are constructors (`PoolError`, `BlockError`, `ChainError`, `TxError`,
-- `StateError`, `ApiError`, `KeystoreError`, `SigningError`, `StoreError`). An uncaught exception is `none`. Events that a method emits are appended to `events`
-- and what it writes to disk is in `disk`. `Date.now()` is read once in a call and is an argument
-- (`date`), as is the clock of the mempool (`now`). A loop is structural recursion over the list that
-- it walks. Two count on fuel: `getNextNonce`, one round more than there are pending transactions, which
-- is enough since every round passes one, and the printing of a number in Json, one round more than its
-- value, which is enough since it has fewer digits.
--
-- How the parts meet. `Blockchain.Reach.Reachable` are the nodes that can come to be, by starts, calls and
-- restarts in any order. The messages of peers (P2p/Runs), the requests of clients (Api/Requests) and the
-- proposal timer (Proposer/Running) act on such a node, and Client/Transfer follows a transfer from a wallet
-- over the API into its pool.
--
-- Numbers. Amounts, nonces, balances, indices and times are natural numbers, timestamps of transactions
-- and slots are integers, and `%` on a negative slot is written out as JavaScript has it. Sums are exact
-- in the model, as they are in the source for safe integers.
--
-- Parameters. Node's crypto module is a record of functions (`NodeCrypto`), where a generated key pair is
-- assumed only to verify what it signs (`IsKeyPair`). What else the keystore calls of it and of Buffer is
-- a second record (`KeyTools`), with the documented behaviour in `IsKeyTools`: how bytes are printed in
-- hexadecimal and read, what AES-GCM gives back, and, for a generated pair (`IsGenerated`), what ECDH
-- makes of the 32 bytes of its number, which DER is printed as its public key and which JWK as its
-- private key. That a digest is 64 digits in hexadecimal is `IsDigest`. The platform's `URL` is a function (`UrlParser`), and
-- whether the constructor of WebSocket throws is one (`opens`). What a node sends is in its
-- `outbox`, and so is what the API sends to its clients. The API calls the listeners of the chain's events after the method
-- that emits, which emits as the last thing it does. The files of the directory `keys` are an argument.
--
-- "A chain that replays from this network's genesis block" is meant as the code tests it: block 0 has
-- index 0 and carries the hash of this network's genesis block, its other fields may differ, and the
-- blocks after it are validated and applied to the genesis accounts.
--
-- Not modelled: received blocks whose fields have other types than declared, save for null, undefined and
-- a value of `transactions` that is no array, so also blocks whose index or timestamp is a fraction, a
-- negative number or a text, some of which the code accepts; failures of the disk; the texts of errors; the zeroing of
-- key bytes; `start` and the pings of the heartbeat of src/p2p.ts; the start of src/node.ts, which reads
-- the environment; the socket of a request in src/nodeClient.ts; src/nodeInfo.ts, which is a file; the
-- scripts.
pub mod Common
pub mod Json
pub mod Crypto
pub mod Keystore
pub mod Wallet
pub mod Client
pub mod Transaction
pub mod State
pub mod ValidatorSet
pub mod Block
pub mod Blockchain
pub mod Proposer
pub mod PeerTable
pub mod P2p
pub mod Api
pub mod Tests
