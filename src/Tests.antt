-- ===== src/Tests.antt =====
-- Runs of the model at concrete inputs: one network, its messages, and the instances of the theorems.
mod World
mod Facts
mod Chain
mod Sync
mod Runs
mod Mempool
mod Accounts
mod Peers
mod Network
mod Clients
mod Keys
mod Wallets
mod Transfers
