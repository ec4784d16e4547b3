-- ===== src/P2p/Messages.antt =====
-- `handleMessage` of src/p2p.ts. `parse` and `opens` stand for `URL` and `WebSocket`, `date` and `now`
-- are what `Date.now()` and the clock of the mempool show.
use proof_of_authority_block.Common.{
  ℕ, String, Bool, true, false, not, List, [], ◌∷◌, map, Option, none, some, ◌||◌, ◌===◌, take,
  filter, if◌then◌else◌, Result, ok, err,
}
use proof_of_authority_block.Crypto.{NodeCrypto}
use proof_of_authority_block.Blockchain.{
  Config, BlockError, already_have, add_block, add_transaction, replace_chain,
}
use proof_of_authority_block.PeerTable.{UrlParser, PeerTable, add, verified}
use proof_of_authority_block.P2p.Types.{
  Socket, Message, Node, get_peers, peers, chain_request, chain_response, new_block,
  new_transaction, hello, send, broadcast,
}
use proof_of_authority_block.P2p.Dialing.{maintain_connections}

-- MAX_PEERS_PER_MESSAGE
abbrev pub max_peers_per_message : ℕ
max_peers_per_message = 50

-- `a !== socket.announcedAddress`
abbrev pub is_other : Option String → String → Bool
is_other none a = true
is_other (some announced) a = not (a === announced)

-- The loop of the PEERS case, with `added`.
unfoldable pub add_each : UrlParser → List (Option String) → PeerTable × Bool → PeerTable × Bool
add_each parse [] outcome = outcome
add_each parse (none ∷ rest) outcome = add_each parse rest outcome
add_each parse (some raw ∷ rest) (table, added) =
    let (table', now_added) = add parse table raw in
    add_each parse rest (table', now_added || added)

-- What the NEW_BLOCK case does with the result of `addBlock`.
abbrev pub after_add_block : Socket → Message → Node → Result BlockError (Unit {0}) → Node
after_add_block socket m node (ok _) = broadcast m (some socket) node
after_add_block socket m node (err already_have) = node
after_add_block socket m node (err _) = send socket chain_request node

module _ (parse : UrlParser) (opens : String → Bool) (c : NodeCrypto) (cfg : Config)
    (date now : ℕ) where
  -- `handleMessage`; `none` is a TypeError.
  unfoldable pub handle_message : Socket → Message → Node → Option Node
  handle_message socket (hello h) node = some node
  handle_message socket get_peers node =
      let others = filter (is_other socket.announced_address) (verified node.peer_table) in
      some (send socket (peers (some (map some (take max_peers_per_message others)))) node)
  handle_message socket (peers none) node = some node
  handle_message socket (peers (some raws)) node =
      let (table, added) =
        add_each parse (take max_peers_per_message raws) (node.peer_table, false) in
      let told = record node { peer_table = table } in
      some (if added then maintain_connections opens date told else told)
  handle_message socket chain_request node =
      some (send socket (chain_response (some (map some node.blockchain.chain))) node)
  handle_message socket (chain_response raw) node =
      some (record node { blockchain = (replace_chain c cfg date now node.blockchain raw).0 })
  handle_message socket (new_block raw) node = elim (add_block c cfg date now node.blockchain raw) [
    | none ↦ none
    | some (bc, result) ↦
        some (after_add_block socket (new_block raw) (record node { blockchain = bc }) result)
  ]
  handle_message socket (new_transaction v) node =
      let (bc, result) = add_transaction cfg c now node.blockchain v in
      let after = record node { blockchain = bc } in
      some
        (elim result [ ok _ ↦ broadcast (new_transaction v) (some socket) after | err e ↦ after ])
