-- ===== src/P2p/Info.antt =====
-- `getPeerInfo` of src/p2p.ts.
use proof_of_authority_block.Common.{
  ℕ, String, Bool, true, false, List, Option, none, some, map, filter, ◌&&◌,
}
use proof_of_authority_block.PeerTable.{PeerEntry, all_entries}
use proof_of_authority_block.P2p.Types.{Socket, Node, is_open}

-- An element of `connected`.
pub record Connection : Type 0 where
  pub address : Option String
  pub node_id : Option String
  pub is_outbound : Bool

pub record PeerInfo : Type 0 where
  pub node_id : String
  pub p2p_port : ℕ
  pub connected : List Connection
  pub known : List PeerEntry

abbrev pub is_connection : Socket → Bool
is_connection s = s.handshaken && is_open s

abbrev pub connection_of : Socket → Connection
connection_of s = record {
  address = s.announced_address;
  node_id = s.remote_node_id;
  is_outbound = elim (s.dial_address) [ none ↦ false | some _ ↦ true ];
}

-- `getPeerInfo`
unfoldable pub get_peer_info : Node → PeerInfo
get_peer_info node = record {
  node_id = node.node_id;
  p2p_port = node.p2p_port;
  connected = map connection_of (filter is_connection node.sockets);
  known = all_entries node.peer_table;
}
