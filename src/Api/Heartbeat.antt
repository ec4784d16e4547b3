-- ===== src/Api/Heartbeat.antt =====
-- The heartbeat of src/api.ts: clients that stop answering are dropped.
use proof_of_authority_block.Common.{
  ℕ, ◌≡◌, refl, true, false, List, [], ◌∷◌, map, arith, ◌==◌, if◌then◌else◌,
}
use proof_of_authority_block.Api.{Client, Api, beat_client, heartbeat, on_pong}
use proof_of_authority_block.Api.Chain.{is_open_to}

-- The listener of 'pong' on the list of clients.
abbrev answered : ℕ → List Client → List Client
answered id ks = map (λ (k : Client). if k.id == id then record k { is_alive = true } else k) ks

silent : (id : ℕ) (ks : List Client) → is_open_to id (map beat_client (map beat_client ks)) ≡ false
silent id [] = refl
silent id (k ∷ ks) = ground (arith, silent id ks)

answering :
    (id : ℕ) (ks : List Client)
    → is_open_to id (map beat_client (answered id (map beat_client ks)))
      ≡ is_open_to id (map beat_client ks)
answering id [] = refl
answering id (k ∷ ks) = ground (arith, answering id ks)

-- After two heartbeats without an answer in between, no client with the number in question has an
-- open socket; if the client answers in between, the second heartbeat leaves its socket as the
-- first has left it.
pub heartbeat_lem :
    (id : ℕ) (api : Api)
    → (is_open_to id (heartbeat (heartbeat api)).clients ≡ false)
      × (is_open_to id (heartbeat (on_pong id (heartbeat api))).clients
          ≡ is_open_to id (heartbeat api).clients)
unfolding heartbeat on_pong
heartbeat_lem id api = (silent id api.clients, answering id api.clients)
