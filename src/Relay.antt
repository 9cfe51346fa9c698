-- ===== src/Relay.antt =====
-- relay_server.py: the relay's table of connections and what it writes to them. A socket is a
-- number; `sent` lists the calls of `sendall`, whose failures the relay ignores.
pub mod Delivery
pub mod Leaving
pub mod Monitored
pub mod Threads
pub mod Startup
mod Tests
use onyx_p2p_auction_system.Base.{
  ℕ, String, Bool, true, false, Option, none, some, List, [], ◌∷◌, ◌++◌, nat_eq, str_eq,
  if◌then◌else◌, nat_eq_iff,
}
use onyx_p2p_auction_system.Base.Eq.{HasEq}
use onyx_p2p_auction_system.Base.Dict
use onyx_p2p_auction_system.Base.Dict.{Dict, keys}
use onyx_p2p_auction_system.Base.Exec.{Result, ok, raised}
use onyx_p2p_auction_system.Peer.{Sent, sent}
use onyx_p2p_auction_system.Ca.{Ca, Draws, Authority}
use onyx_p2p_auction_system.Ca.Api.{leave_network}
use onyx_p2p_auction_system.Transport.{Wire, frame}

instance abbrev pub socket_instance : HasEq ℕ
socket_instance = record { equals = nat_eq; equals_iff = nat_eq_iff }

pub record Relay : Type 0 where
  -- `RELAY_CONNECTIONS`
  pub connections : Dict ℕ String
  pub sent : List (ℕ × List ℕ)

abbrev pub started : Relay
started = record { connections = []; sent = [] }

-- What the first `recv(1024)` gives, decoded and stripped; `none` if it raises. A connection without
-- a uuid is not entered.
unfoldable pub register_uuid : ℕ → Option String → Relay → Relay
register_uuid conn none relay = relay
register_uuid conn (some user_uuid) relay =
    if str_eq user_uuid ""
    then relay
    else record relay { connections = Dict.insert conn user_uuid relay.connections }

-- the `for` loop of a broadcast
unfoldable pub copies : ℕ → List ℕ → List ℕ → List (ℕ × List ℕ)
copies conn msg [] = []
copies conn msg (c ∷ rest) =
    let others = copies conn msg rest in if nat_eq c conn then others else (c, msg) ∷ others

unfoldable pub broadcast : ℕ → List ℕ → Relay → Relay
unfolding copies
broadcast conn msg relay = record relay {
  sent = relay.sent ++ copies conn msg (keys relay.connections);
}

-- `sendall` to everybody
unfoldable pub copies_to_all : List ℕ → List ℕ → List (ℕ × List ℕ)
copies_to_all to_send [] = []
copies_to_all to_send (c ∷ rest) = (c, to_send) ∷ copies_to_all to_send rest

-- the end of `handle_client`
unfoldable pub hang_up : ℕ → List ℕ → Relay → Relay
unfolding copies_to_all
hang_up conn to_send relay =
    let connections = Dict.erase conn relay.connections in
    record {
      connections = connections;
      sent = relay.sent ++ copies_to_all to_send (keys connections);
    }

-- `leave_network` of client/ca_handler/ca_message.py: what the CA sealed, or "{}"
unfoldable pub leaving_text : Wire → String → Result Sent → String
leaving_text wire nonce (raised error) = "{}"
leaving_text wire nonce (ok (sent key m)) = wire.seal key nonce m

-- `peer_left`: the CA is told, and its answer is what the others get
unfoldable pub peer_left : Authority → Wire → Draws → String → String → Ca → List ℕ × Ca
unfolding leaving_text
peer_left authority wire draws nonce uuid ca =
    let (r, after) = leave_network authority draws (some uuid) ca in
    (frame wire (leaving_text wire nonce r), after)
