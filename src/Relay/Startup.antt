-- ===== src/Relay/Startup.antt =====
-- How the relay accepts connections and stops: `start_relay_server` of relay_server.py.
use onyx_p2p_auction_system.Base.{
  ℕ, Bool, true, false, Option, none, some, List, [], ◌∷◌, ◌++◌, ◌≡◌, refl, sym, if◌then◌else◌,
}
use onyx_p2p_auction_system.Base.Dict.{keys}
use mathlib.Core.List.{append_assoc, append-nil}
use onyx_p2p_auction_system.Relay.{Relay}

-- What `accept` meets: a socket, its timeout, another exception, or the user's interrupt.
pub data Accept : Type 0 where
  connection : ℕ → Accept
  timeout failure interrupt : Accept

-- the sockets for which threads were started, whether `STOP_EVENT` is set, and what was closed
pub record RelayServer : Type 0 where
  pub threads : List ℕ
  pub stop_event : Bool
  pub listening : Bool
  pub closed : List ℕ

abbrev listening_server : RelayServer
listening_server = record { threads = []; stop_event = false; listening = true; closed = [] }

-- the `finally` block, with the table as it is then
shut_down : Relay → RelayServer → RelayServer
shut_down relay server = record server {
  stop_event = true;
  listening = false;
  closed = server.closed ++ keys relay.connections;
}

-- The loop ends at an interrupt only: nothing else sets `STOP_EVENT` before.
unfoldable pub accept_loop : List Accept → Relay → RelayServer → RelayServer
unfolding shut_down
accept_loop [] relay server = server
accept_loop (connection conn ∷ rest) relay server =
    accept_loop rest relay (record server { threads = server.threads ++ conn ∷ [] })
accept_loop (timeout ∷ rest) relay server = accept_loop rest relay server
accept_loop (failure ∷ rest) relay server = accept_loop rest relay server
accept_loop (interrupt ∷ rest) relay server = shut_down relay server

-- `none` where `bind` or `listen` raises; `relay` is the table at the end
unfoldable pub start_relay_server : Bool → List Accept → Relay → Option RelayServer
unfolding accept_loop
start_relay_server bound events relay =
    if bound then some (accept_loop events relay listening_server) else none

-- the sockets that were accepted
abbrev accepted_sockets : List Accept → List ℕ
accepted_sockets [] = []
accepted_sockets (connection conn ∷ rest) = conn ∷ accepted_sockets rest
accepted_sockets (_ ∷ rest) = accepted_sockets rest

abbrev IsNoInterrupt : List Accept → Type 0
IsNoInterrupt [] = Unit
IsNoInterrupt (interrupt ∷ rest) = ⊥
IsNoInterrupt (_ ∷ rest) = IsNoInterrupt rest

-- A server that runs until the user's interrupt starts a thread for each socket that was accepted
-- before, in order; then the threads are told to stop and the listening socket and every socket of
-- the table are closed, whatever would have come later.
pub accept_loop-shuts_down :
    (events rest : List Accept) (relay : Relay) (server : RelayServer)
    → IsNoInterrupt events
    → accept_loop (events ++ interrupt ∷ rest) relay server ≡ record server {
      threads = server.threads ++ accepted_sockets events;
      stop_event = true;
      listening = false;
      closed = server.closed ++ keys relay.connections;
    }
unfolding accept_loop shut_down
accept_loop-shuts_down [] rest relay server calm = rw (append-nil server.threads) refl
accept_loop-shuts_down (connection conn ∷ events) rest relay server calm =
    rw (sym (append_assoc server.threads (conn ∷ []) (accepted_sockets events))) (
      accept_loop-shuts_down events rest relay
        (record server { threads = server.threads ++ conn ∷ [] }) calm)
accept_loop-shuts_down (timeout ∷ events) rest relay server calm =
    accept_loop-shuts_down events rest relay server calm
accept_loop-shuts_down (failure ∷ events) rest relay server calm =
    accept_loop-shuts_down events rest relay server calm
accept_loop-shuts_down (interrupt ∷ events) rest relay server calm = elim calm [ ]
