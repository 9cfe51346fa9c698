-- ===== src/Relay/Monitored.antt =====
-- relay_monitor_server.py: the relay with its calls of the monitor, which repeats the code of
-- relay_server.py.
use onyx_p2p_auction_system.Base.{
  ℕ, String, true, false, Option, none, some, List, [], ◌∷◌, ◌++◌, ◌≡◌, ◌≢◌, ◌∙◌, arith, nat_eq,
  nat_eq_iff, str_eq, str_eq_iff, if◌then◌else◌,
}
use onyx_p2p_auction_system.Base.Dict
use onyx_p2p_auction_system.Base.Dict.{Dict, keys, contains, lookup-insert_ne, lookup-erase}
use onyx_p2p_auction_system.Monitor
use onyx_p2p_auction_system.Monitor.{
  RelayMonitor, log_connection, log_message, remove_uuid, is_active,
}
use onyx_p2p_auction_system.Monitor.Spoofing.{register_uuid-forgets}
use onyx_p2p_auction_system.Relay.{socket_instance}

-- `RELAY_CONNECTIONS`, the calls of `sendall`, and `MONITOR`
pub record Server : Type 0 where
  pub connections : Dict ℕ String
  pub sent : List (ℕ × List ℕ)
  pub monitor : RelayMonitor

-- The first bytes of a socket, once its address is logged: `none` if reading them raises.
unfoldable pub named : String → ℕ → Option String → Server → Server
named ip conn none server = server
named ip conn (some user_uuid) server = if str_eq user_uuid "" then server else record server {
  monitor = Monitor.register_uuid user_uuid ip server.monitor;
  connections = Dict.insert conn user_uuid server.connections;
}

-- a socket from an address
unfoldable pub connected : String → ℕ → Option String → Server → Server
unfolding named
connected ip conn first server =
    named ip conn first (record server { monitor = log_connection ip server.monitor })

-- the `for` loop of a broadcast
to_others : ℕ → List ℕ → List ℕ → List (ℕ × List ℕ)
to_others conn msg [] = []
to_others conn msg (c ∷ rest) =
    let later = to_others conn msg rest in if nat_eq c conn then later else (c, msg) ∷ later

-- a chunk
unfoldable pub relayed : ℕ → String → List ℕ → Server → Server
unfolding to_others
relayed conn user_uuid msg server = record server {
  monitor = log_message user_uuid server.monitor;
  sent = server.sent ++ to_others conn msg (keys server.connections);
}

to_everybody : List ℕ → List ℕ → List (ℕ × List ℕ)
to_everybody to_send [] = []
to_everybody to_send (c ∷ rest) = (c, to_send) ∷ to_everybody to_send rest

-- the end of `handle_client`, for which `peer_left` gave `to_send`
unfoldable pub disconnected : ℕ → String → List ℕ → Server → Server
unfolding to_everybody
disconnected conn user_uuid to_send server =
    let connections = Dict.erase conn server.connections in
    record {
      connections = connections;
      sent = server.sent ++ to_everybody to_send (keys connections);
      monitor = remove_uuid user_uuid server.monitor;
    }

active-logged :
    (uuid ip : String) (monitor : RelayMonitor)
    → is_active uuid monitor.active_uuids ≡ true
    → is_active uuid (log_connection ip monitor).active_uuids ≡ true
unfolding log_connection
active-logged uuid ip monitor active = active

-- A peer is in the table under its uuid, and the monitor counts it as active. A second socket comes
-- with the same uuid and hangs up again: the peer is still in the table, but the monitor does not
-- count its uuid as active any more.
pub disconnected-forgets :
    (server : Server) (conn other : ℕ) (uuid ip : String) (to_send : List ℕ)
    → Dict.lookup conn server.connections ≡ some uuid
    → is_active uuid server.monitor.active_uuids ≡ true
    → other ≢ conn
    → uuid ≢ ""
    → uuid ≢ "NA"
    → let after = disconnected other uuid to_send (connected ip other (some uuid) server) in
      (Dict.lookup conn after.connections ≡ some uuid)
      × (is_active uuid after.monitor.active_uuids ≡ false)
unfolding connected named disconnected
disconnected-forgets server conn other uuid ip to_send there active distinct filled_in known =
    let filled : str_eq uuid "" ≡ false = ground (arith, str_eq_iff uuid "", filled_in) in
    let collision =
      register_uuid-forgets uuid ip ip (log_connection ip server.monitor)
        (active-logged uuid ip server.monitor active) known in
    (
      rw filled (
          lookup-erase other conn (Dict.insert other uuid server.connections)
          ∙ ground (arith, nat_eq_iff other conn)
          ∙ lookup-insert_ne other conn uuid server.connections distinct
          ∙ there),
      rw filled collision.1,
    )
