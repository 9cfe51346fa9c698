-- ===== src/Network.antt =====
-- A peer's sockets (network/tcp.py, network/peer_state.py): sending to them, reading from one until
-- it ends, and the loop that keeps a connection to the relay. A socket is a number; what the system
-- calls on it give comes from outside.
pub mod Sends
pub mod Reads
pub mod Alone
pub mod Longer
mod Tests
use onyx_p2p_auction_system.Base.{
  ℕ, String, Bool, true, false, List, [], ◌∷◌, ◌++◌, nat_eq, if◌then◌else◌,
}
use onyx_p2p_auction_system.Peer.{Client, Library}
use onyx_p2p_auction_system.Transport.{Wire, Receiver, LineInputs, frame, receive}

-- `PeerState`, with what was written to sockets and which of them were closed
pub record PeerState : Type 0 where
  pub connections : List ℕ
  pub written : List (ℕ × List ℕ)
  pub closed : List ℕ

-- `xs.remove(x)` where `x in xs`, and nothing otherwise
unfoldable pub remove : ℕ → List ℕ → List ℕ
remove conn [] = []
remove conn (c ∷ rest) = let others = remove conn rest in if nat_eq c conn then rest else c ∷ others

unfoldable pub close : ℕ → PeerState → PeerState
close conn state = record state { closed = state.closed ++ conn ∷ [] }

-- one turn of the loop; `writable` tells the sockets on which `sendall` succeeds
unfoldable pub send_to_one : (ℕ → Bool) → List ℕ → ℕ → PeerState → PeerState
unfolding remove close
send_to_one writable bytes conn state =
    if writable conn
    then record state { written = state.written ++ (conn, bytes) ∷ [] }
    else close conn (record state { connections = remove conn state.connections })

unfoldable pub send_to_each : (ℕ → Bool) → List ℕ → List ℕ → PeerState → PeerState
unfolding send_to_one
send_to_each writable bytes [] state = state
send_to_each writable bytes (conn ∷ rest) state =
    send_to_each writable bytes rest (send_to_one writable bytes conn state)

-- `for conn in connections[:]`
unfoldable pub send_to_peers : Wire → (ℕ → Bool) → String → PeerState → PeerState
unfolding send_to_each
send_to_peers wire writable msg state =
    send_to_each writable (frame wire msg) state.connections state

-- What one turn of the reading loop meets: `recv` gives bytes, none at the end of the stream; its
-- timeout, with whether the stop event is set; an error of the socket.
pub data Recv : Type 0 where
  chunk : List ℕ → Recv
  timed_out : Bool → Recv
  broken : Recv

-- the state of the reading loop
pub data Loop : Type 0 where
  reading ended : Loop

module _ (library : Library) (wire : Wire) (inputs : LineInputs) where
  -- what a connection makes of a run of turns, and whether it has ended
  unfoldable pub handle_connection : List Recv → Receiver → Receiver × Loop
  handle_connection [] receiver = (receiver, reading)
  handle_connection (chunk [] ∷ rest) receiver = (receiver, ended)
  handle_connection (chunk (byte ∷ bytes) ∷ rest) receiver =
      handle_connection rest (receive library wire inputs (byte ∷ bytes) receiver)
  handle_connection (timed_out true ∷ rest) receiver = (receiver, ended)
  handle_connection (timed_out false ∷ rest) receiver = handle_connection rest receiver
  handle_connection (broken ∷ rest) receiver = (receiver, ended)

-- What `connect` gives.
pub data Connect : Type 0 where
  accepted refused failed : Connect

-- What one turn of `connect_to_relay` meets; `sends` are the calls of `send_to_peers` that other
-- threads make while the connection is open.
pub record Attempt : Type 0 where
  pub stopped : Bool
  pub conn : ℕ
  pub connect : Connect
  pub greeted : Bool
  pub sends : List ((ℕ → Bool) × String)
  pub events : List Recv

-- the thread's state: the sockets, the lines that it has read, and the client
pub record Link : Type 0 where
  pub state : PeerState
  pub lines : ℕ
  pub client : Client

unfoldable pub send_all : Wire → List ((ℕ → Bool) × String) → PeerState → PeerState
send_all wire [] state = state
send_all wire ((writable, msg) ∷ rest) state =
    send_all wire rest (send_to_peers wire writable msg state)

-- `finally`
unfoldable pub release : ℕ → PeerState → PeerState
unfolding remove close
release conn state = close conn (record state { connections = remove conn state.connections })

module _ (library : Library) (wire : Wire) (inputs : LineInputs) where
  -- behind `handle_connection`, which closes the socket too
  left_by : ℕ → PeerState → Receiver × Loop → Link × Loop
  unfolding release close
  left_by conn state (receiver, reading) =
      (record { state = state; lines = receiver.lines; client = receiver.client }, reading)
  left_by conn state (receiver, ended) = (
    record {
      state = release conn (close conn state);
      lines = receiver.lines;
      client = receiver.client;
    },
    ended,
  )

  -- every connection starts with an empty buffer
  talk : Attempt → PeerState → Link → Link × Loop
  unfolding left_by send_all
  talk attempt state link = left_by attempt.conn (send_all wire attempt.sends state) (
      handle_connection library wire inputs attempt.events
        (record { buffer = []; lines = link.lines; client = link.client }))

  -- `sendall` of the uuid
  greet : Attempt → PeerState → Link → Link × Loop
  unfolding talk release
  greet attempt state link =
      if attempt.greeted
      then talk attempt
          (record state {
            written = state.written ++ (attempt.conn, frame wire link.client.uuid) ∷ [];
          })
          link
      else (record link { state = release attempt.conn state }, ended)

  open_link : Connect → Attempt → Link → Link × Loop
  unfolding greet release
  open_link accepted attempt link =
      greet attempt
        (record link.state { connections = link.state.connections ++ attempt.conn ∷ [] }) link
  open_link _ attempt link = (record link { state = release attempt.conn link.state }, ended)

  -- with a connection there is nothing to do
  unless_connected : List ℕ → Attempt → Link → Link × Loop
  unfolding open_link
  unless_connected [] attempt link = open_link attempt.connect attempt link
  unless_connected (conn ∷ rest) attempt link = (link, ended)

  -- one turn of the loop
  unfoldable pub attempt_link : Attempt → Link → Link × Loop
  unfolding unless_connected
  attempt_link attempt link = unless_connected link.state.connections attempt link

  next_turn : (Link → Link × Loop) → Link × Loop → Link × Loop
  next_turn loop (later, reading) = (later, reading)
  next_turn loop (later, ended) = loop later

  -- `while not state.stop_event.is_set()`; a connection that goes on holds the loop
  unfoldable pub connect_to_relay : List Attempt → Link → Link × Loop
  unfolding attempt_link next_turn
  connect_to_relay [] link = (link, ended)
  connect_to_relay (attempt ∷ rest) link =
      let again = λ (later : Link). connect_to_relay rest later in
      if attempt.stopped then (link, ended) else next_turn again (attempt_link attempt link)
