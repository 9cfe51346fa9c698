-- ===== src/Network/Alone.antt =====
-- The loop that keeps a connection to the relay has one connection at most.
use onyx_p2p_auction_system.Base.{
  ℕ, ◌≤◌, String, Bool, true, false, List, [], ◌∷◌, ◌++◌, ◌≡◌, refl, sym, subst, arith, length,
  nat_eq_iff, if◌then◌else◌,
}
use onyx_p2p_auction_system.Peer.{Library}
use onyx_p2p_auction_system.Transport.{Wire, frame, Receiver, LineInputs}
use onyx_p2p_auction_system.Network.{
  PeerState, remove, close, send_to_peers, Loop, reading, ended, Connect, accepted, refused, failed,
  Attempt, Link, send_all, release, left_by, talk, greet, open_link, unless_connected, attempt_link,
  next_turn, connect_to_relay, handle_connection,
}
use onyx_p2p_auction_system.Network.Sends.{kept, send_to_peers-kept}

-- no connection, or the socket of the turn
abbrev Within : ℕ → List ℕ → Type 0
Within conn [] = Unit
Within conn (c ∷ []) = c ≡ conn
Within conn (c ∷ d ∷ rest) = ⊥

kept-Within :
    (writable : ℕ → Bool) (conn : ℕ) (conns : List ℕ)
    → Within conn conns
    → Within conn (kept writable conns)
kept-Within writable conn [] h = tt
kept-Within writable conn (c ∷ []) h = by_test (writable c)
  where
    by_test : (works : Bool) → Within conn (if works then c ∷ [] else [])
    by_test true = h
    by_test false = tt
kept-Within writable conn (c ∷ d ∷ rest) h = absurd h

send_all-Within :
    (wire : Wire) (conn : ℕ) (sends : List ((ℕ → Bool) × String)) (state : PeerState)
    → Within conn state.connections
    → Within conn (send_all wire sends state).connections
unfolding send_all
send_all-Within wire conn [] state h = h
send_all-Within wire conn ((writable, msg) ∷ rest) state h =
    send_all-Within wire conn rest (send_to_peers wire writable msg state) (
      subst (Within conn) (sym (send_to_peers-kept wire writable msg state).0)
        (kept-Within writable conn state.connections h))

remove-Within : (conn : ℕ) (conns : List ℕ) → Within conn conns → remove conn conns ≡ []
unfolding remove
remove-Within conn [] h = refl
remove-Within conn (c ∷ []) h = ground (arith, nat_eq_iff c conn)
remove-Within conn (c ∷ d ∷ rest) h = absurd h

-- At most one connection, and none between two turns.
pub record IsAlone (out : Link × Loop) : Type 0 where
  pub one : length out.0.state.connections ≤ 1
  pub none_between : out.1 ≡ ended → out.0.state.connections ≡ []

length-Within : (conn : ℕ) (conns : List ℕ) → Within conn conns → length conns ≤ 1
length-Within conn [] h = omega arith
length-Within conn (c ∷ []) h = omega arith
length-Within conn (c ∷ d ∷ rest) h = absurd h

empty-IsAlone : (link : Link) → link.state.connections ≡ [] → IsAlone (link, ended)
empty-IsAlone link empty = record { one = rw empty (omega arith); none_between = λ e. empty }

module _ (library : Library) (wire : Wire) (inputs : LineInputs) where
  left_by-IsAlone :
      (conn : ℕ) (state : PeerState) (out : Receiver × Loop)
      → Within conn state.connections
      → IsAlone (left_by library wire inputs conn state out)
  unfolding left_by release close
  left_by-IsAlone conn state (receiver, reading) h = record {
    one = length-Within conn state.connections h;
    none_between = λ e. absurd (cc e);
  }
  left_by-IsAlone conn state (receiver, ended) h =
      empty-IsAlone _ (remove-Within conn state.connections h)

  released-IsAlone :
      (attempt : Attempt) (state : PeerState) (link : Link)
      → Within attempt.conn state.connections
      → IsAlone (record link { state = release attempt.conn state }, ended)
  unfolding release close
  released-IsAlone attempt state link h =
      empty-IsAlone _ (remove-Within attempt.conn state.connections h)

  greet-IsAlone :
      (attempt : Attempt) (state : PeerState) (link : Link)
      → Within attempt.conn state.connections
      → IsAlone (greet library wire inputs attempt state link)
  unfolding greet talk
  greet-IsAlone attempt state link h =
      by_test attempt.greeted
        (left_by-IsAlone attempt.conn (send_all wire attempt.sends greeted)
          (handle_connection library wire inputs attempt.events
            (record { buffer = []; lines = link.lines; client = link.client }))
          (send_all-Within wire attempt.conn attempt.sends greeted h))
        (released-IsAlone attempt state link h)
    where
      greeted : PeerState
      greeted = record state {
        written = state.written ++ (attempt.conn, frame wire link.client.uuid) ∷ [];
      }

      by_test :
          {x y : Link × Loop} (test : Bool)
          → IsAlone x
          → IsAlone y
          → IsAlone (if test then x else y)
      by_test true hx hy = hx
      by_test false hx hy = hy

  open_link-IsAlone :
      (connect : Connect) (attempt : Attempt) (link : Link)
      → link.state.connections ≡ []
      → IsAlone (open_link library wire inputs connect attempt link)
  unfolding open_link
  open_link-IsAlone accepted attempt link empty = greet-IsAlone attempt _ link (rw empty refl)
  open_link-IsAlone refused attempt link empty =
      released-IsAlone attempt link.state link (rw empty tt)
  open_link-IsAlone failed attempt link empty =
      released-IsAlone attempt link.state link (rw empty tt)

  attempt_link-IsAlone :
      (attempt : Attempt) (link : Link)
      → link.state.connections ≡ []
      → IsAlone (attempt_link library wire inputs attempt link)
  unfolding attempt_link unless_connected
  attempt_link-IsAlone attempt link empty =
      subst (λ conns. IsAlone (unless_connected library wire inputs conns attempt link)) (sym empty)
        (open_link-IsAlone attempt.connect attempt link empty)

  -- From a state without connections, the loop never has more than one, and none whenever it is not
  -- in a connection, whatever other threads send, whether `connect` or the greeting fails, and
  -- however connections end.
  pub connect_to_relay-IsAlone :
      (attempts : List Attempt) (link : Link)
      → link.state.connections ≡ []
      → IsAlone (connect_to_relay library wire inputs attempts link)
  unfolding connect_to_relay next_turn
  connect_to_relay-IsAlone [] link empty = empty-IsAlone link empty
  connect_to_relay-IsAlone (attempt ∷ rest) link empty =
      by_test attempt.stopped (attempt_link library wire inputs attempt link)
        (attempt_link-IsAlone attempt link empty) (λ later. connect_to_relay-IsAlone rest later)
    where
      by_test :
          (stopped : Bool) (out : Link × Loop)
          → IsAlone out
          → ((later : Link)
              → later.state.connections ≡ []
              → IsAlone (connect_to_relay library wire inputs rest later))
          → IsAlone (
              if stopped
              then (link, ended)
              else next_turn library wire inputs (connect_to_relay library wire inputs rest) out)
      by_test true out alone again = empty-IsAlone link empty
      by_test false (later, reading) alone again = alone
      by_test false (later, ended) alone again = again later (alone.none_between refl)
