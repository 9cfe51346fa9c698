-- ===== src/Network/Longer.antt =====
-- A peer's chain over all the connections that it has to the relay.
use onyx_p2p_auction_system.Base.{
  ℕ, ◌≤◌, Bool, true, false, List, [], ◌∷◌, ◌++◌, arith, if◌then◌else◌,
}
use onyx_p2p_auction_system.Peer.{Client, Library}
use onyx_p2p_auction_system.Transport.{Wire, frame, Receiver, LineInputs, receive}
use onyx_p2p_auction_system.Transport.Grows.{height_of, receive_all-longer}
use onyx_p2p_auction_system.Transport.Chunks.{receive_all}
use onyx_p2p_auction_system.Network.{
  PeerState, Recv, chunk, timed_out, broken, Loop, reading, ended, Connect, accepted, refused,
  failed, Attempt, Link, send_all, release, left_by, talk, greet, open_link, unless_connected,
  attempt_link, next_turn, connect_to_relay, handle_connection,
}

module _ (library : Library) (wire : Wire) (inputs : LineInputs) where
  handle_connection-longer :
      (turns : List Recv) (receiver : Receiver)
      → height_of receiver.client
        ≤ height_of (handle_connection library wire inputs turns receiver).0.client
  unfolding handle_connection receive_all
  handle_connection-longer [] receiver = omega arith
  handle_connection-longer (chunk [] ∷ rest) receiver = omega arith
  handle_connection-longer (chunk (byte ∷ bytes) ∷ rest) receiver = omega (
    arith,
    receive_all-longer library wire inputs ((byte ∷ bytes) ∷ []) receiver,
    handle_connection-longer rest (receive library wire inputs (byte ∷ bytes) receiver),
  )
  handle_connection-longer (timed_out true ∷ rest) receiver = omega arith
  handle_connection-longer (timed_out false ∷ rest) receiver =
      handle_connection-longer rest receiver
  handle_connection-longer (broken ∷ rest) receiver = omega arith

  -- no shorter chain than that of a client
  record IsLonger (before : Client) (out : Link × Loop) : Type 0 where
    longer : height_of before ≤ height_of out.0.client

  left_by-IsLonger :
      (conn : ℕ) (state : PeerState) (before : Client) (out : Receiver × Loop)
      → height_of before ≤ height_of out.0.client
      → IsLonger before (left_by library wire inputs conn state out)
  unfolding left_by
  left_by-IsLonger conn state before (receiver, reading) h = record { longer = h }
  left_by-IsLonger conn state before (receiver, ended) h = record { longer = h }

  same-IsLonger :
      (link : Link) (state : PeerState)
      → IsLonger link.client (record link { state = state }, ended)
  same-IsLonger link state = record { longer = omega arith }

  greet-IsLonger :
      (attempt : Attempt) (state : PeerState) (link : Link)
      → IsLonger link.client (greet library wire inputs attempt state link)
  unfolding greet talk
  greet-IsLonger attempt state link =
      by_test attempt.greeted
        (left_by-IsLonger attempt.conn (send_all wire attempt.sends greeted) link.client
          (handle_connection library wire inputs attempt.events fresh)
          (handle_connection-longer attempt.events fresh))
        (same-IsLonger link (release attempt.conn state))
    where
      greeted : PeerState
      greeted = record state {
        written = state.written ++ (attempt.conn, frame wire link.client.uuid) ∷ [];
      }

      fresh : Receiver
      fresh = record { buffer = []; lines = link.lines; client = link.client }

      by_test :
          {x y : Link × Loop} (test : Bool)
          → IsLonger link.client x
          → IsLonger link.client y
          → IsLonger link.client (if test then x else y)
      by_test true hx hy = hx
      by_test false hx hy = hy

  open_link-IsLonger :
      (connect : Connect) (attempt : Attempt) (link : Link)
      → IsLonger link.client (open_link library wire inputs connect attempt link)
  unfolding open_link
  open_link-IsLonger accepted attempt link = greet-IsLonger attempt _ link
  open_link-IsLonger refused attempt link = same-IsLonger link (release attempt.conn link.state)
  open_link-IsLonger failed attempt link = same-IsLonger link (release attempt.conn link.state)

  attempt_link-IsLonger :
      (conns : List ℕ) (attempt : Attempt) (link : Link)
      → IsLonger link.client (unless_connected library wire inputs conns attempt link)
  unfolding unless_connected
  attempt_link-IsLonger [] attempt link = open_link-IsLonger attempt.connect attempt link
  attempt_link-IsLonger (c ∷ rest) attempt link = same-IsLonger link link.state

  -- Whatever bytes the relay delivers over all the connections that a peer has to it one after the
  -- other, sealed or not, and however each of them ends, the peer's chain never gets shorter.
  pub connect_to_relay-longer :
      (attempts : List Attempt) (link : Link)
      → height_of link.client
        ≤ height_of (connect_to_relay library wire inputs attempts link).0.client
  unfolding connect_to_relay attempt_link next_turn
  connect_to_relay-longer [] link = omega arith
  connect_to_relay-longer (attempt ∷ rest) link =
      by_test attempt.stopped (attempt_link library wire inputs attempt link)
        (attempt_link-IsLonger link.state.connections attempt link)
        (λ later. connect_to_relay-longer rest later)
    where
      by_test :
          (stopped : Bool) (out : Link × Loop)
          → IsLonger link.client out
          → ((later : Link)
              → height_of later.client
                ≤ height_of (connect_to_relay library wire inputs rest later).0.client)
          → let after : Link × Loop =
              if stopped
              then (link, ended)
              else next_turn library wire inputs (connect_to_relay library wire inputs rest) out in
            height_of link.client ≤ height_of after.0.client
      by_test true out longer again = omega arith
      by_test false (later, reading) longer again = longer.longer
      by_test false (later, ended) longer again = omega (arith, longer.longer, again later)
