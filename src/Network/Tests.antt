-- ===== src/Network/Tests.antt =====
-- Sockets that fail, and a connection that is cut and taken up again.
use onyx_p2p_auction_system.Base.{ℕ, ◌≤◌, Bool, true, false, not, List, [], ◌∷◌, refl, nat_eq}
use onyx_p2p_auction_system.Peer.Toys.{toy, peer}
use onyx_p2p_auction_system.Transport.{newline}
use onyx_p2p_auction_system.Transport.Grows.{height_of}
use onyx_p2p_auction_system.Transport.Toys.{toy_wire, toy_inputs}
use onyx_p2p_auction_system.Network.{
  PeerState, chunk, timed_out, broken, accepted, refused, Attempt, Link, connect_to_relay,
}
use onyx_p2p_auction_system.Network.Alone.{IsAlone, connect_to_relay-IsAlone}
use onyx_p2p_auction_system.Network.Longer.{connect_to_relay-longer}

abbrev three_sockets : PeerState
three_sockets = record { connections = 1 ∷ 2 ∷ 3 ∷ []; written = []; closed = [] }

abbrev not_two : ℕ → Bool
not_two conn = not (nat_eq conn 2)

abbrev idle : Link
idle = record {
  state = record { connections = []; written = []; closed = [] };
  lines = 0;
  client = peer;
}

-- the relay is not there, and then the connection is cut within a line
abbrev attempts : List Attempt
attempts =
    record {
      stopped = false;
      conn = 1;
      connect = refused;
      greeted = false;
      sends = [];
      events = [];
    }
    ∷ record {
      stopped = false;
      conn = 2;
      connect = accepted;
      greeted = true;
      sends = (not_two, "hello") ∷ [];
      events = chunk (2 ∷ newline ∷ 2 ∷ []) ∷ timed_out false ∷ broken ∷ [];
    }
    ∷ []

connect_to_relay-IsAlone_example :
    IsAlone (connect_to_relay toy (toy_wire []) toy_inputs attempts idle)
connect_to_relay-IsAlone_example =
    connect_to_relay-IsAlone toy (toy_wire []) toy_inputs attempts idle refl

connect_to_relay-longer_example :
    height_of peer
    ≤ height_of (connect_to_relay toy (toy_wire []) toy_inputs attempts idle).0.client
connect_to_relay-longer_example = connect_to_relay-longer toy (toy_wire []) toy_inputs attempts idle
