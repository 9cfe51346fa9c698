-- ===== src/Relay/Tests.antt =====
-- A relay with three sockets.
use onyx_p2p_auction_system.Base.{
  ℕ, String, arith, str_eq_iff, true, false, none, some, nat_eq, List, [], ◌∷◌, ◌++◌, ◌≡◌, refl,
  subst, if◌then◌else◌,
}
use onyx_p2p_auction_system.Base.Dict
use onyx_p2p_auction_system.Base.Dict.{keys}
use onyx_p2p_auction_system.Peer.{Library}
use onyx_p2p_auction_system.Peer.Toys.{toy, peer}
use onyx_p2p_auction_system.Ca.{User, Ca, Draws}
use onyx_p2p_auction_system.Ca.Queries.{without, user_exists}
use onyx_p2p_auction_system.Ca.Rotation.{has_pem}
use onyx_p2p_auction_system.Ca.Api.{encrypt_for_all}
use onyx_p2p_auction_system.Ca.Toys.{toy_authority, toy_encrypt, pair, toy_decrypt, toy-IsOaep}
use onyx_p2p_auction_system.Transport.{newline, frame}
use onyx_p2p_auction_system.Transport.Lines.{read_lines}
use onyx_p2p_auction_system.Transport.Chunks.{receive_all}
use onyx_p2p_auction_system.Transport.Toys.{toy_wire, toy_inputs, reader, toy-IsLine}
use onyx_p2p_auction_system.Transport.Sealed.{IsLine}
use onyx_p2p_auction_system.Peer.Process.Rotates.{rotation}
use onyx_p2p_auction_system.Relay.{
  Relay, started, socket_instance, register_uuid, hang_up, peer_left,
}
use onyx_p2p_auction_system.Network.{chunk}
use onyx_p2p_auction_system.Monitor.{new_monitor}
use onyx_p2p_auction_system.Relay.Monitored.{
  Server, connected, named, disconnected, disconnected-forgets,
}
use onyx_p2p_auction_system.Monitor
use onyx_p2p_auction_system.Monitor.{is_active}
use onyx_p2p_auction_system.Relay.Threads.{Turn, act, run_threads}
use onyx_p2p_auction_system.Relay.Threads.Heard.{heard}
use onyx_p2p_auction_system.Relay.Threads.Heard.Runs.{threads, run_threads-heard}
use onyx_p2p_auction_system.Relay.Delivery.{
  Reach, connects, start, next, is_among, written, forward, forward-read_lines,
}
use onyx_p2p_auction_system.Relay.Leaving.{peer_left-rotates}

abbrev one : Relay
one = register_uuid 1 (some "u1") started

abbrev two : Relay
two = register_uuid 2 (some "u2") one

abbrev three : Relay
three = register_uuid 3 (some "u3") two

three-Reach : Reach three
unfolding register_uuid Dict.insert
three-Reach =
    next (next (next start (connects started 1 (some "u1") refl)) (connects one 2 (some "u2") refl))
      (connects two 3 (some "u3") refl)

-- the first sends a chunk and hangs up, the others are quiet
abbrev turns : ℕ → List Turn
turns conn =
    if nat_eq conn 1
    then record { stopped = false; got = chunk (5 ∷ []) }
      ∷ record { stopped = false; got = chunk [] }
      ∷ []
    else []

run_threads-heard_example :
    written 3
      (run_threads act
        (1 ∷ 2 ∷ 1 ∷ [])
        (threads (λ conn. none) (λ conn. 9 ∷ []) turns (λ conn. true))
        three).sent
    ≡ (5 ∷ []) ∷ (9 ∷ []) ∷ []
unfolding register_uuid Dict.insert is_among written heard
run_threads-heard_example =
    run_threads-heard (λ conn. none) (λ conn. 9 ∷ []) turns (λ conn. true) (1 ∷ 2 ∷ 1 ∷ []) 3 three
      three-Reach refl refl refl

-- the second socket of a uuid that is in the table
abbrev watched : Server
watched =
    connected "ip" 1 (some "u1") (record { connections = []; sent = []; monitor = new_monitor })

disconnected-forgets_example :
    let after = disconnected 2 "u1" [] (connected "ip" 2 (some "u1") watched) in
    (Dict.lookup 1 after.connections ≡ some "u1")
    × (is_active "u1" after.monitor.active_uuids ≡ false)
unfolding connected named Dict.insert Monitor.register_uuid Monitor.log_connection
disconnected-forgets_example =
    disconnected-forgets watched 1 2 "u1" "ip" [] refl refl (λ e. cc e)
      (λ e. ground (arith, (str_eq_iff "u1" "").1 e))
      (λ e. ground (arith, (str_eq_iff "u1" "NA").1 e))

forward-read_lines_example :
    (more : List (List ℕ)) × (written 3 (forward 1 ((2 ∷ []) ∷ (newline ∷ []) ∷ []) three).sent
      ≡ [] ++ more)
    × (receive_all toy (toy_wire []) toy_inputs more reader
        ≡ read_lines toy (toy_wire []) toy_inputs ((2 ∷ []) ∷ []) reader)
unfolding register_uuid Dict.insert is_among written frame
forward-read_lines_example =
    forward-read_lines toy (toy_wire []) toy_inputs three 3 1 ("hello" ∷ [])
      ((2 ∷ []) ∷ (newline ∷ []) ∷ []) reader three-Reach refl refl refl refl ((refl, tt), tt) refl

abbrev user_of : String → String → User
user_of uid pem = record {
  uid = uid;
  user_pub_pem = pem;
  csr_pem = pem;
  cert_pem = "cert";
  created_at = "t0";
  token_quota = 0;
}

-- the reader's key, and that of the peer that leaves
abbrev service : Ca
service = record {
  db = record { users = user_of "u1" "key" ∷ user_of "u2" "other" ∷ []; tokens = [] };
  key_group = some "group";
  key_group_bool = true;
  peer_sessions = [];
}

abbrev fresh : Draws
fresh = record {
  now = 100;
  iso = "t1";
  fresh_uid = "u3";
  fresh_token = λ i. ("a", "t1");
  fresh_group_key = "new";
  fresh_session_key = "s3";
}

abbrev receiver : Library
receiver = record toy { rsa_decrypt = toy_decrypt }

abbrev the_keys : List String
the_keys = pair "key" "new" ∷ []

peer_left-rotates_example :
    let (to_send, after) = peer_left toy_authority (toy_wire the_keys) fresh "n" "u2" service in
    let rest = hang_up 2 to_send three in
    (after.key_group ≡ some "new")
    × (user_exists after.db "u2" ≡ false)
    × (written 1 rest.sent ≡ (
        if is_among 1 (keys rest.connections)
        then written 1 three.sent ++ to_send ∷ []
        else written 1 three.sent))
    × ((receive_all receiver (toy_wire the_keys) toy_inputs (to_send ∷ []) reader).client
        ≡ record peer { group_key = if has_pem "key" after.db.users then "new" else "group" })
unfolding toy_authority toy_encrypt without encrypt_for_all
peer_left-rotates_example =
    peer_left-rotates toy_authority receiver (λ sk. sk) toy-IsOaep (toy_wire the_keys) toy_inputs
      fresh "n" "u2" "group" service three 1 2 reader refl (("key", refl), tt)
      (λ list e.
        subst (λ l. IsLine (toy_wire the_keys) "group" "n" (rotation l)) (cc e)
          (toy-IsLine the_keys "group" "n"))
      three-Reach refl refl
