-- ===== src/Relay/Delivery.antt =====
-- Who gets what from the relay.
use onyx_p2p_auction_system.Base.{
  ℕ, String, Bool, true, false, Option, none, some, List, [], ◌∷◌, ◌++◌, map, ◌≡◌, refl, ap, subst,
  ◌∙◌, arith, All, nat_eq, nat_eq_iff, if◌then◌else◌,
}
use mathlib.Core.List.{append_assoc, append-nil}
use onyx_p2p_auction_system.Base.Dict
use onyx_p2p_auction_system.Base.Dict.{Dict, keys, contains}
use onyx_p2p_auction_system.Peer.{Library}
use onyx_p2p_auction_system.Transport.{Wire, Receiver, LineInputs, frame}
use onyx_p2p_auction_system.Transport.Lines.{IsPart, concat, read_lines}
use onyx_p2p_auction_system.Transport.Chunks.{receive_all, receive_all-frames}
use onyx_p2p_auction_system.Relay.{
  Relay, started, socket_instance, register_uuid, broadcast, copies, hang_up,
}

-- One event at the relay: a socket that is not in the table sends its first bytes; one that is there
-- sends more, or is at its end.
pub data Step : Relay → Relay → Type 0 where
  connects :
      (relay : Relay) (conn : ℕ) (first : Option String)
      → contains conn relay.connections ≡ false
      → Step relay (register_uuid conn first relay)
  sends :
      (relay : Relay) (conn : ℕ) (msg : List ℕ)
      → contains conn relay.connections ≡ true
      → Step relay (broadcast conn msg relay)
  leaves :
      (relay : Relay) (conn : ℕ) (to_send : List ℕ)
      → contains conn relay.connections ≡ true
      → Step relay (hang_up conn to_send relay)

pub data Reach : Relay → Type 0 where
  start : Reach started
  next : {relay later : Relay} → Reach relay → Step relay later → Reach later

-- a socket among others
unfoldable pub is_among : ℕ → List ℕ → Bool
is_among c [] = false
is_among c (conn ∷ rest) = if nat_eq conn c then true else is_among c rest

abbrev pub Once : List ℕ → Type 0
Once [] = Unit
Once (conn ∷ rest) = (is_among conn rest ≡ false) × Once rest

-- what the relay wrote to a socket, call by call
unfoldable pub written : ℕ → List (ℕ × List ℕ) → List (List ℕ)
written c [] = []
written c ((conn, msg) ∷ rest) =
    let later = written c rest in if nat_eq conn c then msg ∷ later else later

pub is_among-insert :
    (c conn : ℕ) (uuid : String) (d : Dict ℕ String)
    → is_among c (keys (Dict.insert conn uuid d))
      ≡ (if nat_eq conn c then true else is_among c (keys d))
unfolding is_among Dict.insert
is_among-insert c conn uuid [] = ground arith
is_among-insert c conn uuid ((j, w) ∷ d) = ground (arith, is_among-insert c conn uuid d)

pub Once-insert :
    (conn : ℕ) (uuid : String) (d : Dict ℕ String)
    → Once (keys d)
    → Once (keys (Dict.insert conn uuid d))
unfolding is_among Dict.insert
Once-insert conn uuid [] once = (refl, tt)
Once-insert conn uuid ((j, w) ∷ d) once =
    ground (arith, is_among-insert j conn uuid d, Once-insert conn uuid d once.1)

pub is_among-erase :
    (c conn : ℕ) (d : Dict ℕ String)
    → is_among c (keys (Dict.erase conn d)) ≡ (if nat_eq conn c then false else is_among c (keys d))
unfolding is_among Dict.erase
is_among-erase c conn [] = ground arith
is_among-erase c conn ((j, w) ∷ d) = ground (arith, is_among-erase c conn d)

pub Once-erase : (conn : ℕ) (d : Dict ℕ String) → Once (keys d) → Once (keys (Dict.erase conn d))
unfolding is_among Dict.erase
Once-erase conn [] once = tt
Once-erase conn ((j, w) ∷ d) once =
    ground (arith, is_among-erase j conn d, Once-erase conn d once.1)

Step-Once :
    {relay later : Relay}
    → Step relay later
    → Once (keys relay.connections)
    → Once (keys later.connections)
unfolding register_uuid broadcast hang_up
Step-Once (connects relay conn none absent) once = once
Step-Once (connects relay conn (some uuid) absent) once =
    ground (arith, Once-insert conn uuid relay.connections once)
Step-Once (sends relay conn msg there) once = once
Step-Once (leaves relay conn to_send there) once = Once-erase conn relay.connections once

pub Reach-Once : {relay : Relay} → Reach relay → Once (keys relay.connections)
Reach-Once start = tt
Reach-Once (next before step) = Step-Once step (Reach-Once before)

pub written-append :
    (c : ℕ) (a b : List (ℕ × List ℕ)) → written c (a ++ b) ≡ written c a ++ written c b
unfolding written
written-append c [] b = refl
written-append c ((conn, msg) ∷ a) b = ground (arith, written-append c a b)

pub written-copies :
    (c conn : ℕ) (msg : List ℕ) (sockets : List ℕ)
    → Once sockets
    → written c (copies conn msg sockets)
      ≡ (if nat_eq c conn then [] else if is_among c sockets then msg ∷ [] else [])
unfolding written copies is_among
written-copies c conn msg [] once = ground arith
written-copies c conn msg (socket ∷ rest) once =
    ground (arith, written-copies c conn msg rest once.1, nat_eq_iff socket c)

-- In every state that the relay reaches, a chunk from a socket is written once to every other socket
-- of the table, and to no socket else: not back to its sender, and not twice to anybody.
pub broadcast-written :
    (relay : Relay) (c conn : ℕ) (msg : List ℕ)
    → Reach relay
    → let before = written c relay.sent in
      written c (broadcast conn msg relay).sent ≡ (
        if nat_eq c conn
        then before
        else if is_among c (keys relay.connections)
        then before ++ msg ∷ []
        else before)
unfolding broadcast
broadcast-written relay c conn msg reached =
    written-append c relay.sent (copies conn msg (keys relay.connections))
    ∙ ap (λ more. written c relay.sent ++ more)
        (written-copies c conn msg (keys relay.connections) (Reach-Once reached))
    ∙ by_tests (nat_eq c conn) (is_among c (keys relay.connections))
  where
    by_tests :
        (own there : Bool)
        → written c relay.sent ++ (if own then [] else if there then msg ∷ [] else []) ≡ (
            if own
            then written c relay.sent
            else if there
            then written c relay.sent ++ msg ∷ []
            else written c relay.sent)
    by_tests true there = simp append-nil
    by_tests false true = refl
    by_tests false false = simp append-nil

-- a peer's chunks, one after the other
pub forward : ℕ → List (List ℕ) → Relay → Relay
forward conn [] relay = relay
forward conn (chunk ∷ chunks) relay = forward conn chunks (broadcast conn chunk relay)

forward-written :
    (relay : Relay) (c conn : ℕ) (chunks : List (List ℕ))
    → Reach relay
    → contains conn relay.connections ≡ true
    → nat_eq c conn ≡ false
    → is_among c (keys relay.connections) ≡ true
    → written c (forward conn chunks relay).sent ≡ written c relay.sent ++ chunks
unfolding forward broadcast
forward-written relay c conn [] reached there other among = simp append-nil
forward-written relay c conn (chunk ∷ chunks) reached there other among =
    forward-written (broadcast conn chunk relay) c conn chunks
      (next reached (sends relay conn chunk there)) there other among
    ∙ ap (λ before. before ++ chunks) chunk_written
    ∙ simp append_assoc
  where
    chunk_written : written c (broadcast conn chunk relay).sent ≡ written c relay.sent ++ chunk ∷ []
    chunk_written =
        subst
          (λ own.
            written c (broadcast conn chunk relay).sent
            ≡ (if own then written c relay.sent else written c relay.sent ++ chunk ∷ []))
          other
          (subst
            (λ there. written c (broadcast conn chunk relay).sent ≡ (
              if nat_eq c conn
              then written c relay.sent
              else if there
              then written c relay.sent ++ chunk ∷ []
              else written c relay.sent))
            among (broadcast-written relay c conn chunk reached))

-- From a sender's `send_to_peers` to a receiver: if the relay gets the frames of some texts from one
-- socket, cut in any way, every other socket of its table is written chunks whose reader handles
-- just these texts, each once and in their order.
pub forward-read_lines :
    (library : Library) (wire : Wire) (inputs : LineInputs) (relay : Relay) (c conn : ℕ)
    (texts : List String) (chunks : List (List ℕ)) (receiver : Receiver)
    → Reach relay
    → contains conn relay.connections ≡ true
    → nat_eq c conn ≡ false
    → is_among c (keys relay.connections) ≡ true
    → receiver.buffer ≡ []
    → All (λ text. IsPart (wire.encode text)) texts
    → concat chunks ≡ concat (map (frame wire) texts)
    → (more : List (List ℕ)) × (written c (forward conn chunks relay).sent
        ≡ written c relay.sent ++ more)
      × (receive_all library wire inputs more receiver
          ≡ read_lines library wire inputs (map wire.encode texts) receiver)
forward-read_lines library wire inputs relay c conn texts chunks receiver reached there other among
      empty parts same =
    (
      chunks,
      forward-written relay c conn chunks reached there other among,
      receive_all-frames library wire inputs texts chunks receiver empty parts same,
    )
