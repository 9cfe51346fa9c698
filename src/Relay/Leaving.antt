-- ===== src/Relay/Leaving.antt =====
-- A peer hangs up: the relay tells the CA, and the others get the new group key.
use onyx_p2p_auction_system.Base.{
  ℕ, String, Bool, true, false, some, List, [], ◌∷◌, ◌++◌, ◌≡◌, refl, sym, ap, subst, ◌∙◌, arith,
  All, nat_eq_iff, if◌then◌else◌, ⊤,
}
use mathlib.Core.List.{append-nil}
use onyx_p2p_auction_system.Base.Dict
use onyx_p2p_auction_system.Base.Dict.{keys}
use onyx_p2p_auction_system.Base.Exec.{Result, ok}
use onyx_p2p_auction_system.Peer.{Client, Library, Message}
use onyx_p2p_auction_system.Peer.Process.{process_message}
use onyx_p2p_auction_system.Peer.Process.Rotates.{rotation}
use onyx_p2p_auction_system.Ca.{Ca, Draws, Authority}
use onyx_p2p_auction_system.Ca.Queries.{without, user_exists}
use onyx_p2p_auction_system.Ca.Api.{encrypt_for_all}
use onyx_p2p_auction_system.Ca.Rotation.{IsOaep, HasPem, has_pem, pems_of, leave_network-rotates}
use onyx_p2p_auction_system.Transport.{Wire, Receiver, LineInputs, frame, handle_line, read_line}
use onyx_p2p_auction_system.Transport.Lines.{read_lines}
use onyx_p2p_auction_system.Transport.Chunks.{receive_all, receive_all-frames}
use onyx_p2p_auction_system.Transport.Sealed.{IsLine, handle_line-sealed}
use onyx_p2p_auction_system.Relay.{
  Relay, socket_instance, hang_up, copies_to_all, peer_left, leaving_text,
}
use onyx_p2p_auction_system.Relay.Delivery.{
  Reach, Once, is_among, written, written-append, Reach-Once, Once-erase, is_among-erase,
}

pub written-copies_to_all :
    (c : ℕ) (msg : List ℕ) (sockets : List ℕ)
    → Once sockets
    → written c (copies_to_all msg sockets) ≡ (if is_among c sockets then msg ∷ [] else [])
unfolding written copies_to_all is_among
written-copies_to_all c msg [] once = ground arith
written-copies_to_all c msg (socket ∷ rest) once =
    ground (arith, written-copies_to_all c msg rest once.1, nat_eq_iff socket c)

-- Who is told that a peer hung up: exactly the sockets that are left, each once.
pub hang_up-written :
    (relay : Relay) (c conn : ℕ) (to_send : List ℕ)
    → Reach relay
    → let after = hang_up conn to_send relay in
      (is_among conn (keys after.connections) ≡ false)
      × (written c after.sent ≡ (
          if is_among c (keys after.connections)
          then written c relay.sent ++ to_send ∷ []
          else written c relay.sent))
unfolding hang_up
hang_up-written relay c conn to_send reached = (
  ground (arith, is_among-erase conn conn relay.connections),
  written-append c relay.sent (copies_to_all to_send (keys (Dict.erase conn relay.connections)))
      ∙ ap (λ more. written c relay.sent ++ more)
          (written-copies_to_all c to_send (keys (Dict.erase conn relay.connections))
            (Once-erase conn relay.connections (Reach-Once reached)))
      ∙ by_test (is_among c (keys (Dict.erase conn relay.connections))),
)
  where
    by_test :
        (there : Bool)
        → written c relay.sent ++ (if there then to_send ∷ [] else [])
          ≡ (if there then written c relay.sent ++ to_send ∷ [] else written c relay.sent)
    by_test true = refl
    by_test false = simp append-nil

-- A peer hangs up at a relay whose CA has a group key: the CA takes a new one and forgets the user;
-- the relay writes one frame to each socket that is left; and a peer that has the old group key and
-- an empty buffer, and reads this frame, has the CA's new key behind it if its public key is that of
-- a remaining user, and otherwise stays as it was.
pub peer_left-rotates :
    (authority : Authority) (library : Library) (public : String → String)
    → IsOaep authority.rsa_encrypt library.rsa_decrypt public
    → (wire : Wire) (inputs : LineInputs) (draws : Draws) (nonce uuid old : String) (ca : Ca)
      (relay : Relay) (c conn : ℕ) (receiver : Receiver)
    → ca.key_group ≡ some old
    → All (HasPem public) (without uuid ca.db.users)
    → ((list : List String)
        → encrypt_for_all authority draws.fresh_group_key (pems_of (without uuid ca.db.users))
          ≡ ok list
        → IsLine wire old nonce (rotation list))
    → Reach relay
    → receiver.buffer ≡ []
    → receiver.client.group_key ≡ old
    → let (to_send, after) = peer_left authority wire draws nonce uuid ca in
      let rest = hang_up conn to_send relay in
      (after.key_group ≡ some draws.fresh_group_key)
      × (user_exists after.db uuid ≡ false)
      × (written c rest.sent ≡ (
          if is_among c (keys rest.connections)
          then written c relay.sent ++ to_send ∷ []
          else written c relay.sent))
      × ((receive_all library wire inputs (to_send ∷ []) receiver).client ≡ record receiver.client {
        group_key =
            if has_pem (public receiver.client.private_key) after.db.users
            then draws.fresh_group_key
            else receiver.client.group_key;
      })
unfolding peer_left leaving_text read_lines read_line
peer_left-rotates authority library public oaep wire inputs draws nonce uuid old ca relay c conn
      receiver e h is_line reached empty held =
    let (list, after, e_list, left, key, gone, taken) =
      leave_network-rotates authority library public oaep draws uuid old ca e h in
    rw left (
      key,
      gone,
      (hang_up-written relay c conn (frame wire (wire.seal old nonce (rotation list))) reached).1,
      reads (rotation list) (is_line list e_list) _ (taken _ receiver.client),
    )
  where
    reads :
        (m : Message)
        → IsLine wire old nonce m
        → (later : Client)
        → process_message library (inputs receiver.lines).0 (some m) receiver.client
          ≡ (ok tt, later)
        → (receive_all library wire inputs
            (frame wire (wire.seal old nonce m) ∷ [])
            receiver).client
          ≡ later
    reads m line later taken =
        ap (λ (r : Receiver). r.client)
          (receive_all-frames library wire inputs (wire.seal old nonce m ∷ [])
            (frame wire (wire.seal old nonce m) ∷ []) receiver empty (line.one_line, tt) refl)
        ∙ subst
            (λ key.
              handle_line library wire (inputs receiver.lines) (wire.encode (wire.seal key nonce m))
                receiver.client
              ≡ (process_message library (inputs receiver.lines).0 (some m) receiver.client).1)
            held
            (handle_line-sealed library wire (inputs receiver.lines).0 (inputs receiver.lines).1
              nonce m receiver.client (subst (λ key. IsLine wire key nonce m) (sym held) line))
        ∙ ap (λ (out : Result ⊤ × Client). out.1) taken
