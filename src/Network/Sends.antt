-- ===== src/Network/Sends.antt =====
-- What `send_to_peers` does to the sockets that are gone.
use onyx_p2p_auction_system.Base.{
  ℕ, String, Bool, true, false, not, List, [], ◌∷◌, ◌++◌, map, ◌≡◌, refl, sym, ap, subst, ◌∙◌,
  arith, nat_eq_iff, if◌then◌else◌, Bool-cases, inl, inr,
}
use mathlib.Core.List.{append_assoc, append-nil}
use onyx_p2p_auction_system.Transport.{Wire, frame}
use onyx_p2p_auction_system.Network.{
  PeerState, remove, close, send_to_one, send_to_each, send_to_peers,
}

-- the sockets that pass a test, in their order
abbrev pub kept : (ℕ → Bool) → List ℕ → List ℕ
kept test [] = []
kept test (conn ∷ rest) = let others = kept test rest in if test conn then conn ∷ others else others

module _ (writable : ℕ → Bool) (bytes : List ℕ) where
  -- the loop behind the sockets `before`, with the others still to come
  record IsSent (state : PeerState) (before conns : List ℕ) (after : PeerState) : Type 0 where
    connections : after.connections ≡ kept writable before ++ kept writable conns
    written : after.written ≡ state.written ++ map (λ conn. (conn, bytes)) (kept writable conns)
    closed : after.closed ≡ state.closed ++ kept (λ conn. not (writable conn)) conns

  -- A socket that fails is the first of its number behind those that did not fail.
  remove-kept :
      (conn : ℕ) (before rest : List ℕ)
      → writable conn ≡ false
      → remove conn (kept writable before ++ conn ∷ rest) ≡ kept writable before ++ rest
  unfolding remove
  remove-kept conn [] rest fails = ground (arith, nat_eq_iff conn conn)
  remove-kept conn (c ∷ before) rest fails =
      ground (arith, nat_eq_iff c conn, remove-kept conn before rest fails)

  kept-snoc :
      (before : List ℕ) (conn : ℕ) (rest : List ℕ)
      → writable conn ≡ true
      → kept writable (before ++ conn ∷ []) ++ rest ≡ kept writable before ++ conn ∷ rest
  kept-snoc [] conn rest works = ground arith
  kept-snoc (c ∷ before) conn rest works = ground (arith, kept-snoc before conn rest works)

  module _ (conn : ℕ) (state : PeerState) where
    wrote : PeerState
    wrote = record state { written = state.written ++ (conn, bytes) ∷ [] }

    dropped : PeerState
    unfolding close
    dropped = close conn (record state { connections = remove conn state.connections })

    one-works : writable conn ≡ true → send_to_one writable bytes conn state ≡ wrote
    unfolding send_to_one wrote
    one-works works = rw works refl

    one-fails : writable conn ≡ false → send_to_one writable bytes conn state ≡ dropped
    unfolding send_to_one dropped
    one-fails fails = rw fails refl

    works_first :
        (before rest : List ℕ) (after : PeerState)
        → writable conn ≡ true
        → IsSent wrote (before ++ conn ∷ []) rest after
        → IsSent state before (conn ∷ rest) after
    unfolding wrote
    works_first before rest after works ih = record {
      connections = rw works (ih.connections ∙ kept-snoc before conn (kept writable rest) works);
      written = rw works (ih.written ∙ append_assoc state.written _ _);
      closed = rw works ih.closed;
    }

    fails_first :
        (before rest : List ℕ) (after : PeerState)
        → writable conn ≡ false
        → IsSent dropped before rest after
        → IsSent state before (conn ∷ rest) after
    unfolding dropped
    fails_first before rest after fails ih = record {
      connections = rw fails ih.connections;
      written = rw fails ih.written;
      closed = rw fails (ih.closed ∙ append_assoc state.closed _ _);
    }

  send_to_each-IsSent :
      (before conns : List ℕ) (state : PeerState)
      → state.connections ≡ kept writable before ++ conns
      → IsSent state before conns (send_to_each writable bytes conns state)
  unfolding send_to_each wrote dropped close
  send_to_each-IsSent before [] state same = record {
    connections = same;
    written = sym (append-nil state.written);
    closed = sym (append-nil state.closed);
  }
  send_to_each-IsSent before (conn ∷ rest) state same = elim (Bool-cases (writable conn)) [
    | inl works ↦
        subst (λ first. IsSent state before (conn ∷ rest) (send_to_each writable bytes rest first))
          (sym (one-works conn state works))
          (works_first conn state before rest _ works (
            send_to_each-IsSent (before ++ conn ∷ []) rest (wrote conn state)
              (same ∙ sym (kept-snoc before conn rest works))))
    | inr fails ↦
        subst (λ first. IsSent state before (conn ∷ rest) (send_to_each writable bytes rest first))
          (sym (one-fails conn state fails))
          (fails_first conn state before rest _ fails (
            send_to_each-IsSent before rest (dropped conn state)
              (ap (remove conn) same ∙ remove-kept conn before rest fails)))
  ]

-- A message is written once to each connection on which `sendall` succeeds, in their order; these
-- stay, and the others are taken out of the list and closed.
pub send_to_peers-kept :
    (wire : Wire) (writable : ℕ → Bool) (msg : String) (state : PeerState)
    → let after = send_to_peers wire writable msg state in
      (after.connections ≡ kept writable state.connections)
      × (after.written
          ≡ state.written ++ map (λ conn. (conn, frame wire msg)) (kept writable state.connections))
      × (after.closed ≡ state.closed ++ kept (λ conn. not (writable conn)) state.connections)
unfolding send_to_peers
send_to_peers-kept wire writable msg state =
    let sent = send_to_each-IsSent writable (frame wire msg) [] state.connections state refl in
    (sent.connections, sent.written, sent.closed)
