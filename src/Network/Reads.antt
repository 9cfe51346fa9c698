-- ===== src/Network/Reads.antt =====
-- A connection read to its end is the chunks that came before the end.
use onyx_p2p_auction_system.Base.{ℕ, true, false, List, [], ◌∷◌, ◌++◌, ◌≡◌, refl, All}
use onyx_p2p_auction_system.Peer.{Library}
use onyx_p2p_auction_system.Transport.{Wire, Receiver, LineInputs, receive}
use onyx_p2p_auction_system.Transport.Chunks.{receive_all}
use onyx_p2p_auction_system.Network.{
  Recv, chunk, timed_out, broken, reading, ended, handle_connection,
}

-- The stream's end, a socket's error, or a timeout once the stop event is set.
abbrev pub Ends : Recv → Type 0
Ends (chunk []) = Unit
Ends (chunk (byte ∷ bytes)) = ⊥
Ends (timed_out stopped) = stopped ≡ true
Ends broken = Unit

-- the bytes of a turn
abbrev pub payload : Recv → List (List ℕ)
payload (chunk bytes) = bytes ∷ []
payload _ = []

abbrev pub payloads : List Recv → List (List ℕ)
payloads [] = []
payloads (turn ∷ rest) = payload turn ++ payloads rest

module _ (library : Library) (wire : Wire) (inputs : LineInputs) where
  -- As long as nothing ends the connection, the peer has what the chunks make of it; the first turn
  -- that does end it is the last that is read, whatever would come behind it.
  pub handle_connection-Ends :
      (before : List Recv) (last : Recv) (after : List Recv) (receiver : Receiver)
      → All (λ turn. ¬ Ends turn) before
      → Ends last
      → (handle_connection library wire inputs before receiver
          ≡ (receive_all library wire inputs (payloads before) receiver, reading))
        × (handle_connection library wire inputs (before ++ last ∷ after) receiver
            ≡ (receive_all library wire inputs (payloads before) receiver, ended))
  unfolding handle_connection receive_all
  handle_connection-Ends [] (chunk []) after receiver open_before end = (refl, refl)
  handle_connection-Ends [] (chunk (byte ∷ bytes)) after receiver open_before end = absurd end
  handle_connection-Ends [] (timed_out stopped) after receiver open_before end = rw end (refl, refl)
  handle_connection-Ends [] broken after receiver open_before end = (refl, refl)
  handle_connection-Ends (chunk [] ∷ before) last after receiver open_before end =
      absurd (open_before.0 tt)
  handle_connection-Ends (chunk (byte ∷ bytes) ∷ before) last after receiver open_before end =
      handle_connection-Ends before last after (receive library wire inputs (byte ∷ bytes) receiver)
        open_before.1 end
  handle_connection-Ends (timed_out true ∷ before) last after receiver open_before end =
      absurd (open_before.0 refl)
  handle_connection-Ends (timed_out false ∷ before) last after receiver open_before end =
      handle_connection-Ends before last after receiver open_before.1 end
  handle_connection-Ends (broken ∷ before) last after receiver open_before end =
      absurd (open_before.0 tt)
