-- ===== src/Transport/Chunks.antt =====
-- What a peer makes of chunks: how the network cut the bytes does not matter.
use onyx_p2p_auction_system.Base.{
  ℕ, none, List, [], ◌∷◌, ◌++◌, ◌≡◌, refl, sym, map, String, All, ap, subst, ◌∙◌, arith, length,
  length-append, ◌≢◌,
}
use mathlib.Core.List.{append_assoc, append_cancel_left}
use onyx_p2p_auction_system.Peer.{Library}
use onyx_p2p_auction_system.Transport.{
  Wire, Receiver, LineInputs, newline, frame, split_line, receive,
}
use onyx_p2p_auction_system.Transport.Lines.{
  concat, IsPart, split_line-IsPart, feed_all, feed_all-append, feed_all-IsPart, drain-feed_all,
  read_lines, feed_all-lines,
}

module _ (library : Library) (wire : Wire) (inputs : LineInputs) where
  receive-feed_all :
      (bytes : List ℕ) (receiver : Receiver)
      → IsPart receiver.buffer
      → receive library wire inputs bytes receiver ≡ feed_all library wire inputs receiver bytes
  unfolding receive
  receive-feed_all bytes receiver part =
      drain-feed_all library wire inputs bytes (length (receiver.buffer ++ bytes)) receiver part
        (omega (arith, length-append receiver.buffer bytes))

  -- Behind a chunk no whole line is left in the buffer, so the fuel was enough: the loop has ended
  -- because its condition is false.
  pub receive-IsPart :
      (bytes : List ℕ) (receiver : Receiver)
      → IsPart receiver.buffer
      → IsPart (receive library wire inputs bytes receiver).buffer
        × (split_line (receive library wire inputs bytes receiver).buffer ≡ none)
  receive-IsPart bytes receiver part =
      let ended =
        subst (λ (after : Receiver). IsPart after.buffer)
          (sym (receive-feed_all bytes receiver part))
          (feed_all-IsPart library wire inputs receiver bytes part) in
      (ended, split_line-IsPart _ ended)

  unfoldable pub receive_all : List (List ℕ) → Receiver → Receiver
  receive_all [] receiver = receiver
  receive_all (chunk ∷ chunks) receiver =
      receive_all chunks (receive library wire inputs chunk receiver)

  receive_all-feed_all :
      (chunks : List (List ℕ)) (receiver : Receiver)
      → IsPart receiver.buffer
      → receive_all chunks receiver ≡ feed_all library wire inputs receiver (concat chunks)
  unfolding receive_all feed_all
  receive_all-feed_all [] receiver part = refl
  receive_all-feed_all (chunk ∷ chunks) receiver part =
      receive_all-feed_all chunks _ (receive-IsPart chunk receiver part).0
      ∙ ap (λ (r : Receiver). feed_all library wire inputs r (concat chunks))
          (receive-feed_all chunk receiver part)
      ∙ sym (feed_all-append library wire inputs receiver chunk (concat chunks))

  -- However the network cuts the same bytes into chunks, the peer ends in the same state, with the
  -- same bytes of an unfinished line.
  pub receive_all-cuts :
      (a b : List (List ℕ)) (receiver : Receiver)
      → IsPart receiver.buffer
      → concat a ≡ concat b
      → receive_all a receiver ≡ receive_all b receiver
  receive_all-cuts a b receiver part same =
      receive_all-feed_all a receiver part
      ∙ ap (feed_all library wire inputs receiver) same
      ∙ sym (receive_all-feed_all b receiver part)

  -- What `send_to_peers` sent arrives as it was sent: if the bytes that come in are those of a
  -- sequence of messages without newlines, cut in any way, and the buffer was empty, the peer
  -- handles just the texts of these messages, each once and in their order.
  pub receive_all-frames :
      (texts : List String) (chunks : List (List ℕ)) (receiver : Receiver)
      → receiver.buffer ≡ []
      → All (λ text. IsPart (wire.encode text)) texts
      → concat chunks ≡ concat (map (frame wire) texts)
      → receive_all chunks receiver
        ≡ read_lines library wire inputs (map wire.encode texts) receiver
  unfolding frame
  receive_all-frames texts chunks receiver empty parts same =
      receive_all-feed_all chunks receiver (subst IsPart (sym empty) tt)
      ∙ ap (feed_all library wire inputs receiver) (same ∙ framed texts)
      ∙ feed_all-lines library wire inputs (map wire.encode texts) receiver empty
          (encoded texts parts)
    where
      framed :
          (texts : List String)
          → concat (map (frame wire) texts)
            ≡ concat (map (λ line. line ++ newline ∷ []) (map wire.encode texts))
      framed [] = refl
      framed (text ∷ texts) = ap (λ rest. (wire.encode text ++ newline ∷ []) ++ rest) (framed texts)

      encoded :
          (texts : List String)
          → All (λ text. IsPart (wire.encode text)) texts
          → All IsPart (map wire.encode texts)
      encoded [] _ = tt
      encoded (text ∷ texts) parts = (parts.0, encoded texts parts.1)

  append-longer : (front rest : List ℕ) → front ≢ [] → front ++ rest ≢ rest
  append-longer [] rest filled e = filled refl
  append-longer (b ∷ front) rest filled e =
      omega (arith, length-append (b ∷ front) rest, ap length e)

  -- A line comes between the two parts of another one, of which the first is not empty. The peer then
  -- handles two lines, and neither is one of the two that were sent: the first part with the other
  -- line behind it, and the second part, provided that this differs from the other line.
  pub receive_all-mixed :
      (front back other : List ℕ) (receiver : Receiver)
      → receiver.buffer ≡ []
      → IsPart front
      → IsPart back
      → IsPart other
      → front ≢ []
      → back ≢ other
      → (receive_all (front ∷ (other ++ newline ∷ []) ∷ (back ++ newline ∷ []) ∷ []) receiver
          ≡ read_lines library wire inputs ((front ++ other) ∷ back ∷ []) receiver)
        × All (λ line. (line ≢ front ++ back) × (line ≢ other)) ((front ++ other) ∷ back ∷ [])
  receive_all-mixed front back other receiver empty part_front part_back part_other filled differs =
      let regrouped : concat (front ∷ (other ++ newline ∷ []) ∷ (back ++ newline ∷ []) ∷ [])
          ≡ concat (map (λ line. line ++ newline ∷ []) ((front ++ other) ∷ back ∷ [])) =
        simp append_assoc in
      (
        receive_all-feed_all (front ∷ (other ++ newline ∷ []) ∷ (back ++ newline ∷ []) ∷ [])
              receiver (subst IsPart (sym empty) tt)
            ∙ ap (feed_all library wire inputs receiver) regrouped
            ∙ feed_all-lines library wire inputs ((front ++ other) ∷ back ∷ []) receiver empty
                (joined front part_front, (part_back, tt)),
        (
          (
            (λ e. differs (sym (append_cancel_left front other back e))),
            append-longer front other filled,
          ),
          (((λ e. append-longer front back filled (sym e)), differs), tt),
        ),
      )
    where
      joined : (front : List ℕ) → IsPart front → IsPart (front ++ other)
      joined [] part = part_other
      joined (b ∷ front) part = (part.0, joined front part.1)
