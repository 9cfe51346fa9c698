-- ===== src/Transport/Lines.antt =====
-- Reading what is in the buffer is reading byte by byte.
use onyx_p2p_auction_system.Base.{
  ℕ, zero, suc, ◌≤◌, Bool, true, false, none, some, List, [], ◌∷◌, ◌++◌, ◌≡◌, refl, sym, map, All,
  ap, ◌∙◌, arith, length, nat_eq, nat_eq_iff, if◌then◌else◌,
}
use mathlib.Core.List.{append_assoc, append-nil}
use onyx_p2p_auction_system.Peer.{Library}
use onyx_p2p_auction_system.Transport.{
  Wire, Receiver, LineInputs, newline, split_line, with_byte, read_line, drain,
}

-- `b"".join`
abbrev pub concat : List (List ℕ) → List ℕ
concat [] = []
concat (chunk ∷ chunks) = chunk ++ concat chunks

-- no newline among the bytes
abbrev pub IsPart : List ℕ → Type 0
IsPart [] = Unit
IsPart (byte ∷ bytes) = (nat_eq byte newline ≡ false) × IsPart bytes

pub IsPart-append :
    (bytes : List ℕ) (byte : ℕ)
    → IsPart bytes
    → nat_eq byte newline ≡ false
    → IsPart (bytes ++ byte ∷ [])
IsPart-append [] byte part other = (other, tt)
IsPart-append (b ∷ bytes) byte part other = (part.0, IsPart-append bytes byte part.1 other)

pub split_line-IsPart : (bytes : List ℕ) → IsPart bytes → split_line bytes ≡ none
unfolding split_line with_byte
split_line-IsPart [] part = refl
split_line-IsPart (b ∷ bytes) part = rw (part.0, split_line-IsPart bytes part.1) refl

split_line-line :
    (line rest : List ℕ) → IsPart line → split_line (line ++ newline ∷ rest) ≡ some (line, rest)
unfolding split_line with_byte
split_line-line [] rest part = refl
split_line-line (b ∷ line) rest part = rw (part.0, split_line-line line rest part.1) refl

module _ (library : Library) (wire : Wire) (inputs : LineInputs) where
  -- one byte more
  pub feed : Receiver → ℕ → Receiver
  feed receiver byte =
      if nat_eq byte newline
      then read_line library wire inputs receiver.buffer (record receiver { buffer = [] })
      else record receiver { buffer = receiver.buffer ++ byte ∷ [] }

  unfoldable pub feed_all : Receiver → List ℕ → Receiver
  feed_all receiver [] = receiver
  feed_all receiver (byte ∷ bytes) = feed_all (feed receiver byte) bytes

  pub feed_all-append :
      (receiver : Receiver) (a b : List ℕ)
      → feed_all receiver (a ++ b) ≡ feed_all (feed_all receiver a) b
  unfolding feed_all
  feed_all-append receiver [] b = refl
  feed_all-append receiver (byte ∷ a) b = feed_all-append (feed receiver byte) a b

  feed-IsPart :
      (receiver : Receiver) (byte : ℕ) → IsPart receiver.buffer → IsPart (feed receiver byte).buffer
  unfolding feed read_line
  feed-IsPart receiver byte part = by_byte (nat_eq byte newline) refl
    where
      by_byte : (is : Bool) → nat_eq byte newline ≡ is → IsPart (feed receiver byte).buffer
      by_byte true e = rw e tt
      by_byte false e = rw e (IsPart-append receiver.buffer byte part e)

  pub feed_all-IsPart :
      (receiver : Receiver) (bytes : List ℕ)
      → IsPart receiver.buffer
      → IsPart (feed_all receiver bytes).buffer
  unfolding feed_all
  feed_all-IsPart receiver [] part = part
  feed_all-IsPart receiver (byte ∷ bytes) part =
      feed_all-IsPart (feed receiver byte) bytes (feed-IsPart receiver byte part)

  drain-none :
      (fuel : ℕ) (receiver : Receiver)
      → split_line receiver.buffer ≡ none
      → drain library wire inputs fuel receiver ≡ receiver
  unfolding drain
  drain-none zero receiver e = refl
  drain-none (suc fuel) receiver e = rw (e, drain) refl

  drain-line :
      (fuel : ℕ) (receiver : Receiver) (line rest : List ℕ)
      → split_line receiver.buffer ≡ some (line, rest)
      → drain library wire inputs (suc fuel) receiver
        ≡ drain library wire inputs fuel
            (read_line library wire inputs line (record receiver { buffer = rest }))
  unfolding drain
  drain-line fuel receiver line rest e = rw (e, drain) refl

  pub drain-feed_all :
      (bytes : List ℕ) (fuel : ℕ) (receiver : Receiver)
      → IsPart receiver.buffer
      → length bytes ≤ fuel
      → drain library wire inputs fuel (record receiver { buffer = receiver.buffer ++ bytes })
        ≡ feed_all receiver bytes
  unfolding drain feed feed_all read_line
  drain-feed_all [] zero receiver part enough = rw append-nil refl
  drain-feed_all [] (suc fuel) receiver part enough =
      rw append-nil (drain-none (suc fuel) receiver (split_line-IsPart receiver.buffer part))
  drain-feed_all (byte ∷ bytes) zero receiver part enough = absurd (omega arith)
  drain-feed_all (byte ∷ bytes) (suc fuel) receiver part enough =
      by_byte (nat_eq byte newline) refl
        (drain-feed_all bytes fuel
          (read_line library wire inputs receiver.buffer (record receiver { buffer = [] })) tt
          (omega arith))
        (λ other.
          drain-feed_all bytes (suc fuel)
            (record receiver { buffer = receiver.buffer ++ byte ∷ [] })
            (IsPart-append receiver.buffer byte part other) (omega arith))
    where
      by_byte :
          (is : Bool)
          → nat_eq byte newline ≡ is
          → (drain library wire inputs fuel
                (record (read_line library wire inputs receiver.buffer
                  (record receiver { buffer = [] })) { buffer = bytes })
              ≡ feed_all
                  (read_line library wire inputs receiver.buffer (record receiver { buffer = [] }))
                  bytes)
          → (nat_eq byte newline ≡ false
              → drain library wire inputs
                  (suc fuel)
                  (record receiver { buffer = (receiver.buffer ++ byte ∷ []) ++ bytes })
                ≡ feed_all (record receiver { buffer = receiver.buffer ++ byte ∷ [] }) bytes)
          → drain library wire inputs
              (suc fuel)
              (record receiver { buffer = receiver.buffer ++ byte ∷ bytes })
            ≡ feed_all (feed receiver byte) bytes
      by_byte true e line part_of =
          let is_newline : byte ≡ newline = (nat_eq_iff byte newline).0 e in
          let cut : split_line (receiver.buffer ++ byte ∷ bytes) ≡ some (receiver.buffer, bytes) =
            rw is_newline (split_line-line receiver.buffer bytes part) in
          drain-line fuel (record receiver { buffer = receiver.buffer ++ byte ∷ bytes })
            receiver.buffer bytes cut
          ∙ line
          ∙ rw e refl
      by_byte false e line part_of =
          let grown : (receiver.buffer ++ byte ∷ []) ++ bytes ≡ receiver.buffer ++ byte ∷ bytes =
            simp append_assoc in
          ap
            (λ (buffer : List ℕ).
              drain library wire inputs (suc fuel) (record receiver { buffer = buffer }))
            (sym grown)
          ∙ part_of e
          ∙ rw e refl

  -- whole lines, one after the other
  unfoldable pub read_lines : List (List ℕ) → Receiver → Receiver
  read_lines [] receiver = receiver
  read_lines (line ∷ lines) receiver =
      read_lines lines (read_line library wire inputs line receiver)

  pub feed_all-part :
      (line : List ℕ) (receiver : Receiver)
      → IsPart line
      → feed_all receiver line ≡ record receiver { buffer = receiver.buffer ++ line }
  unfolding feed_all feed
  feed_all-part [] receiver part = rw append-nil refl
  feed_all-part (byte ∷ line) receiver part = rw part.0 (
      feed_all-part line (record receiver { buffer = receiver.buffer ++ byte ∷ [] }) part.1
      ∙ simp append_assoc)

  pub feed_all-line :
      (line : List ℕ) (receiver : Receiver)
      → IsPart line
      → feed_all receiver (line ++ newline ∷ [])
        ≡ read_line library wire inputs (receiver.buffer ++ line) (record receiver { buffer = [] })
  unfolding feed_all feed
  feed_all-line line receiver part =
      feed_all-append receiver line (newline ∷ [])
      ∙ ap (λ (r : Receiver). feed_all r (newline ∷ [])) (feed_all-part line receiver part)

  pub feed_all-lines :
      (lines : List (List ℕ)) (receiver : Receiver)
      → receiver.buffer ≡ []
      → All IsPart lines
      → feed_all receiver (concat (map (λ line. line ++ newline ∷ []) lines))
        ≡ read_lines lines receiver
  unfolding feed_all read_lines read_line
  feed_all-lines [] receiver empty parts = refl
  feed_all-lines (line ∷ lines) receiver empty parts =
      feed_all-append receiver (line ++ newline ∷ []) _
      ∙ ap (λ (r : Receiver). feed_all r (concat (map (λ line. line ++ newline ∷ []) lines)))
          (feed_all-line line receiver parts.0 ∙ rw empty refl)
      ∙ feed_all-lines lines (read_line library wire inputs line receiver) empty parts.1
