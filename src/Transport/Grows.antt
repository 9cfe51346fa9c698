-- ===== src/Transport/Grows.antt =====
-- What the network cannot do to a peer's chain.
use onyx_p2p_auction_system.Base.{
  ℕ, zero, suc, ◌≤◌, String, Option, none, some, List, [], ◌∷◌, ◌++◌, ⊤, arith, length,
}
use onyx_p2p_auction_system.Base.Exec.{Result, ok, raised}
use onyx_p2p_auction_system.Peer.{Client, Library, Inputs}
use onyx_p2p_auction_system.Peer.Process.Grows.{process_message-Grows}
use onyx_p2p_auction_system.Transport.{
  Wire, Parsed, no_json, no_object, object, Receiver, LineInputs, deliver, second_try, handle_text,
  handle_line, read_line, split_line, drain, receive,
}
use onyx_p2p_auction_system.Transport.Chunks.{receive_all}

-- how long a peer's chain is
abbrev pub height_of : Client → ℕ
height_of client = length client.ledger.chain

module _ (library : Library) (wire : Wire) where
  deliver-longer :
      (inputs : Inputs) (parsed : Parsed) (c : Client)
      → height_of c ≤ height_of (deliver library wire inputs parsed c).1
  unfolding deliver
  deliver-longer inputs no_json c = (process_message-Grows library inputs none).chain c
  deliver-longer inputs no_object c = omega arith
  deliver-longer inputs (object m) c = (process_message-Grows library inputs (some m)).chain c

  second_try-longer :
      (inputs : Inputs) (text : String) (c : Client) (out : Result ⊤ × Client)
      → height_of c ≤ height_of out.1
      → height_of c ≤ height_of (second_try library wire inputs text out)
  unfolding second_try
  second_try-longer inputs text c (ok _, after) h = h
  second_try-longer inputs text c (raised error, after) h =
      omega (arith, h, deliver-longer inputs (wire.parse text) after)

  handle_text-longer :
      (inputs : Inputs × Inputs) (text : String) (c : Client)
      → height_of c ≤ height_of (handle_text library wire inputs text c)
  unfolding handle_text
  handle_text-longer (first, second) text c = opened (wire.unseal text c.group_key)
    where
      opened :
          (msg : Option String)
          → height_of c
            ≤ height_of (elim msg [
              | none ↦ (deliver library wire second (wire.parse text) c).1
              | some msg ↦
                  second_try library wire second text
                    (deliver library wire first (wire.parse msg) c)
            ])
      opened none = deliver-longer second (wire.parse text) c
      opened (some msg) =
          second_try-longer second text c _ (deliver-longer first (wire.parse msg) c)

  handle_line-longer :
      (inputs : Inputs × Inputs) (line : List ℕ) (c : Client)
      → height_of c ≤ height_of (handle_line library wire inputs line c)
  unfolding handle_line
  handle_line-longer inputs line c = grind (arith, handle_text-longer)

  module _ (inputs : LineInputs) where
    drain-longer :
        (fuel : ℕ) (receiver : Receiver)
        → height_of receiver.client ≤ height_of (drain library wire inputs fuel receiver).client
    unfolding drain read_line
    drain-longer zero receiver = omega arith
    drain-longer (suc fuel) receiver =
        cut (split_line receiver.buffer) (λ later. drain-longer fuel later)
      where
        cut :
            (found : Option (List ℕ × List ℕ))
            → ((later : Receiver)
                → height_of later.client ≤ height_of (drain library wire inputs fuel later).client)
            → let after : Receiver = elim found [
              | none ↦ receiver
              | some (line, rest) ↦
                  drain library wire inputs fuel
                    (read_line library wire inputs line (record receiver { buffer = rest }))
            ] in
              height_of receiver.client ≤ height_of after.client
        cut none later = omega arith
        cut (some (line, rest)) later = omega (
          arith,
          handle_line-longer (inputs receiver.lines) line receiver.client,
          later (read_line library wire inputs line (record receiver { buffer = rest })),
        )

    -- Whatever bytes the network delivers, sealed or not, and whether they are messages or not, the
    -- peer's chain never gets shorter.
    pub receive_all-longer :
        (chunks : List (List ℕ)) (receiver : Receiver)
        → height_of receiver.client
          ≤ height_of (receive_all library wire inputs chunks receiver).client
    unfolding receive_all receive
    receive_all-longer [] receiver = omega arith
    receive_all-longer (chunk ∷ chunks) receiver =
        let buffer = receiver.buffer ++ chunk in
        omega (
          arith,
          drain-longer (length buffer) (record receiver { buffer = buffer }),
          receive_all-longer chunks (receive library wire inputs chunk receiver),
        )
