-- ===== src/Transport.antt =====
-- network/tcp.py: the lines in which peers send messages, and the loop that reads them. Bytes are
-- numbers; what a line's text is, and what a text decrypts or parses to, is taken from outside.
pub mod Lines
pub mod Chunks
pub mod Sealed
pub mod Grows
pub mod Toys
mod Tests
use onyx_p2p_auction_system.Base.{
  ℕ, zero, suc, ◌+◌, String, Bool, true, false, Option, none, some, List, [], ◌∷◌, ◌++◌, ⊤, length,
  nat_eq, str_eq, if◌then◌else◌,
}
use onyx_p2p_auction_system.Base.Exec.{Exec, Result, ok, raised, raise, attribute_error}
use onyx_p2p_auction_system.Peer.{Client, Library, Inputs, Message}
use onyx_p2p_auction_system.Peer.Process.{process_message}

-- What `json.loads` makes of a text.
pub data Parsed : Type 0 where
  no_json no_object : Parsed
  object : Message → Parsed

pub record Wire : Type 0 where
  -- `encode('utf-8')`; `decode('utf-8').strip()`, `none` for bytes that are no UTF-8
  pub encode : String → List ℕ
  pub decode : List ℕ → Option String
  -- `encrypt_message_symmetric_gcm` of the JSON text of a message: key, nonce;
  -- `decrypt_message_symmetric_gcm`: text, key, `none` where it raises
  pub seal : String → String → Message → String
  pub unseal : String → String → Option String
  pub parse : String → Parsed

abbrev pub newline : ℕ
newline = 10

-- what `send_to_peers` hands to `sendall`
unfoldable pub frame : Wire → String → List ℕ
frame wire msg = wire.encode msg ++ newline ∷ []

with_byte : ℕ → Option (List ℕ × List ℕ) → Option (List ℕ × List ℕ)
with_byte byte none = none
with_byte byte (some (line, rest)) = some (byte ∷ line, rest)

-- `buffer.split(b"\n", 1)`, `none` where `b"\n" in buffer` is false
pub split_line : List ℕ → Option (List ℕ × List ℕ)
unfolding with_byte
split_line [] = none
split_line (byte ∷ bytes) =
    let later = split_line bytes in
    if nat_eq byte newline then some ([], bytes) else with_byte byte later

-- a connection of a peer: `buffer`, how many lines were read, and the peer itself
pub record Receiver : Type 0 where
  pub buffer : List ℕ
  pub lines : ℕ
  pub client : Client

-- For each line, what the first and the second call of `process_message` read from outside.
abbrev pub LineInputs : Type 0
LineInputs = ℕ → Inputs × Inputs

module _ (library : Library) (wire : Wire) where
  unfoldable pub deliver : Inputs → Parsed → Exec Client ⊤
  deliver inputs no_json = process_message library inputs none
  deliver inputs no_object = raise attribute_error
  deliver inputs (object msg) = process_message library inputs (some msg)

  -- `except Exception: process_message(c_msg, client_state)`, and what that raises is only printed
  unfoldable pub second_try : Inputs → String → Result ⊤ × Client → Client
  unfolding deliver
  second_try inputs c_msg (ok _, client) = client
  second_try inputs c_msg (raised error, client) = (deliver inputs (wire.parse c_msg) client).1

  -- A text that does not decrypt gets to the second try too: `record_latency(start_time)` reads a
  -- name that is not defined, and the NameError comes before the `return`.
  unfoldable pub handle_text : Inputs × Inputs → String → Client → Client
  unfolding deliver second_try
  handle_text (first, second) c_msg client = elim (wire.unseal c_msg client.group_key) [
    | none ↦ (deliver second (wire.parse c_msg) client).1
    | some msg ↦ second_try second c_msg (deliver first (wire.parse msg) client)
  ]

  -- a line that is no UTF-8, or only whitespace, is skipped
  unfoldable pub handle_line : Inputs × Inputs → List ℕ → Client → Client
  handle_line inputs c_msg_bytes client = elim (wire.decode c_msg_bytes) [
    | none ↦ client
    | some c_msg ↦ if str_eq c_msg "" then client else handle_text inputs c_msg client
  ]

  module _ (inputs : LineInputs) where
    unfoldable pub read_line : List ℕ → Receiver → Receiver
    read_line line receiver = record receiver {
      lines = suc receiver.lines;
      client = handle_line (inputs receiver.lines) line receiver.client;
    }

    -- the loop `while b"\n" in buffer`, on fuel
    unfoldable pub drain : ℕ → Receiver → Receiver
    drain zero receiver = receiver
    drain (suc fuel) receiver = elim (split_line receiver.buffer) [
      | none ↦ receiver
      | some (line, rest) ↦ drain fuel (read_line line (record receiver { buffer = rest }))
    ]

    -- what `recv` returned; every line takes a byte off the buffer
    unfoldable pub receive : List ℕ → Receiver → Receiver
    receive data_bytes receiver =
        let buffer = receiver.buffer ++ data_bytes in
        drain (length buffer) (record receiver { buffer = buffer })
