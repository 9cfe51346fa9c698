-- ===== src/Transport/Sealed.antt =====
-- What a line does to a peer: one that was sealed under the group key, and one that was not.
use onyx_p2p_auction_system.Base.{
  ℕ, String, false, none, some, List, [], ◌∷◌, ⊤, ◌≡◌, ◌≢◌, refl, ap, ◌∙◌, arith, str_eq,
  str_eq_iff,
}
use onyx_p2p_auction_system.Base.Exec.{Result, ok, raised}
use onyx_p2p_auction_system.Peer.{Client, Library, Inputs, Message}
use onyx_p2p_auction_system.Peer.Process.{process_message, find_my_new_key}
use onyx_p2p_auction_system.Peer.Process.Rotates.{
  rotation, process_message-ignored, process_message-found,
}
use onyx_p2p_auction_system.Transport.{Wire, object, deliver, second_try, handle_text, handle_line}
use onyx_p2p_auction_system.Transport.Lines.{IsPart}

-- AES-GCM and JSON, at a message that is sealed under a key: the sealed text is base64 in a JSON
-- object without "type", on one line, and unseals to the JSON text of the message.
pub record IsLine (wire : Wire) (key nonce : String) (m : Message) : Type 0 where
  pub reads : wire.decode (wire.encode (wire.seal key nonce m)) ≡ some (wire.seal key nonce m)
  pub no_empty : wire.seal key nonce m ≢ ""
  pub one_line : IsPart (wire.encode (wire.seal key nonce m))
  pub unseals :
      (text : String) × (wire.unseal (wire.seal key nonce m) key ≡ some text)
      × (wire.parse text ≡ object m)
  pub envelope : (e : Message) × (wire.parse (wire.seal key nonce m) ≡ object e) × (e.kind ≡ none)

module _ (library : Library) (wire : Wire) where
  -- A message that was sealed under the group key is handled once, by `process_message`, also when
  -- that raises: the second try meets an object without a type.
  pub handle_line-sealed :
      (first second : Inputs) (nonce : String) (m : Message) (client : Client)
      → IsLine wire client.group_key nonce m
      → handle_line library wire
          (first, second)
          (wire.encode (wire.seal client.group_key nonce m))
          client
        ≡ (process_message library first (some m) client).1
  unfolding handle_line handle_text second_try deliver
  handle_line-sealed first second nonce m client is_line =
      let (text, opened, parsed) = is_line.unseals in
      let (e, wrapped, untyped) = is_line.envelope in
      let full : str_eq (wire.seal client.group_key nonce m) "" ≡ false =
        ground (arith, str_eq_iff (wire.seal client.group_key nonce m) "", is_line.no_empty) in
      rw (handle_line, is_line.reads, full, handle_text, opened, parsed, deliver)
        (tried (process_message library first (some m) client) e wrapped untyped)
    where
      tried :
          (out : Result ⊤ × Client) (e : Message)
          → wire.parse (wire.seal client.group_key nonce m) ≡ object e
          → e.kind ≡ none
          → second_try library wire second (wire.seal client.group_key nonce m) out ≡ out.1
      tried (ok _, after) e wrapped untyped = refl
      tried (raised error, after) e wrapped untyped =
          rw (second_try, wrapped, deliver) (process_message-ignored library second e after untyped)

  -- A line that does not decrypt under the group key is handled as it stands, as if it came from
  -- the group: whatever JSON object it is goes to `process_message`.
  pub handle_line-plain :
      (first second : Inputs) (line : List ℕ) (text : String) (m : Message) (client : Client)
      → wire.decode line ≡ some text
      → text ≢ ""
      → wire.unseal text client.group_key ≡ none
      → wire.parse text ≡ object m
      → handle_line library wire (first, second) line client
        ≡ (process_message library second (some m) client).1
  unfolding handle_line handle_text deliver
  handle_line-plain first second line text m client read full shut parsed =
      let not_empty : str_eq text "" ≡ false = ground (arith, str_eq_iff text "", full) in
      rw (handle_line, read, not_empty, handle_text, shut, parsed) refl

  -- So anybody who reaches a peer and knows its public key replaces its group key: a plain JSON
  -- object of type "new_key" with one key encrypted for the peer is obeyed.
  pub handle_line-hijacked :
      (first second : Inputs) (line : List ℕ) (text ct key : String) (client : Client)
      → wire.decode line ≡ some text
      → text ≢ ""
      → wire.unseal text client.group_key ≡ none
      → wire.parse text ≡ object (rotation (ct ∷ []))
      → library.rsa_decrypt client.private_key ct ≡ some key
      → handle_line library wire (first, second) line client ≡ record client { group_key = key }
  unfolding find_my_new_key
  handle_line-hijacked first second line text ct key client read full shut parsed decrypted =
      handle_line-plain first second line text (rotation (ct ∷ [])) client read full shut parsed
      ∙ ap (λ (out : Result ⊤ × Client). out.1)
          (process_message-found library second (ct ∷ []) client key
            (rw (find_my_new_key, decrypted) refl))
