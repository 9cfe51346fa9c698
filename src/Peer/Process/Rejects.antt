-- ===== src/Peer/Process/Rejects.antt =====
-- A message is acted on only behind the checks of its token and of its timestamp.
use onyx_p2p_auction_system.Base.{
  true, false, Option, none, some, ⊤, ◌≡◌, ◌≢◌, refl, ap, ◌∙◌, arith, ◌⊎◌, inl, inr,
}
use onyx_p2p_auction_system.Base.Exec.{Result, ok}
use onyx_p2p_auction_system.Event.{Kind, Token, genesis, other, new_key}
use onyx_p2p_auction_system.Ledger.{token_used}
use onyx_p2p_auction_system.Peer.{Client, Library, Inputs, Message}
use onyx_p2p_auction_system.Peer.Tokens.{verify_token}
use onyx_p2p_auction_system.Peer.Process.{
  process_message, route, checked, secured, stamped, dispatch, verify_timestamp_signature,
}

-- What `process_message` has checked before it hands a message on: a signed token that the chain
-- has not recorded, and a timestamp with the CA's signature.
pub record IsChecked (library : Library) (msg : Message) (client : Client) : Type 0 where
  pub token : Token
  pub carried : msg.token ≡ some token
  pub signed : verify_token library token.token_id token.token_sig ≡ ok true
  pub unused : token_used token.token_id client.ledger.chain ≡ ok false
  pub stamped : verify_timestamp_signature library.pss_valid msg.timestamp ≡ true

module _ (library : Library) (inputs : Inputs) (msg : Message) (client : Client) where
  stamped_cases :
      (kind : Kind)
      → ((stamped library inputs msg kind client).1 ≡ client)
        ⊎ ((verify_timestamp_signature library.pss_valid msg.timestamp ≡ true)
            × (stamped library inputs msg kind client ≡ dispatch library inputs msg kind client))
  unfolding stamped
  stamped_cases kind = ground arith

  secured_passes :
      (kind : Kind) (token : Token)
      → ((secured library inputs msg kind token client).1 ≡ client)
        ⊎ ((verify_token library token.token_id token.token_sig ≡ ok true)
            × (token_used token.token_id client.ledger.chain ≡ ok false)
            × (secured library inputs msg kind token client
                ≡ stamped library inputs msg kind client))
  unfolding secured
  secured_passes kind token = ground arith

  -- what becomes of a message behind the checks
  abbrev pub Gate : Result ⊤ × Client → Kind → Type 0
  Gate out kind =
      (out.1 ≡ client)
      ⊎ (IsChecked library msg client × (out ≡ dispatch library inputs msg kind client))

  secured-Gate :
      (kind : Kind) (token : Token)
      → msg.token ≡ some token
      → Gate (secured library inputs msg kind token client) kind
  secured-Gate kind token carried = elim (secured_passes kind token) [
    | inl same ↦ inl same
    | inr (signed, unused, e) ↦ elim (stamped_cases kind) [
      | inl same ↦ inl (ap (λ (out : Result ⊤ × Client). out.1) e ∙ same)
      | inr (valid, e') ↦ inr (
        record {
          token = token;
          carried = carried;
          signed = signed;
          unused = unused;
          stamped = valid;
        },
        e ∙ e',
      )
    ]
  ]

  checked_passes :
      (kind : Kind)
      → ((checked library inputs msg kind client).1 ≡ client)
        ⊎ ((token : Token) × (msg.token ≡ some token)
            × (checked library inputs msg kind client
                ≡ secured library inputs msg kind token client))
  unfolding checked
  checked_passes kind = ground arith

  pub checked-Gate : (kind : Kind) → Gate (checked library inputs msg kind client) kind
  checked-Gate kind = elim (checked_passes kind) [
    | inl same ↦ inl same
    | inr (token, carried, e) ↦ rw e (secured-Gate kind token carried)
  ]

  pub route-Gate :
      (kind : Option Kind)
      → kind ≢ some new_key
      → ((route library inputs msg kind client).1 ≡ client)
        ⊎ ((k : Kind) × (kind ≡ some k) × Gate (route library inputs msg kind client) k)
  unfolding route
  route-Gate none other_kind = inl refl
  route-Gate (some genesis) other_kind = inl refl
  route-Gate (some other) other_kind = inl refl
  route-Gate (some new_key) other_kind = absurd (other_kind refl)
  route-Gate (some kind) other_kind = inr (kind, refl, checked-Gate kind)

  -- A message that is no key rotation changes the peer's state only if it carries a token with a
  -- valid signature that no event of the local chain has used, and a timestamp that the CA signed.
  pub process_message-checks :
      msg.kind ≢ some new_key
      → (process_message library inputs (some msg) client).1 ≢ client
      → IsChecked library msg client
  unfolding process_message
  process_message-checks other_kind changed = elim (route-Gate msg.kind other_kind) [
    | inl same ↦ absurd (changed same)
    | inr (kind, e, inl same) ↦ absurd (changed same)
    | inr (kind, e, inr (passed, e')) ↦ passed
  ]
