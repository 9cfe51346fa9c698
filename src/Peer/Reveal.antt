-- ===== src/Peer/Reveal.antt =====
-- client/message/auction/auction_end_handler.py and client/message/winner_reveal/: the exchange of
-- identities between the winner of an auction and its owner.
pub mod Keeps
pub mod Deal
pub mod Completes
mod Tests
use onyx_p2p_auction_system.Base.{
  ℕ, String, Bool, true, false, Option, none, some, ⊤, str_eq, if◌then◌else◌,
}
use onyx_p2p_auction_system.Base.Dict
use onyx_p2p_auction_system.Base.Exec.{
  Exec, Result, ok, raised, ◌>>=◌, ◌>>◌, pure, raise, lift, modify, gets, bind_result, or_raise,
  type_error, attribute_error, crypto_error, overflow_error,
}
use onyx_p2p_auction_system.Event.{
  AuctionKey, key_instance, Token, is_empty, blank, winner_token_reveal, auction_owner_revelation,
  winner_revelation,
}
use onyx_p2p_auction_system.Ledger.{find_token_signature}
use onyx_p2p_auction_system.Auctions.{
  Auctions, Entry, Mine, Slot, nothing, none_text, holds, Winning, deal_key, entry_of, get,
  add_winning_key, remove_winning_key, get_winning_key,
}
use onyx_p2p_auction_system.Wallet.{WalletFile, get_blinding_factor_r}
use onyx_p2p_auction_system.Token.{verify_peer_blinding_data}
use onyx_p2p_auction_system.Peer.{Client, Library, Inputs, Message, Private, Sealed, message, send}
use onyx_p2p_auction_system.Peer.Tokens.{
  get_token, encrypt_message_symmetric_gcm, decrypt_message_symmetric_gcm,
}
use onyx_p2p_auction_system.Peer.Sync.{try_token}

abbrev nothing_private : Private
nothing_private = record {
  token_winner_bid_id = none;
  token_auction_id = none;
  blinding_factor_r = none;
  certificate = none;
}

abbrev edit_auctions : (Auctions → Auctions) → Exec Client ⊤
edit_auctions f = modify λ client. record client { auctions = f client.auctions }

-- `if token_data: token_id = token_data.get("token_id")` and `if token_id:`; the text "None" has no
-- `get`. The result is None where a branch only prints.
abbrev token_id_in : Slot → Result (Option String)
token_id_in nothing = ok none
token_id_in none_text = raised attribute_error
token_id_in (holds t) =
    if is_empty t
    then ok none
    else elim t.token_id [ none ↦ ok none | some id ↦ ok (if str_eq id "" then none else some id) ]

module _ (library : Library) where
  open library use {encoding, ca_key, rsa_encrypt, rsa_decrypt, seal_identity, ca_sign}
  open library use {cert_encode, cert_decode, cert_readable, local_date}

  -- steps 3 to 5 of `handle_auction_end`
  announce_win : Inputs → AuctionKey → String → Sealed → Exec Client ⊤
  announce_win inputs auction_id deal_key_encrypted private_payload =
      try_token (get_token library inputs) (pure tt) λ token_data. do
        client ← gets (λ client. client)
        send
            (record (message (record blank {
              kind = some winner_token_reveal;
              auction_id = some auction_id;
              token = some token_data;
              encrypted_identity = some (
                  seal_identity client.uuid client.cert_pem inputs.fresh_token_id
                    inputs.identity_nonce);
              timestamp = inputs.stamp;
            })) { deal_key = some deal_key_encrypted; private_info = some private_payload })

  -- from the blinding factor on
  prove_win : Inputs → AuctionKey → Entry → String → Option ℕ → Exec Client ⊤
  unfolding announce_win
  prove_win inputs auction_id info token_id none = pure tt
  prove_win inputs auction_id info token_id (some r_value) = do
    edit_auctions (add_winning_key auction_id inputs.fresh_key)
    public_key ← lift (or_raise info.public_key attribute_error)
    encrypted ← lift (or_raise (rsa_encrypt public_key inputs.fresh_key) crypto_error)
    announce_win inputs auction_id encrypted (
        encrypt_message_symmetric_gcm library inputs.fresh_nonce
          (record nothing_private {
            token_winner_bid_id = some token_id;
            blinding_factor_r = some r_value;
          })
          inputs.fresh_key)

  claim_win : Inputs → AuctionKey → Entry → Option String → Exec Client ⊤
  unfolding prove_win
  claim_win inputs auction_id info none client = (ok tt, client)
  claim_win inputs auction_id info (some token_id) client =
      prove_win inputs auction_id info token_id
        (get_blinding_factor_r (some token_id) client.wallet) client

  end_known : Inputs → AuctionKey → Entry → Exec Client ⊤
  unfolding claim_win
  end_known inputs auction_id info = do
    closing_timestamp ← lift (or_raise info.closing_date type_error)
    closing_dt ← lift (or_raise (local_date closing_timestamp) overflow_error)
    current_dt ← lift (or_raise (local_date inputs.now) overflow_error)
    if info.my_bid
        then (lift (token_id_in info.last_bid_token_data) >>= λ token_id.
            claim_win inputs auction_id info token_id)
        else pure tt

  -- An end of an unknown auction is only reported.
  unfoldable pub handle_auction_end : Inputs → Message → Exec Client ⊤
  unfolding end_known
  handle_auction_end inputs obj client = elim obj.auction_id [
    | none ↦ (ok tt, client)
    | some auction_id ↦ elim (Dict.lookup auction_id client.auctions.auction_list) [
      | none ↦ (ok tt, client)
      | some info ↦ end_known inputs auction_id info client
    ]
  ]

  send_proof : Inputs → AuctionKey → String → String → Option ℕ → Exec Client ⊤
  send_proof inputs auction_id key token_id none = pure tt
  send_proof inputs auction_id key token_id (some r_value) = do
    client ← gets (λ client. client)
    try_token (get_token library inputs) (pure tt) λ token_data.
        send
          (record (message (record blank {
            kind = some auction_owner_revelation;
            auction_id = some auction_id;
            token = some token_data;
            timestamp = inputs.stamp;
          })) {
            private_info = some (
                encrypt_message_symmetric_gcm library inputs.fresh_nonce
                  (record nothing_private {
                    token_auction_id = some token_id;
                    blinding_factor_r = some r_value;
                    certificate = some (cert_encode client.cert_pem);
                  })
                  key);
          })

  prove_creation : Inputs → AuctionKey → String → Option String → WalletFile → Exec Client ⊤
  unfolding send_proof
  prove_creation inputs auction_id key none wallet = pure tt
  prove_creation inputs auction_id key (some id) wallet =
      send_proof inputs auction_id key id (get_blinding_factor_r (some id) wallet)

  -- An auction that "auction_list" does not have is None, which has no `get`.
  unfoldable pub send_auction_creation_proof : Inputs → AuctionKey → String → Exec Client ⊤
  unfolding prove_creation
  send_auction_creation_proof inputs auction_id key = do
    found ← gets (λ client. Dict.lookup auction_id client.auctions.auction_list)
    info ← lift (or_raise found attribute_error)
    token_id ← lift (token_id_in info.auction_token_data)
    wallet ← gets (λ client. client.wallet)
    prove_creation inputs auction_id key token_id wallet

  -- The deal key and the proof of `handle_winner_reveal` up to its verdict; each failure returns.
  check_winner : Message → Mine → Exec Client (Option String)
  check_winner obj my_auction client = elim my_auction.private_key [
    | none ↦ (ok none, client)
    | some private_key ↦ elim obj.deal_key [
      | none ↦ (ok none, client)
      | some encrypted ↦ elim (rsa_decrypt private_key encrypted) [
        | none ↦ (ok none, client)
        | some deal_key_bytes ↦
            elim (decrypt_message_symmetric_gcm library obj.private_info deal_key_bytes) [
              | raised error ↦ (ok none, client)
              | ok info ↦ (
                ok (
                    if verify_peer_blinding_data encoding ca_key ca_sign info.token_winner_bid_id
                      info.blinding_factor_r
                      (find_token_signature info.token_winner_bid_id client.ledger.chain)
                    then some deal_key_bytes
                    else none),
                client,
              )
            ]
      ]
    ]
  ]

  answer_winner : Inputs → AuctionKey → Option String → Exec Client ⊤
  unfolding send_auction_creation_proof
  answer_winner inputs auction_id none = pure tt
  answer_winner inputs auction_id (some deal_key_bytes) = do
    edit_auctions (add_winning_key auction_id deal_key_bytes)
    send_auction_creation_proof inputs auction_id deal_key_bytes

  unfoldable pub settle : Inputs → Message → AuctionKey → Mine → Exec Client ⊤
  unfolding check_winner answer_winner
  settle inputs obj auction_id my_auction =
      check_winner obj my_auction >>= λ checked. answer_winner inputs auction_id checked

  unfoldable pub handle_winner_reveal : Inputs → Message → Exec Client ⊤
  handle_winner_reveal inputs obj client = elim obj.auction_id [
    | none ↦ (ok tt, client)
    | some auction_id ↦ elim (Dict.lookup auction_id client.auctions.my_auctions) [
      | none ↦ (ok tt, client)
      | some my_auction ↦ settle inputs obj auction_id my_auction client
    ]
  ]

  -- A deal key opens the payload; the object that a replay stored is no key, and raises inside `try`.
  open_private : Option Sealed → Winning → Result Private
  open_private private_info (entry_of n) = raised type_error
  open_private private_info (deal_key key) = decrypt_message_symmetric_gcm library private_info key

  certificate_shown : Private → Bool
  certificate_shown info = elim info.certificate [
    | none ↦ false
    | some text ↦ elim (cert_decode text) [ none ↦ false | some pem ↦ cert_readable pem ]
  ]

  finish_deal : AuctionKey → Message → Winning → Exec Client ⊤
  unfolding open_private certificate_shown
  finish_deal auction_id msg key = elim (open_private msg.private_info key) [
    | raised error ↦ pure tt
    | ok info ↦
        if certificate_shown info then edit_auctions (remove_winning_key auction_id) else pure tt
  ]

  unfoldable pub get_client_identity : Message → Exec Client ⊤
  unfolding finish_deal
  get_client_identity msg client = elim msg.auction_id [
    | none ↦ (ok tt, client)
    | some auction_id ↦ elim (get_winning_key (some auction_id) client.auctions) [
      | none ↦ (ok tt, client)
      | some key ↦ finish_deal auction_id msg key client
    ]
  ]

  unfoldable pub send_winner_identity : Inputs → AuctionKey → String → Exec Client ⊤
  send_winner_identity inputs auction_id key = do
    client ← gets (λ client. client)
    try_token (get_token library inputs) (pure tt) λ token_data.
        send
          (record (message (record blank {
            kind = some winner_revelation;
            auction_id = some auction_id;
            token = some token_data;
            timestamp = inputs.stamp;
          })) {
            private_info = some (
                encrypt_message_symmetric_gcm library inputs.fresh_nonce
                  (record nothing_private { certificate = some (cert_encode client.cert_pem) })
                  key);
          })

  -- whether the `try` block of `prepare_winner_identity` runs to its end
  owner_verified : Private → Client → Bool
  unfolding certificate_shown
  owner_verified info client = elim (info.certificate) [
    | none ↦ false
    | some text ↦ elim (cert_decode text) [
      | none ↦ false
      | some pem ↦
          if verify_peer_blinding_data encoding ca_key ca_sign info.token_auction_id
            info.blinding_factor_r (find_token_signature info.token_auction_id client.ledger.chain)
          then cert_readable pem
          else false
    ]
  ]

  answer_owner : Inputs → AuctionKey → Message → Winning → Exec Client ⊤
  unfolding owner_verified send_winner_identity
  answer_owner inputs auction_id msg (entry_of n) client = (ok tt, client)
  answer_owner inputs auction_id msg (deal_key key) client =
      elim (decrypt_message_symmetric_gcm library msg.private_info key) [
        | raised error ↦ (ok tt, client)
        | ok info ↦
            if owner_verified info client
            then (send_winner_identity inputs auction_id key
                  >> edit_auctions (remove_winning_key auction_id))
                client
            else (ok tt, client)
      ]

  unfoldable pub prepare_winner_identity : Inputs → Message → Exec Client ⊤
  unfolding answer_owner
  prepare_winner_identity inputs msg client = elim msg.auction_id [
    | none ↦ (ok tt, client)
    | some auction_id ↦ elim (get_winning_key (some auction_id) client.auctions) [
      | none ↦ (ok tt, client)
      | some key ↦ answer_owner inputs auction_id msg key client
    ]
  ]
