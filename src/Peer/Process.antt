-- ===== src/Peer/Process.antt =====
-- client/message/process_message.py: checking a message, and routing it to its handler; with
-- `verify_timestamp_signature` (client/ca_handler/ca_message.py) and `find_my_new_key`
-- (crypto/keys/group_keys.py).
pub mod Bids
pub mod Ledgers
pub mod Rejects
pub mod Rotates
pub mod Grows
pub mod Known
mod Tests
use onyx_p2p_auction_system.Base.{
  ℕ, suc, zero, String, Bool, true, false, not, ◌&&◌, Option, none, some, List, [], ◌∷◌, ⊤, leb,
  ltb, str_eq, nat_eq, if◌then◌else◌,
}
use onyx_p2p_auction_system.Base.Exec.{
  Exec, Result, ok, raised, ◌>>=◌, ◌>>◌, pure, raise, lift, modify, gets, bind_result, or_raise,
  type_error, attribute_error, key_error, value_error,
}
use onyx_p2p_auction_system.Number.{Number, lt, eq}
use onyx_p2p_auction_system.Event.{
  AuctionKey, key_instance, Token, Stamp, Event, Kind, is_empty, is_auction, genesis, auction, bid,
  ledger_request, ledger_update, auction_end, winner_token_reveal, auction_owner_revelation,
  winner_revelation, new_key, other,
}
use onyx_p2p_auction_system.Ledger.{Ledger, add_action, token_used, save_to_file}
use onyx_p2p_auction_system.Auctions.{
  Auctions, get, add_auction, get_auction_higher_bid, get_auction_higher_bid_timestamp,
  update_auction_higher_bid,
}
use onyx_p2p_auction_system.Peer.{Client, Library, Inputs, Message, send, on_auctions}
use onyx_p2p_auction_system.Peer.Tokens.{verify_token}
use onyx_p2p_auction_system.Peer.Sync.{ledger_request_handler, ledger_update_handler}
use onyx_p2p_auction_system.Peer.Reveal.{
  handle_auction_end, handle_winner_reveal, prepare_winner_identity, get_client_identity,
}

-- An unknown auction counts as closed, one without a closing date as open.
unfoldable pub is_auction_closed : ℕ → Auctions → Option AuctionKey → Bool
is_auction_closed now auctions auction_id = elim (get auction_id auctions.auction_list) [
  | none ↦ true
  | some auction_data ↦ elim auction_data.closing_date [
    | none ↦ false
    | some closing_time ↦ leb closing_time now
  ]
]

-- `datetime.fromisoformat` of both texts, and the test that drops the later of two equal bids
later_loses : (String → Option ℕ) → Option String → Option Stamp → Result Bool
later_loses iso_time none timestamp = raised key_error
later_loses iso_time (some ex_timestamp) none = raised type_error
later_loses iso_time (some ex_timestamp) (some new) =
    bind_result (or_raise new.iso key_error) λ new_timestamp.
      bind_result (or_raise (iso_time ex_timestamp) value_error) λ ex_ts.
        bind_result (or_raise (iso_time new_timestamp) value_error)
          λ new_ts. ok (not (ltb ex_ts new_ts))

equal_bid : (String → Option ℕ) → Option Stamp → Option Stamp → Result Bool
unfolding later_loses
equal_bid iso_time none timestamp = ok false
equal_bid iso_time (some last_bid_timestamp) timestamp =
    later_loses iso_time last_bid_timestamp.iso timestamp

-- Whether a bid takes the lead: the tests that `update_personal_auctions` and `cmd_bid` share. None
-- cannot be compared with a number.
unfoldable pub takes_lead :
    (String → Option ℕ) → Option Number → Option Number → Option Stamp → Option Stamp → Result Bool
unfolding equal_bid
takes_lead iso_time none current_high last timestamp = raised type_error
takes_lead iso_time (some new_bid) none last timestamp = raised type_error
takes_lead iso_time (some new_bid) (some current_high) last timestamp =
    if lt new_bid current_high
    then ok false
    else if eq new_bid current_high
    then equal_bid iso_time last timestamp
    else ok true

-- `except Exception: continue`: the first entry that decrypts
unfoldable pub find_my_new_key : (String → Option String) → List String → Option String
find_my_new_key decrypt [] = none
find_my_new_key decrypt (enc_b64 ∷ rest) = elim (decrypt enc_b64) [
  | none ↦ find_my_new_key decrypt rest
  | some plaintext ↦ some plaintext
]

abbrev is_empty_stamp : Stamp → Bool
is_empty_stamp stamp = elim stamp.iso [
  | some _ ↦ false
  | none ↦ elim stamp.signature [ some _ ↦ false | none ↦ true ]
]

unfoldable pub signature_holds : (String → String → Bool) → Option String → Option String → Bool
signature_holds pss_valid none sig = false
signature_holds pss_valid (some iso) none = false
signature_holds pss_valid (some iso) (some sig) =
    if str_eq iso "" then false else if str_eq sig "" then false else pss_valid iso sig

-- Every exception of the verification is False.
unfoldable pub verify_timestamp_signature : (String → String → Bool) → Option Stamp → Bool
unfolding signature_holds
verify_timestamp_signature pss_valid none = false
verify_timestamp_signature pss_valid (some stamp) =
    signature_holds pss_valid stamp.iso stamp.signature

bid_update : (String → Option ℕ) → Message → Exec Auctions ⊤
bid_update iso_time msg auctions =
    let lead =
      takes_lead iso_time msg.bid (get_auction_higher_bid auctions msg.auction_id)
        (get_auction_higher_bid_timestamp auctions msg.auction_id) msg.timestamp in
    elim lead [
      | raised error ↦ (raised error, auctions)
      | ok leads ↦
          if leads
          then (update_auction_higher_bid msg.auction_id msg.bid false msg.token_data msg.timestamp
                >> pure tt)
              auctions
          else (ok tt, auctions)
    ]

unfoldable pub update_personal_auctions : (String → Option ℕ) → Message → Exec Auctions ⊤
unfolding bid_update
update_personal_auctions iso_time msg =
    if is_auction msg.kind
    then (add_auction msg.id msg.min_bid msg.closing_date false msg.token_data msg.public_key
        >> pure tt)
    else bid_update iso_time msg

module _ (library : Library) where
  open library use {digest, pss_valid, iso_time, rsa_decrypt}

  save_if : ℕ → Client → Client
  save_if made client =
      if nat_eq made 1 then record client { ledger_file = save_to_file client.ledger } else client

  -- `if ledger.add_action(obj) == 1: ledger.save_to_file(...)`
  unfoldable pub record_action : Inputs → Event → Exec Client ⊤
  unfolding save_if
  record_action inputs action client =
      let (r, ledger) = add_action digest inputs.utc action client.ledger in
      let client' : Client = record client { ledger = ledger } in
      elim r [ raised error ↦ (raised error, client') | ok made ↦ (ok tt, save_if made client') ]

  pub store : Inputs → Message → Exec Client ⊤
  store inputs msg = do
    record_action inputs msg.event
    on_auctions (update_personal_auctions iso_time msg)

  -- A bid on a closed auction reads `client_state.time_offset`, which no client has.
  pub handle_bid : Inputs → Message → Exec Client ⊤
  handle_bid inputs msg client =
      if is_auction_closed inputs.now client.auctions msg.auction_id
      then (raised attribute_error, client)
      else store inputs msg client

  send_update : Option Message → Exec Client ⊤
  send_update none = pure tt
  send_update (some update) = send update

  pub answer_request : Inputs → Message → Exec Client ⊤
  unfolding send_update
  answer_request inputs msg =
      ledger_request_handler library inputs msg.request_id >>= λ update. send_update update

  is_zero : Option ℕ → Bool
  is_zero (some zero) = true
  is_zero _ = false

  pub receive_update : Message → Exec Client ⊤
  unfolding is_zero
  receive_update msg client =
      if is_zero client.ledger_request_id
      then (ok tt, client)
      else ledger_update_handler library msg client

  -- sections 3 to 5, behind the checks
  pub dispatch : Inputs → Message → Kind → Exec Client ⊤
  dispatch inputs msg auction = store inputs msg
  dispatch inputs msg bid = handle_bid inputs msg
  dispatch inputs msg auction_end = do
    handle_auction_end library inputs msg
    record_action inputs msg.event
  dispatch inputs msg winner_token_reveal = handle_winner_reveal library inputs msg
  dispatch inputs msg auction_owner_revelation = prepare_winner_identity library inputs msg
  dispatch inputs msg winner_revelation = get_client_identity library msg
  dispatch inputs msg ledger_request = answer_request inputs msg
  dispatch inputs msg ledger_update = receive_update msg
  dispatch inputs msg _ = pure tt

  -- section 2
  pub stamped : Inputs → Message → Kind → Exec Client ⊤
  stamped inputs msg kind = elim msg.timestamp [
    | none ↦ pure tt
    | some stamp ↦
        if is_empty_stamp stamp
        then pure tt
        else if verify_timestamp_signature pss_valid (some stamp)
        then dispatch inputs msg kind
        else pure tt
  ]

  -- section 1, with a token
  pub secured : Inputs → Message → Kind → Token → Exec Client ⊤
  secured inputs msg kind token client =
      elim (verify_token library token.token_id token.token_sig) [
        | raised error ↦ (raised error, client)
        | ok valid ↦
            if valid
            then elim (token_used token.token_id client.ledger.chain) [
              | raised error ↦ (raised error, client)
              | ok used ↦ if used then (ok tt, client) else stamped inputs msg kind client
            ]
            else (ok tt, client)
      ]

  pub checked : Inputs → Message → Kind → Exec Client ⊤
  checked inputs msg kind = elim msg.token [
    | none ↦ pure tt
    | some token ↦ if is_empty token then pure tt else secured inputs msg kind token
  ]

  set_group_key : Option String → Client → Client
  set_group_key none client = client
  set_group_key (some key) client = record client { group_key = key }

  -- section 6; None is no list to go through
  pub rotate_key : Message → Exec Client ⊤
  unfolding set_group_key
  rotate_key msg client = elim msg.encrypted_keys [
    | none ↦ (raised type_error, client)
    | some encrypted ↦
        (ok tt, set_group_key (find_my_new_key (rsa_decrypt client.private_key) encrypted) client)
  ]

  pub route : Inputs → Message → Option Kind → Exec Client ⊤
  route inputs msg none = pure tt
  route inputs msg (some genesis) = pure tt
  route inputs msg (some other) = pure tt
  route inputs msg (some new_key) = rotate_key msg
  route inputs msg (some kind) = checked inputs msg kind

  -- `none` is a text that is no JSON.
  pub process_message : Inputs → Option Message → Exec Client ⊤
  process_message inputs none = pure tt
  process_message inputs (some msg) = route inputs msg msg.kind
