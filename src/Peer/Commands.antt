-- ===== src/Peer/Commands.antt =====
-- What a peer starts itself: client/message/peer_input.py with `cmd_bid` (bid/bid_handler.py) and
-- `cmd_auction` (auction/auction_handler.py), and one round of `check_auctions` (network/peer.py).
pub mod Ledgers
pub mod Closing
pub mod Stops
pub mod Opening
mod Tests
use onyx_p2p_auction_system.Base.{
  ℕ, ◌+◌, String, Bool, true, false, not, ◌&&◌, Option, none, some, List, [], ◌∷◌, ⊤, leb,
  if◌then◌else◌,
}
use onyx_p2p_auction_system.Base.Dict
use onyx_p2p_auction_system.Base.Dict.{keys}
use onyx_p2p_auction_system.Base.Exec.{
  Exec, ok, raised, ◌>>=◌, ◌>>◌, pure, modify, gets, bind_result,
}
use onyx_p2p_auction_system.Number.{Number}
use onyx_p2p_auction_system.Event.{
  AuctionKey, number, key_instance, Token, blank, auction, bid, auction_end,
}
use onyx_p2p_auction_system.Auctions.{
  Entry, add_my_auction, generate_next_auction_id, check_auction_existence, get_auction_higher_bid,
  get_auction_higher_bid_timestamp, update_auction_higher_bid,
}
use onyx_p2p_auction_system.Peer.{Client, Library, Inputs, Message, message, send, on_auctions}
use onyx_p2p_auction_system.Peer.Tokens.{get_token}
use onyx_p2p_auction_system.Peer.Status.{print_auction_state}
use onyx_p2p_auction_system.Peer.Sync.{try_token}
use onyx_p2p_auction_system.Peer.Process.{is_auction_closed, takes_lead, record_action}

abbrev pub auction_duration_seconds : ℕ
auction_duration_seconds = 20

-- A line of input, by its first word; the arguments as `int` and `float` read them, `none` where
-- those raise ValueError. `incomplete` has too few words, `unknown` another first word.
pub data Command : Type 0 where
  bid_command : Option ℕ → Option Number → Command
  auction_command : String → Option Number → Command
  exit help status empty_line incomplete unknown : Command

pub data Reply : Type 0 where
  exits continues : Reply
  sends : Message → Reply

module _ (library : Library) where
  open library use {seal_identity, iso_time, local_date}

  unfoldable pub cmd_auction : Inputs → String → Number → Exec Client (Option Message)
  cmd_auction inputs name min_bid = try_token (get_token library inputs) (pure none) λ token_data.
      do
        auction_id ← on_auctions generate_next_auction_id
        client ← gets (λ client. client)
        on_auctions (
            add_my_auction auction_id inputs.fresh_public_key inputs.fresh_private_key
              (some min_bid) (some (inputs.now + auction_duration_seconds)) (some token_data)
              inputs.fresh_public_key)
        pure (
            some (
              message (record blank {
                id = some (number auction_id);
                kind = some auction;
                name = some name;
                closing_date = some (inputs.now + auction_duration_seconds);
                min_bid = some min_bid;
                token = some token_data;
                public_key = some inputs.fresh_public_key;
                encrypted_identity = some (
                    seal_identity client.uuid client.cert_pem inputs.fresh_token_id
                      inputs.identity_nonce);
                timestamp = inputs.stamp;
              })))

  offer_message : Inputs → ℕ → Number → Token → Client → Message
  offer_message inputs auction_id amount token_data client = message (record blank {
    id = some (number inputs.random_id);
    kind = some bid;
    auction_id = some (number auction_id);
    bid = some amount;
    token = some token_data;
    encrypted_identity =
        some
          (seal_identity client.uuid client.cert_pem inputs.fresh_token_id inputs.identity_nonce);
    timestamp = inputs.stamp;
  })

  placed_bid : Inputs → ℕ → Number → Token → Exec Client (Option Message)
  unfolding offer_message
  placed_bid inputs auction_id amount token_data client =
      if is_auction_closed inputs.now client.auctions (some (number auction_id))
      then (ok none, client)
      else (on_auctions (
              update_auction_higher_bid (some (number auction_id)) (some amount) true
                (some token_data) inputs.stamp)
            >> pure (some (offer_message inputs auction_id amount token_data client)))
          client

  -- The token is spent before the closing time is looked at.
  place_bid : Inputs → ℕ → Number → Exec Client (Option Message)
  unfolding placed_bid
  place_bid inputs auction_id amount =
      try_token (get_token library inputs) (pure none)
        λ token_data. placed_bid inputs auction_id amount token_data

  checked_bid : Inputs → ℕ → Number → Exec Client (Option Message)
  unfolding place_bid
  checked_bid inputs auction_id amount client =
      let key = some (number auction_id) in
      if check_auction_existence client.auctions key
      then elim (takes_lead iso_time (some amount) (get_auction_higher_bid client.auctions key)
          (get_auction_higher_bid_timestamp client.auctions key) inputs.stamp) [
            | raised error ↦ (raised error, client)
            | ok leads ↦
                if leads then place_bid inputs auction_id amount client else (ok none, client)
          ]
      else (ok none, client)

  unfoldable pub cmd_bid : Inputs → Option ℕ → Option Number → Exec Client (Option Message)
  unfolding checked_bid
  cmd_bid inputs none amount = pure none
  cmd_bid inputs (some auction_id) none = pure none
  cmd_bid inputs (some auction_id) (some amount) = checked_bid inputs auction_id amount

  -- "If action generated a valid message, update Local Ledger immediately"
  record_own : Inputs → Option Message → Exec Client Reply
  record_own inputs none = pure continues
  record_own inputs (some msg) = record_action library inputs msg.event >> pure (sends msg)

  -- what `print_auction_state` raises is not caught
  show_status : Exec Client Reply
  show_status client =
      let shown =
        bind_result (print_auction_state local_date client.auctions) λ lines. ok continues in
      (shown, client)

  unfoldable pub peer_input : Inputs → Command → Exec Client Reply
  unfolding record_own show_status
  peer_input inputs (bid_command auction_id amount) =
      cmd_bid inputs auction_id amount >>= λ msg. record_own inputs msg
  peer_input inputs (auction_command name none) = pure continues
  peer_input inputs (auction_command name (some min_bid)) =
      cmd_auction inputs name min_bid >>= λ msg. record_own inputs msg
  peer_input inputs exit = pure exits
  peer_input inputs status = show_status
  peer_input inputs _ = pure continues

  finish_own : AuctionKey → Entry → Client → Client
  finish_own auction_id entry client = record client {
    auctions = record client.auctions {
      auction_list =
          Dict.insert auction_id (record entry { finished = true }) client.auctions.auction_list;
    };
  }

  -- `closing_timestamp and now >= closing_timestamp and finished == False`
  unfoldable pub is_due : ℕ → Entry → Bool
  is_due now entry = elim entry.closing_date [
    | none ↦ false
    | some closing ↦ not (leb closing 0) && (leb closing now && not entry.finished)
  ]

  unfoldable pub end_message : Inputs → AuctionKey → Token → Message
  end_message inputs auction_id token_data = message (record blank {
    kind = some auction_end;
    auction_id = some auction_id;
    token = some token_data;
    timestamp = inputs.stamp;
  })

  end_own : Inputs → AuctionKey → Entry → Token → Exec Client ⊤
  unfolding finish_own
  end_own inputs auction_id entry token_data = do
    send (end_message inputs auction_id token_data)
    modify (finish_own auction_id entry)

  -- One auction of the loop, before the others: a token that cannot be had ends the thread, so the
  -- others are not looked at.
  close_one : ℕ → Inputs → AuctionKey → Option Entry → Exec Client Bool → Exec Client Bool
  unfolding is_due end_own
  close_one now inputs auction_id none next = next
  close_one now inputs auction_id (some entry) next =
      if is_due now entry
      then try_token (get_token library inputs) (pure false)
          (λ token_data. end_own inputs auction_id entry token_data >> next)
      else next

  -- One pass of the `for` loop, and whether the thread goes on. Each auction has inputs of its own,
  -- but for the time.
  unfoldable pub check_auctions : ℕ → (AuctionKey → Inputs) → List AuctionKey → Exec Client Bool
  unfolding close_one
  check_auctions now inputs [] client = (ok true, client)
  check_auctions now inputs (auction_id ∷ rest) client =
      close_one now (inputs auction_id) auction_id
        (Dict.lookup auction_id client.auctions.auction_list) (check_auctions now inputs rest)
        client

  unfoldable pub check_round : ℕ → (AuctionKey → Inputs) → Exec Client Bool
  check_round now inputs client =
      check_auctions now inputs (keys client.auctions.my_auctions) client
