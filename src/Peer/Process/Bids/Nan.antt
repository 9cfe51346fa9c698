-- ===== src/Peer/Process/Bids/Nan.antt =====
-- What a bid of NaN does to the highest bid of an auction.
use onyx_p2p_auction_system.Base.{ℕ, String, true, false, Option, some, ◌≡◌, refl, arith, ◌||◌}
use onyx_p2p_auction_system.Base.Dict
use onyx_p2p_auction_system.Base.Exec.{ok}
use onyx_p2p_auction_system.Number.{Number, nan, lt, eq, is_nan}
use onyx_p2p_auction_system.Event.{AuctionKey, key_instance, Stamp, is_auction}
use onyx_p2p_auction_system.Auctions.{
  Auctions, Entry, get_auction_higher_bid, get_auction_higher_bid_timestamp,
  update_auction_higher_bid,
}
use onyx_p2p_auction_system.Auctions.Highest.{update-get_self, entry_of_bid, bid_of_entry}
use onyx_p2p_auction_system.Peer.{Message}
use onyx_p2p_auction_system.Peer.Process.{takes_lead, bid_update, update_personal_auctions}
use onyx_p2p_auction_system.Peer.Process.Bids.{resume-state}

module _ (iso_time : String → Option ℕ) where
  takes_lead-nan :
      (amount high : Number) (last stamp : Option Stamp)
      → is_nan amount || is_nan high ≡ true
      → takes_lead iso_time (some amount) (some high) last stamp ≡ ok true
  unfolding takes_lead
  takes_lead-nan amount high last stamp h =
      let (l, e) = incomparable amount high h in rw (l, e) refl
    where
      incomparable :
          (a b : Number) → is_nan a || is_nan b ≡ true → (lt a b ≡ false) × (eq a b ≡ false)
      incomparable a b k = ground arith

  bid_update-leads :
      (key : AuctionKey) (entry : Entry) (amount : Number) (msg : Message) (auctions : Auctions)
      → Dict.lookup key auctions.auction_list ≡ some entry
      → msg.auction_id ≡ some key
      → msg.bid ≡ some amount
      → takes_lead iso_time
          (some amount)
          entry.highest_bid
          (get_auction_higher_bid_timestamp auctions (some key))
          msg.timestamp
        ≡ ok true
      → get_auction_higher_bid (bid_update iso_time msg auctions).1 (some key) ≡ some amount
  unfolding bid_update
  bid_update-leads key entry amount msg auctions at names bids leads =
      let lead : takes_lead iso_time msg.bid (get_auction_higher_bid auctions msg.auction_id)
            (get_auction_higher_bid_timestamp auctions msg.auction_id) msg.timestamp
          ≡ ok true =
        rw (names, bids, bid_of_entry key auctions entry at) leads in
      let stored =
        update_auction_higher_bid msg.auction_id msg.bid false msg.token_data msg.timestamp
          auctions in
      rw (bid_update, lead, resume-state stored.0 stored.1, names, bids)
        (update-get_self (some amount) false msg.token_data msg.timestamp key entry auctions at).0

  leads-highest :
      (key : AuctionKey) (high amount : Number) (msg : Message) (auctions : Auctions)
      → get_auction_higher_bid auctions (some key) ≡ some high
      → is_auction msg.kind ≡ false
      → msg.auction_id ≡ some key
      → msg.bid ≡ some amount
      → is_nan amount || is_nan high ≡ true
      → get_auction_higher_bid (update_personal_auctions iso_time msg auctions).1 (some key)
        ≡ some amount
  unfolding update_personal_auctions
  leads-highest key high amount msg auctions h no_opening names bids nans =
      let (entry, at, e) = entry_of_bid key auctions high h in
      rw no_opening (
        bid_update-leads key entry amount msg auctions at names bids (
          rw e (
            takes_lead-nan amount high (get_auction_higher_bid_timestamp auctions (some key))
              msg.timestamp nans)))

  -- On an auction whose highest bid is a number, a bid of NaN takes the lead whatever that number
  -- is, and then so does a bid of any number, however low.
  pub update_personal_auctions-nan :
      (key : AuctionKey) (high amount : Number) (first next : Message) (auctions : Auctions)
      → get_auction_higher_bid auctions (some key) ≡ some high
      → is_auction first.kind ≡ false
      → first.auction_id ≡ some key
      → first.bid ≡ some nan
      → is_auction next.kind ≡ false
      → next.auction_id ≡ some key
      → next.bid ≡ some amount
      → let after = (update_personal_auctions iso_time first auctions).1 in
        (get_auction_higher_bid after (some key) ≡ some nan)
        × (get_auction_higher_bid (update_personal_auctions iso_time next after).1 (some key)
            ≡ some amount)
  update_personal_auctions-nan key high amount first next auctions h k1 n1 b1 k2 n2 b2 =
      let lead = leads-highest key high nan first auctions h k1 n1 b1 refl in
      (
        lead,
        leads-highest key nan amount next (update_personal_auctions iso_time first auctions).1 lead
            k2 n2 b2 (ground arith),
      )
