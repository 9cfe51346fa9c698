-- ===== src/Peer/Status.antt =====
-- client/message/status_handler.py: what the command "status" prints, line by line.
pub mod Undated
use onyx_p2p_auction_system.Base.{
  ℕ, String, Bool, true, false, Option, none, some, List, [], ◌∷◌, ◌++◌, map, nat_eq, if◌then◌else◌,
}
use onyx_p2p_auction_system.Base.Dict
use onyx_p2p_auction_system.Base.Dict.{Dict}
use onyx_p2p_auction_system.Base.Exec.{
  Result, ok, raised, bind_result, or_raise, type_error, overflow_error,
}
use onyx_p2p_auction_system.Number.{Number}
use onyx_p2p_auction_system.Event.{AuctionKey, number, text, to_int, key_instance}
use onyx_p2p_auction_system.Auctions.{Auctions, Entry, Mine}

-- what stands in a line about an auction
pub record Shown : Type 0 where
  pub auction : AuctionKey
  pub finished : Bool
  pub highest : Option Number
  pub closing : String

-- `winning` is "You are winning"
pub data Line : Type 0 where
  auctions_title no_general_auctions mine_title no_own_auctions : Line
  general : Bool → Shown → Line
  own : Shown → Line

-- `auction_id in my_auction_ids`, a set of ints
unfoldable pub in_my_ids : AuctionKey → Dict AuctionKey Mine → Bool
in_my_ids key [] = false
in_my_ids (text n) ((k, mine) ∷ rest) = false
in_my_ids (number n) ((k, mine) ∷ rest) =
    if nat_eq (to_int k) n then true else in_my_ids (number n) rest

module _ (local_date : ℕ → Option String) where
  -- `datetime.fromtimestamp(timestamp).strftime(...)`: None is no timestamp, and a large one is out
  -- of range
  unfoldable pub formatted_time : Option ℕ → Result String
  formatted_time none = raised type_error
  formatted_time (some timestamp) = or_raise (local_date timestamp) overflow_error

  shown_entry : AuctionKey → Entry → Result Shown
  unfolding formatted_time
  shown_entry key info = bind_result (formatted_time info.closing_date) λ closing. ok (record {
    auction = key;
    finished = info.finished;
    highest = info.highest_bid;
    closing = closing;
  })

  -- the first loop
  unfoldable pub general_lines : Dict AuctionKey Mine → Dict AuctionKey Entry → Result (List Line)
  unfolding shown_entry
  general_lines my_auctions [] = ok []
  general_lines my_auctions ((key, info) ∷ rest) =
      let later = general_lines my_auctions rest in
      if in_my_ids key my_auctions
      then later
      else bind_result (shown_entry key info)
          (λ shown. bind_result later λ lines. ok (general info.my_bid shown ∷ lines))

  -- The fallback has no "closing_date", so it shows the time 0.
  shown_own : AuctionKey → Mine → Option Entry → Result Shown
  unfolding shown_entry formatted_time
  shown_own key mine (some info) = shown_entry key info
  shown_own key mine none = bind_result (formatted_time (some 0)) λ closing. ok (record {
    auction = key;
    finished = mine.finished;
    highest = mine.highest_bid;
    closing = closing;
  })

  -- the second loop: the data stand in "auction_list", under the int
  unfoldable pub own_lines : Dict AuctionKey Entry → Dict AuctionKey Mine → Result (List Line)
  unfolding shown_own
  own_lines auction_list [] = ok []
  own_lines auction_list ((key, mine) ∷ rest) =
      let later = own_lines auction_list rest in
      bind_result (shown_own key mine (Dict.lookup (number (to_int key)) auction_list))
        λ shown. bind_result later λ lines. ok (own shown ∷ lines)

  abbrev or_line : Line → List Line → List Line
  or_line line [] = line ∷ []
  or_line line (first ∷ rest) = first ∷ rest

  -- The lines, all of them or up to an exception.
  unfoldable pub print_auction_state : Auctions → Result (List Line)
  print_auction_state state =
      bind_result (general_lines state.my_auctions state.auction_list) λ others.
        bind_result (own_lines state.auction_list state.my_auctions) λ mine. ok (
          auctions_title ∷ or_line no_general_auctions others
          ++ mine_title ∷ or_line no_own_auctions mine)
