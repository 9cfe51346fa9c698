-- ===== src/Auctions.antt =====
-- client/client_state.py (`auctions`) and the state utilities of
-- client/message/auction/auction_handler.py: the dictionaries of the known auctions.
pub mod Highest
pub mod Ids
pub mod Won
use onyx_p2p_auction_system.Base.{
  ℕ, ◌+◌, String, Bool, true, false, Option, none, some, [], ltb, if◌then◌else◌,
}
use onyx_p2p_auction_system.Base.Dict
use onyx_p2p_auction_system.Base.Dict.{Dict}
use onyx_p2p_auction_system.Base.Exec.{Exec, Result, ok, raised, type_error, ◌>>=◌, pure}
use onyx_p2p_auction_system.Number.{Number}
use onyx_p2p_auction_system.Event.{AuctionKey, number, text, key_instance, Token, Stamp}

-- What a key such as "last_bid_token_data" holds: nothing or None, the text "None" that a replay
-- writes, or a token.
pub data Slot : Type 0 where
  nothing none_text : Slot
  holds : Token → Slot

-- a value of "auction_list"; "my_bid" is the text "True" or "False"
pub record Entry : Type 0 where
  pub highest_bid : Option Number
  pub my_bid : Bool
  pub closing_date : Option ℕ
  pub auction_token_data : Slot
  pub finished : Bool
  pub public_key : Option String
  pub last_bid_token_data : Slot
  pub timestamp : Option Stamp

-- a value of "my_auctions"
pub record Mine : Type 0 where
  pub public_key : Option String
  pub private_key : Option String
  pub auction_token_data : Slot
  pub highest_bid : Option Number
  pub finished : Bool
  pub last_bid_token_data : Slot

-- a value of "winning_auction": a deal key, or, from a replay, the very object that "auction_list"
-- holds at the int key
pub data Winning : Type 0 where
  deal_key : String → Winning
  entry_of : ℕ → Winning

pub record Auctions : Type 0 where
  pub last_auction_id : ℕ
  pub auction_list : Dict AuctionKey Entry
  pub my_auctions : Dict AuctionKey Mine
  pub winning_auction : Dict AuctionKey Winning

abbrev pub no_auctions : Auctions
no_auctions = record {
  last_auction_id = 0;
  auction_list = [];
  my_auctions = [];
  winning_auction = [];
}

abbrev pub slot : Option Token → Slot
slot none = nothing
slot (some t) = holds t

-- `d.get(auction_id)`: None is a key of no dictionary here
abbrev pub get {ℓ} : {V : Type ℓ} → Option AuctionKey → Dict AuctionKey V → Option V
get none d = none
get (some k) d = Dict.lookup k d

new_entry : Option Number → Option ℕ → Bool → Option Token → Option String → Entry
new_entry highest_bid closing_timestamp mine used_token public_key = record {
  highest_bid = highest_bid;
  my_bid = mine;
  closing_date = closing_timestamp;
  auction_token_data = slot used_token;
  finished = false;
  public_key = public_key;
  last_bid_token_data = nothing;
  timestamp = none;
}

insert_auction : ℕ → Entry → Auctions → Result Bool × Auctions
insert_auction auction_id entry auctions = (
  ok true,
  record auctions {
    last_auction_id =
        if ltb auctions.last_auction_id auction_id then auction_id else auctions.last_auction_id;
    auction_list = Dict.insert (number auction_id) entry auctions.auction_list;
  },
)

-- An int is compared with "last_auction_id"; a text, or None, raises there.
pub add_auction :
    Option AuctionKey
    → Option Number
    → Option ℕ
    → Bool
    → Option Token
    → Option String
    → Exec Auctions Bool
unfolding new_entry insert_auction
add_auction none highest_bid closing_timestamp mine used_token public_key auctions =
    (raised type_error, auctions)
add_auction (some (text n)) highest_bid closing_timestamp mine used_token public_key auctions =
    if Dict.contains (text n) auctions.auction_list
    then (ok false, auctions)
    else (raised type_error, auctions)
add_auction (some (number n)) highest_bid closing_timestamp mine used_token public_key auctions =
    if Dict.contains (number n) auctions.auction_list
    then (ok false, auctions)
    else insert_auction n (new_entry highest_bid closing_timestamp mine used_token public_key)
        auctions

unfoldable pub get_auction_higher_bid : Auctions → Option AuctionKey → Option Number
get_auction_higher_bid auctions auction_id = elim (get auction_id auctions.auction_list) [
  | none ↦ none
  | some auction ↦ auction.highest_bid
]

-- The KeyError of an entry that has no "timestamp" is caught, and None comes back.
pub get_auction_higher_bid_timestamp : Auctions → Option AuctionKey → Option Stamp
get_auction_higher_bid_timestamp auctions auction_id = elim (get auction_id auctions.auction_list) [
  | none ↦ none
  | some auction ↦ auction.timestamp
]

with_bid : Option Number → Bool → Option Token → Option Stamp → Entry → Entry
with_bid new_bid is_my_bid used_token timestamp entry = record entry {
  highest_bid = new_bid;
  my_bid = is_my_bid;
  last_bid_token_data = slot used_token;
  timestamp = timestamp;
}

update_entry :
    AuctionKey
    → Option Number
    → Bool
    → Option Token
    → Option Stamp
    → Option Entry
    → Exec Auctions Bool
unfolding with_bid
update_entry key new_bid is_my_bid used_token timestamp none auctions = (ok false, auctions)
update_entry key new_bid is_my_bid used_token timestamp (some entry) auctions = (
  ok true,
  record auctions {
    auction_list =
        Dict.insert key (with_bid new_bid is_my_bid used_token timestamp entry)
          auctions.auction_list;
  },
)

pub update_auction_higher_bid :
    Option AuctionKey → Option Number → Bool → Option Token → Option Stamp → Exec Auctions Bool
unfolding update_entry
update_auction_higher_bid none new_bid is_my_bid used_token timestamp auctions =
    (ok false, auctions)
update_auction_higher_bid (some key) new_bid is_my_bid used_token timestamp auctions =
    update_entry key new_bid is_my_bid used_token timestamp (Dict.lookup key auctions.auction_list)
      auctions

remember_my_auction : ℕ → Mine → Exec Auctions Bool
remember_my_auction auction_id mine auctions = (
  ok true,
  record auctions { my_auctions = Dict.insert (number auction_id) mine auctions.my_auctions },
)

pub add_my_auction :
    ℕ → String → String → Option Number → Option ℕ → Option Token → String → Exec Auctions Bool
unfolding add_auction remember_my_auction
add_my_auction id public_key private_key starting_bid closing_timestamp used_token public_key_str =
    let mine : Mine = record {
      public_key = some public_key;
      private_key = some private_key;
      auction_token_data = slot used_token;
      highest_bid = none;
      finished = false;
      last_bid_token_data = nothing;
    } in
    add_auction (some (number id)) starting_bid closing_timestamp true used_token
      (some public_key_str)
    >>= λ added. if added then remember_my_auction id mine else pure false

pub generate_next_auction_id : Exec Auctions ℕ
generate_next_auction_id auctions =
    let next_id = auctions.last_auction_id + 1 in
    (ok next_id, record auctions { last_auction_id = next_id })

pub check_auction_existence : Auctions → Option AuctionKey → Bool
check_auction_existence auctions auction_id = elim (get auction_id auctions.auction_list) [
  | none ↦ false
  | some _ ↦ true
]

pub add_winning_key : AuctionKey → String → Auctions → Auctions
add_winning_key auction_id crypto_key auctions = record auctions {
  winning_auction = Dict.insert auction_id (deal_key crypto_key) auctions.winning_auction;
}

pub remove_winning_key : AuctionKey → Auctions → Auctions
remove_winning_key auction_id auctions = record auctions {
  winning_auction = Dict.erase auction_id auctions.winning_auction;
}

pub get_winning_key : Option AuctionKey → Auctions → Option Winning
get_winning_key auction_id auctions = get auction_id auctions.winning_auction
