-- ===== src/Replay.antt =====
-- client/ledger/translation/ledger_to_dict.py: the auctions rebuilt from the events of a chain. The
-- events are JSON objects, so `parse_event` returns them as they are.
pub mod Table
pub mod Highest
pub mod Keys
pub mod Ids
mod Tests
use onyx_p2p_auction_system.Base.{
  ℕ, zero, String, Bool, true, false, not, ◌&&◌, Option, none, some, List, [], ◌∷◌, max, str_eq, ⊤,
  if◌then◌else◌,
}
use onyx_p2p_auction_system.Base.Dict
use onyx_p2p_auction_system.Base.Dict.{keys}
use onyx_p2p_auction_system.Base.Exec.{Exec, Result, ok, raised, type_error, ◌>>=◌, ◌>>◌, pure}
use onyx_p2p_auction_system.Number.{Number, zero_value, lt, max_of, to_float}
use onyx_p2p_auction_system.Event.{
  AuctionKey, number, text, to_int, key_instance, Event, Kind, auction, bid, auction_end, Token,
  is_empty,
}
use onyx_p2p_auction_system.Auctions.{
  Auctions, Entry, Mine, Slot, none_text, nothing, holds, entry_of, no_auctions,
}
use onyx_p2p_auction_system.Ledger.{Block}
use onyx_p2p_auction_system.Wallet.{WalletFile, is_token_owner}

pub default_entry : Entry
default_entry = record {
  highest_bid = some zero_value;
  my_bid = false;
  closing_date = some 0;
  auction_token_data = none_text;
  finished = false;
  public_key = some "None";
  last_bid_token_data = none_text;
  timestamp = none;
}

abbrev set_entry : ℕ → Entry → Auctions → Auctions
set_entry key entry auctions = record auctions {
  auction_list = Dict.insert (number key) entry auctions.auction_list;
}

-- `auctions["auction_list"][key]`, once the entry is there
pub entry_at : ℕ → Auctions → Entry
unfolding default_entry
entry_at key auctions = elim (Dict.lookup (number key) auctions.auction_list) [
  | none ↦ default_entry
  | some entry ↦ entry
]

pub ensure_auction_entry : ℕ → Auctions → Auctions
unfolding default_entry
ensure_auction_entry key auctions =
    if Dict.contains (number key) auctions.auction_list
    then auctions
    else set_entry key default_entry auctions

-- a text is true in a test unless it is empty
abbrev text_or : Option String → Option String → Option String
text_or none old = old
text_or (some t) old = if str_eq t "" then old else some t

abbrev date_or : Option ℕ → Option ℕ → Option ℕ
date_or none old = old
date_or (some zero) old = old
date_or (some date) old = some date

-- `if token_data and isinstance(token_data, dict)`
abbrev usable : Option Token → Option Token
usable none = none
usable (some t) = if is_empty t then none else some t

owns : Option Token → WalletFile → Bool
owns none wallet = false
owns (some t) wallet = is_token_owner t.token_id wallet

opened_entry : Event → Number → Entry → Entry
opened_entry event highest entry = record entry {
  highest_bid = some highest;
  public_key = text_or event.public_key entry.public_key;
  closing_date = date_or event.closing_date entry.closing_date;
  auction_token_data = elim (usable event.token) [
    | none ↦ entry.auction_token_data
    | some t ↦ holds t
  ];
}

my_opened : Event → Entry → Mine
my_opened event entry = record {
  public_key = event.public_key;
  private_key = none;
  auction_token_data = elim (usable event.token) [ none ↦ nothing | some t ↦ holds t ];
  highest_bid = entry.highest_bid;
  finished = entry.finished;
  last_bid_token_data = nothing;
}

store_opened : WalletFile → ℕ → Event → Entry → Auctions → Auctions
unfolding my_opened owns
store_opened wallet key event entry auctions = record auctions {
  auction_list = Dict.insert (number key) entry auctions.auction_list;
  my_auctions =
      if owns (usable event.token) wallet
      then Dict.insert (text key) (my_opened event entry) auctions.my_auctions
      else auctions.my_auctions;
  last_auction_id = max auctions.last_auction_id key;
}

-- `float(event.get("min_bid", 0.0))`: the default stands for an absent key only.
abbrev min_bid_of : Event → Result Number
min_bid_of event = elim event.min_bid [
  | none ↦ if event.null_min_bid then raised type_error else ok zero_value
  | some value ↦ to_float value
]

open_at : WalletFile → ℕ → Event → Number → Entry → Option Number → Exec Auctions ⊤
unfolding store_opened opened_entry
open_at wallet key event least entry none auctions = (raised type_error, auctions)
open_at wallet key event least entry (some highest) auctions = (
  ok tt,
  store_opened wallet key event (opened_entry event (max_of highest least) entry) auctions,
)

-- behind `_ensure_auction_entry`, whose entry stays when `float` raises
open_offered : WalletFile → ℕ → Event → Result Number → Exec Auctions ⊤
unfolding open_at entry_at
open_offered wallet key event (raised error) auctions = (raised error, auctions)
open_offered wallet key event (ok least) auctions =
    let entry = entry_at key auctions in
    open_at wallet key event least entry entry.highest_bid auctions

pub handle_auction_open : WalletFile → Event → Exec Auctions ⊤
unfolding open_offered ensure_auction_entry
handle_auction_open wallet event auctions = elim event.id [
  | none ↦ (ok tt, auctions)
  | some auction_id ↦
      let key = to_int auction_id in
      open_offered wallet key event (min_bid_of event) (ensure_auction_entry key auctions)
]

outbid_entry : WalletFile → Event → Number → Entry → Entry
unfolding owns
outbid_entry wallet event bid_val entry = record entry {
  highest_bid = some bid_val;
  last_bid_token_data = elim (usable event.token) [ none ↦ none_text | some t ↦ holds t ];
  my_bid = owns (usable event.token) wallet;
}

sync_mine : Event → Number → Mine → Mine
sync_mine event bid_val mine = record mine {
  highest_bid = some bid_val;
  last_bid_token_data = elim (usable event.token) [
    | none ↦ mine.last_bid_token_data
    | some t ↦ holds t
  ];
}

store_bid : WalletFile → ℕ → Event → Number → Entry → Auctions → Auctions
unfolding outbid_entry sync_mine
store_bid wallet key event bid_val entry auctions = record auctions {
  auction_list =
      Dict.insert (number key) (outbid_entry wallet event bid_val entry) auctions.auction_list;
  my_auctions = elim (Dict.lookup (text key) auctions.my_auctions) [
    | none ↦ auctions.my_auctions
    | some mine ↦ Dict.insert (text key) (sync_mine event bid_val mine) auctions.my_auctions
  ];
}

bid_at : WalletFile → ℕ → Event → Number → Entry → Option Number → Exec Auctions ⊤
unfolding store_bid
bid_at wallet key event bid_val entry none auctions = (raised type_error, auctions)
bid_at wallet key event bid_val entry (some current_high) auctions = (
  ok tt,
  if lt current_high bid_val then store_bid wallet key event bid_val entry auctions else auctions,
)

-- TypeError and ValueError end the handler, but a number can only raise OverflowError.
bid_offered : WalletFile → ℕ → Event → Result Number → Exec Auctions ⊤
unfolding bid_at entry_at
bid_offered wallet key event (raised error) auctions = (raised error, auctions)
bid_offered wallet key event (ok bid_val) auctions =
    let entry = entry_at key auctions in
    bid_at wallet key event bid_val entry entry.highest_bid auctions

bid_event : WalletFile → Event → Option AuctionKey → Option Number → Exec Auctions ⊤
unfolding bid_offered ensure_auction_entry
bid_event wallet event none amount auctions = (ok tt, auctions)
bid_event wallet event (some auction_id) none auctions = (ok tt, auctions)
bid_event wallet event (some auction_id) (some bid_amount) auctions =
    let key = to_int auction_id in
    bid_offered wallet key event (to_float bid_amount) (ensure_auction_entry key auctions)

pub handle_bid_event : WalletFile → Event → Exec Auctions ⊤
unfolding bid_event
handle_bid_event wallet event = bid_event wallet event event.auction_id event.bid

close_entry : ℕ → Entry → Auctions → Auctions
close_entry key entry auctions = record auctions {
  auction_list = Dict.insert (number key) (record entry { finished = true }) auctions.auction_list;
  my_auctions = elim (Dict.lookup (text key) auctions.my_auctions) [
    | none ↦ auctions.my_auctions
    | some mine ↦ Dict.insert (text key) (record mine { finished = true }) auctions.my_auctions
  ];
  winning_auction =
      if entry.my_bid
      then Dict.insert (text key) (entry_of key) auctions.winning_auction
      else auctions.winning_auction;
}

pub handle_auction_end : Event → Auctions → Auctions
unfolding close_entry
handle_auction_end event auctions = elim event.auction_id [
  | none ↦ auctions
  | some auction_id ↦
      let key = to_int auction_id in
      elim (Dict.lookup (number key) auctions.auction_list) [
        | none ↦ auctions
        | some entry ↦ close_entry key entry auctions
      ]
]

apply_kind : WalletFile → Event → Option Kind → Exec Auctions ⊤
unfolding handle_auction_open handle_bid_event handle_auction_end
apply_kind wallet event (some auction) = handle_auction_open wallet event
apply_kind wallet event (some bid) = handle_bid_event wallet event
apply_kind wallet event (some auction_end) = λ auctions. (ok tt, handle_auction_end event auctions)
apply_kind wallet event _ = pure tt

pub apply_event : WalletFile → Event → Exec Auctions ⊤
unfolding apply_kind
apply_event wallet event = apply_kind wallet event event.kind

pub apply_events : WalletFile → List Event → Exec Auctions ⊤
unfolding apply_event
apply_events wallet [] = pure tt
apply_events wallet (event ∷ rest) = apply_event wallet event >> apply_events wallet rest

apply_chain : WalletFile → List Block → Exec Auctions ⊤
unfolding apply_events
apply_chain wallet [] = pure tt
apply_chain wallet (block ∷ rest) = apply_events wallet block.events >> apply_chain wallet rest

-- `max(keys)` and "last_auction_id"; the keys of "auction_list" are ints here
max_key : ℕ → List AuctionKey → ℕ
max_key n [] = n
max_key n (key ∷ rest) = max_key (max n (to_int key)) rest

fix_last_id : Auctions → Auctions
unfolding max_key
fix_last_id auctions = record auctions {
  last_auction_id = max_key auctions.last_auction_id (keys auctions.auction_list);
}

pub ledger_to_auction_dict : WalletFile → List Block → Result Auctions
unfolding apply_chain fix_last_id
ledger_to_auction_dict wallet chain =
    let (r, auctions) = apply_chain wallet chain no_auctions in
    elim r [ ok _ ↦ ok (fix_last_id auctions) | raised e ↦ raised e ]
