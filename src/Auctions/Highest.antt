-- ===== src/Auctions/Highest.antt =====
-- What the operations on the auction dictionaries do to the highest bid of each auction.
use onyx_p2p_auction_system.Base.{
  ℕ, String, Bool, Option, none, some, ◌≡◌, ◌≢◌, refl, sym, subst, ap, arith, inl, inr,
  Option-cases,
}
use onyx_p2p_auction_system.Base.Dict
use onyx_p2p_auction_system.Base.Dict.{lookup-insert, lookup-insert_self, lookup-insert_ne}
use onyx_p2p_auction_system.Number.{Number}
use onyx_p2p_auction_system.Event.{AuctionKey, number, text, key_instance, Token, Stamp}
use onyx_p2p_auction_system.Auctions.{
  Auctions, Entry, add_auction, insert_auction, new_entry, get_auction_higher_bid,
  get_auction_higher_bid_timestamp, update_auction_higher_bid, update_entry, with_bid,
}

module _ (bid : Option Number) (is_mine : Bool) (used : Option Token) (stamp : Option Stamp) where
  -- what the bid leaves at its auction
  abbrev Holds : AuctionKey → Auctions → Type 0
  Holds key after =
      (get_auction_higher_bid after (some key) ≡ bid)
      × (get_auction_higher_bid_timestamp after (some key) ≡ stamp)

  update_entry-Holds :
      (key : AuctionKey) (entry : Entry) (auctions : Auctions)
      → Holds key (update_entry key bid is_mine used stamp (some entry) auctions).1
  unfolding update_entry with_bid get_auction_higher_bid get_auction_higher_bid_timestamp
  update_entry-Holds key entry auctions =
      let e =
        lookup-insert_self key (with_bid bid is_mine used stamp entry) auctions.auction_list in
      (
        ap (λ (found : Option Entry). elim found [ none ↦ none | some a ↦ a.highest_bid ]) e,
        ap (λ (found : Option Entry). elim found [ none ↦ none | some a ↦ a.timestamp ]) e,
      )

  -- a bid on a known auction
  pub update-get_self :
      (key : AuctionKey) (entry : Entry) (auctions : Auctions)
      → Dict.lookup key auctions.auction_list ≡ some entry
      → Holds key (update_auction_higher_bid (some key) bid is_mine used stamp auctions).1
  unfolding update_auction_higher_bid
  update-get_self key entry auctions e =
      subst
        (λ (found : Option Entry).
          Holds key (update_entry key bid is_mine used stamp found auctions).1)
        (sym e) (update_entry-Holds key entry auctions)

  update_entry-get_ne :
      (key other_key : AuctionKey) (found : Option Entry) (auctions : Auctions)
      → key ≢ other_key
      → get_auction_higher_bid
          (update_entry key bid is_mine used stamp found auctions).1
          (some other_key)
        ≡ get_auction_higher_bid auctions (some other_key)
  unfolding update_entry get_auction_higher_bid
  update_entry-get_ne key other_key none auctions different = refl
  update_entry-get_ne key other_key (some entry) auctions different =
      ap (λ (found : Option Entry). elim found [ none ↦ none | some auction ↦ auction.highest_bid ])
        (lookup-insert_ne key other_key (with_bid bid is_mine used stamp entry)
          auctions.auction_list different)

  -- the other auctions
  pub update-get_ne :
      (key : Option AuctionKey) (other_key : AuctionKey) (auctions : Auctions)
      → key ≢ some other_key
      → get_auction_higher_bid
          (update_auction_higher_bid key bid is_mine used stamp auctions).1
          (some other_key)
        ≡ get_auction_higher_bid auctions (some other_key)
  unfolding update_auction_higher_bid
  update-get_ne none other_key auctions different = refl
  update-get_ne (some key) other_key auctions different =
      update_entry-get_ne key other_key (Dict.lookup key auctions.auction_list) auctions
        (λ e. different (ap some e))

module _ (least : Option Number) (closing : Option ℕ) (is_mine : Bool) (used : Option Token)
    (public_key : Option String) where
  add_auction-number :
      (n : ℕ) (key : AuctionKey) (entry : Entry) (auctions : Auctions)
      → Dict.lookup key auctions.auction_list ≡ some entry
      → Dict.lookup key
          (add_auction
            (some (number n))
            least
            closing
            is_mine
            used
            public_key
            auctions).1.auction_list
        ≡ some entry
  unfolding add_auction insert_auction
  add_auction-number n key entry auctions e =
      let added = new_entry least closing is_mine used public_key in
      grind (
        arith,
        lookup-insert (number n) key added auctions.auction_list,
        key_instance.equals_iff (number n) key,
      )

  -- An auction that is known is not put again.
  pub add_auction-keeps :
      (id : Option AuctionKey) (key : AuctionKey) (entry : Entry) (auctions : Auctions)
      → Dict.lookup key auctions.auction_list ≡ some entry
      → Dict.lookup key
          (add_auction id least closing is_mine used public_key auctions).1.auction_list
        ≡ some entry
  unfolding add_auction
  add_auction-keeps none key entry auctions e = e
  add_auction-keeps (some (text n)) key entry auctions e = grind arith
  add_auction-keeps (some (number n)) key entry auctions e =
      add_auction-number n key entry auctions e

-- a known highest bid is that of an entry
pub entry_of_bid :
    (key : AuctionKey) (auctions : Auctions) (amount : Number)
    → get_auction_higher_bid auctions (some key) ≡ some amount
    → (entry : Entry) × (Dict.lookup key auctions.auction_list ≡ some entry)
      × (entry.highest_bid ≡ some amount)
unfolding get_auction_higher_bid
entry_of_bid key auctions amount h = elim (Option-cases (Dict.lookup key auctions.auction_list)) [
  | inl missing ↦ absurd (cc (h, missing))
  | inr (entry, e) ↦ (entry, e, cc (h, e))
]

pub bid_of_entry :
    (key : AuctionKey) (auctions : Auctions) (entry : Entry)
    → Dict.lookup key auctions.auction_list ≡ some entry
    → get_auction_higher_bid auctions (some key) ≡ entry.highest_bid
unfolding get_auction_higher_bid
bid_of_entry key auctions entry e = rw (get_auction_higher_bid, e) refl
