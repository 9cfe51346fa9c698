-- ===== src/Auctions/Ids.antt =====
-- The ids under which auctions are entered: `add_auction` and "last_auction_id".
use onyx_p2p_auction_system.Base.{
  ℕ, ◌+◌, String, Bool, true, false, Option, none, some, ◌≡◌, refl, ltb, if◌then◌else◌,
}
use onyx_p2p_auction_system.Base.Dict
use onyx_p2p_auction_system.Base.Dict.{contains, lookup-insert, lookup-insert_self}
use onyx_p2p_auction_system.Base.Exec.{ok}
use onyx_p2p_auction_system.Number.{Number}
use onyx_p2p_auction_system.Event.{number, key_instance, Token}
use onyx_p2p_auction_system.Auctions.{
  Auctions, Entry, Mine, slot, nothing, add_auction, insert_auction, new_entry, add_my_auction,
  remember_my_auction, generate_next_auction_id,
}

module _ (bid : Option Number) (closing : Option ℕ) (mine : Bool) (used : Option Token)
    (key : Option String) where
  pub add_auction-lookup :
      (n : ℕ) (auctions : Auctions)
      → contains (number n) auctions.auction_list ≡ false
      → let after = (add_auction (some (number n)) bid closing mine used key auctions).1 in
        (entry : Entry) × (Dict.lookup (number n) after.auction_list ≡ some entry)
        × (entry.closing_date ≡ closing)
  unfolding add_auction insert_auction new_entry
  add_auction-lookup n auctions unknown = rw unknown (
    new_entry bid closing mine used key,
    lookup-insert_self (number n) _ auctions.auction_list,
    refl,
  )

  -- A known id changes nothing.
  pub add_auction-known :
      (n : ℕ) (auctions : Auctions)
      → contains (number n) auctions.auction_list ≡ true
      → add_auction (some (number n)) bid closing mine used key auctions ≡ (ok false, auctions)
  unfolding add_auction
  add_auction-known n auctions known = rw known refl

-- the own auction that is filed under a new id
abbrev pub own_entry : Option Number → Option ℕ → Option Token → String → Entry
unfolding new_entry
own_entry bid closing used key = new_entry bid closing true used (some key)

abbrev pub own_mine : Option Token → String → String → Mine
own_mine used public_key private_key = record {
  public_key = some public_key;
  private_key = some private_key;
  auction_token_data = slot used;
  highest_bid = none;
  finished = false;
  last_bid_token_data = nothing;
}

module _ (bid : Option Number) (closing : Option ℕ) (used : Option Token)
    (public_key private_key : String) (auctions : Auctions) where
  abbrev pub next : ℕ
  next = auctions.last_auction_id + 1

  -- the dictionaries with an own auction under the next id
  abbrev pub with_own : Auctions
  with_own = record auctions {
    last_auction_id = next;
    auction_list =
        Dict.insert (number next) (own_entry bid closing used public_key) auctions.auction_list;
    my_auctions =
        Dict.insert (number next) (own_mine used public_key private_key) auctions.my_auctions;
  }

  pub generate_next_auction_id-next :
      generate_next_auction_id auctions ≡ (ok next, record auctions { last_auction_id = next })
  unfolding generate_next_auction_id
  generate_next_auction_id-next = refl

  pub add_my_auction-new :
      contains (number next) auctions.auction_list ≡ false
      → add_my_auction next public_key private_key bid closing used public_key
          (record auctions { last_auction_id = next })
        ≡ (ok true, with_own)
  unfolding add_my_auction add_auction insert_auction remember_my_auction
  add_my_auction-new unknown = rw (unknown, either (ltb next next)) refl
    where
      either : (b : Bool) → (if b then next else next) ≡ next
      either true = refl
      either false = refl
