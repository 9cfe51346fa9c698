-- ===== src/Replay/Keys.antt =====
-- The keys under which a replay files the peer's own auctions and those that it won.
pub mod Replayed
use onyx_p2p_auction_system.Base.{
  ℕ, Bool, true, false, Option, none, some, List, [], ◌∷◌, ◌≡◌, refl, arith, subst, ◌∙◌,
  if◌then◌else◌, ⊤, Option-cases, inl, inr,
}
use onyx_p2p_auction_system.Base.Dict
use onyx_p2p_auction_system.Base.Dict.{Dict, lookup-insert_ne}
use onyx_p2p_auction_system.Base.Exec.{Result, ok, raised, resume}
use onyx_p2p_auction_system.Number.{Number, lt, to_float}
use onyx_p2p_auction_system.Event.{
  AuctionKey, number, text, key_instance, to_int, Event, Kind, auction, bid, auction_end,
}
use onyx_p2p_auction_system.Auctions.{Auctions, Entry, entry_of, no_auctions}
use onyx_p2p_auction_system.Wallet.{WalletFile}
use onyx_p2p_auction_system.Ledger.{Block}
use onyx_p2p_auction_system.Replay.{
  default_entry, set_entry, outbid_entry, ensure_auction_entry, entry_at, open_at, store_opened,
  my_opened, opened_entry, handle_auction_open, bid_at, store_bid, sync_mine, bid_event,
  handle_bid_event, close_entry, handle_auction_end, apply_kind, apply_event, apply_events,
  apply_chain, fix_last_id, ledger_to_auction_dict, owns, usable, open_offered, bid_offered,
  min_bid_of,
}

module _ {V : Type 0} where
  -- no key is an int
  abbrev IsTextual : Dict AuctionKey V → Type 0
  IsTextual d = (n : ℕ) → Dict.lookup (number n) d ≡ none

  insert-IsTextual :
      (key : ℕ) (v : V) (d : Dict AuctionKey V)
      → IsTextual d
      → IsTextual (Dict.insert (text key) v d)
  insert-IsTextual key v d h n =
      lookup-insert_ne (text key) (number n) v d (λ e. ground (arith, e)) ∙ h n

  insert_if-IsTextual :
      (test : Bool) (key : ℕ) (v : V) (d : Dict AuctionKey V)
      → IsTextual d
      → IsTextual (if test then Dict.insert (text key) v d else d)
  insert_if-IsTextual true key v d h = insert-IsTextual key v d h
  insert_if-IsTextual false key v d h = h

  update-IsTextual :
      (key : ℕ) (f : V → V) (found : Option V) (d : Dict AuctionKey V)
      → IsTextual d
      → let after : Dict AuctionKey V = elim found [
        | none ↦ d
        | some v ↦ Dict.insert (text key) (f v) d
      ] in
        IsTextual after
  update-IsTextual key f none d h = h
  update-IsTextual key f (some v) d h = insert-IsTextual key (f v) d h

  -- no key is a text
  abbrev pub IsNumeric : Dict AuctionKey V → Type 0
  IsNumeric d = (n : ℕ) → Dict.lookup (text n) d ≡ none

  insert-IsNumeric :
      (key : ℕ) (v : V) (d : Dict AuctionKey V)
      → IsNumeric d
      → IsNumeric (Dict.insert (number key) v d)
  insert-IsNumeric key v d h n =
      lookup-insert_ne (number key) (text n) v d (λ e. ground (arith, e)) ∙ h n

-- the keys of "auction_list", of "my_auctions" and of "winning_auction"
record IsFiled (auctions : Auctions) : Type 0 where
  listed : IsNumeric auctions.auction_list
  mine : IsTextual auctions.my_auctions
  won : IsTextual auctions.winning_auction

module _ (wallet : WalletFile) (event : Event) where
  ensure-IsFiled :
      (key : ℕ) (auctions : Auctions)
      → IsFiled auctions
      → IsFiled (ensure_auction_entry key auctions)
  unfolding ensure_auction_entry
  ensure-IsFiled key auctions h = record {
    listed = by_test (Dict.contains (number key) auctions.auction_list);
    mine = λ n. ground (arith, h.mine n);
    won = λ n. ground (arith, h.won n);
  }
    where
      by_test :
          (there : Bool)
          → IsNumeric
              (if there then auctions else set_entry key default_entry auctions).auction_list
      by_test true = h.listed
      by_test false = insert-IsNumeric key default_entry auctions.auction_list h.listed

  open_at-IsFiled :
      (key : ℕ) (least : Number) (entry : Entry) (high : Option Number) (auctions : Auctions)
      → IsFiled auctions
      → IsFiled (open_at wallet key event least entry high auctions).1
  unfolding open_at store_opened
  open_at-IsFiled key least entry none auctions h = h
  open_at-IsFiled key least entry (some high) auctions h = record {
    listed = insert-IsNumeric key (opened_entry event _ entry) auctions.auction_list h.listed;
    mine =
        insert_if-IsTextual (owns (usable event.token) wallet) key
          (my_opened event (opened_entry event _ entry)) auctions.my_auctions h.mine;
    won = h.won;
  }

  open_offered-IsFiled :
      (key : ℕ) (offered : Result Number) (auctions : Auctions)
      → IsFiled auctions
      → IsFiled (open_offered wallet key event offered auctions).1
  unfolding open_offered
  open_offered-IsFiled key (raised error) auctions h = h
  open_offered-IsFiled key (ok least) auctions h =
      open_at-IsFiled key least (entry_at key auctions) (entry_at key auctions).highest_bid auctions
        h

  bid_at-IsFiled :
      (key : ℕ) (x : Number) (entry : Entry) (high : Option Number) (auctions : Auctions)
      → IsFiled auctions
      → IsFiled (bid_at wallet key event x entry high auctions).1
  unfolding bid_at
  bid_at-IsFiled key x entry none auctions h = h
  bid_at-IsFiled key x entry (some high) auctions h = by_test (lt high x)
    where
      stored : IsFiled (store_bid wallet key event x entry auctions)
      stored = record {
        listed =
            insert-IsNumeric key (outbid_entry wallet event x entry) auctions.auction_list h.listed;
        mine =
            update-IsTextual key (sync_mine event x) (Dict.lookup (text key) auctions.my_auctions)
              auctions.my_auctions h.mine;
        won = h.won;
      }

      by_test :
          (larger : Bool)
          → IsFiled (if larger then store_bid wallet key event x entry auctions else auctions)
      by_test true = stored
      by_test false = h

  bid_offered-IsFiled :
      (key : ℕ) (offered : Result Number) (auctions : Auctions)
      → IsFiled auctions
      → IsFiled (bid_offered wallet key event offered auctions).1
  unfolding bid_offered
  bid_offered-IsFiled key (raised error) auctions h = h
  bid_offered-IsFiled key (ok x) auctions h =
      bid_at-IsFiled key x (entry_at key auctions) (entry_at key auctions).highest_bid auctions h

  close_entry-IsFiled :
      (key : ℕ) (entry : Entry) (auctions : Auctions)
      → IsFiled auctions
      → IsFiled (close_entry key entry auctions)
  unfolding close_entry
  close_entry-IsFiled key entry auctions h = record {
    listed = insert-IsNumeric key (record entry { finished = true }) auctions.auction_list h.listed;
    mine =
        update-IsTextual key (λ mine. record mine { finished = true })
          (Dict.lookup (text key) auctions.my_auctions) auctions.my_auctions h.mine;
    won = insert_if-IsTextual entry.my_bid key (entry_of key) auctions.winning_auction h.won;
  }

  handle_auction_open-IsFiled :
      (auctions : Auctions)
      → IsFiled auctions
      → IsFiled (handle_auction_open wallet event auctions).1
  unfolding handle_auction_open
  handle_auction_open-IsFiled auctions h = elim (Option-cases event.id) [
    | inl missing ↦ rw missing h
    | inr (k, e) ↦ rw e (
        open_offered-IsFiled (to_int k) (min_bid_of event)
          (ensure_auction_entry (to_int k) auctions) (ensure-IsFiled (to_int k) auctions h))
  ]

  bid_event-IsFiled :
      (id : Option AuctionKey) (amount : Option Number) (auctions : Auctions)
      → IsFiled auctions
      → IsFiled (bid_event wallet event id amount auctions).1
  unfolding bid_event
  bid_event-IsFiled none amount auctions h = h
  bid_event-IsFiled (some k) none auctions h = h
  bid_event-IsFiled (some k) (some x) auctions h =
      bid_offered-IsFiled (to_int k) (to_float x) (ensure_auction_entry (to_int k) auctions)
        (ensure-IsFiled (to_int k) auctions h)

  handle_auction_end-IsFiled :
      (auctions : Auctions) → IsFiled auctions → IsFiled (handle_auction_end event auctions)
  unfolding handle_auction_end
  handle_auction_end-IsFiled auctions h = by_id event.auction_id
    where
      by_entry :
          (key : ℕ) (found : Option Entry)
          → let after : Auctions = elim found [
            | none ↦ auctions
            | some entry ↦ close_entry key entry auctions
          ] in
            IsFiled after
      by_entry key none = h
      by_entry key (some entry) = close_entry-IsFiled key entry auctions h

      by_id :
          (id : Option AuctionKey)
          → let after : Auctions = elim id [
            | none ↦ auctions
            | some auction_id ↦
                let key = to_int auction_id in
                elim (Dict.lookup (number key) auctions.auction_list) [
                  | none ↦ auctions
                  | some entry ↦ close_entry key entry auctions
                ]
          ] in
            IsFiled after
      by_id none = h
      by_id (some k) = by_entry (to_int k) (Dict.lookup (number (to_int k)) auctions.auction_list)

  apply_kind-IsFiled :
      (kind : Option Kind) (auctions : Auctions)
      → IsFiled auctions
      → IsFiled (apply_kind wallet event kind auctions).1
  unfolding apply_kind handle_bid_event
  apply_kind-IsFiled (some auction) auctions h = handle_auction_open-IsFiled auctions h
  apply_kind-IsFiled (some bid) auctions h = bid_event-IsFiled event.auction_id event.bid auctions h
  apply_kind-IsFiled (some auction_end) auctions h = handle_auction_end-IsFiled auctions h
  apply_kind-IsFiled none auctions h = h
  apply_kind-IsFiled (some _) auctions h = h
