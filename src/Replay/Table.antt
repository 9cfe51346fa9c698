-- ===== src/Replay/Table.antt =====
-- A table of the highest bids, and dictionaries of auctions that hold them.
use onyx_p2p_auction_system.Base.{
  ℕ, Bool, true, false, Option, none, some, List, [], ◌∷◌, ◌≡◌, refl, sym, ap, subst, ◌∙◌,
  Bool-cases, Option-cases, inl, inr, nat_eq, nat_eq_iff, if◌then◌else◌,
}
use onyx_p2p_auction_system.Base.Dict
use onyx_p2p_auction_system.Base.Dict.{Dict, lookup-insert, lookup-insert_self}
use onyx_p2p_auction_system.Base.Exec.{Result, ok, raised, bind_result, type_error}
use onyx_p2p_auction_system.Number.{Number, zero_value, max_of, to_float}
use onyx_p2p_auction_system.Event.{
  AuctionKey, number, key_instance, to_int, Event, Kind, auction, bid,
}
use onyx_p2p_auction_system.Auctions.{Auctions, Entry}
use onyx_p2p_auction_system.Replay.{default_entry, ensure_auction_entry, entry_at, set_entry}

-- the highest bid of each known auction
abbrev pub Table : Type 0
Table = ℕ → Option Number

abbrev pub put : ℕ → Number → Table → Table
put key x table n = if nat_eq key n then some x else table n

-- an auction that is not known yet starts at 0
abbrev pub floor : Option Number → Number
floor none = zero_value
floor (some x) = x

-- an offer at an auction, if its number is no error
abbrev pub at_auction : AuctionKey → Result Number → Result (Option (ℕ × Number))
at_auction key (raised error) = raised error
at_auction key (ok x) = ok (some (to_int key, x))

-- the auction that an event concerns, and the double that it offers there
abbrev pub bid_offer : Option AuctionKey → Option Number → Result (Option (ℕ × Number))
bid_offer (some key) (some x) = at_auction key (to_float x)
bid_offer _ _ = ok none

-- the least bid, which is 0 where the event has none and an error where it is null
abbrev pub least_offer : Option Number → Bool → Result Number
least_offer none true = raised type_error
least_offer none false = ok zero_value
least_offer (some x) _ = to_float x

abbrev pub offer_of : Event → Option Kind → Result (Option (ℕ × Number))
offer_of event (some auction) = elim event.id [
  | none ↦ ok none
  | some key ↦ at_auction key (least_offer event.min_bid event.null_min_bid)
]
offer_of event (some bid) = bid_offer event.auction_id event.bid
offer_of event _ = ok none

abbrev pub raise_by : Option (ℕ × Number) → Table → Table
raise_by none table = table
raise_by (some (key, x)) table = put key (max_of (floor (table key)) x) table

-- one event after the other, up to the first whose offer is an error
abbrev pub raise_all : List Event → Table → Result Table
raise_all [] table = ok table
raise_all (event ∷ rest) table =
    bind_result (offer_of event event.kind) λ offer. raise_all rest (raise_by offer table)

abbrev pub bid_in : Option Entry → Option (Option Number)
bid_in none = none
bid_in (some entry) = some entry.highest_bid

abbrev pub wrap : Option Number → Option (Option Number)
wrap none = none
wrap (some x) = some (some x)

-- the entries are those of the table, each with its bid
abbrev pub Tracks : Dict AuctionKey Entry → Table → Type 0
Tracks auction_list table = (n : ℕ) → bid_in (Dict.lookup (number n) auction_list) ≡ wrap (table n)

pub Tracks-insert :
    (key : ℕ) (entry : Entry) (x : Number) (auction_list : Dict AuctionKey Entry) (table : Table)
    → entry.highest_bid ≡ some x
    → Tracks auction_list table
    → Tracks (Dict.insert (number key) entry auction_list) (put key x table)
Tracks-insert key entry x auction_list table e h n =
    rw (lookup-insert (number key) (number n) entry auction_list) (by_key (nat_eq key n))
  where
    by_key :
        (here : Bool)
        → bid_in (if here then some entry else Dict.lookup (number n) auction_list)
          ≡ wrap (if here then some x else table n)
    by_key true = ap some e
    by_key false = h n

-- putting the same bid again
pub put_same :
    (key n : ℕ) (x : Number) (table : Table) → table key ≡ some x → put key x table n ≡ table n
put_same key n x table e = elim (Bool-cases (nat_eq key n)) [
  | inl same ↦ rw same (sym (subst (λ j. table j ≡ some x) ((nat_eq_iff key n).0 same) e))
  | inr different ↦ rw different refl
]

-- the entry of a known auction
pub tracked :
    (key : ℕ) (entry : Entry) (auction_list : Dict AuctionKey Entry) (table : Table)
    → Tracks auction_list table
    → Dict.lookup (number key) auction_list ≡ some entry
    → (x : Number) × (table key ≡ some x) × (entry.highest_bid ≡ some x)
tracked key entry auction_list table h e = known (table key) (sym (ap bid_in e) ∙ h key)
  where
    known :
        (slot : Option Number)
        → some entry.highest_bid ≡ wrap slot
        → (x : Number) × (slot ≡ some x) × (entry.highest_bid ≡ some x)
    known none k = absurd (cc k)
    known (some x) k = (x, refl, cc k)

pub Tracks-path :
    (auction_list : Dict AuctionKey Entry) (table other_table : Table)
    → ((n : ℕ) → table n ≡ other_table n)
    → Tracks auction_list table
    → Tracks auction_list other_table
Tracks-path auction_list table other_table same h n = h n ∙ ap wrap (same n)

untracked :
    (key : ℕ) (auction_list : Dict AuctionKey Entry) (table : Table)
    → Tracks auction_list table
    → Dict.lookup (number key) auction_list ≡ none
    → table key ≡ none
untracked key auction_list table h e = unknown (table key) (sym (ap bid_in e) ∙ h key)
  where
    unknown : (slot : Option Number) → none ≡ wrap slot → slot ≡ none
    unknown none k = refl
    unknown (some x) k = absurd (cc k)

-- `_ensure_auction_entry`, and the entry that is read then
pub record IsEnsured (key : ℕ) (after : Auctions) (table : Table) : Type 0 where
  pub tracks : Tracks after.auction_list (put key (floor (table key)) table)
  pub at_key : Dict.lookup (number key) after.auction_list ≡ some (entry_at key after)
  pub highest : (entry_at key after).highest_bid ≡ some (floor (table key))

entry_at_lem :
    (key : ℕ) (auctions : Auctions) (entry : Entry)
    → Dict.lookup (number key) auctions.auction_list ≡ some entry
    → entry_at key auctions ≡ entry
unfolding entry_at
entry_at_lem key auctions entry e = rw (entry_at, e) refl

module _ (key : ℕ) (auctions : Auctions) where
  chosen : Option Entry → Auctions
  chosen found =
      if elim found [ none ↦ false | some _ ↦ true ]
      then auctions
      else set_entry key default_entry auctions

  ensure_new :
      Dict.lookup (number key) auctions.auction_list ≡ none
      → ensure_auction_entry key auctions ≡ set_entry key default_entry auctions
  unfolding ensure_auction_entry chosen
  ensure_new missing = ap chosen missing

  ensure_old :
      (entry : Entry)
      → Dict.lookup (number key) auctions.auction_list ≡ some entry
      → ensure_auction_entry key auctions ≡ auctions
  unfolding ensure_auction_entry chosen
  ensure_old entry e = ap chosen e

  module _ (table : Table) (h : Tracks auctions.auction_list table) where
    new-IsEnsured : table key ≡ none → IsEnsured key (set_entry key default_entry auctions) table
    unfolding default_entry
    new-IsEnsured unknown =
        let at = lookup-insert_self (number key) default_entry auctions.auction_list in
        let at_lem = entry_at_lem key (set_entry key default_entry auctions) default_entry at in
        record {
          tracks =
              rw unknown
                (Tracks-insert key default_entry zero_value auctions.auction_list table refl h);
          at_key = at ∙ ap some (sym at_lem);
          highest = rw unknown (ap (λ (e : Entry). e.highest_bid) at_lem);
        }

    old-IsEnsured :
        (entry : Entry)
        → Dict.lookup (number key) auctions.auction_list ≡ some entry
        → IsEnsured key auctions table
    old-IsEnsured entry e =
        let (x, in_table, in_entry) = tracked key entry auctions.auction_list table h e in
        record {
          tracks =
              Tracks-path auctions.auction_list table _
                (λ n. rw in_table (sym (put_same key n x table in_table))) h;
          at_key = rw (entry_at_lem key auctions entry e) e;
          highest = rw (entry_at_lem key auctions entry e, in_table) in_entry;
        }

    pub ensure-IsEnsured : IsEnsured key (ensure_auction_entry key auctions) table
    ensure-IsEnsured = elim (Option-cases (Dict.lookup (number key) auctions.auction_list)) [
      | inl missing ↦
          rw (ensure_new missing)
            (new-IsEnsured (untracked key auctions.auction_list table h missing))
      | inr (entry, e) ↦ rw (ensure_old entry e) (old-IsEnsured entry e)
    ]
