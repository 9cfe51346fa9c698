-- ===== src/Peer/Commands/Closing.antt =====
-- What a round of `check_auctions` (network/peer.py) does to the auctions whose time is over.
use onyx_p2p_auction_system.Base.{
  ℕ, Bool, true, false, ◌&&◌, Option, none, some, List, [], ◌∷◌, ◌++◌, map, ◌≡◌, refl, ap, sym,
  subst, ◌∙◌, Bool-cases, Option-cases, inl, inr, arith, if◌then◌else◌,
}
use mathlib.Core.Option
use mathlib.Core.List.{append_assoc, append-nil}
use onyx_p2p_auction_system.Base.Dict
use onyx_p2p_auction_system.Base.Dict.{Dict, keys, lookup-insert}
use onyx_p2p_auction_system.Base.Eq.{◌==◌}
use onyx_p2p_auction_system.Base.Exec.{Result, ok}
use onyx_p2p_auction_system.Event.{AuctionKey, key_instance, key_beq_iff}
use onyx_p2p_auction_system.Auctions.{Entry}
use onyx_p2p_auction_system.Peer.{Client, Library, Inputs, Sent, sent}
use onyx_p2p_auction_system.Peer.Tokens.Obtained.{IsReady, token_of, wallet_of, get_token-ready}
use onyx_p2p_auction_system.Peer.Commands.{
  check_auctions, check_round, end_own, end_message, finish_own, is_due,
}

abbrev Listed : Type 0
Listed = Dict AuctionKey Entry

abbrev has : AuctionKey → List AuctionKey → Bool
has k [] = false
has k (j ∷ rest) = if k == j then true else has k rest

-- as the keys of every dictionary
abbrev pub IsDistinct : List AuctionKey → Type 0
IsDistinct [] = Unit
IsDistinct (k ∷ rest) = (has k rest ≡ false) × IsDistinct rest

-- A key of `d.keys()` is one that the dictionary has.
pub has-contains :
    {V : Type 0} (k : AuctionKey) (d : Dict AuctionKey V)
    → has k (keys d) ≡ true
    → Dict.contains k d ≡ true
has-contains k [] h = h
has-contains k ((j, v) ∷ d) h = ground (arith, has-contains k d)

module _ (library : Library) (now : ℕ) where
  abbrev pub due_if : Option Entry → Bool
  due_if none = false
  due_if (some entry) = is_due library now entry

  -- the time of a known auction is over, and it is not finished
  abbrev pub is_over : Listed → AuctionKey → Bool
  is_over listed k = due_if (Dict.lookup k listed)

  abbrev pub over : Listed → List AuctionKey → List AuctionKey
  over listed [] = []
  over listed (k ∷ rest) =
      let others = over listed rest in if is_over listed k then k ∷ others else others

  abbrev pub finished_if : Bool → Option Entry → Option Entry
  finished_if false found = found
  finished_if true found = Option.map (λ (entry : Entry). record entry { finished = true }) found

  module _ (inputs : AuctionKey → Inputs)
      (ready : (k : AuctionKey) → IsReady library (inputs k)) where
    abbrev pub ending : Client → AuctionKey → Sent
    ending client k =
        sent client.group_key
          (end_message library (inputs k) k (token_of library (inputs k) (ready k)))

    -- What ending the auctions of some keys makes of a peer.
    pub record HasEnded (ks : List AuctionKey) (before after : Client) : Type 0 where
      pub announced :
          after.outbox ≡ before.outbox ++ map (ending before) (over before.auctions.auction_list ks)
      pub listed :
          (k : AuctionKey)
          → Dict.lookup k after.auctions.auction_list
            ≡ finished_if
                (has k ks && is_over before.auctions.auction_list k)
                (Dict.lookup k before.auctions.auction_list)
      pub ledger : after.ledger ≡ before.ledger

    end_first : AuctionKey → Entry → Client → Client
    unfolding end_own finish_own
    end_first k entry client =
        (end_own library (inputs k) k entry (token_of library (inputs k) (ready k))
          (record client { wallet = wallet_of library (inputs k) (ready k) client })).1

    step_over :
        (k : AuctionKey) (rest : List AuctionKey) (entry : Entry) (c : Client)
        → Dict.lookup k c.auctions.auction_list ≡ some entry
        → is_due library now entry ≡ true
        → check_auctions library now inputs (k ∷ rest) c
          ≡ check_auctions library now inputs rest (end_first k entry c)
    unfolding check_auctions end_first end_own finish_own
    step_over k rest entry c found due =
        rw (found, due, get_token-ready library (inputs k) (ready k) c) refl

    step_missing :
        (k : AuctionKey) (rest : List AuctionKey) (c : Client)
        → Dict.lookup k c.auctions.auction_list ≡ none
        → check_auctions library now inputs (k ∷ rest) c ≡ check_auctions library now inputs rest c
    unfolding check_auctions
    step_missing k rest c missing = rw missing refl

    step_past :
        (k : AuctionKey) (rest : List AuctionKey) (entry : Entry) (c : Client)
        → Dict.lookup k c.auctions.auction_list ≡ some entry
        → is_due library now entry ≡ false
        → check_auctions library now inputs (k ∷ rest) c ≡ check_auctions library now inputs rest c
    unfolding check_auctions
    step_past k rest entry c found later = rw (found, later) refl

    -- keys of which none is the one whose entry is written
    over-insert :
        (k : AuctionKey) (entry : Entry) (listed : Listed) (ks : List AuctionKey)
        → has k ks ≡ false
        → over (Dict.insert k entry listed) ks ≡ over listed ks
    over-insert k entry listed [] apart = refl
    over-insert k entry listed (j ∷ ks) apart =
        ground (arith, lookup-insert k j entry listed, over-insert k entry listed ks)

    finishes :
        (k : AuctionKey) (rest : List AuctionKey) (entry : Entry) (c : Client) (after : Client)
        → Dict.lookup k c.auctions.auction_list ≡ some entry
        → is_due library now entry ≡ true
        → has k rest ≡ false
        → HasEnded rest (end_first k entry c) after
        → HasEnded (k ∷ rest) c after
    unfolding end_first end_own finish_own
    finishes k rest entry c after found due apart ih = record {
      announced =
          ih.announced
          ∙ ground (
            arith,
            ap (λ ks. map (ending c) ks)
                (over-insert k (record entry { finished = true }) c.auctions.auction_list rest
                  apart),
            append_assoc c.outbox (ending c k ∷ [])
                (map (ending c) (over c.auctions.auction_list rest)),
          );
      listed = λ j. ground (
        arith,
        ih.listed j,
        key_beq_iff j k,
        key_beq_iff k j,
        lookup-insert k j (record entry { finished = true }) c.auctions.auction_list,
      );
      ledger = ih.ledger;
    }

    passes :
        (k : AuctionKey) (rest : List AuctionKey) (c : Client) (after : Client)
        → is_over c.auctions.auction_list k ≡ false
        → HasEnded rest c after
        → HasEnded (k ∷ rest) c after
    passes k rest c after not_over ih = record {
      announced = rw not_over ih.announced;
      listed = λ j. ground (arith, ih.listed j, key_beq_iff j k);
      ledger = ih.ledger;
    }

    -- the thread goes on, with a peer that has ended the auctions
    abbrev Ends : List AuctionKey → Client → Result Bool × Client → Type 0
    Ends ks c out = (out.0 ≡ ok true) × HasEnded ks c out.1

    check_auctions-Ends :
        (ks : List AuctionKey) (c : Client)
        → IsDistinct ks
        → Ends ks c (check_auctions library now inputs ks c)
    unfolding check_auctions
    check_auctions-Ends [] c distinct =
        (refl, record { announced = sym (append-nil c.outbox); listed = λ k. refl; ledger = refl })
    check_auctions-Ends (k ∷ rest) c distinct =
        elim (Option-cases (Dict.lookup k c.auctions.auction_list)) [
          | inl missing ↦
              let ih = check_auctions-Ends rest c distinct.1 in
              subst (Ends (k ∷ rest) c) (sym (step_missing k rest c missing))
                (ih.0, passes k rest c _ (rw missing refl) ih.1)
          | inr (entry, found) ↦ elim (Bool-cases (is_due library now entry)) [
            | inl due ↦
                let ih = check_auctions-Ends rest (end_first k entry c) distinct.1 in
                subst (Ends (k ∷ rest) c) (sym (step_over k rest entry c found due))
                  (ih.0, finishes k rest entry c _ found due distinct.0 ih.1)
            | inr later ↦
                let ih = check_auctions-Ends rest c distinct.1 in
                subst (Ends (k ∷ rest) c) (sym (step_past k rest entry c found later))
                  (ih.0, passes k rest c _ (rw (found, later) refl) ih.1)
          ]
        ]

    -- If every token can be had, a round of the thread goes on to the next; it has sent one message
    -- for each own auction that is known, whose time is over and that was not finished, in the order
    -- of "my_auctions", and has marked exactly these as finished. The own ledger stays as it was.
    pub check_round-ends :
        (c : Client)
        → IsDistinct (keys c.auctions.my_auctions)
        → ((check_round library now inputs c).0 ≡ ok true)
          × HasEnded (keys c.auctions.my_auctions) c (check_round library now inputs c).1
    unfolding check_round
    check_round-ends c distinct = check_auctions-Ends (keys c.auctions.my_auctions) c distinct

  -- Keys that "auction_list" does not have are passed over.
  pub check_auctions-idle :
      (inputs : AuctionKey → Inputs) (ks : List AuctionKey) (c : Client)
      → ((k : AuctionKey) → has k ks ≡ true → Dict.lookup k c.auctions.auction_list ≡ none)
      → check_auctions library now inputs ks c ≡ (ok true, c)
  unfolding check_auctions
  check_auctions-idle inputs [] c unknown = refl
  check_auctions-idle inputs (k ∷ rest) c unknown =
      rw (unknown k (ground (arith, key_beq_iff k k)))
        (check_auctions-idle inputs rest c λ j h. unknown j (ground (arith, h)))
