-- ===== src/Peer/Process/Bids.antt =====
-- The rule for a bid from the network, and what it does to the highest bids.
pub mod Nan
use onyx_p2p_auction_system.Base.{
  ℕ, ◌≤◌, String, Bool, true, false, Option, none, some, ◌≡◌, ◌≢◌, ◌↔◌, refl, sym, ap, subst, ◌∙◌,
  arith, ◌⊎◌, inl, inr, Bool-cases, ⊤, ◌||◌, not, ltb, if◌then◌else◌,
}
use onyx_p2p_auction_system.Base.Dict
use onyx_p2p_auction_system.Base.Exec.{Result, ok, raised, resume, pure, ◌>>◌}
use onyx_p2p_auction_system.Number.{Number, nan, lt, eq, is_nan, IsAtLeast, lt_irrefl}
use onyx_p2p_auction_system.Event.{
  AuctionKey, key_instance, key_beq, key_beq_iff, Stamp, Token, is_auction,
}
use onyx_p2p_auction_system.Auctions.{
  Auctions, Entry, add_auction, get_auction_higher_bid, get_auction_higher_bid_timestamp,
  update_auction_higher_bid,
}
use onyx_p2p_auction_system.Auctions.Highest.{
  update-get_self, update-get_ne, add_auction-keeps, entry_of_bid, bid_of_entry,
}
use onyx_p2p_auction_system.Peer.{Message}
use onyx_p2p_auction_system.Peer.Process.{
  takes_lead, equal_bid, later_loses, bid_update, update_personal_auctions,
}

-- both timestamps as `datetime.fromisoformat` reads them
pub record AreTimes (iso_time : String → Option ℕ) (last new : Stamp) (ex_ts new_ts : ℕ)
    : Type 0 where
  pub ex_text : String
  pub new_text : String
  pub last_iso : last.iso ≡ some ex_text
  pub new_iso : new.iso ≡ some new_text
  pub last_read : iso_time ex_text ≡ some ex_ts
  pub new_read : iso_time new_text ≡ some new_ts

resume-state :
    {A S : Type 0} → (r : Result A) (s : S) → (resume {0, 0, 0} r (λ _. pure (tt {0})) s).1 ≡ s
resume-state (ok a) s = refl
resume-state (raised e) s = refl

module _ (iso_time : String → Option ℕ) where
  later_loses_lem :
      (last new : Stamp) (ex_ts new_ts : ℕ)
      → AreTimes iso_time last new ex_ts new_ts
      → later_loses iso_time last.iso (some new) ≡ ok (not (ltb ex_ts new_ts))
  unfolding later_loses
  later_loses_lem last new ex_ts new_ts times =
      ground (arith, times.last_iso, times.new_iso, times.last_read, times.new_read)

  -- Between numbers with timestamps that can be read, a bid takes the lead exactly when it is not
  -- below the highest bid and, if it equals it, its timestamp is not later than the standing one.
  pub takes_lead_iff :
      (new_bid current_high : Number) (last new : Stamp) (ex_ts new_ts : ℕ)
      → AreTimes iso_time last new ex_ts new_ts
      → (takes_lead iso_time (some new_bid) (some current_high) (some last) (some new) ≡ ok true)
        ↔ ((lt new_bid current_high ≡ false)
            × ((eq new_bid current_high ≡ false) ⊎ (new_ts ≤ ex_ts)))
  unfolding takes_lead equal_bid
  takes_lead_iff new_bid current_high last new ex_ts new_ts times =
      by_tests (lt new_bid current_high) (eq new_bid current_high)
        (later_loses_lem last new ex_ts new_ts times)
    where
      by_tests :
          (below equal : Bool) {tie : Result Bool}
          → tie ≡ ok (not (ltb ex_ts new_ts))
          → ((if below then ok false else if equal then tie else ok true) ≡ ok true)
            ↔ ((below ≡ false) × ((equal ≡ false) ⊎ (new_ts ≤ ex_ts)))
      by_tests true equal e = (λ h. absurd (cc h), λ h. absurd (cc h.0))
      by_tests false false e = (λ h. (refl, inl refl), λ h. refl)
      by_tests false true {tie} e =
          (λ h. (refl, inr (ground (arith, e, h))), λ h. ground (arith, e, h.1))

  lead-not_below :
      (bid : Option Number) (high : Number) (last new : Option Stamp)
      → takes_lead iso_time bid (some high) last new ≡ ok true
      → (amount : Number) × (bid ≡ some amount) × (lt amount high ≡ false)
  unfolding takes_lead equal_bid
  lead-not_below none high last new h = absurd (cc h)
  lead-not_below (some amount) high last new h = (amount, refl, ground (arith, h))

  -- The two outcomes of a bid: nothing changes, or it takes the lead and is stored.
  bid_cases :
      (msg : Message) (auctions : Auctions)
      → ((bid_update iso_time msg auctions).1 ≡ auctions)
        ⊎ ((takes_lead iso_time msg.bid
                (get_auction_higher_bid auctions msg.auction_id)
                (get_auction_higher_bid_timestamp auctions msg.auction_id)
                msg.timestamp
              ≡ ok true)
            × ((bid_update iso_time msg auctions).1
                ≡ (update_auction_higher_bid msg.auction_id msg.bid false msg.token_data
                    msg.timestamp auctions).1))
  unfolding bid_update
  bid_cases msg auctions = by_lead (
      takes_lead iso_time msg.bid (get_auction_higher_bid auctions msg.auction_id)
        (get_auction_higher_bid_timestamp auctions msg.auction_id) msg.timestamp)
    where
      stored : Auctions
      stored =
          (update_auction_higher_bid msg.auction_id msg.bid false msg.token_data msg.timestamp
            auctions).1

      by_lead :
          (lead : Result Bool)
          → let out : Result ⊤ × Auctions = elim lead [
            | raised error ↦ (raised error, auctions)
            | ok leads ↦
                if leads
                then (update_auction_higher_bid msg.auction_id msg.bid false msg.token_data
                        msg.timestamp
                      >> pure tt)
                    auctions
                else (ok tt, auctions)
          ] in
            (out.1 ≡ auctions) ⊎ ((lead ≡ ok true) × (out.1 ≡ stored))
      by_lead (raised error) = inl refl
      by_lead (ok false) = inl refl
      by_lead (ok true) = inr (refl, resume-state _ stored)

  -- the highest bid of `key` afterwards, not below `high` and not NaN
  abbrev IsRaised : AuctionKey → Number → Auctions → Type 0
  IsRaised key high after =
      (amount : Number) × (get_auction_higher_bid after (some key) ≡ some amount)
      × IsAtLeast high amount

  abbrev IsNoNan : Option Number → Type 0
  IsNoNan bid = (amount : Number) → bid ≡ some amount → is_nan amount ≡ false

  module _ (key : AuctionKey) (high : Number) (bid : Option Number) (used : Option Token)
      (last stamp : Option Stamp) (auctions : Auctions) (standing : is_nan high ≡ false)
      (comes : IsNoNan bid) (h : get_auction_higher_bid auctions (some key) ≡ some high) where
    unchanged-IsRaised : IsRaised key high auctions
    unchanged-IsRaised = (high, h, (lt_irrefl high, standing))

    at_key-IsRaised :
        takes_lead iso_time bid (get_auction_higher_bid auctions (some key)) last stamp ≡ ok true
        → IsRaised key high (update_auction_higher_bid (some key) bid false used stamp auctions).1
    at_key-IsRaised leads =
        let (entry, at, _) = entry_of_bid key auctions high h in
        let (amount, given, above) =
          lead-not_below bid high last stamp
            (subst (λ current. takes_lead iso_time bid current last stamp ≡ ok true) h leads) in
        (
          amount,
          (update-get_self bid false used stamp key entry auctions at).0 ∙ given,
          (above, comes amount given),
        )

    elsewhere-IsRaised :
        (id : Option AuctionKey)
        → id ≢ some key
        → IsRaised key high (update_auction_higher_bid id bid false used stamp auctions).1
    elsewhere-IsRaised id different = (
      high,
      update-get_ne bid false used stamp id key auctions different ∙ h,
      (lt_irrefl high, standing),
    )

    stored-IsRaised :
        (id : Option AuctionKey)
        → takes_lead iso_time bid (get_auction_higher_bid auctions id) last stamp ≡ ok true
        → IsRaised key high (update_auction_higher_bid id bid false used stamp auctions).1
    stored-IsRaised none leads = elsewhere-IsRaised none (λ e. cc e)
    stored-IsRaised (some k) leads = elim (Bool-cases (key_beq k key)) [
      | inl same ↦
          subst
            (λ (j : AuctionKey).
              takes_lead iso_time bid (get_auction_higher_bid auctions (some j)) last stamp
                ≡ ok true
              → IsRaised key high
                  (update_auction_higher_bid (some j) bid false used stamp auctions).1)
            (sym ((key_beq_iff k key).0 same)) at_key-IsRaised leads
      | inr different ↦
          elsewhere-IsRaised (some k) (λ e. cc (different, (key_beq_iff k key).1 (cc e)))
    ]

  -- Once the highest bid of an auction is a number and not NaN, `update_personal_auctions` does not
  -- lower it, for a message whose bid is not NaN, as an "auction" or as any other kind, whichever
  -- auction the message names, also when it raises.
  pub update_personal_auctions-IsRaised :
      (key : AuctionKey) (high : Number) (msg : Message) (auctions : Auctions)
      → is_nan high ≡ false
      → IsNoNan msg.bid
      → get_auction_higher_bid auctions (some key) ≡ some high
      → IsRaised key high (update_personal_auctions iso_time msg auctions).1
  unfolding update_personal_auctions
  update_personal_auctions-IsRaised key high msg auctions standing comes h =
      by_kind (is_auction msg.kind)
    where
      bids : IsRaised key high (bid_update iso_time msg auctions).1
      bids = elim (bid_cases msg auctions) [
        | inl same ↦ subst (IsRaised key high) (sym same) (
            unchanged-IsRaised key high msg.bid msg.token_data msg.timestamp msg.timestamp auctions
              standing comes h)
        | inr (leads, e) ↦ subst (IsRaised key high) (sym e) (
            stored-IsRaised key high msg.bid msg.token_data _ msg.timestamp auctions standing comes
              h msg.auction_id leads)
      ]

      opens :
          IsRaised key high
            ((add_auction msg.id msg.min_bid msg.closing_date false msg.token_data msg.public_key
                >> pure (tt {0}))
              auctions).1
      opens =
          let (entry, at, e) = entry_of_bid key auctions high h in
          let added =
            add_auction msg.id msg.min_bid msg.closing_date false msg.token_data msg.public_key
              auctions in
          (
            high,
            ap (λ (a : Auctions). get_auction_higher_bid a (some key))
                  (resume-state added.0 added.1)
                ∙ bid_of_entry key added.1 entry (
                    add_auction-keeps msg.min_bid msg.closing_date false msg.token_data
                      msg.public_key msg.id key entry auctions at)
                ∙ e,
            (lt_irrefl high, standing),
          )

      by_kind :
          (opening : Bool)
          → IsRaised key high
              ((if opening
                  then (add_auction msg.id msg.min_bid msg.closing_date false msg.token_data
                        msg.public_key
                      >> pure (tt {0}))
                  else bid_update iso_time msg)
                auctions).1
      by_kind true = opens
      by_kind false = bids
