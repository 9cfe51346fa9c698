-- ===== src/Peer/Commands/Ledgers.antt =====
-- What the commands of a user keep true of the local ledger.
use onyx_p2p_auction_system.Base.{
  ℕ, String, Bool, true, false, Option, none, some, ◌≡◌, refl, sym, subst, arith, ⊤, if◌then◌else◌,
}
use onyx_p2p_auction_system.Base.Exec.{Exec, Result, ok, raised, resume, pure, ◌>>=◌, ◌>>◌}
use onyx_p2p_auction_system.Number.{Number}
use onyx_p2p_auction_system.Event.{Token, is_genesis, number}
use onyx_p2p_auction_system.Ledger.Chain.{events_of}
use onyx_p2p_auction_system.Ledger.Spending.{In, spent}
use onyx_p2p_auction_system.Peer.{Client, Library, Inputs, Message, on_auctions}
use onyx_p2p_auction_system.Peer.Tokens.{get_token}
use onyx_p2p_auction_system.Peer.Tokens.Obtained.{IsFresh, get_token-IsFresh}
use onyx_p2p_auction_system.Peer.Sync.{try_token, after_token}
use onyx_p2p_auction_system.Peer.Reveal.Keeps.{Keeps, keeps_rules, Keeps-pure, Keeps-try}
use onyx_p2p_auction_system.Peer.Reveal.Keeps.Handlers.{get_token-Keeps}
use onyx_p2p_auction_system.Peer.Process.{record_action, takes_lead}
use onyx_p2p_auction_system.Auctions.{
  check_auction_existence, get_auction_higher_bid, get_auction_higher_bid_timestamp,
  update_auction_higher_bid,
}
use onyx_p2p_auction_system.Ledger.Sound.{IsSound}
use onyx_p2p_auction_system.Peer.Process.Ledgers.{HasSoundLedger, Unspent, record_action-IsSound}
use onyx_p2p_auction_system.Peer.Commands.{
  Command, bid_command, auction_command, exit, status, sends, cmd_auction, offer_message,
  placed_bid, place_bid, checked_bid, cmd_bid, record_own, peer_input,
}

module _ (library : Library) (inputs : Inputs) where
  -- a message that spends the new token
  record IsSpending (msg : Message) : Type 0 where
    token : Token
    carried : msg.token ≡ some token
    fresh : token.token_id ≡ some inputs.fresh_token_id
    no_genesis : is_genesis msg.kind ≡ false

  abbrev Spends : Result (Option Message) → Type 0
  Spends (ok (some msg)) = IsSpending msg
  Spends _ = Unit

  -- the message of `m`, if it returns one, spends the new token
  record IsSpender (m : Exec Client (Option Message)) : Type 0 where
    spends : (c : Client) → Spends (m c).0

  IsSpender-none : IsSpender (pure none)
  IsSpender-none = record { spends = λ c. tt }

  IsSpender-some :
      (msg : Message) (token : Token)
      → msg.token ≡ some token
      → token.token_id ≡ some inputs.fresh_token_id
      → is_genesis msg.kind ≡ false
      → IsSpender (pure (some msg))
  IsSpender-some msg token carried fresh no_genesis = record {
    spends =
        λ c. record { token = token; carried = carried; fresh = fresh; no_genesis = no_genesis };
  }

  IsSpender-bind :
      {A : Type 0} (m : Exec Client A) (f : A → Exec Client (Option Message))
      → ((a : A) → IsSpender (f a))
      → IsSpender (m >>= f)
  IsSpender-bind {A} m f h = record { spends = λ c. after (m c).0 (m c).1 }
    where
      after : (r : Result A) (c : Client) → Spends (resume r f c).0
      after (ok a) c = (h a).spends c
      after (raised error) c = tt

  IsSpender-try :
      (k : Token → Exec Client (Option Message))
      → ((token : Token) → token.token_id ≡ some inputs.fresh_token_id → IsSpender (k token))
      → IsSpender (try_token (get_token library inputs) (pure none) k)
  IsSpender-try k h = record {
    spends = λ c.
        by_token (get_token library inputs c).0 (get_token library inputs c).1
          (get_token-IsFresh library inputs c);
  }
    where
      by_token :
          (r : Result Token) (c' : Client)
          → IsFresh library inputs r
          → Spends (after_token r (pure none) k c').0
      by_token (ok token) c' fresh = (h token fresh).spends c'
      by_token (raised error) c' fresh = tt

  cmd_auction-IsSpender :
      (name : String) (min_bid : Number) → IsSpender (cmd_auction library inputs name min_bid)
  unfolding cmd_auction
  cmd_auction-IsSpender name min_bid =
      IsSpender-try _ λ token fresh. search (IsSpender-bind, IsSpender-some, fresh) depth 12

  cmd_auction-Keeps :
      (name : String) (min_bid : Number) → Keeps (cmd_auction library inputs name min_bid)
  unfolding cmd_auction
  cmd_auction-Keeps name min_bid = search (keeps_rules, get_token-Keeps) depth 12

  place-Keeps :
      (auction_id : ℕ) (amount : Number) → Keeps (place_bid library inputs auction_id amount)
  unfolding place_bid
  place-Keeps auction_id amount =
      Keeps-try _ _ _ (get_token-Keeps library inputs) (Keeps-pure none)
        λ token. record { ledger = λ c. ground arith; file = λ c. ground arith }

  record HasSpent (out : Result (Option Message) × Client) : Type 0 where
    spends : Spends out.0

  HasSpent-none : (c : Client) → HasSpent (ok none, c)
  HasSpent-none c = record { spends = tt }

  HasSpent-if :
      (test : Bool) (x y : Result (Option Message) × Client)
      → HasSpent x
      → HasSpent y
      → HasSpent (if test then x else y)
  HasSpent-if true x y hx hy = hx
  HasSpent-if false x y hx hy = hy

  HasSpent-then : (m : Exec Client (Option Message)) (c : Client) → IsSpender m → HasSpent (m c)
  HasSpent-then m c h = record { spends = h.spends c }

  place-HasSpent :
      (auction_id : ℕ) (amount : Number) (token : Token) (c : Client)
      → token.token_id ≡ some inputs.fresh_token_id
      → HasSpent (placed_bid library inputs auction_id amount token c)
  unfolding placed_bid offer_message
  place-HasSpent auction_id amount token c fresh = HasSpent-if _ _ _ (HasSpent-none c) (
      HasSpent-then _ c (
        IsSpender-bind
          (on_auctions (
            update_auction_higher_bid (some (number auction_id)) (some amount) true (some token)
              inputs.stamp))
          (λ _. pure (some (offer_message library inputs auction_id amount token c)))
          (λ _. IsSpender-some _ token refl fresh refl)))

  place-IsSpender :
      (auction_id : ℕ) (amount : Number) → IsSpender (place_bid library inputs auction_id amount)
  unfolding place_bid
  place-IsSpender auction_id amount = IsSpender-try _ λ token fresh. record {
    spends = λ c. (place-HasSpent auction_id amount token c fresh).spends;
  }

  -- whether the ledger is left alone, and what the message spends
  record IsOwn (before : Client) (out : Result (Option Message) × Client) : Type 0 where
    ledger : out.1.ledger ≡ before.ledger
    file : out.1.ledger_file ≡ before.ledger_file
    spends : Spends out.0

  place-IsOwn :
      (auction_id : ℕ) (amount : Number) (c : Client)
      → IsOwn c (place_bid library inputs auction_id amount c)
  place-IsOwn auction_id amount c = record {
    ledger = (place-Keeps auction_id amount).ledger c;
    file = (place-Keeps auction_id amount).file c;
    spends = (place-IsSpender auction_id amount).spends c;
  }

  checked_bid-IsOwn :
      (auction_id : ℕ) (amount : Number) (c : Client)
      → IsOwn c (checked_bid library inputs auction_id amount c)
  unfolding checked_bid
  checked_bid-IsOwn auction_id amount c =
      by_tests (check_auction_existence c.auctions (some (number auction_id))) (
        takes_lead library.iso_time (some amount)
          (get_auction_higher_bid c.auctions (some (number auction_id)))
          (get_auction_higher_bid_timestamp c.auctions (some (number auction_id))) inputs.stamp)
    where
      by_tests :
          (known : Bool) (lead : Result Bool)
          → IsOwn c (
              if known
              then elim lead [
                | raised error ↦ (raised error, c)
                | ok leads ↦
                    if leads then place_bid library inputs auction_id amount c else (ok none, c)
              ]
              else (ok none, c))
      by_tests false lead = record { ledger = refl; file = refl; spends = tt }
      by_tests true (raised error) = record { ledger = refl; file = refl; spends = tt }
      by_tests true (ok false) = record { ledger = refl; file = refl; spends = tt }
      by_tests true (ok true) = place-IsOwn auction_id amount c

  cmd_bid-IsOwn :
      (auction_id : Option ℕ) (amount : Option Number) (c : Client)
      → IsOwn c (cmd_bid library inputs auction_id amount c)
  unfolding cmd_bid
  cmd_bid-IsOwn none amount c = record { ledger = refl; file = refl; spends = tt }
  cmd_bid-IsOwn (some id) none c = record { ledger = refl; file = refl; spends = tt }
  cmd_bid-IsOwn (some id) (some amount) c = checked_bid-IsOwn id amount c

  cmd_auction-IsOwn :
      (name : String) (min_bid : Number) (c : Client)
      → IsOwn c (cmd_auction library inputs name min_bid c)
  cmd_auction-IsOwn name min_bid c = record {
    ledger = (cmd_auction-Keeps name min_bid).ledger c;
    file = (cmd_auction-Keeps name min_bid).file c;
    spends = (cmd_auction-IsSpender name min_bid).spends c;
  }

  record_message-IsSound :
      (msg : Message) (c : Client)
      → IsSpending msg
      → Unspent library (some inputs.fresh_token_id) c
      → HasSoundLedger library c
      → HasSoundLedger library ((record_action library inputs msg.event >> pure (sends msg)) c).1
  record_message-IsSound msg c own unspent h = passed (record_action library inputs msg.event c) (
      record_action-IsSound library inputs msg.event own.token c own.carried own.no_genesis
        (subst (λ id. Unspent library id c) (sym own.fresh) unspent) h)
    where
      passed :
          (out : Result ⊤ × Client)
          → HasSoundLedger library out.1
          → HasSoundLedger library (resume out.0 (λ _. pure (sends msg)) out.1).1
      passed (ok _, after) sound = sound
      passed (raised error, after) sound = sound

  recorded-IsSound :
      (before : Client) (r : Result (Option Message)) (after : Client)
      → IsOwn before (r, after)
      → Unspent library (some inputs.fresh_token_id) before
      → HasSoundLedger library before
      → HasSoundLedger library (resume r (λ msg. record_own library inputs msg) after).1
  unfolding record_own
  recorded-IsSound before r after own unspent h =
      by_result r own.spends
        (subst (λ ledger. ¬ In (some inputs.fresh_token_id) (spent (events_of ledger.chain)))
          (sym own.ledger) unspent)
        (kept before after own.ledger own.file h)
    where
      kept :
          (before after : Client)
          → after.ledger ≡ before.ledger
          → after.ledger_file ≡ before.ledger_file
          → HasSoundLedger library before
          → HasSoundLedger library after
      kept before after p q sound =
          subst (λ file. IsSound library.digest after.ledger file) (sym q)
            (subst (λ ledger. IsSound library.digest ledger before.ledger_file) (sym p) sound)

      by_result :
          (r : Result (Option Message))
          → Spends r
          → Unspent library (some inputs.fresh_token_id) after
          → HasSoundLedger library after
          → HasSoundLedger library (resume r (λ msg. record_own library inputs msg) after).1
      by_result (raised error) spends free sound = sound
      by_result (ok none) spends free sound = sound
      by_result (ok (some msg)) spends free sound =
          record_message-IsSound msg after spends free sound

  -- From a sound ledger, every command of the user leaves a sound ledger, whether it returns or
  -- raises, if the id of the token that it would draw is not recorded yet.
  pub peer_input-IsSound :
      (command : Command) (c : Client)
      → Unspent library (some inputs.fresh_token_id) c
      → HasSoundLedger library c
      → HasSoundLedger library (peer_input library inputs command c).1
  unfolding peer_input
  peer_input-IsSound (bid_command auction_id amount) c unspent h =
      let out = cmd_bid library inputs auction_id amount c in
      recorded-IsSound c out.0 out.1 (cmd_bid-IsOwn auction_id amount c) unspent h
  peer_input-IsSound (auction_command name none) c unspent h = h
  peer_input-IsSound (auction_command name (some min_bid)) c unspent h =
      let out = cmd_auction library inputs name min_bid c in
      recorded-IsSound c out.0 out.1 (cmd_auction-IsOwn name min_bid c) unspent h
  peer_input-IsSound exit c unspent h = h
  peer_input-IsSound status c unspent h = h
  peer_input-IsSound _ c unspent h = h
