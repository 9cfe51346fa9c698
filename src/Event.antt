-- ===== src/Event.antt =====
-- The JSON objects that peers exchange and that blocks hold (the `*_obj` dictionaries of
-- client/message/, and the keys that their readers look up). A key that is absent, or null, is `none`.
use onyx_p2p_auction_system.Base.{
  ℕ, String, Bool, true, false, Option, none, some, ◌≡◌, ◌↔◌, arith, nat_eq, str_eq,
}
use onyx_p2p_auction_system.Base.Eq.{HasEq}
use onyx_p2p_auction_system.Number.{Number}

-- What stands at "id" or "auction_id", and what keys the auction dictionaries: the int `n`, or the
-- text `str(n)`. Python tells `1` and `"1"` apart as keys, and so does the program.
pub data AuctionKey : Type 0 where
  number : ℕ → AuctionKey
  text : ℕ → AuctionKey

-- `int(key)`
abbrev pub to_int : AuctionKey → ℕ
to_int (number n) = n
to_int (text n) = n

abbrev pub key_beq : AuctionKey → AuctionKey → Bool
key_beq (number a) (number b) = nat_eq a b
key_beq (text a) (text b) = nat_eq a b
key_beq _ _ = false

pub key_beq_iff : (a b : AuctionKey) → (key_beq a b ≡ true) ↔ (a ≡ b)
key_beq_iff (number a) (number b) = ground arith
key_beq_iff (number a) (text b) = ground arith
key_beq_iff (text a) (number b) = ground arith
key_beq_iff (text a) (text b) = ground arith

instance abbrev pub key_instance : HasEq AuctionKey
key_instance = record { equals = key_beq; equals_iff = key_beq_iff }

-- {"token_id": ..., "token_sig": ...}
pub record Token : Type 0 where
  pub token_id : Option String
  pub token_sig : Option String

-- an empty dictionary is false in a test
abbrev pub is_empty : Token → Bool
is_empty t = elim t.token_id [
  | some _ ↦ false
  | none ↦ elim t.token_sig [ some _ ↦ false | none ↦ true ]
]

-- {"timestamp": ..., "signature": ...}, as the CA returns it
pub record Stamp : Type 0 where
  pub iso : Option String
  pub signature : Option String

-- the values of "type" that the code compares with; `other` is any further string
pub data Kind : Type 0 where
  genesis auction bid ledger_request ledger_update auction_end : Kind
  winner_token_reveal auction_owner_revelation winner_revelation new_key other : Kind

pub record Event : Type 0 where
  pub kind : Option Kind
  pub id : Option AuctionKey
  pub auction_id : Option AuctionKey
  pub name : Option String
  pub closing_date : Option ℕ
  pub min_bid : Option Number
  -- whether "min_bid" is there where it is no number, so that it is null
  pub null_min_bid : Bool
  pub bid : Option Number
  pub public_key : Option String
  pub token : Option Token
  -- a key that `update_personal_auctions` reads and that no sender writes
  pub token_data : Option Token
  pub encrypted_identity : Option String
  pub timestamp : Option Stamp

-- `==` between a text and a text, or None
abbrev pub same_text : Option String → Option String → Bool
same_text none none = true
same_text (some a) (some b) = str_eq a b
same_text _ _ = false

abbrev pub is_genesis : Option Kind → Bool
is_genesis (some genesis) = true
is_genesis _ = false

abbrev pub is_auction : Option Kind → Bool
is_auction (some auction) = true
is_auction _ = false

abbrev pub blank : Event
blank = record {
  kind = none;
  id = none;
  auction_id = none;
  name = none;
  closing_date = none;
  min_bid = none;
  null_min_bid = false;
  bid = none;
  public_key = none;
  token = none;
  token_data = none;
  encrypted_identity = none;
  timestamp = none;
}
