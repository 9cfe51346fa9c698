-- ===== src/Peer/Reveal/Keeps.antt =====
-- The exchange of identities never touches the ledger, its file, or the group key.
pub mod Handlers
use onyx_p2p_auction_system.Base.{
  ℕ, String, Bool, true, false, Option, none, some, ◌≡◌, refl, arith, if◌then◌else◌, ◌∙◌,
}
use onyx_p2p_auction_system.Base.Exec.{
  Exec, Result, ok, raised, ◌>>=◌, ◌>>◌, resume, pure, lift, gets,
}
use onyx_p2p_auction_system.Event.{AuctionKey, Token}
use onyx_p2p_auction_system.Auctions.{
  Auctions, Entry, Mine, Winning, deal_key, entry_of, remove_winning_key,
}
use onyx_p2p_auction_system.Wallet.{WalletFile}
use onyx_p2p_auction_system.Peer.{Client, Library, Inputs, Message, Sealed, send, on_auctions}
use onyx_p2p_auction_system.Peer.Tokens.{get_token}
use onyx_p2p_auction_system.Peer.Sync.{try_token, after_token, ledger_request_handler}
use onyx_p2p_auction_system.Peer.Reveal.{
  edit_auctions, announce_win, prove_win, claim_win, end_known, handle_auction_end, send_proof,
  prove_creation, send_auction_creation_proof, check_winner, answer_winner, settle,
  handle_winner_reveal, finish_deal, get_client_identity, send_winner_identity, answer_owner,
  prepare_winner_identity,
}

-- `m` leaves the ledger and "ledger.json" alone, whether it returns or raises.
pub record Keeps {A : Type 0} (m : Exec Client A) : Type 0 where
  pub ledger : (c : Client) → (m c).1.ledger ≡ c.ledger
  pub file : (c : Client) → (m c).1.ledger_file ≡ c.ledger_file

module _ {A : Type 0} where
  pub Keeps-pure : (a : A) → Keeps (pure {S = Client} a)
  Keeps-pure a = record { ledger = λ c. refl; file = λ c. refl }

  pub Keeps-lift : (r : Result A) → Keeps (lift {S = Client} r)
  Keeps-lift r = record { ledger = λ c. refl; file = λ c. refl }

  pub Keeps-gets : (f : Client → A) → Keeps (gets f)
  Keeps-gets f = record { ledger = λ c. refl; file = λ c. refl }

  pub Keeps-on_auctions : (m : Exec Auctions A) → Keeps (on_auctions m)
  Keeps-on_auctions m = record { ledger = λ c. refl; file = λ c. refl }

  pub Keeps-if : (b : Bool) (m k : Exec Client A) → Keeps m → Keeps k → Keeps (if b then m else k)
  Keeps-if true m k hm hk = hm
  Keeps-if false m k hm hk = hk

pub Keeps-send : (m : Message) → Keeps (send m)
Keeps-send m = record { ledger = λ c. refl; file = λ c. refl }

pub Keeps-edit : (f : Auctions → Auctions) → Keeps (edit_auctions f)
Keeps-edit f = record { ledger = λ c. refl; file = λ c. refl }

module _ {A B : Type 0} {f : A → Exec Client B} (hf : (a : A) → Keeps (f a)) where
  resume-ledger : (r : Result A) (c : Client) → (resume r f c).1.ledger ≡ c.ledger
  resume-ledger (ok a) c = (hf a).ledger c
  resume-ledger (raised e) c = refl

  resume-file : (r : Result A) (c : Client) → (resume r f c).1.ledger_file ≡ c.ledger_file
  resume-file (ok a) c = (hf a).file c
  resume-file (raised e) c = refl

module _ {A B : Type 0} where
  pub Keeps-bind :
      (m : Exec Client A) (f : A → Exec Client B)
      → Keeps m
      → ((a : A) → Keeps (f a))
      → Keeps (m >>= f)
  Keeps-bind m f hm hf = record {
    ledger = λ c. resume-ledger hf (m c).0 (m c).1 ∙ hm.ledger c;
    file = λ c. resume-file hf (m c).0 (m c).1 ∙ hm.file c;
  }

module _ {A : Type 0} {k : Token → Exec Client A} {otherwise : Exec Client A} (ho : Keeps otherwise)
    (hk : (t : Token) → Keeps (k t)) where
  after-ledger : (r : Result Token) (c : Client) → (after_token r otherwise k c).1.ledger ≡ c.ledger
  after-ledger (ok t) c = (hk t).ledger c
  after-ledger (raised e) c = ho.ledger c

  after-file :
      (r : Result Token) (c : Client) → (after_token r otherwise k c).1.ledger_file ≡ c.ledger_file
  after-file (ok t) c = (hk t).file c
  after-file (raised e) c = ho.file c

module _ {A : Type 0} where
  pub Keeps-try :
      (token : Exec Client Token) (otherwise : Exec Client A) (k : Token → Exec Client A)
      → Keeps token
      → Keeps otherwise
      → ((t : Token) → Keeps (k t))
      → Keeps (try_token token otherwise k)
  Keeps-try token otherwise k ht ho hk = record {
    ledger = λ c. after-ledger ho hk (token c).0 (token c).1 ∙ ht.ledger c;
    file = λ c. after-file ho hk (token c).0 (token c).1 ∙ ht.file c;
  }

pub ruleset keeps_rules = (
  Keeps-pure, Keeps-lift, Keeps-gets, Keeps-on_auctions, Keeps-if, Keeps-send, Keeps-edit,
  Keeps-bind, Keeps-try,
)
