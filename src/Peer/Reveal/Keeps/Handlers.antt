-- ===== src/Peer/Reveal/Keeps/Handlers.antt =====
-- The handlers of the exchange of identities, and the ledger with its file.
use onyx_p2p_auction_system.Base.{ℕ, String, Option, none, some, ◌≡◌, refl, arith}
use onyx_p2p_auction_system.Base.Exec.{◌>>◌}
use onyx_p2p_auction_system.Event.{AuctionKey}
use onyx_p2p_auction_system.Auctions.{
  Auctions, Entry, Mine, Winning, deal_key, entry_of, remove_winning_key,
}
use onyx_p2p_auction_system.Wallet.{WalletFile}
use onyx_p2p_auction_system.Peer.{Client, Library, Inputs, Message, Sealed}
use onyx_p2p_auction_system.Peer.Tokens.{get_token}
use onyx_p2p_auction_system.Peer.Sync.{ledger_request_handler}
use onyx_p2p_auction_system.Peer.Reveal.{
  edit_auctions, announce_win, prove_win, claim_win, end_known, handle_auction_end, send_proof,
  prove_creation, send_auction_creation_proof, check_winner, answer_winner, settle,
  handle_winner_reveal, finish_deal, get_client_identity, send_winner_identity, answer_owner,
  prepare_winner_identity,
}
use onyx_p2p_auction_system.Peer.Reveal.Keeps.{Keeps, Keeps-bind, Keeps-edit, keeps_rules}

module _ (library : Library) (inputs : Inputs) where
  pub get_token-Keeps : Keeps (get_token library inputs)
  unfolding get_token
  get_token-Keeps = record { ledger = λ c. ground arith; file = λ c. ground arith }

  announce_win-Keeps :
      (auction_id : AuctionKey) (encrypted : String) (payload : Sealed)
      → Keeps (announce_win library inputs auction_id encrypted payload)
  unfolding announce_win
  announce_win-Keeps auction_id encrypted payload = search (keeps_rules, get_token-Keeps) depth 8

  prove_win-Keeps :
      (auction_id : AuctionKey) (info : Entry) (token_id : String) (r : Option ℕ)
      → Keeps (prove_win library inputs auction_id info token_id r)
  unfolding prove_win
  prove_win-Keeps auction_id info token_id none = search keeps_rules
  prove_win-Keeps auction_id info token_id (some r) =
      search (keeps_rules, announce_win-Keeps) depth 8

  claim_win-Keeps :
      (auction_id : AuctionKey) (info : Entry) (token_id : Option String)
      → Keeps (claim_win library inputs auction_id info token_id)
  unfolding claim_win
  claim_win-Keeps auction_id info none = record { ledger = λ c. refl; file = λ c. refl }
  claim_win-Keeps auction_id info (some token_id) = record {
    ledger = λ c. (prove_win-Keeps auction_id info token_id _).ledger c;
    file = λ c. (prove_win-Keeps auction_id info token_id _).file c;
  }

  end_known-Keeps :
      (auction_id : AuctionKey) (info : Entry) → Keeps (end_known library inputs auction_id info)
  unfolding end_known
  end_known-Keeps auction_id info = search (keeps_rules, claim_win-Keeps) depth 8

  end_known-ledger :
      (auction_id : AuctionKey) (info : Entry) (c : Client)
      → (end_known library inputs auction_id info c).1.ledger ≡ c.ledger
  end_known-ledger auction_id info c = (end_known-Keeps auction_id info).ledger c

  end_known-file :
      (auction_id : AuctionKey) (info : Entry) (c : Client)
      → (end_known library inputs auction_id info c).1.ledger_file ≡ c.ledger_file
  end_known-file auction_id info c = (end_known-Keeps auction_id info).file c

  pub handle_auction_end-Keeps : (obj : Message) → Keeps (handle_auction_end library inputs obj)
  unfolding handle_auction_end
  handle_auction_end-Keeps obj = record {
    ledger = λ c. grind (arith, end_known-ledger);
    file = λ c. grind (arith, end_known-file);
  }

  send_proof-Keeps :
      (auction_id : AuctionKey) (key token_id : String) (r : Option ℕ)
      → Keeps (send_proof library inputs auction_id key token_id r)
  unfolding send_proof
  send_proof-Keeps auction_id key token_id none = search keeps_rules
  send_proof-Keeps auction_id key token_id (some r) = search (keeps_rules, get_token-Keeps) depth 8

  prove_creation-Keeps :
      (auction_id : AuctionKey) (key : String) (token_id : Option String) (wallet : WalletFile)
      → Keeps (prove_creation library inputs auction_id key token_id wallet)
  unfolding prove_creation
  prove_creation-Keeps auction_id key none wallet = search keeps_rules
  prove_creation-Keeps auction_id key (some id) wallet = search send_proof-Keeps

  send_auction_creation_proof-Keeps :
      (auction_id : AuctionKey) (key : String)
      → Keeps (send_auction_creation_proof library inputs auction_id key)
  unfolding send_auction_creation_proof
  send_auction_creation_proof-Keeps auction_id key =
      search (keeps_rules, prove_creation-Keeps) depth 12

  answer_winner-Keeps :
      (auction_id : AuctionKey) (key : Option String)
      → Keeps (answer_winner library inputs auction_id key)
  unfolding answer_winner
  answer_winner-Keeps auction_id none = search keeps_rules
  answer_winner-Keeps auction_id (some key) =
      search (keeps_rules, send_auction_creation_proof-Keeps) depth 8

  check_winner-Keeps : (obj : Message) (mine : Mine) → Keeps (check_winner library obj mine)
  unfolding check_winner
  check_winner-Keeps obj mine = record { ledger = λ c. ground arith; file = λ c. ground arith }

  reveal-Keeps :
      (auction_id : AuctionKey) (obj : Message) (mine : Mine)
      → Keeps (settle library inputs obj auction_id mine)
  unfolding settle
  reveal-Keeps auction_id obj mine =
      Keeps-bind _ _ (check_winner-Keeps obj mine) (answer_winner-Keeps auction_id)

  reveal-ledger :
      (auction_id : AuctionKey) (obj : Message) (mine : Mine) (c : Client)
      → (settle library inputs obj auction_id mine c).1.ledger ≡ c.ledger
  reveal-ledger auction_id obj mine c = (reveal-Keeps auction_id obj mine).ledger c

  reveal-file :
      (auction_id : AuctionKey) (obj : Message) (mine : Mine) (c : Client)
      → (settle library inputs obj auction_id mine c).1.ledger_file ≡ c.ledger_file
  reveal-file auction_id obj mine c = (reveal-Keeps auction_id obj mine).file c

  pub handle_winner_reveal-Keeps : (obj : Message) → Keeps (handle_winner_reveal library inputs obj)
  unfolding handle_winner_reveal
  handle_winner_reveal-Keeps obj = record {
    ledger = λ c. grind (arith, reveal-ledger);
    file = λ c. grind (arith, reveal-file);
  }

  finish_deal-Keeps :
      (auction_id : AuctionKey) (msg : Message) (key : Winning)
      → Keeps (finish_deal library auction_id msg key)
  unfolding finish_deal
  finish_deal-Keeps auction_id msg key = record {
    ledger = λ c. ground arith;
    file = λ c. ground arith;
  }

  finish_deal-ledger :
      (auction_id : AuctionKey) (msg : Message) (key : Winning) (c : Client)
      → (finish_deal library auction_id msg key c).1.ledger ≡ c.ledger
  finish_deal-ledger auction_id msg key c = (finish_deal-Keeps auction_id msg key).ledger c

  finish_deal-file :
      (auction_id : AuctionKey) (msg : Message) (key : Winning) (c : Client)
      → (finish_deal library auction_id msg key c).1.ledger_file ≡ c.ledger_file
  finish_deal-file auction_id msg key c = (finish_deal-Keeps auction_id msg key).file c

  pub get_client_identity-Keeps : (msg : Message) → Keeps (get_client_identity library msg)
  unfolding get_client_identity
  get_client_identity-Keeps msg = record {
    ledger = λ c. grind (arith, finish_deal-ledger);
    file = λ c. grind (arith, finish_deal-file);
  }

  send_winner_identity-Keeps :
      (auction_id : AuctionKey) (key : String)
      → Keeps (send_winner_identity library inputs auction_id key)
  unfolding send_winner_identity
  send_winner_identity-Keeps auction_id key = search (keeps_rules, get_token-Keeps) depth 10

  share-ledger :
      (auction_id : AuctionKey) (key : String) (c : Client) (f : Auctions → Auctions)
      → ((send_winner_identity library inputs auction_id key >> edit_auctions f) c).1.ledger
        ≡ c.ledger
  share-ledger auction_id key c f =
      (Keeps-bind _ _ (send_winner_identity-Keeps auction_id key) (λ _. Keeps-edit f)).ledger c

  share-file :
      (auction_id : AuctionKey) (key : String) (c : Client) (f : Auctions → Auctions)
      → ((send_winner_identity library inputs auction_id key >> edit_auctions f) c).1.ledger_file
        ≡ c.ledger_file
  share-file auction_id key c f =
      (Keeps-bind _ _ (send_winner_identity-Keeps auction_id key) (λ _. Keeps-edit f)).file c

  answer_owner-ledger :
      (auction_id : AuctionKey) (msg : Message) (key : Winning) (c : Client)
      → (answer_owner library inputs auction_id msg key c).1.ledger ≡ c.ledger
  unfolding answer_owner
  answer_owner-ledger auction_id msg (entry_of n) c = refl
  answer_owner-ledger auction_id msg (deal_key key) c =
      ground (arith, share-ledger auction_id key c (remove_winning_key auction_id))

  answer_owner-file :
      (auction_id : AuctionKey) (msg : Message) (key : Winning) (c : Client)
      → (answer_owner library inputs auction_id msg key c).1.ledger_file ≡ c.ledger_file
  unfolding answer_owner
  answer_owner-file auction_id msg (entry_of n) c = refl
  answer_owner-file auction_id msg (deal_key key) c =
      ground (arith, share-file auction_id key c (remove_winning_key auction_id))

  pub prepare_winner_identity-Keeps :
      (msg : Message) → Keeps (prepare_winner_identity library inputs msg)
  unfolding prepare_winner_identity
  prepare_winner_identity-Keeps msg = record {
    ledger = λ c. grind (arith, answer_owner-ledger);
    file = λ c. grind (arith, answer_owner-file);
  }

  pub ledger_request_handler-Keeps :
      (request_id : Option ℕ) → Keeps (ledger_request_handler library inputs request_id)
  unfolding ledger_request_handler
  ledger_request_handler-Keeps request_id = search (keeps_rules, get_token-Keeps) depth 8
