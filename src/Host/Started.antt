-- ===== src/Host/Started.antt =====
-- The auctions of a peer that has just started: none, or those of a replay.
use onyx_p2p_auction_system.Base.{
  String, Bool, true, false, Option, none, some, List, ◌≡◌, refl, sym, subst, ⊤, nat_eq, length,
  if◌then◌else◌,
}
use onyx_p2p_auction_system.Base.Exec.{Result, ok, raised, resume}
use onyx_p2p_auction_system.Auctions.{Auctions, no_auctions}
use onyx_p2p_auction_system.Wallet.{WalletFile}
use onyx_p2p_auction_system.Ledger.{Block, Ledger, LedgerFile, load_from_file}
use onyx_p2p_auction_system.Number.{Number}
use onyx_p2p_auction_system.Replay.{ledger_to_auction_dict}
use onyx_p2p_auction_system.Replay.Ids.{IsNextNew, ledger_to_auction_dict-IsNextNew}
use onyx_p2p_auction_system.Peer.{Client, Library, Inputs}
use onyx_p2p_auction_system.Peer.Sync.{init_cli_ledger, touch, use_loaded}
use onyx_p2p_auction_system.Peer.Tokens.Obtained.{IsReady}
use onyx_p2p_auction_system.Peer.Commands.{cmd_auction}
use onyx_p2p_auction_system.Peer.Commands.Opening.{opening, opener, cmd_auction-opens}
use onyx_p2p_auction_system.Connection.{Enrolled}
use onyx_p2p_auction_system.Host.{registered_client, restore_auctions, initialised, start_client}

module _ (library : Library) where
  -- the auctions are those of the client that was given
  init-auctions :
      (inputs : Inputs) (client : Client)
      → (init_cli_ledger library inputs client).1.auctions ≡ client.auctions
  unfolding init_cli_ledger use_loaded
  init-auctions inputs client = by_file (load_from_file (touch library client.ledger_file))
    where
      by_file :
          (loaded : Result (Option Ledger))
          → (resume loaded
              (λ found. use_loaded library inputs.utc found)
              (record client { ledger_file = touch library client.ledger_file })).1.auctions
            ≡ client.auctions
      by_file (raised error) = refl
      by_file (ok none) = refl
      by_file (ok (some ledger)) = refl

module _ (P : Auctions → Type 0) (of_none : P no_auctions)
    (of_replay : (wallet : WalletFile) (chain : List Block) (auctions : Auctions)
      → ledger_to_auction_dict wallet chain ≡ ok auctions
      → P auctions) where
  restored : (client : Client) → P client.auctions → P (restore_auctions client).auctions
  unfolding restore_auctions
  restored client known =
      by_test (nat_eq (length client.ledger.chain) 1)
        (ledger_to_auction_dict client.wallet client.ledger.chain) refl
    where
      by_test :
          (fresh : Bool) (replayed : Result Auctions)
          → ledger_to_auction_dict client.wallet client.ledger.chain ≡ replayed
          → let after : Client = if fresh then client else elim replayed [
            | raised error ↦ client
            | ok translated ↦ record client { auctions = translated }
          ] in
            P after.auctions
      by_test true replayed e = known
      by_test false (raised error) e = known
      by_test false (ok auctions) e = of_replay client.wallet client.ledger.chain auctions e

  module _ (library : Library) where
    after_init :
        (r : Result ⊤) (client : Client)
        → P client.auctions
        → P (initialised library (r, client)).auctions
    unfolding initialised
    after_init (raised error) client known = known
    after_init (ok _) client known = restored client known

    -- What holds of no auctions and of every replay holds of the auctions of a started peer.
    pub start_client-auctions :
        (inputs : Inputs) (private_key : String) (wallet : WalletFile) (ledger_file : LedgerFile)
        → (info : Option Enrolled) (client : Client)
        → start_client library inputs private_key wallet ledger_file info ≡ some client
        → P client.auctions
    unfolding start_client registered_client
    start_client-auctions inputs private_key wallet ledger_file none client e = absurd (cc e)
    start_client-auctions inputs private_key wallet ledger_file (some info) client e =
        let first = registered_client private_key wallet ledger_file info in
        let begun = init_cli_ledger library inputs first in
        let known =
          after_init begun.0 begun.1 (subst P (sym (init-auctions library inputs first)) of_none) in
        let same : initialised library begun ≡ client = cc e in
        subst (λ (c : Client). P c.auctions) same known

module _ (library : Library) (inputs : Inputs) (private_key : String) (wallet : WalletFile)
    (ledger_file : LedgerFile) (info : Option Enrolled) (client : Client)
    (started : start_client library inputs private_key wallet ledger_file info ≡ some client) where
  -- To a peer that has just started the id behind "last_auction_id" is unknown, and if it can have a
  -- token, `cmd_auction` returns a message with this id and files the auction under it.
  pub start_client-opens :
      (later : Inputs) (ready : IsReady library later) (name : String) (min_bid : Number)
      → IsNextNew client.auctions
        × (cmd_auction library later name min_bid client ≡ (
          ok (some (opening library later ready name min_bid client)),
          opener library later ready name min_bid client,
        ))
  start_client-opens later ready name min_bid =
      let new =
        start_client-auctions IsNextNew refl ledger_to_auction_dict-IsNextNew library inputs
          private_key wallet ledger_file info client started in
      (new, cmd_auction-opens library later ready name min_bid client new)
