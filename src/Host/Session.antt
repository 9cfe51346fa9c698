-- ===== src/Host/Session.antt =====
-- A peer's ledger from its start to the end of a session.
use onyx_p2p_auction_system.Base.{String, Bool, true, false, some, ◌≡◌, refl, sym, subst, arith, ⊤}
use onyx_p2p_auction_system.Base.Exec.{Result, ok, raised, resume}
use onyx_p2p_auction_system.Ledger.{LedgerFile}
use onyx_p2p_auction_system.Ledger.Sound.{IsSound}
use onyx_p2p_auction_system.Wallet.{WalletFile}
use onyx_p2p_auction_system.Connection.{Enrolled}
use onyx_p2p_auction_system.Peer.{Client, Library, Inputs}
use onyx_p2p_auction_system.Peer.Sync.{init_cli_ledger}
use onyx_p2p_auction_system.Peer.Sync.Start.{HasSoundFile, init_cli_ledger-IsSound}
use onyx_p2p_auction_system.Peer.Commands.{Command, Reply, exits, continues, sends, peer_input}
use onyx_p2p_auction_system.Peer.Commands.Ledgers.{peer_input-IsSound}
use onyx_p2p_auction_system.Peer.Process.Ledgers.{HasSoundLedger, Unspent}
use onyx_p2p_auction_system.Host.{
  registered_client, restore_auctions, start_client, initialised, input_round, act_on,
}

module _ (library : Library) where
  -- Rounds of a session, each with a token id that the chain has not recorded then.
  pub data Session (start : Client) : Client → Type 0 where
    opened : Session start start
    round :
        {client : Client} (has_connections : Bool) (inputs : Inputs) (command : Command)
        → Session start client
        → Unspent library (some inputs.fresh_token_id) client
        → Session start (input_round library has_connections inputs command client).1

  restore_auctions-IsSound :
      (client : Client)
      → HasSoundLedger library client
      → HasSoundLedger library (restore_auctions client)
  unfolding restore_auctions
  restore_auctions-IsSound client h =
      let same_ledger : (restore_auctions client).ledger ≡ client.ledger = ground arith in
      let same_file : (restore_auctions client).ledger_file ≡ client.ledger_file = ground arith in
      subst (λ file. IsSound library.digest (restore_auctions client).ledger file) (sym same_file)
        (subst (λ ledger. IsSound library.digest ledger client.ledger_file) (sym same_ledger) h)

  start_client-IsSound :
      (inputs : Inputs) (private_key : String) (wallet : WalletFile) (file : LedgerFile)
      (info : Enrolled)
      → HasSoundFile library.digest file
      → (client : Client) × (start_client library inputs private_key wallet file (some info)
          ≡ some client)
        × HasSoundLedger library client
  unfolding start_client registered_client initialised
  start_client-IsSound inputs private_key wallet file info h =
      let (_, sound) =
        init_cli_ledger-IsSound library inputs (registered_client private_key wallet file info) h in
      let started =
        init_cli_ledger library inputs (registered_client private_key wallet file info) in
      (initialised library started, refl, kept started sound)
    where
      kept :
          (out : Result ⊤ × Client)
          → HasSoundLedger library out.1
          → HasSoundLedger library (initialised library out)
      kept (raised error, after) h = h
      kept (ok _, after) h = restore_auctions-IsSound after h

  act_on-IsSound :
      (has_connections : Bool) (out : Result Reply × Client)
      → HasSoundLedger library out.1
      → HasSoundLedger library
          (resume out.0 (λ reply. act_on library has_connections reply) out.1).1
  unfolding act_on
  act_on-IsSound has_connections (raised error, after) h = h
  act_on-IsSound has_connections (ok exits, after) h = h
  act_on-IsSound has_connections (ok continues, after) h = h
  act_on-IsSound true (ok (sends msg), after) h = h
  act_on-IsSound false (ok (sends msg), after) h = h

  Session-IsSound :
      {start client : Client}
      → Session start client
      → HasSoundLedger library start
      → HasSoundLedger library client
  unfolding input_round
  Session-IsSound opened h = h
  Session-IsSound (round {client} has_connections inputs command before unspent) h =
      act_on-IsSound has_connections (peer_input library inputs command client)
        (peer_input-IsSound library inputs command client unspent (Session-IsSound before h))

  -- A registered peer that starts with the ledger file of a sound ledger, or without one, has a
  -- sound ledger behind every round of every session in which each drawn token id is new to the
  -- chain, also behind a round that raises or cannot send its message.
  pub start_client-Session :
      (inputs : Inputs) (private_key : String) (wallet : WalletFile) (file : LedgerFile)
      (info : Enrolled) (client later : Client)
      → HasSoundFile library.digest file
      → start_client library inputs private_key wallet file (some info) ≡ some client
      → Session client later
      → HasSoundLedger library later
  start_client-Session inputs private_key wallet file info client later h started session =
      let (first, e, sound) = start_client-IsSound inputs private_key wallet file info h in
      let same : first ≡ client = cc (e, started) in
      Session-IsSound session (subst (HasSoundLedger library) same sound)
