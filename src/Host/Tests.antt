-- ===== src/Host/Tests.antt =====
-- A peer that starts without a ledger file.
use onyx_p2p_auction_system.Base.{◌≡◌, true, false, some, none, [], refl}
use onyx_p2p_auction_system.Base.Exec.{ok}
use onyx_p2p_auction_system.Wallet
use onyx_p2p_auction_system.Ledger
use onyx_p2p_auction_system.Ledger.{new_ledger, load_from_file, save_to_file}
use onyx_p2p_auction_system.Auctions.{no_auctions}
use onyx_p2p_auction_system.Base.Int.{pos}
use onyx_p2p_auction_system.Number.{finite}
use onyx_p2p_auction_system.Peer.Commands.{auction_command, cmd_auction}
use onyx_p2p_auction_system.Peer.Sync.{init_cli_ledger}
use onyx_p2p_auction_system.Peer.{Client}
use onyx_p2p_auction_system.Peer.Toys.{toy, draws, draws-IsReady}
use onyx_p2p_auction_system.Peer.Process.Ledgers.{HasSoundLedger}
use onyx_p2p_auction_system.Connection.{Enrolled}
use onyx_p2p_auction_system.Host.{
  start_client, registered_client, initialised, restore_auctions, input_round,
}
use onyx_p2p_auction_system.Peer.Commands.Opening.{opening, opener}
use onyx_p2p_auction_system.Replay.Ids.{IsNextNew}
use onyx_p2p_auction_system.Host.Started.{start_client-opens}
use onyx_p2p_auction_system.Host.Restarts.{start_client-ends_nothing}
use onyx_p2p_auction_system.Peer.Commands.{check_round}
use onyx_p2p_auction_system.Host.Session.{opened, round, start_client-Session}

abbrev info : Enrolled
info = record {
  uid = "me";
  cert_pem = "cert";
  group_key = "group";
  token_quota = 0;
  ca_session_key = "s";
}

abbrev round_of : Client → Client
round_of client =
    (input_round toy false draws (auction_command "vase" (some (finite (pos 3)))) client).1

abbrev started : Client
started = record {
  uuid = "me";
  cert_pem = "cert";
  private_key = "key";
  group_key = "group";
  wallet = Wallet.absent;
  ledger_request_id = none;
  ledger = new_ledger toy.digest "t1";
  ledger_file = Ledger.saved (new_ledger toy.digest "t1").chain;
  auctions = no_auctions;
  outbox = [];
}

start_client-Session_example : HasSoundLedger toy (round_of started)
unfolding start_client registered_client initialised restore_auctions init_cli_ledger new_ledger
    load_from_file save_to_file
start_client-Session_example =
    start_client-Session toy draws "key" Wallet.absent Ledger.absent info started (round_of started)
      tt refl (round false draws (auction_command "vase" (some (finite (pos 3)))) opened (λ e. e))

start_client-ends_nothing_example : check_round toy 300 (λ k. draws) started ≡ (ok true, started)
unfolding start_client registered_client initialised restore_auctions init_cli_ledger new_ledger
    load_from_file save_to_file
start_client-ends_nothing_example =
    start_client-ends_nothing toy draws "key" Wallet.absent Ledger.absent (some info) started refl
      300 (λ k. draws)

start_client-opens_example :
    IsNextNew started.auctions
    × (cmd_auction toy draws "vase" (finite (pos 3)) started ≡ (
      ok (some (opening toy draws draws-IsReady "vase" (finite (pos 3)) started)),
      opener toy draws draws-IsReady "vase" (finite (pos 3)) started,
    ))
unfolding start_client registered_client initialised restore_auctions init_cli_ledger new_ledger
    load_from_file save_to_file
start_client-opens_example =
    start_client-opens toy draws "key" Wallet.absent Ledger.absent (some info) started refl draws
      draws-IsReady "vase" (finite (pos 3))
