-- ===== src/Host.antt =====
-- client/host_node.py, how a peer starts, and `user_auction_input` of network/peer.py, its session
-- with the user. The wallet is a parameter: the constructor `TokenManager(...)` is taken to succeed.
pub mod Session
pub mod Started
pub mod Restarts
mod Tests
use onyx_p2p_auction_system.Base.{
  ℕ, String, Bool, true, false, Option, none, some, List, [], ◌∷◌, ⊤, length, nat_eq, if◌then◌else◌,
}
use onyx_p2p_auction_system.Base.Exec.{Exec, Result, ok, raised, ◌>>=◌, ◌>>◌, pure, resume}
use onyx_p2p_auction_system.Ledger.{Ledger, LedgerFile}
use onyx_p2p_auction_system.Auctions.{no_auctions}
use onyx_p2p_auction_system.Wallet.{WalletFile}
use onyx_p2p_auction_system.Replay.{ledger_to_auction_dict}
use onyx_p2p_auction_system.Peer.{Client, Library, Inputs, Message, send}
use onyx_p2p_auction_system.Peer.Sync.{init_cli_ledger, prepare_ledger_request}
use onyx_p2p_auction_system.Peer.Commands.{Command, Reply, exits, continues, sends, peer_input}
use onyx_p2p_auction_system.Connection.{Enrolled}

-- stands for the `None` of `client.ledger` until `init_cli_ledger` assigns it
abbrev no_ledger : Ledger
no_ledger = record { chain = []; current_actions = []; max_actions = 1 }

-- the client behind the registration; the wallet and "ledger.json" are those of an earlier run
unfoldable pub registered_client : String → WalletFile → LedgerFile → Enrolled → Client
registered_client private_key wallet ledger_file info = record {
  uuid = info.uid;
  cert_pem = info.cert_pem;
  private_key = private_key;
  group_key = info.group_key;
  wallet = wallet;
  ledger_request_id = none;
  ledger = no_ledger;
  ledger_file = ledger_file;
  auctions = no_auctions;
  outbox = [];
}

-- `if not len(client.ledger.chain) == 1: client.auctions = ledger_to_auction_dict(...)`; what that
-- raises is only logged
unfoldable pub restore_auctions : Client → Client
restore_auctions client =
    if nat_eq (length client.ledger.chain) 1
    then client
    else elim (ledger_to_auction_dict client.wallet client.ledger.chain) [
      | raised error ↦ client
      | ok translated ↦ record client { auctions = translated }
    ]

module _ (library : Library) where
  unfoldable pub initialised : Result ⊤ × Client → Client
  initialised (raised error, client) = client
  initialised (ok _, client) = restore_auctions client

  -- `start_client` up to `run_peer`; without a registration the program has ended
  unfoldable pub start_client :
      Inputs → String → WalletFile → LedgerFile → Option Enrolled → Option Client
  unfolding initialised
  start_client inputs private_key wallet ledger_file none = none
  start_client inputs private_key wallet ledger_file (some info) = some (
      initialised
        (init_cli_ledger library inputs (registered_client private_key wallet ledger_file info)))

  send_request : Option Message → Exec Client ⊤
  send_request none = pure tt
  send_request (some request) = send request

  -- the start of `user_auction_input`
  unfoldable pub request_ledger : Inputs → Exec Client ⊤
  unfolding send_request
  request_ledger inputs = prepare_ledger_request library inputs >>= λ request. send_request request

  -- Whether the loop goes on. Without a connection a message is not sent, but `peer_input` has
  -- recorded it.
  act_on : Bool → Reply → Exec Client Bool
  act_on has_connections exits = pure false
  act_on has_connections continues = pure true
  act_on has_connections (sends msg) = if has_connections then send msg >> pure true else pure true

  -- one round of the loop
  unfoldable pub input_round : Bool → Inputs → Command → Exec Client Bool
  unfolding act_on
  input_round has_connections inputs command =
      peer_input library inputs command >>= λ reply. act_on has_connections reply
