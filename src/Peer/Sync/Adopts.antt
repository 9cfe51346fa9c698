-- ===== src/Peer/Sync/Adopts.antt =====
-- When a "ledger_update" replaces the local ledger.
use onyx_p2p_auction_system.Base.{◌≤◌, ◌<◌, some, ◌≡◌, arith, length}
use onyx_p2p_auction_system.Base.Exec.{ok}
use onyx_p2p_auction_system.Ledger.{Ledger, saved, save_to_file, compare_chains}
use onyx_p2p_auction_system.Peer.{Client, Library, Message}
use onyx_p2p_auction_system.Peer.Sync.{ledger_update_handler, update_from, adopt}

module _ (library : Library) (msg : Message) (ledger : Ledger) (client : Client)
    (attached : msg.ledger ≡ some ledger) where
  -- A ledger with a longer chain replaces the local ledger and its file, whatever `verify_chain`
  -- says of it, and also when rebuilding the auctions raises.
  pub ledger_update_handler-adopts :
      length client.ledger.chain < length ledger.chain
      → let (r, after) = ledger_update_handler library msg client in
        (after.ledger ≡ ledger)
        × (after.ledger_file ≡ saved ledger.chain)
        × (after.ledger_request_id ≡ some 0)
  unfolding ledger_update_handler update_from adopt compare_chains save_to_file
  ledger_update_handler-adopts longer =
      (ground (arith, attached), ground (arith, attached), ground (arith, attached))

  -- A ledger whose chain is not longer than the local one changes nothing.
  pub ledger_update_handler-refuses :
      length ledger.chain ≤ length client.ledger.chain
      → ledger_update_handler library msg client ≡ (ok tt, client)
  unfolding ledger_update_handler update_from adopt compare_chains save_to_file
  ledger_update_handler-refuses no_longer = ground (arith, attached)

-- A "ledger_update" shortens no chain.
pub ledger_update_handler-longer :
    (library : Library) (msg : Message) (client : Client)
    → length client.ledger.chain ≤ length (ledger_update_handler library msg client).1.ledger.chain
unfolding ledger_update_handler update_from adopt compare_chains
ledger_update_handler-longer library msg client = ground arith
