-- ===== src/Host/Restarts.antt =====
-- What becomes of a peer's own auctions when it starts again: `start_client` of client/host_node.py
-- and the thread `check_auctions` of network/peer.py.
use onyx_p2p_auction_system.Base.{ℕ, String, true, Option, none, some, List, ◌≡◌, refl, arith}
use onyx_p2p_auction_system.Base.Dict
use onyx_p2p_auction_system.Base.Dict.{Dict, keys}
use onyx_p2p_auction_system.Base.Exec.{ok}
use onyx_p2p_auction_system.Event.{AuctionKey, number, text, key_instance}
use onyx_p2p_auction_system.Auctions.{Auctions}
use onyx_p2p_auction_system.Wallet.{WalletFile}
use onyx_p2p_auction_system.Ledger.{Block, LedgerFile}
use onyx_p2p_auction_system.Replay.{ledger_to_auction_dict}
use onyx_p2p_auction_system.Replay.Keys.Replayed.{ledger_to_auction_dict-textual}
use onyx_p2p_auction_system.Peer.{Client, Library, Inputs}
use onyx_p2p_auction_system.Peer.Commands.{check_round}
use onyx_p2p_auction_system.Peer.Commands.Closing.{check_auctions-idle, has-contains}
use onyx_p2p_auction_system.Connection.{Enrolled}
use onyx_p2p_auction_system.Host.Started.{start_client-auctions}
use onyx_p2p_auction_system.Host.{start_client}

-- No own auction is found in "auction_list" under the key that "my_auctions" has.
abbrev IsLost : Auctions → Type 0
IsLost auctions =
    (k : AuctionKey)
    → Dict.contains k auctions.my_auctions ≡ true
    → Dict.lookup k auctions.auction_list ≡ none

replay-IsLost :
    (wallet : WalletFile) (chain : List Block) (auctions : Auctions)
    → ledger_to_auction_dict wallet chain ≡ ok auctions
    → IsLost auctions
replay-IsLost wallet chain auctions e (number n) h =
    let filed = ledger_to_auction_dict-textual wallet chain auctions n e in
    absurd (ground (arith, filed.0))
replay-IsLost wallet chain auctions e (text n) h =
    (ledger_to_auction_dict-textual wallet chain auctions n e).2

module _ (library : Library) where
  -- Whatever its ledger and its wallet hold, a peer that has just started ends no auction at any
  -- time: a round of the thread changes nothing, sends nothing, and goes on.
  pub start_client-ends_nothing :
      (inputs : Inputs) (private_key : String) (wallet : WalletFile) (ledger_file : LedgerFile)
      → (info : Option Enrolled) (client : Client)
      → start_client library inputs private_key wallet ledger_file info ≡ some client
      → (now : ℕ) (later : AuctionKey → Inputs)
      → check_round library now later client ≡ (ok true, client)
  unfolding check_round
  start_client-ends_nothing inputs private_key wallet ledger_file info client e now later =
      let lost =
        start_client-auctions IsLost (λ k h. refl) replay-IsLost library inputs private_key wallet
          ledger_file info client e in
      check_auctions-idle library now later (keys client.auctions.my_auctions) client
        λ k h. lost k (has-contains k client.auctions.my_auctions h)
