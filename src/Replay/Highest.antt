-- ===== src/Replay/Highest.antt =====
-- The highest bids that a replay finds, against a table from auction ids to bids.
pub mod Fold
use onyx_p2p_auction_system.Base.{ℕ, Option, List, [], ◌∷◌, ◌++◌, ◌≡◌, ⊤}
use onyx_p2p_auction_system.Base.Dict
use onyx_p2p_auction_system.Base.Dict.{Dict, lookup-insert, lookup-insert_self}
use onyx_p2p_auction_system.Base.Exec.{Result, ok, raised, resume}
use onyx_p2p_auction_system.Number.{Number}
use onyx_p2p_auction_system.Event.{key_instance, Event}
use onyx_p2p_auction_system.Auctions.{Auctions, get_auction_higher_bid, no_auctions}
use onyx_p2p_auction_system.Ledger.{Block}
use onyx_p2p_auction_system.Ledger.Chain.{events_of}
use onyx_p2p_auction_system.Replay.{
  apply_event, apply_events, apply_chain, fix_last_id, ledger_to_auction_dict,
}
use onyx_p2p_auction_system.Replay.Table.{Table, raise_by, raise_all, bid_in, wrap, Tracks}

-- A run raises as the table does, or returns and has the table's bids.
abbrev Ends : Result Table → Result ⊤ × Auctions → Type 0
Ends (raised error) out = out.0 ≡ raised error
Ends (ok table) out = (out.0 ≡ ok tt) × Tracks out.1.auction_list table

-- The table goes on with the offer of an event.
abbrev Follows : Result (Option (ℕ × Number)) → Table → Result ⊤ × Auctions → Type 0
Follows (raised error) table out = out.0 ≡ raised error
Follows (ok offer) table out = Ends (ok (raise_by offer table)) out
