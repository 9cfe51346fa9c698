-- ===== src/Replay/Highest/Fold.antt =====
-- The highest bids behind a replay of a whole chain.
use onyx_p2p_auction_system.Base.{ℕ, some, ◌≡◌}
use onyx_p2p_auction_system.Base.Dict
use onyx_p2p_auction_system.Base.Dict.{Dict, lookup-insert, lookup-insert_self}
use onyx_p2p_auction_system.Base.Exec.{Result, ok, raised}
use onyx_p2p_auction_system.Number.{Number}
use onyx_p2p_auction_system.Event.{number, key_instance, Event}
use onyx_p2p_auction_system.Auctions.{Auctions, get_auction_higher_bid}
use onyx_p2p_auction_system.Replay.Table.{Table}

-- A replay raises what the table raises, or has its bids.
abbrev pub Agrees : Result Table → Result Auctions → Type 0
Agrees (raised error) replayed = replayed ≡ raised error
Agrees (ok table) (raised error) = ⊥
Agrees (ok table) (ok auctions) =
    (n : ℕ) → get_auction_higher_bid auctions (some (number n)) ≡ table n
