-- ===== src/Peer/Commands/Tests.antt =====
-- A peer with an auction whose time is over, and one that hears of an auction without a closing date.
use onyx_p2p_auction_system.Base.{◌+◌, true, false, none, some, [], ◌∷◌, ◌≡◌, refl}
use onyx_p2p_auction_system.Base.Dict
use onyx_p2p_auction_system.Base.Exec.{Error, ok, raised}
use onyx_p2p_auction_system.Number.{zero_value}
use onyx_p2p_auction_system.Event.{number, key_instance, blank, auction}
use onyx_p2p_auction_system.Auctions.{Mine, nothing, no_auctions}
use onyx_p2p_auction_system.Peer.{Client, Inputs, Message, message, on_auctions}
use onyx_p2p_auction_system.Peer.Toys.{toy, draws, draws-IsReady, peer, one_auction}
use onyx_p2p_auction_system.Peer.Process.{update_personal_auctions, process_message}
use onyx_p2p_auction_system.Peer.Commands.{peer_input, status, check_round, cmd_auction}
use onyx_p2p_auction_system.Peer.Commands.Closing.{HasEnded, check_round-ends}
use onyx_p2p_auction_system.Peer.Commands.Opening.{cmd_auction-collides}
use onyx_p2p_auction_system.Peer.Commands.Stops.{update_personal_auctions-stops}

abbrev mine : Mine
mine = record {
  public_key = some "q";
  private_key = some "p";
  auction_token_data = nothing;
  highest_bid = none;
  finished = false;
  last_bid_token_data = nothing;
}

-- its auction 1 closes at 200
abbrev owner : Client
owner = record peer { auctions = record one_auction { my_auctions = (number 1, mine) ∷ [] } }

check_round-ends_example :
    ((check_round toy 300 (λ k. draws) owner).0 ≡ ok true)
    × HasEnded toy 300
        (λ k. draws)
        (λ k. draws-IsReady)
        (number 1 ∷ [])
        owner
        (check_round toy 300 (λ k. draws) owner).1
check_round-ends_example =
    check_round-ends toy 300 (λ k. draws) (λ k. draws-IsReady) owner (refl, tt)

abbrev undated : Message
undated = message (record blank { kind = some auction; id = some (number 2) })

update_personal_auctions-stops_example :
    let after = (on_auctions (update_personal_auctions toy.iso_time undated) peer).1 in
    (error : Error) × (peer_input toy draws status after ≡ (raised error, after))
update_personal_auctions-stops_example =
    update_personal_auctions-stops toy draws undated 2 peer refl refl refl refl

-- two peers that know no auction yet
abbrev newcomer : Client
newcomer = record peer { auctions = no_auctions }

abbrev other_peer : Client
other_peer = record newcomer { uuid = "u9" }

cmd_auction-collides_example :
    let id = number (newcomer.auctions.last_auction_id + 1) in
    let (r1, a1) = cmd_auction toy draws "vase" zero_value newcomer in
    let (r2, b1) = cmd_auction toy draws "lamp" zero_value other_peer in
    (m1 m2 : Message) × (own1 own2 : Mine) × (r1 ≡ ok (some m1))
    × (r2 ≡ ok (some m2))
    × (m1.id ≡ some id)
    × (m2.id ≡ some id)
    × (Dict.lookup id a1.auctions.my_auctions ≡ some own1)
    × (Dict.lookup id b1.auctions.my_auctions ≡ some own2)
    × (own1.private_key ≡ some draws.fresh_private_key)
    × (own2.private_key ≡ some draws.fresh_private_key)
    × ((inputs : Inputs) → (process_message toy inputs (some m1) b1).1.auctions ≡ b1.auctions)
    × ((inputs : Inputs) → (process_message toy inputs (some m2) a1).1.auctions ≡ a1.auctions)
cmd_auction-collides_example =
    cmd_auction-collides toy draws draws draws-IsReady draws-IsReady "vase" "lamp" zero_value
      zero_value newcomer other_peer refl refl refl
