-- ===== src/Peer/Process/Tests.antt =====
-- A peer that gets messages, with a small key pair and readable stand-ins for what is outside.
use onyx_p2p_auction_system.Base.{
  some, [], ◌∷◌, ◌≡◌, ◌⊎◌, refl, arith, ap, sym, ◌∙◌, str_eq_iff, length,
}
use onyx_p2p_auction_system.Base.Int.{pos}
use onyx_p2p_auction_system.Base.Exec.{Error, ok, raised}
use onyx_p2p_auction_system.Number.{Number, nan, finite, IsAtLeast}
use onyx_p2p_auction_system.Event.{number, Token, blank, bid, ledger_update}
use onyx_p2p_auction_system.Auctions.{get_auction_higher_bid}
use onyx_p2p_auction_system.Wallet.{get_blinding_factor_r}
use onyx_p2p_auction_system.Ledger.{Block, Ledger, saved, new_ledger, token_used}
use onyx_p2p_auction_system.Token.{verify}
use onyx_p2p_auction_system.Token.Letters.{letters}
use onyx_p2p_auction_system.Peer.{Client, Message, message}
use onyx_p2p_auction_system.Peer.Toys.{
  toy, draws, time_of, stamped_now, one_auction, peer, peer-IsSound,
}
use onyx_p2p_auction_system.Peer.Tokens.{get_token, verify_token}
use onyx_p2p_auction_system.Peer.Tokens.Obtained.{IsHeld, get_token-IsHeld}
use onyx_p2p_auction_system.Peer.Sync.{init_cli_ledger, ledger_update_handler}
use onyx_p2p_auction_system.Peer.Sync.Start.{init_cli_ledger-restores}
use onyx_p2p_auction_system.Peer.Sync.Adopts.{ledger_update_handler-adopts}
use onyx_p2p_auction_system.Peer.Process.{
  process_message, route, checked, secured, stamped, dispatch, receive_update,
  verify_timestamp_signature, update_personal_auctions,
}
use onyx_p2p_auction_system.Peer.Process.Rejects.{IsChecked, process_message-checks}
use onyx_p2p_auction_system.Peer.Commands.{peer_input, auction_command}
use onyx_p2p_auction_system.Peer.Commands.Ledgers.{peer_input-IsSound}
use onyx_p2p_auction_system.Peer.Process.Ledgers.{HasSoundLedger, process_message-IsSound}
use onyx_p2p_auction_system.Peer.Process.Bids.{update_personal_auctions-IsRaised}
use onyx_p2p_auction_system.Peer.Process.Bids.Nan.{update_personal_auctions-nan}

-- a signed token: 11 ^ 3 % 15 = 11
abbrev good_token : Token
good_token = record { token_id = some "t"; token_sig = some (letters 11) }

abbrev bid_of : Number → Message
bid_of amount = message (record blank {
  kind = some bid;
  auction_id = some (number 1);
  bid = some amount;
  token = some good_token;
  timestamp = some stamped_now;
})

-- a block that no check would pass
abbrev forged : Block
forged = record {
  content = record { height = 7; prev_hash = "x"; timestamp = "t"; events = [] };
  block_hash = "y";
}

abbrev longer : Ledger
longer = record { chain = forged ∷ forged ∷ []; current_actions = []; max_actions = 1 }

abbrev update : Message
update =
    record (message (record blank {
      kind = some ledger_update;
      token = some good_token;
      timestamp = some stamped_now;
    })) { ledger = some longer }

process_message-IsSound_example :
    HasSoundLedger toy (process_message toy draws (some (bid_of (finite (pos 9)))) peer).1
process_message-IsSound_example =
    process_message-IsSound toy draws (bid_of (finite (pos 9))) peer (λ e. cc e) peer-IsSound

update_personal_auctions-IsRaised_example :
    (amount : Number) × (get_auction_higher_bid
        (update_personal_auctions time_of (bid_of (finite (pos 9))) one_auction).1
        (some (number 1))
      ≡ some amount)
    × IsAtLeast (finite (pos 5)) amount
unfolding get_auction_higher_bid
update_personal_auctions-IsRaised_example =
    update_personal_auctions-IsRaised time_of (number 1) (finite (pos 5)) (bid_of (finite (pos 9)))
      one_auction refl (λ amount e. ground (arith, e)) refl

update_personal_auctions-nan_example :
    let after = (update_personal_auctions time_of (bid_of nan) one_auction).1 in
    (get_auction_higher_bid after (some (number 1)) ≡ some nan)
    × (get_auction_higher_bid
          (update_personal_auctions time_of (bid_of (finite (pos 0))) after).1
          (some (number 1))
        ≡ some (finite (pos 0)))
unfolding get_auction_higher_bid
update_personal_auctions-nan_example =
    update_personal_auctions-nan time_of (number 1) (finite (pos 5)) (finite (pos 0)) (bid_of nan)
      (bid_of (finite (pos 0))) one_auction refl refl refl refl refl refl refl

init_cli_ledger-restores_example :
    init_cli_ledger toy draws (record peer { ledger = longer })
    ≡ (ok tt, record peer { ledger = peer.ledger })
init_cli_ledger-restores_example =
    init_cli_ledger-restores toy draws peer (record peer { ledger = longer }) peer-IsSound refl

get_token-IsHeld_example :
    let (r, after) = get_token toy draws peer in
    ((error : Error) × (r ≡ raised error) × (after ≡ peer))
    ⊎ ((token : Token) × (r ≡ ok token) × IsHeld toy draws token after)
unfolding get_blinding_factor_r
get_token-IsHeld_example =
    get_token-IsHeld toy draws peer (λ e. ground (arith, (str_eq_iff "u" "").1 e)) refl

ledger_update_handler-adopts_example :
    let (r, after) = ledger_update_handler toy update peer in
    (after.ledger ≡ longer)
    × (after.ledger_file ≡ saved longer.chain)
    × (after.ledger_request_id ≡ some 0)
unfolding new_ledger
ledger_update_handler-adopts_example =
    ledger_update_handler-adopts toy update longer peer refl (omega arith)

longer-adopted : (process_message toy draws (some update) peer).1.ledger ≡ longer
unfolding process_message route checked secured stamped dispatch receive_update new_ledger
    verify_token verify token_used verify_timestamp_signature
longer-adopted = ledger_update_handler-adopts_example.0

process_message-checks_example : IsChecked toy update peer
unfolding new_ledger
process_message-checks_example =
    process_message-checks toy draws update peer (λ e. cc e)
      (λ same. length-differs (ap (λ (c : Client). length c.ledger.chain) same))
  where
    length-differs : length (process_message toy draws (some update) peer).1.ledger.chain ≡ 1 → ⊥
    length-differs e =
        let two : length longer.chain ≡ 1 =
          ap (λ (l : Ledger). length l.chain) (sym longer-adopted) ∙ e in
        omega (arith, two)

peer_input-IsSound_example :
    HasSoundLedger toy
      (peer_input toy draws (auction_command "vase" (some (finite (pos 3)))) peer).1
unfolding new_ledger
peer_input-IsSound_example =
    peer_input-IsSound toy draws (auction_command "vase" (some (finite (pos 3)))) peer (λ e. e)
      peer-IsSound
