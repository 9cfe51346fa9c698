-- ===== src/Peer/Commands/Stops.antt =====
-- How a message from the network stops a peer's next "status".
use onyx_p2p_auction_system.Base.{ℕ, String, Bool, false, Option, none, some, ◌≡◌, refl, ap, ◌∙◌}
use onyx_p2p_auction_system.Base.Dict
use onyx_p2p_auction_system.Base.Dict.{contains, lookup-insert_self}
use onyx_p2p_auction_system.Base.Exec.{Error, Result, ok, raised, resume, pure}
use onyx_p2p_auction_system.Event.{number, key_instance, auction}
use onyx_p2p_auction_system.Auctions.{Auctions, Entry, add_auction}
use onyx_p2p_auction_system.Auctions.Ids.{add_auction-lookup}
use onyx_p2p_auction_system.Peer.{Client, Library, Inputs, Message, on_auctions}
use onyx_p2p_auction_system.Peer.Process.{update_personal_auctions}
use onyx_p2p_auction_system.Peer.Status.Undated.{print_auction_state-Raises}
use onyx_p2p_auction_system.Peer.Commands.{status, peer_input, show_status}

entered :
    (iso_time : String → Option ℕ) (msg : Message) (n : ℕ) (auctions : Auctions)
    → msg.kind ≡ some auction
    → msg.id ≡ some (number n)
    → (update_personal_auctions iso_time msg auctions).1
      ≡ (add_auction
          (some (number n))
          msg.min_bid
          msg.closing_date
          false
          msg.token_data
          msg.public_key
          auctions).1
unfolding update_personal_auctions
entered iso_time msg n auctions kind id =
    rw (kind, id)
      (kept (
        add_auction (some (number n)) msg.min_bid msg.closing_date false msg.token_data
          msg.public_key auctions))
  where
    kept : (out : Result Bool × Auctions) → (resume out.0 (λ _. pure (tt {0})) out.1).1 ≡ out.1
    kept (ok added, after) = refl
    kept (raised error, after) = refl

status-Raises :
    (library : Library) (inputs : Inputs) (n : ℕ) (entry : Entry) (client : Client)
    → entry.closing_date ≡ none
    → Dict.lookup (number n) client.auctions.auction_list ≡ some entry
    → (error : Error) × (peer_input library inputs status client ≡ (raised error, client))
unfolding peer_input show_status
status-Raises library inputs n entry client undated found =
    let (error, e) =
      print_auction_state-Raises library.local_date n entry undated client.auctions found in
    (error, rw e refl)

-- An "auction" message without a closing date, whose id is an int that the peer does not know yet,
-- makes the next "status" of the user raise, whatever else the peer knows. Nothing catches it, so
-- the session with the user is over.
pub update_personal_auctions-stops :
    (library : Library) (inputs : Inputs) (msg : Message) (n : ℕ) (client : Client)
    → msg.kind ≡ some auction
    → msg.id ≡ some (number n)
    → msg.closing_date ≡ none
    → contains (number n) client.auctions.auction_list ≡ false
    → let after = (on_auctions (update_personal_auctions library.iso_time msg) client).1 in
      (error : Error) × (peer_input library inputs status after ≡ (raised error, after))
update_personal_auctions-stops library inputs msg n client kind id undated unknown =
    let auctions = client.auctions in
    let (entry, found, closing) =
      add_auction-lookup msg.min_bid msg.closing_date false msg.token_data msg.public_key n auctions
        unknown in
    status-Raises library inputs n entry _ (closing ∙ undated) (
      ap (λ (a : Auctions). Dict.lookup (number n) a.auction_list)
        (entered library.iso_time msg n auctions kind id)
      ∙ found)
