-- ===== src/Peer/Reveal/Tests.antt =====
-- The owner of auction 1 and its winner; AES-GCM opens by the nonce, and RSA leaves the key as it is.
use onyx_p2p_auction_system.Base.{
  String, true, Option, none, some, [], ◌∷◌, ◌++◌, ◌≡◌, refl, str_eq, if◌then◌else◌,
}
use onyx_p2p_auction_system.Base.Int.{◌+ℤ◌, ◌-ℤ◌, ◌*ℤ◌}
use onyx_p2p_auction_system.Event.{number, Event, blank, bid, key_instance, auction_end}
use onyx_p2p_auction_system.Auctions.{Entry, Mine, holds, nothing, no_auctions}
use onyx_p2p_auction_system.Wallet.{WalletFile, stored, get_blinding_factor_r}
use onyx_p2p_auction_system.Ledger.{Block, find_token_signature}
use onyx_p2p_auction_system.Token.{blind, unblind, verify, verify_peer_blinding_data}
use onyx_p2p_auction_system.Token.Letters.{letters}
use onyx_p2p_auction_system.Peer.{Client, Library, Inputs, Message, Private, message, sent}
use onyx_p2p_auction_system.Peer.Toys.{toy, draws, peer, open_entry}
use onyx_p2p_auction_system.Peer.Tokens.{
  signed_token, encrypt_message_symmetric_gcm, decrypt_message_symmetric_gcm,
}
use onyx_p2p_auction_system.Peer.Tokens.Obtained.{IsReady}
use onyx_p2p_auction_system.Peer.Reveal.{
  handle_auction_end, handle_winner_reveal, prepare_winner_identity, get_client_identity,
}
use onyx_p2p_auction_system.Peer.Reveal.Deal.{bid_proof, auction_proof, identity}
use onyx_p2p_auction_system.Peer.Reveal.Completes.{
  IsWinner, IsOwner, IsDone, Proves, handle_auction_end-completes,
}

-- what each nonce was used for
abbrev payload_of : String → Option Private
payload_of nonce =
    if str_eq nonce "n1"
    then some (bid_proof "b" 7)
    else if str_eq nonce "n2"
    then some (auction_proof "a" 7 "cert")
    else some (identity "cert")

abbrev dealing : Library
dealing = record toy { gcm_open = λ key nonce ciphertext tag. payload_of nonce }

-- the tokens "a" of the auction and "b" of the bid
abbrev spending : String → Event
spending id = record blank {
  kind = some bid;
  token = some (record { token_id = some id; token_sig = some (letters 11) });
}

abbrev block : Block
block = record {
  content = record {
    height = 1;
    prev_hash = "x";
    timestamp = "t";
    events = spending "a" ∷ spending "b" ∷ [];
  };
  block_hash = "y";
}

abbrev wallet_with : String → WalletFile
wallet_with id = stored (
    record {
      token_id = id;
      blinded_token_b64 = "";
      blinding_factor_r = 7;
      token_signature_b64 = letters 11;
      timestamp = none;
    }
    ∷ [])

abbrev known_entry : Entry
known_entry = record open_entry {
  my_bid = true;
  public_key = some "q";
  last_bid_token_data = holds (record { token_id = some "b"; token_sig = some (letters 11) });
  auction_token_data = holds (record { token_id = some "a"; token_sig = some (letters 11) });
}

abbrev own_entry : Mine
own_entry = record {
  public_key = some "q";
  private_key = some "p";
  auction_token_data = nothing;
  highest_bid = none;
  finished = true;
  last_bid_token_data = nothing;
}

abbrev winning_peer : Client
winning_peer = record peer {
  wallet = wallet_with "b";
  ledger = record peer.ledger { chain = block ∷ [] };
  auctions = record no_auctions { auction_list = (number 1, known_entry) ∷ [] };
}

abbrev owning_peer : Client
owning_peer = record winning_peer {
  wallet = wallet_with "a";
  auctions = record no_auctions {
    auction_list = (number 1, known_entry) ∷ [];
    my_auctions = (number 1, own_entry) ∷ [];
  };
}

abbrev draws_with : String → Inputs
draws_with nonce = record draws { fresh_nonce = nonce }

with-IsReady : (nonce : String) → IsReady dealing (draws_with nonce)
unfolding signed_token blind unblind verify ◌-ℤ◌ ◌*ℤ◌ ◌+ℤ◌
with-IsReady nonce = record { granted = refl; token_sig = letters 11; made = refl }

abbrev is_winner : IsWinner dealing (number 1) (draws_with "n1") winning_peer
unfolding get_blinding_factor_r
is_winner = record {
  info = known_entry;
  token_id = "b";
  factor = 7;
  closing = 200;
  public_key = "q";
  encrypted = "k";
  known = refl;
  closes = refl;
  closing_dt = "date";
  dated = refl;
  current_dt = "date";
  clock = refl;
  won = refl;
  bid_token = refl;
  in_wallet = refl;
  has_key = refl;
  encrypts = refl;
}

abbrev is_owner : IsOwner dealing (number 1) "k" "k" owning_peer
unfolding get_blinding_factor_r
is_owner = record {
  mine = own_entry;
  info = known_entry;
  token_id = "a";
  factor = 7;
  private_key = "p";
  own = refl;
  has_key = refl;
  decrypts = refl;
  known = refl;
  auction_token = refl;
  in_wallet = refl;
}

tokens-Proves :
    Proves dealing (number 1) "b" 7 owning_peer × Proves dealing (number 1) "a" 7 winning_peer
unfolding verify_peer_blinding_data find_token_signature blind unblind ◌-ℤ◌ ◌*ℤ◌ ◌+ℤ◌
tokens-Proves = (refl, refl)

abbrev ended : Message
ended = message (record blank { kind = some auction_end; auction_id = some (number 1) })

handle_auction_end-completes_example :
    let (r1, w1) = handle_auction_end dealing (draws_with "n1") ended winning_peer in
    (m1 : Message) × (w1.outbox ≡ sent "group" m1 ∷ [])
    × let (r2, o1) = handle_winner_reveal dealing (draws_with "n2") m1 owning_peer in
      (m2 : Message) × (o1.outbox ≡ sent "group" m2 ∷ [])
      × let (r3, w2) = prepare_winner_identity dealing (draws_with "n3") m2 w1 in
        (m3 : Message) × (w2.outbox ≡ w1.outbox ++ sent "group" m3 ∷ [])
        × let (r4, o2) = get_client_identity dealing m3 o1 in
          IsDone dealing
            (number 1)
            "k"
            winning_peer
            owning_peer
            m2
            m3
            (r1, w1)
            (r2, o1)
            (r3, w2)
            (r4, o2)
unfolding encrypt_message_symmetric_gcm decrypt_message_symmetric_gcm is_winner is_owner
handle_auction_end-completes_example =
    handle_auction_end-completes dealing (number 1) (draws_with "n1") (draws_with "n2")
      (draws_with "n3") ended winning_peer owning_peer is_winner is_owner (with-IsReady "n1")
      (with-IsReady "n2") (with-IsReady "n3") refl tokens-Proves.0 tokens-Proves.1 (refl, refl)
      (refl, refl) refl refl refl
