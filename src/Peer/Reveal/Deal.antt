-- ===== src/Peer/Reveal/Deal.antt =====
-- The steps of an exchange of identities that succeeds, one for each message between the winner of an
-- auction and its owner.
use onyx_p2p_auction_system.Base.{ℕ, String, true, some, [], ◌∷◌, ◌++◌, ◌≡◌, arith}
use onyx_p2p_auction_system.Base.Dict
use onyx_p2p_auction_system.Base.Exec.{ok}
use onyx_p2p_auction_system.Event.{
  AuctionKey, key_instance, blank, winner_token_reveal, auction_owner_revelation, winner_revelation,
}
use onyx_p2p_auction_system.Ledger.{find_token_signature}
use onyx_p2p_auction_system.Auctions.{
  Entry, Mine, deal_key, add_winning_key, remove_winning_key, get_winning_key,
}
use onyx_p2p_auction_system.Auctions.Won.{add_winning_key-list}
use onyx_p2p_auction_system.Wallet.{get_blinding_factor_r}
use onyx_p2p_auction_system.Token.{verify_peer_blinding_data}
use onyx_p2p_auction_system.Peer.{Client, Library, Inputs, Message, Private, message, sent}
use onyx_p2p_auction_system.Peer.Tokens.{
  encrypt_message_symmetric_gcm, decrypt_message_symmetric_gcm,
}
use onyx_p2p_auction_system.Peer.Tokens.Obtained.{IsReady, token_of, wallet_of, get_token-ready}
use onyx_p2p_auction_system.Peer.Reveal.{
  nothing_private, token_id_in, announce_win, prove_win, claim_win, end_known, handle_auction_end,
  send_proof, prove_creation, send_auction_creation_proof, check_winner, answer_winner, settle,
  handle_winner_reveal, open_private, certificate_shown, finish_deal, get_client_identity,
  send_winner_identity, owner_verified, answer_owner, prepare_winner_identity,
}

-- what the winner hides: its token of the bid, and the factor that blinded it
abbrev pub bid_proof : String → ℕ → Private
bid_proof token_id r = record nothing_private {
  token_winner_bid_id = some token_id;
  blinding_factor_r = some r;
}

-- what the owner hides: its token of the auction, the factor that blinded it, its certificate
abbrev pub auction_proof : String → ℕ → String → Private
auction_proof token_id r certificate = record nothing_private {
  token_auction_id = some token_id;
  blinding_factor_r = some r;
  certificate = some certificate;
}

-- what the winner hides at last
abbrev pub identity : String → Private
identity certificate = record nothing_private { certificate = some certificate }

module _ (library : Library) (auction_id : AuctionKey) where
  open library use {
    rsa_encrypt, rsa_decrypt, seal_identity, cert_encode, cert_decode, cert_readable,
  }

  -- "token_data" of a message that is sent with these inputs
  abbrev pub spent_on : (inputs : Inputs) → IsReady library inputs → Client → Message → Client
  spent_on inputs ready client msg = record client {
    wallet = wallet_of library inputs ready client;
    outbox = client.outbox ++ sent client.group_key msg ∷ [];
  }

  module _ (inputs : Inputs) (ready : IsReady library inputs) where
    -- "winner_token_reveal"
    abbrev pub win_message : String → Private → Client → Message
    win_message encrypted proof client =
        record (message (record blank {
          kind = some winner_token_reveal;
          auction_id = some auction_id;
          token = some (token_of library inputs ready);
          encrypted_identity = some (
              seal_identity client.uuid client.cert_pem inputs.fresh_token_id
                inputs.identity_nonce);
          timestamp = inputs.stamp;
        })) {
          deal_key = some encrypted;
          private_info =
              some
                (encrypt_message_symmetric_gcm library inputs.fresh_nonce proof inputs.fresh_key);
        }

    -- the winner behind the end of the auction
    abbrev pub claimed : String → Private → Client → Client
    claimed encrypted proof client =
        spent_on inputs ready
          (record client { auctions = add_winning_key auction_id inputs.fresh_key client.auctions })
          (win_message encrypted proof client)

    module _ (obj : Message) (winner : Client) (info : Entry) (token_id : String) (r closing : ℕ)
        (public_key encrypted closing_dt current_dt : String) where
      pub handle_auction_end-claims :
          obj.auction_id ≡ some auction_id
          → Dict.lookup auction_id winner.auctions.auction_list ≡ some info
          → info.closing_date ≡ some closing
          → library.local_date closing ≡ some closing_dt
          → library.local_date inputs.now ≡ some current_dt
          → info.my_bid ≡ true
          → token_id_in info.last_bid_token_data ≡ ok (some token_id)
          → get_blinding_factor_r (some token_id) winner.wallet ≡ some r
          → info.public_key ≡ some public_key
          → rsa_encrypt public_key inputs.fresh_key ≡ some encrypted
          → handle_auction_end library inputs obj winner
            ≡ (ok tt, claimed encrypted (bid_proof token_id r) winner)
      unfolding handle_auction_end end_known claim_win prove_win announce_win
      handle_auction_end-claims named known closes dated clock mine bid_token factor has_key
            encrypts =
          ground (
            arith,
            get_token-ready library inputs ready (record winner {
              auctions = add_winning_key auction_id inputs.fresh_key winner.auctions;
            }),
          )

    -- "auction_owner_revelation"
    abbrev pub owner_message : String → Private → Message
    owner_message key proof =
        record (message (record blank {
          kind = some auction_owner_revelation;
          auction_id = some auction_id;
          token = some (token_of library inputs ready);
          timestamp = inputs.stamp;
        })) {
          private_info = some (encrypt_message_symmetric_gcm library inputs.fresh_nonce proof key);
        }

    -- the owner behind the winner's message
    abbrev pub answered : String → Private → Client → Client
    answered key proof client =
        spent_on inputs ready
          (record client { auctions = add_winning_key auction_id key client.auctions })
          (owner_message key proof)

    module _ (obj : Message) (owner : Client) (mine : Mine) (info : Entry) (proof : Private)
        (private_key encrypted key token_id : String) (r : ℕ) where
      pub handle_winner_reveal-answers :
          obj.auction_id ≡ some auction_id
          → Dict.lookup auction_id owner.auctions.my_auctions ≡ some mine
          → mine.private_key ≡ some private_key
          → obj.deal_key ≡ some encrypted
          → rsa_decrypt private_key encrypted ≡ some key
          → decrypt_message_symmetric_gcm library obj.private_info key ≡ ok proof
          → verify_peer_blinding_data library.encoding library.ca_key library.ca_sign
              proof.token_winner_bid_id proof.blinding_factor_r
              (find_token_signature proof.token_winner_bid_id owner.ledger.chain)
            ≡ true
          → Dict.lookup auction_id owner.auctions.auction_list ≡ some info
          → token_id_in info.auction_token_data ≡ ok (some token_id)
          → get_blinding_factor_r (some token_id) owner.wallet ≡ some r
          → handle_winner_reveal library inputs obj owner
            ≡ (ok tt, answered key (auction_proof token_id r (cert_encode owner.cert_pem)) owner)
      unfolding handle_winner_reveal settle check_winner answer_winner send_auction_creation_proof
          prove_creation send_proof
      handle_winner_reveal-answers named own has_key has_deal decrypts opens verifies known
            auction_token factor =
          ground (
            arith,
            add_winning_key-list auction_id key owner.auctions,
            get_token-ready library inputs ready
                (record owner { auctions = add_winning_key auction_id key owner.auctions }),
          )

    -- "winner_revelation"
    abbrev pub winner_message : String → Client → Message
    winner_message key client =
        record (message (record blank {
          kind = some winner_revelation;
          auction_id = some auction_id;
          token = some (token_of library inputs ready);
          timestamp = inputs.stamp;
        })) {
          private_info = some (
              encrypt_message_symmetric_gcm library inputs.fresh_nonce
                (identity (cert_encode client.cert_pem)) key);
        }

    -- the winner behind the owner's message
    abbrev pub revealed : String → Client → Client
    revealed key client =
        let after = spent_on inputs ready client (winner_message key client) in
        record after { auctions = remove_winning_key auction_id after.auctions }

    module _ (obj : Message) (winner : Client) (proof : Private)
        (key certificate pem : String) where
      pub prepare_winner_identity-reveals :
          obj.auction_id ≡ some auction_id
          → get_winning_key (some auction_id) winner.auctions ≡ some (deal_key key)
          → decrypt_message_symmetric_gcm library obj.private_info key ≡ ok proof
          → proof.certificate ≡ some certificate
          → cert_decode certificate ≡ some pem
          → verify_peer_blinding_data library.encoding library.ca_key library.ca_sign
              proof.token_auction_id proof.blinding_factor_r
              (find_token_signature proof.token_auction_id winner.ledger.chain)
            ≡ true
          → cert_readable pem ≡ true
          → prepare_winner_identity library inputs obj winner ≡ (ok tt, revealed key winner)
      unfolding prepare_winner_identity answer_owner owner_verified send_winner_identity
      prepare_winner_identity-reveals named has_key opens has_certificate decodes verifies
            readable =
          ground (arith, get_token-ready library inputs ready winner)

  module _ (obj : Message) (owner : Client) (info : Private) (key certificate pem : String) where
    pub get_client_identity-ends :
        obj.auction_id ≡ some auction_id
        → get_winning_key (some auction_id) owner.auctions ≡ some (deal_key key)
        → decrypt_message_symmetric_gcm library obj.private_info key ≡ ok info
        → info.certificate ≡ some certificate
        → cert_decode certificate ≡ some pem
        → cert_readable pem ≡ true
        → get_client_identity library obj owner
          ≡ (ok tt, record owner { auctions = remove_winning_key auction_id owner.auctions })
    unfolding get_client_identity finish_deal open_private certificate_shown
    get_client_identity-ends named has_key opens has_certificate decodes readable = ground arith
