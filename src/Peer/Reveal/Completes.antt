-- ===== src/Peer/Reveal/Completes.antt =====
-- A whole exchange of identities between the winner of an auction and its owner.
use onyx_p2p_auction_system.Base.{ℕ, String, true, none, some, [], ◌∷◌, ◌++◌, ◌≡◌, ⊤, refl}
use onyx_p2p_auction_system.Base.Dict
use onyx_p2p_auction_system.Base.Exec.{Result, ok}
use onyx_p2p_auction_system.Event.{AuctionKey, key_instance}
use onyx_p2p_auction_system.Ledger.{find_token_signature}
use onyx_p2p_auction_system.Auctions.{Entry, Mine, get_winning_key, remove_winning_key}
use onyx_p2p_auction_system.Auctions.Won.{get_winning_key-add, get_winning_key-remove}
use onyx_p2p_auction_system.Wallet.{get_blinding_factor_r}
use onyx_p2p_auction_system.Token.{verify_peer_blinding_data}
use onyx_p2p_auction_system.Peer.{Client, Library, Inputs, Message, Private, sent}
use onyx_p2p_auction_system.Peer.Tokens.{
  encrypt_message_symmetric_gcm, decrypt_message_symmetric_gcm,
}
use onyx_p2p_auction_system.Peer.Tokens.Obtained.{IsReady}
use onyx_p2p_auction_system.Peer.Reveal.{
  token_id_in, handle_auction_end, handle_winner_reveal, get_client_identity,
  prepare_winner_identity,
}
use onyx_p2p_auction_system.Peer.Reveal.Deal.{
  bid_proof, identity, win_message, claimed, auction_proof, owner_message, answered, winner_message,
  revealed, handle_auction_end-claims, handle_winner_reveal-answers,
  prepare_winner_identity-reveals, get_client_identity-ends,
}

module _ (library : Library) (auction_id : AuctionKey) where
  open library use {local_date, rsa_encrypt, rsa_decrypt, cert_encode, cert_decode, cert_readable}

  -- a payload that AES-GCM opens again
  abbrev pub Opens : String → Private → String → Type 0
  Opens nonce payload key =
      decrypt_message_symmetric_gcm library
        (some (encrypt_message_symmetric_gcm library nonce payload key)) key
      ≡ ok payload

  -- the check of a token and its blinding factor against a chain
  abbrev pub Proves : String → ℕ → Client → Type 0
  Proves token_id r client =
      verify_peer_blinding_data library.encoding library.ca_key library.ca_sign (some token_id)
        (some r) (find_token_signature (some token_id) client.ledger.chain)
      ≡ true

  -- a certificate that can be sent and shown
  abbrev pub Shows : Client → Type 0
  Shows client =
      (cert_decode (cert_encode client.cert_pem) ≡ some client.cert_pem)
      × (cert_readable client.cert_pem ≡ true)

  -- how the exchange ends
  pub record IsDone (deal : String) (winner owner : Client) (m2 m3 : Message)
      (first second third fourth : Result ⊤ × Client) : Type 0 where
    pub returned : (first.0 ≡ ok tt) × (second.0 ≡ ok tt) × (third.0 ≡ ok tt) × (fourth.0 ≡ ok tt)
    pub owner_known :
        (proof : Private) × (decrypt_message_symmetric_gcm library m2.private_info deal ≡ ok proof)
        × (proof.certificate ≡ some (cert_encode owner.cert_pem))
    pub winner_known :
        decrypt_message_symmetric_gcm library m3.private_info deal
        ≡ ok (identity (cert_encode winner.cert_pem))
    pub winner_forgot : get_winning_key (some auction_id) third.1.auctions ≡ none
    pub owner_forgot : get_winning_key (some auction_id) fourth.1.auctions ≡ none

  -- What the winner has from its bid on.
  pub record IsWinner (inputs : Inputs) (winner : Client) : Type 0 where
    pub info : Entry
    pub token_id : String
    pub factor : ℕ
    pub closing : ℕ
    pub public_key : String
    pub encrypted : String
    pub known : Dict.lookup auction_id winner.auctions.auction_list ≡ some info
    pub closes : info.closing_date ≡ some closing
    pub closing_dt : String
    pub dated : local_date closing ≡ some closing_dt
    pub current_dt : String
    pub clock : local_date inputs.now ≡ some current_dt
    pub won : info.my_bid ≡ true
    pub bid_token : token_id_in info.last_bid_token_data ≡ ok (some token_id)
    pub in_wallet : get_blinding_factor_r (some token_id) winner.wallet ≡ some factor
    pub has_key : info.public_key ≡ some public_key
    pub encrypts : rsa_encrypt public_key inputs.fresh_key ≡ some encrypted

  -- What the owner has since it opened the auction.
  pub record IsOwner (deal encrypted : String) (owner : Client) : Type 0 where
    pub mine : Mine
    pub info : Entry
    pub token_id : String
    pub factor : ℕ
    pub private_key : String
    pub own : Dict.lookup auction_id owner.auctions.my_auctions ≡ some mine
    pub has_key : mine.private_key ≡ some private_key
    pub decrypts : rsa_decrypt private_key encrypted ≡ some deal
    pub known : Dict.lookup auction_id owner.auctions.auction_list ≡ some info
    pub auction_token : token_id_in info.auction_token_data ≡ ok (some token_id)
    pub in_wallet : get_blinding_factor_r (some token_id) owner.wallet ≡ some factor

  -- The end of an auction reaches its winner, and then each message that is sent reaches the other of
  -- the two. If both have what they need, the closing date and the clock can be shown, the tokens prove what they should, RSA and AES-GCM open what
  -- they sealed, and tokens can be had, then no handler raises, the winner sends two messages and the
  -- owner one, each ends up with the certificate of the other under the key that they share, and both
  -- have forgotten the key.
  pub handle_auction_end-completes :
      (first second third : Inputs) (over : Message) (winner owner : Client)
      (w : IsWinner first winner) (o : IsOwner first.fresh_key w.encrypted owner)
      → IsReady library first
      → IsReady library second
      → IsReady library third
      → over.auction_id ≡ some auction_id
      → Proves w.token_id w.factor owner
      → Proves o.token_id o.factor winner
      → Shows winner
      → Shows owner
      → let deal = first.fresh_key in
        Opens first.fresh_nonce (bid_proof w.token_id w.factor) deal
        → Opens second.fresh_nonce
            (auction_proof o.token_id o.factor (cert_encode owner.cert_pem))
            deal
        → Opens third.fresh_nonce (identity (cert_encode winner.cert_pem)) deal
        → let (r1, w1) = handle_auction_end library first over winner in
          (m1 : Message) × (w1.outbox ≡ winner.outbox ++ sent winner.group_key m1 ∷ [])
          × let (r2, o1) = handle_winner_reveal library second m1 owner in
            (m2 : Message) × (o1.outbox ≡ owner.outbox ++ sent owner.group_key m2 ∷ [])
            × let (r3, w2) = prepare_winner_identity library third m2 w1 in
              (m3 : Message) × (w2.outbox ≡ w1.outbox ++ sent winner.group_key m3 ∷ [])
              × let (r4, o2) = get_client_identity library m3 o1 in
                IsDone deal winner owner m2 m3 (r1, w1) (r2, o1) (r3, w2) (r4, o2)
  handle_auction_end-completes first second third over winner owner w o ready_first ready_second
        ready_third named bid_proves auction_proves winner_shows owner_shows opens_first
        opens_second opens_third =
      rw e1 (m1, refl, rw e2 (m2, refl, rw e3 (m3, refl, rw e4 done)))
    where
      deal : String
      deal = first.fresh_key

      m1 : Message
      m1 =
          win_message library auction_id first ready_first w.encrypted
            (bid_proof w.token_id w.factor) winner

      w1 : Client
      w1 =
          claimed library auction_id first ready_first w.encrypted (bid_proof w.token_id w.factor)
            winner

      e1 : handle_auction_end library first over winner ≡ (ok tt, w1)
      e1 =
          handle_auction_end-claims library auction_id first ready_first over winner w.info
            w.token_id w.factor w.closing w.public_key w.encrypted w.closing_dt w.current_dt named
            w.known w.closes w.dated w.clock w.won w.bid_token w.in_wallet w.has_key w.encrypts

      proof : Private
      proof = auction_proof o.token_id o.factor (cert_encode owner.cert_pem)

      m2 : Message
      m2 = owner_message library auction_id second ready_second deal proof

      o1 : Client
      o1 = answered library auction_id second ready_second deal proof owner

      e2 : handle_winner_reveal library second m1 owner ≡ (ok tt, o1)
      e2 =
          handle_winner_reveal-answers library auction_id second ready_second m1 owner o.mine o.info
            (bid_proof w.token_id w.factor) o.private_key w.encrypted deal o.token_id o.factor refl
            o.own o.has_key refl o.decrypts opens_first bid_proves o.known o.auction_token
            o.in_wallet

      m3 : Message
      m3 = winner_message library auction_id third ready_third deal w1

      w2 : Client
      w2 = revealed library auction_id third ready_third deal w1

      e3 : prepare_winner_identity library third m2 w1 ≡ (ok tt, w2)
      e3 =
          prepare_winner_identity-reveals library auction_id third ready_third m2 w1 proof deal
            (cert_encode owner.cert_pem) owner.cert_pem refl
            (get_winning_key-add auction_id deal winner.auctions) opens_second refl owner_shows.0
            auction_proves owner_shows.1

      e4 :
          get_client_identity library m3 o1
          ≡ (ok tt, record o1 { auctions = remove_winning_key auction_id o1.auctions })
      e4 =
          get_client_identity-ends library auction_id m3 o1 (identity (cert_encode winner.cert_pem))
            deal (cert_encode winner.cert_pem) winner.cert_pem refl
            (get_winning_key-add auction_id deal owner.auctions) opens_third refl winner_shows.0
            winner_shows.1

      done :
          IsDone deal winner owner m2 m3
            (ok tt, w1)
            (ok tt, o1)
            (ok tt, w2)
            (ok tt, record o1 { auctions = remove_winning_key auction_id o1.auctions })
      done = record {
        returned = (refl, refl, refl, refl);
        owner_known = (proof, opens_second, refl);
        winner_known = opens_third;
        winner_forgot = get_winning_key-remove auction_id deal w1.auctions;
        owner_forgot = get_winning_key-remove auction_id deal o1.auctions;
      }
