-- ===== src/Peer/Commands/Opening.antt =====
-- Opening an auction: the id that `cmd_auction` gives, and what other peers make of the message.
use onyx_p2p_auction_system.Base.{ℕ, ◌+◌, String, true, false, some, ◌≡◌, refl, sym}
use onyx_p2p_auction_system.Base.Dict
use onyx_p2p_auction_system.Base.Dict.{contains, contains-insert_self, lookup-insert_self}
use onyx_p2p_auction_system.Base.Exec.{ok}
use onyx_p2p_auction_system.Number.{Number}
use onyx_p2p_auction_system.Event.{number, key_instance, auction, blank}
use onyx_p2p_auction_system.Auctions.{Mine}
use onyx_p2p_auction_system.Auctions.Ids.{
  with_own, own_mine, generate_next_auction_id-next, add_my_auction-new,
}
use onyx_p2p_auction_system.Peer.{Client, Library, Inputs, Message, message}
use onyx_p2p_auction_system.Peer.Tokens.Obtained.{IsReady, token_of, wallet_of, get_token-ready}
use onyx_p2p_auction_system.Peer.Process.{process_message}
use onyx_p2p_auction_system.Peer.Process.Known.{process_message-known}
use onyx_p2p_auction_system.Peer.Commands.{cmd_auction, auction_duration_seconds}

module _ (library : Library) (inputs : Inputs) (ready : IsReady library inputs) (name : String)
    (min_bid : Number) (client : Client) where
  abbrev pub next_id : ℕ
  next_id = client.auctions.last_auction_id + 1

  abbrev pub closing : ℕ
  closing = inputs.now + auction_duration_seconds

  -- the message that opens an auction
  abbrev pub opening : Message
  opening = message (record blank {
    id = some (number next_id);
    kind = some auction;
    name = some name;
    closing_date = some closing;
    min_bid = some min_bid;
    token = some (token_of library inputs ready);
    public_key = some inputs.fresh_public_key;
    encrypted_identity = some (
        library.seal_identity client.uuid client.cert_pem inputs.fresh_token_id
          inputs.identity_nonce);
    timestamp = inputs.stamp;
  })

  -- the peer behind the command
  abbrev pub opener : Client
  opener = record client {
    wallet = wallet_of library inputs ready client;
    auctions =
        with_own (some min_bid) (some closing) (some (token_of library inputs ready))
          inputs.fresh_public_key inputs.fresh_private_key client.auctions;
  }

  -- If a token can be had and the next id is not known, `cmd_auction` files the auction under it.
  pub cmd_auction-opens :
      contains (number next_id) client.auctions.auction_list ≡ false
      → cmd_auction library inputs name min_bid client ≡ (ok (some opening), opener)
  unfolding cmd_auction
  cmd_auction-opens unknown =
      rw
        (
          get_token-ready library inputs ready client,
          generate_next_auction_id-next (some min_bid) (some closing)
              (some (token_of library inputs ready)) inputs.fresh_public_key
              inputs.fresh_private_key client.auctions,
          add_my_auction-new (some min_bid) (some closing) (some (token_of library inputs ready))
              inputs.fresh_public_key inputs.fresh_private_key client.auctions unknown,
        )
        refl

module _ (library : Library) (first second : Inputs) (ready1 : IsReady library first)
    (ready2 : IsReady library second) (name1 name2 : String) (bid1 bid2 : Number)
    (a b : Client) where
  -- the auction that `mine` knows under the id of its own opening
  opener-knows :
      (inputs : Inputs) (ready : IsReady library inputs) (name : String) (min_bid : Number)
      (mine : Client)
      → contains
          (number (mine.auctions.last_auction_id + 1))
          (opener library inputs ready name min_bid mine).auctions.auction_list
        ≡ true
  opener-knows inputs ready name min_bid mine =
      contains-insert_self (number (mine.auctions.last_auction_id + 1)) _ mine.auctions.auction_list

  -- Two peers with the same "last_auction_id" that each open an auction before they hear of the
  -- other's give both the same id: each files its own auction and keeps its private key, and its
  -- auctions stay as they are when `process_message` handles the message of the other, on any clock
  -- and any draws.
  pub cmd_auction-collides :
      a.auctions.last_auction_id ≡ b.auctions.last_auction_id
      → contains (number (a.auctions.last_auction_id + 1)) a.auctions.auction_list ≡ false
      → contains (number (b.auctions.last_auction_id + 1)) b.auctions.auction_list ≡ false
      → let id = number (a.auctions.last_auction_id + 1) in
        let (r1, a1) = cmd_auction library first name1 bid1 a in
        let (r2, b1) = cmd_auction library second name2 bid2 b in
        (m1 m2 : Message) × (own1 own2 : Mine) × (r1 ≡ ok (some m1))
        × (r2 ≡ ok (some m2))
        × (m1.id ≡ some id)
        × (m2.id ≡ some id)
        × (Dict.lookup id a1.auctions.my_auctions ≡ some own1)
        × (Dict.lookup id b1.auctions.my_auctions ≡ some own2)
        × (own1.private_key ≡ some first.fresh_private_key)
        × (own2.private_key ≡ some second.fresh_private_key)
        × ((inputs : Inputs)
            → (process_message library inputs (some m1) b1).1.auctions ≡ b1.auctions)
        × ((inputs : Inputs)
            → (process_message library inputs (some m2) a1).1.auctions ≡ a1.auctions)
  cmd_auction-collides same unknown_a unknown_b =
      rw
        (
          cmd_auction-opens library first ready1 name1 bid1 a unknown_a,
          cmd_auction-opens library second ready2 name2 bid2 b unknown_b,
        )
        (
          opening library first ready1 name1 bid1 a,
          opening library second ready2 name2 bid2 b,
          own_mine (some (token_of library first ready1)) first.fresh_public_key
              first.fresh_private_key,
          own_mine (some (token_of library second ready2)) second.fresh_public_key
              second.fresh_private_key,
          refl,
          refl,
          refl,
          rw same refl,
          lookup-insert_self (number (a.auctions.last_auction_id + 1)) _ a.auctions.my_auctions,
          rw same (
              lookup-insert_self (number (b.auctions.last_auction_id + 1)) _
                b.auctions.my_auctions),
          refl,
          refl,
          (λ inputs.
              process_message-known library inputs (opening library first ready1 name1 bid1 a)
                (a.auctions.last_auction_id + 1) (opener library second ready2 name2 bid2 b) refl
                refl (rw same (opener-knows second ready2 name2 bid2 b))),
          (λ inputs.
              process_message-known library inputs (opening library second ready2 name2 bid2 b)
                (b.auctions.last_auction_id + 1) (opener library first ready1 name1 bid1 a) refl
                refl (rw (sym same) (opener-knows first ready1 name1 bid1 a))),
        )
