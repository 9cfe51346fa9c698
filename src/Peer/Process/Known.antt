-- ===== src/Peer/Process/Known.antt =====
-- An "auction" message with an id that the peer knows: its auctions stay as they are.
use onyx_p2p_auction_system.Base.{
  ℕ, String, true, false, Option, some, ⊤, ◌≡◌, refl, sym, subst, ap, ◌∙◌, arith, inl, inr,
}
use onyx_p2p_auction_system.Base.Dict.{contains}
use onyx_p2p_auction_system.Base.Exec.{Result, ok, raised, resume}
use onyx_p2p_auction_system.Event.{Event, Kind, number, key_instance, auction}
use onyx_p2p_auction_system.Auctions.Ids.{add_auction-known}
use onyx_p2p_auction_system.Peer.{Client, Library, Inputs, Message, on_auctions}
use onyx_p2p_auction_system.Peer.Process.{
  update_personal_auctions, process_message, route, dispatch, store, record_action, save_if,
}
use onyx_p2p_auction_system.Peer.Process.Rejects.{checked-Gate}

-- An "auction" message with an id that the peer knows leaves the peer as it was.
known-ignored :
    (iso_time : String → Option ℕ) (msg : Message) (n : ℕ) (client : Client)
    → msg.kind ≡ some auction
    → msg.id ≡ some (number n)
    → contains (number n) client.auctions.auction_list ≡ true
    → on_auctions (update_personal_auctions iso_time msg) client ≡ (ok tt, client)
unfolding update_personal_auctions
known-ignored iso_time msg n client kind named known =
    rw
      (
        kind,
        named,
        add_auction-known msg.min_bid msg.closing_date false msg.token_data msg.public_key n
            client.auctions known,
      )
      refl

module _ (library : Library) (inputs : Inputs) where
  record_action-auctions :
      (action : Event) (client : Client)
      → (record_action library inputs action client).1.auctions ≡ client.auctions
  unfolding record_action save_if
  record_action-auctions action client = ground arith

  module _ (msg : Message) (n : ℕ) (client : Client) (kind : msg.kind ≡ some auction)
      (named : msg.id ≡ some (number n))
      (known : contains (number n) client.auctions.auction_list ≡ true) where
    store-known : (store library inputs msg client).1.auctions ≡ client.auctions
    unfolding store
    store-known =
        behind (record_action library inputs msg.event client)
          (record_action-auctions msg.event client)
      where
        behind :
            (out : Result ⊤ × Client)
            → out.1.auctions ≡ client.auctions
            → (resume out.0
                (λ _. on_auctions (update_personal_auctions library.iso_time msg))
                out.1).1.auctions
              ≡ client.auctions
        behind (raised error, after) same = same
        behind (ok _, after) same =
            ap (λ (out : Result ⊤ × Client). out.1.auctions)
              (known-ignored library.iso_time msg n after kind named (rw same known))
            ∙ same

    through_checks : (route library inputs msg (some auction) client).1.auctions ≡ client.auctions
    unfolding route dispatch
    through_checks = elim (checked-Gate library inputs msg client auction) [
      | inl same ↦ ap (λ (c : Client). c.auctions) same
      | inr (passed, e) ↦ ap (λ (out : Result ⊤ × Client). out.1.auctions) e ∙ store-known
    ]

    pub process_message-known :
        (process_message library inputs (some msg) client).1.auctions ≡ client.auctions
    unfolding process_message
    process_message-known =
        subst
          (λ (k : Option Kind). (route library inputs msg k client).1.auctions ≡ client.auctions)
          (sym kind) through_checks
