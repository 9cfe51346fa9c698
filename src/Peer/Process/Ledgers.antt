-- ===== src/Peer/Process/Ledgers.antt =====
-- What every message but a ledger update keeps true of the local ledger.
use onyx_p2p_auction_system.Base.{
  ℕ, String, false, Option, none, some, [], ⊤, ◌≡◌, ◌≢◌, refl, sym, ap, subst, ◌∙◌, arith, inl, inr,
  last?,
}
use onyx_p2p_auction_system.Base.Exec.{Result, ok, raised, resume, ◌>>◌}
use onyx_p2p_auction_system.Event.{
  Event, Kind, Token, is_genesis, genesis, auction, bid, ledger_request, ledger_update, auction_end,
  winner_token_reveal, auction_owner_revelation, winner_revelation, new_key, other,
}
use onyx_p2p_auction_system.Ledger.{Block, Ledger, saved, add_action, save_to_file}
use onyx_p2p_auction_system.Ledger.Chain.{events_of}
use onyx_p2p_auction_system.Ledger.Growth.{add_action_one}
use onyx_p2p_auction_system.Ledger.Spending.{In, spent, token_used-Decides}
use onyx_p2p_auction_system.Ledger.Sound.{IsSound, grown, grown-IsSound}
use onyx_p2p_auction_system.Peer.{Client, Library, Inputs, Message, on_auctions}
use onyx_p2p_auction_system.Auctions.{Auctions}
use onyx_p2p_auction_system.Peer.Reveal.{handle_auction_end}
use onyx_p2p_auction_system.Peer.Reveal.Keeps.{Keeps, Keeps-bind, Keeps-pure, Keeps-send}
use onyx_p2p_auction_system.Peer.Reveal.Keeps.Handlers.{
  handle_auction_end-Keeps, handle_winner_reveal-Keeps, get_client_identity-Keeps,
  prepare_winner_identity-Keeps, ledger_request_handler-Keeps,
}
use onyx_p2p_auction_system.Peer.Process.{
  process_message, route, dispatch, store, handle_bid, record_action, rotate_key, answer_request,
  send_update, save_if, update_personal_auctions, set_group_key,
}
use onyx_p2p_auction_system.Peer.Process.Rejects.{IsChecked, Gate, checked-Gate}

module _ (library : Library) where
  -- the ledger of a peer and its file
  abbrev pub HasSoundLedger : Client → Type 0
  HasSoundLedger client = IsSound library.digest client.ledger client.ledger_file

  abbrev pub Unspent : Option String → Client → Type 0
  Unspent id client = ¬ In id (spent (events_of client.ledger.chain))

  module _ (inputs : Inputs) where
    abbrev recorded_in : Event → Block → Client → Client
    recorded_in action prev client =
        let ledger = grown library.digest inputs.utc action client.ledger.chain prev in
        record client { ledger = ledger; ledger_file = saved ledger.chain }

    record_action_lem :
        (action : Event) (prev : Block) (client : Client)
        → add_action library.digest inputs.utc action client.ledger
          ≡ (ok 1, grown library.digest inputs.utc action client.ledger.chain prev)
        → record_action library inputs action client ≡ (ok tt, recorded_in action prev client)
    unfolding record_action save_if save_to_file
    record_action_lem action prev client e =
        ap
          (λ (out : Result ℕ × Ledger).
            let client' : Client = record client { ledger = out.1 } in
            elim out.0 [
              | raised error ↦ (raised error, client')
              | ok made ↦ (ok tt, save_if library made client')
            ])
          e

    record_action-grows :
        (action : Event) (client : Client)
        → HasSoundLedger client
        → (prev : Block) × (last? client.ledger.chain ≡ some prev)
          × (record_action library inputs action client ≡ (ok tt, recorded_in action prev client))
    record_action-grows action client h =
        let (prev, tip, e) =
          add_action_one library.digest inputs.utc action client.ledger.chain h.nonempty in
        (
          prev,
          tip,
          record_action_lem action prev client (
              ap (add_action library.digest inputs.utc action)
                (ledger-path client.ledger h.empty_pool h.one_action)
              ∙ e),
        )
      where
        ledger-path :
            (l : Ledger)
            → l.current_actions ≡ []
            → l.max_actions ≡ 1
            → l ≡ record { chain = l.chain; current_actions = []; max_actions = 1 }
        ledger-path l p q i = record { chain = l.chain; current_actions = p i; max_actions = q i }

    pub record_action-IsSound :
        (action : Event) (token : Token) (client : Client)
        → action.token ≡ some token
        → is_genesis action.kind ≡ false
        → Unspent token.token_id client
        → HasSoundLedger client
        → HasSoundLedger (record_action library inputs action client).1
    record_action-IsSound action token client carried no_genesis unspent h =
        let (prev, tip, e) = record_action-grows action client h in
        subst HasSoundLedger (sym (ap (λ (out : Result ⊤ × Client). out.1) e)) (
          grown-IsSound library.digest inputs.utc action token carried no_genesis
            client.ledger.chain prev tip h.nonempty h.verifies h.tokened h.spent_once unspent)

    pub Keeps-IsSound :
        {A : Type 0} (m : Client → Result A × Client) (client : Client)
        → Keeps m
        → HasSoundLedger client
        → HasSoundLedger (m client).1
    Keeps-IsSound m client keeps h =
        subst (λ file. IsSound library.digest (m client).1.ledger file) (sym (keeps.file client))
          (subst (λ ledger. IsSound library.digest ledger client.ledger_file)
            (sym (keeps.ledger client)) h)

    on_auctions-IsSound :
        {A : Type 0} (m : Auctions → Result A × Auctions) (client : Client)
        → HasSoundLedger client
        → HasSoundLedger (on_auctions m client).1
    on_auctions-IsSound m client h = h

    store-IsSound :
        (msg : Message) (token : Token) (client : Client)
        → msg.token ≡ some token
        → is_genesis msg.kind ≡ false
        → Unspent token.token_id client
        → HasSoundLedger client
        → HasSoundLedger (store library inputs msg client).1
    unfolding store
    store-IsSound msg token client carried no_genesis unspent h =
        let (prev, tip, e) = record_action-grows msg.event client h in
        subst
          (λ (out : Result ⊤ × Client).
            HasSoundLedger
              (resume out.0 (λ _. on_auctions (update_personal_auctions library.iso_time msg))
                out.1).1)
          (sym e)
          (subst (λ (out : Result ⊤ × Client). HasSoundLedger out.1) e
            (record_action-IsSound msg.event token client carried no_genesis unspent h))

    handle_bid-IsSound :
        (msg : Message) (token : Token) (client : Client)
        → msg.token ≡ some token
        → is_genesis msg.kind ≡ false
        → Unspent token.token_id client
        → HasSoundLedger client
        → HasSoundLedger (handle_bid library inputs msg client).1
    unfolding handle_bid
    handle_bid-IsSound msg token client carried no_genesis unspent h =
        grind (arith, store-IsSound msg token client carried no_genesis unspent h)

    pub answer_request-Keeps : (msg : Message) → Keeps (answer_request library inputs msg)
    unfolding answer_request send_update
    answer_request-Keeps msg =
        Keeps-bind _ _ (ledger_request_handler-Keeps library inputs msg.request_id) sends
      where
        sends : (update : Option Message) → Keeps (send_update library update)
        sends none = Keeps-pure tt
        sends (some update) = Keeps-send update

    auction_end-IsSound :
        (msg : Message) (token : Token) (client : Client)
        → msg.token ≡ some token
        → is_genesis msg.kind ≡ false
        → Unspent token.token_id client
        → HasSoundLedger client
        → HasSoundLedger
            ((handle_auction_end library inputs msg >> record_action library inputs msg.event)
              client).1
    auction_end-IsSound msg token client carried no_genesis unspent h =
        let keeps = handle_auction_end-Keeps library inputs msg in
        ends (handle_auction_end library inputs msg client)
          (subst (λ ledger. ¬ In token.token_id (spent (events_of ledger.chain)))
            (sym (keeps.ledger client)) unspent)
          (Keeps-IsSound (handle_auction_end library inputs msg) client keeps h)
      where
        ends :
            (out : Result ⊤ × Client)
            → Unspent token.token_id out.1
            → HasSoundLedger out.1
            → HasSoundLedger (resume out.0 (λ _. record_action library inputs msg.event) out.1).1
        ends (raised error, after) free sound = sound
        ends (ok _, after) free sound =
            record_action-IsSound msg.event token after carried no_genesis free sound

    dispatch-IsSound :
        (msg : Message) (kind : Kind) (token : Token) (client : Client)
        → msg.kind ≡ some kind
        → kind ≢ ledger_update
        → kind ≢ genesis
        → msg.token ≡ some token
        → Unspent token.token_id client
        → HasSoundLedger client
        → HasSoundLedger (dispatch library inputs msg kind client).1
    unfolding dispatch
    dispatch-IsSound msg genesis token client of_kind k1 k2 carried unspent h = absurd (k2 refl)
    dispatch-IsSound msg ledger_update token client of_kind k1 k2 carried unspent h =
        absurd (k1 refl)
    dispatch-IsSound msg auction token client of_kind k1 k2 carried unspent h =
        store-IsSound msg token client carried (rw of_kind refl) unspent h
    dispatch-IsSound msg bid token client of_kind k1 k2 carried unspent h =
        handle_bid-IsSound msg token client carried (rw of_kind refl) unspent h
    dispatch-IsSound msg auction_end token client of_kind k1 k2 carried unspent h =
        auction_end-IsSound msg token client carried (rw of_kind refl) unspent h
    dispatch-IsSound msg winner_token_reveal token client of_kind k1 k2 carried unspent h =
        Keeps-IsSound _ client (handle_winner_reveal-Keeps library inputs msg) h
    dispatch-IsSound msg auction_owner_revelation token client of_kind k1 k2 carried unspent h =
        Keeps-IsSound _ client (prepare_winner_identity-Keeps library inputs msg) h
    dispatch-IsSound msg winner_revelation token client of_kind k1 k2 carried unspent h =
        Keeps-IsSound _ client (get_client_identity-Keeps library inputs msg) h
    dispatch-IsSound msg ledger_request token client of_kind k1 k2 carried unspent h =
        Keeps-IsSound _ client (answer_request-Keeps msg) h
    dispatch-IsSound msg new_key token client of_kind k1 k2 carried unspent h = h
    dispatch-IsSound msg other token client of_kind k1 k2 carried unspent h = h

    pub rotate_key-Keeps : (msg : Message) → Keeps (rotate_key library msg)
    unfolding rotate_key set_group_key
    rotate_key-Keeps msg = record { ledger = λ c. ground arith; file = λ c. ground arith }

    checked-Unspent :
        (msg : Message) (client : Client)
        → HasSoundLedger client
        → (passed : IsChecked library msg client) → Unspent passed.token.token_id client
    checked-Unspent msg client h passed =
        elim (token_used-Decides passed.token.token_id client.ledger.chain h.tokened) [
          | inl (used, found) ↦ absurd (cc (used, passed.unused))
          | inr (unused, absent) ↦ absent
        ]

    Gate-IsSound :
        (msg : Message) (kind : Kind) (client : Client) (out : Result ⊤ × Client)
        → msg.kind ≡ some kind
        → kind ≢ ledger_update
        → kind ≢ genesis
        → HasSoundLedger client
        → Gate library inputs msg client out kind
        → HasSoundLedger out.1
    Gate-IsSound msg kind client out of_kind k1 k2 h (inl same) = subst HasSoundLedger (sym same) h
    Gate-IsSound msg kind client out of_kind k1 k2 h (inr (passed, e)) =
        subst (λ (r : Result ⊤ × Client). HasSoundLedger r.1) (sym e)
          (dispatch-IsSound msg kind passed.token client of_kind k1 k2 passed.carried
            (checked-Unspent msg client h passed) h)

    route-IsSound :
        (msg : Message) (kind : Option Kind) (client : Client)
        → msg.kind ≡ kind
        → kind ≢ some ledger_update
        → HasSoundLedger client
        → HasSoundLedger (route library inputs msg kind client).1
    unfolding route
    route-IsSound msg none client of_kind k1 h = h
    route-IsSound msg (some genesis) client of_kind k1 h = h
    route-IsSound msg (some other) client of_kind k1 h = h
    route-IsSound msg (some new_key) client of_kind k1 h =
        Keeps-IsSound _ client (rotate_key-Keeps msg) h
    route-IsSound msg (some kind) client of_kind k1 h =
        Gate-IsSound msg kind client _ of_kind (λ e. k1 (ap some e)) (λ e. cc e) h
          (checked-Gate library inputs msg client kind)

    -- From a sound ledger, every message but a "ledger_update" leaves a sound ledger, on every path
    -- of its handler, those that raise included: the chain verifies, no token id stands in it twice,
    -- and the file holds the chain.
    pub process_message-IsSound :
        (msg : Message) (client : Client)
        → msg.kind ≢ some ledger_update
        → HasSoundLedger client
        → HasSoundLedger (process_message library inputs (some msg) client).1
    unfolding process_message
    process_message-IsSound msg client = route-IsSound msg msg.kind client refl
