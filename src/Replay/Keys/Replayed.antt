-- ===== src/Replay/Keys/Replayed.antt =====
-- The keys behind a replay of a whole chain.
use onyx_p2p_auction_system.Base.{ℕ, none, List, [], ◌∷◌, ◌≡◌, refl, subst, ⊤}
use onyx_p2p_auction_system.Base.Dict
use onyx_p2p_auction_system.Base.Dict.{Dict, lookup-insert_ne}
use onyx_p2p_auction_system.Base.Exec.{Result, ok, raised, resume}
use onyx_p2p_auction_system.Event.{number, text, key_instance, Event}
use onyx_p2p_auction_system.Auctions.{Auctions, no_auctions}
use onyx_p2p_auction_system.Wallet.{WalletFile}
use onyx_p2p_auction_system.Ledger.{Block}
use onyx_p2p_auction_system.Replay.{
  apply_event, apply_events, apply_chain, fix_last_id, ledger_to_auction_dict,
}
use onyx_p2p_auction_system.Replay.Keys.{IsFiled, apply_kind-IsFiled}

module _ (wallet : WalletFile) where
  resume-IsFiled :
      (m : Auctions → Result ⊤ × Auctions) (out : Result ⊤ × Auctions)
      → IsFiled out.1
      → IsFiled (m out.1).1
      → IsFiled (resume out.0 (λ _. m) out.1).1
  resume-IsFiled m (raised error, auctions) before after = before
  resume-IsFiled m (ok _, auctions) before after = after

  apply_events-IsFiled :
      (events : List Event) (auctions : Auctions)
      → IsFiled auctions
      → IsFiled (apply_events wallet events auctions).1
  unfolding apply_events apply_event
  apply_events-IsFiled [] auctions h = h
  apply_events-IsFiled (event ∷ rest) auctions h =
      let first = apply_kind-IsFiled wallet event event.kind auctions h in
      resume-IsFiled (apply_events wallet rest) (apply_event wallet event auctions) first
        (apply_events-IsFiled rest _ first)

  apply_chain-IsFiled :
      (chain : List Block) (auctions : Auctions)
      → IsFiled auctions
      → IsFiled (apply_chain wallet chain auctions).1
  unfolding apply_chain
  apply_chain-IsFiled [] auctions h = h
  apply_chain-IsFiled (block ∷ rest) auctions h =
      let first = apply_events-IsFiled block.events auctions h in
      resume-IsFiled (apply_chain wallet rest) (apply_events wallet block.events auctions) first
        (apply_chain-IsFiled rest _ first)

  replay-IsFiled :
      (chain : List Block) (auctions : Auctions)
      → ledger_to_auction_dict wallet chain ≡ ok auctions
      → IsFiled auctions
  unfolding ledger_to_auction_dict fix_last_id
  replay-IsFiled chain auctions e =
      let filed =
        apply_chain-IsFiled chain no_auctions
          (record { listed = λ n. refl; mine = λ n. refl; won = λ n. refl }) in
      ends (apply_chain wallet chain no_auctions).0 (apply_chain wallet chain no_auctions).1 filed e
    where
      ends :
          (r : Result ⊤) (after : Auctions)
          → IsFiled after
          → (elim r [ ok _ ↦ ok (fix_last_id after) | raised e ↦ raised e ]) ≡ ok auctions
          → IsFiled auctions
      ends (raised error) after h k = absurd (cc k)
      ends (ok _) after h k =
          let same : fix_last_id after ≡ auctions = cc k in
          subst IsFiled same (record { listed = h.listed; mine = h.mine; won = h.won })

  -- After a replay no int is a key of "my_auctions" or of "winning_auction", and no text is one of
  -- "auction_list", whatever the chain and the wallet hold, while the handlers of messages look
  -- auctions up by ints.
  pub ledger_to_auction_dict-textual :
      (chain : List Block) (auctions : Auctions) (n : ℕ)
      → ledger_to_auction_dict wallet chain ≡ ok auctions
      → (Dict.lookup (number n) auctions.my_auctions ≡ none)
        × (Dict.lookup (number n) auctions.winning_auction ≡ none)
        × (Dict.lookup (text n) auctions.auction_list ≡ none)
  ledger_to_auction_dict-textual chain auctions n e =
      let filed = replay-IsFiled chain auctions e in (filed.mine n, filed.won n, filed.listed n)
