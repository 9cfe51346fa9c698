-- ===== src/Ledger/Longer.antt =====
-- Whatever the ledger is, `add_action` shortens no chain.
use onyx_p2p_auction_system.Base.{◌≤◌, String, [], ◌∷◌, ◌++◌, length, length-append, arith}
use onyx_p2p_auction_system.Event.{Event}
use onyx_p2p_auction_system.Ledger.{Content, Block, Ledger, commit_block, finish_block, add_action}

module _ (digest : Content → String) (now : String) where
  commit_block-longer :
      (block : Block) (ledger : Ledger)
      → length ledger.chain ≤ length (commit_block digest block ledger).1.chain
  unfolding commit_block
  commit_block-longer block ledger = omega (arith, length-append ledger.chain (block ∷ []))

  finish_block-longer :
      (ledger : Ledger) → length ledger.chain ≤ length (finish_block digest now ledger).1.chain
  unfolding finish_block
  finish_block-longer ledger = grind (arith, commit_block-longer)

  pub add_action-longer :
      (action : Event) (ledger : Ledger)
      → length ledger.chain ≤ length (add_action digest now action ledger).1.chain
  unfolding add_action
  add_action-longer action ledger =
      let pooled : Ledger = record ledger {
        current_actions = ledger.current_actions ++ action ∷ [];
      } in
      ground (arith, finish_block-longer pooled)
