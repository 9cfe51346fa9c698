-- ===== src/Ledger/Tests.antt =====
-- The ledger on small chains, under a digest that is the timestamp.
use onyx_p2p_auction_system.Base.{
  String, true, some, List, [], ◌∷◌, ◌++◌, ◌≡◌, ◌↔◌, ◌⊎◌, inl, inr, refl,
}
use onyx_p2p_auction_system.Base.Exec.{ok}
use onyx_p2p_auction_system.Event.{Event, Token, blank, bid}
use onyx_p2p_auction_system.Ledger.{
  Content, Block, Ledger, genesis_event, add_action, verify_chain, token_used,
}
use onyx_p2p_auction_system.Ledger.Chain.{events_of, recorded, IsChain, verify_chain_iff}
use onyx_p2p_auction_system.Ledger.Growth.{add_action-recorded}
use onyx_p2p_auction_system.Ledger.Binding.{verify_chain-determined}
use onyx_p2p_auction_system.Ledger.Spending.{spent, Decides, token_used-Decides}

abbrev by_time : Content → String
by_time content = content.timestamp

abbrev first_content : Content
first_content = record {
  height = 0;
  prev_hash = "0";
  timestamp = "t0";
  events = genesis_event ∷ [];
}

abbrev first_block : Block
first_block = record { content = first_content; block_hash = "t0" }

abbrev spent_token : Token
spent_token = record { token_id = some "a"; token_sig = some "s" }

abbrev bid_action : Event
bid_action = record blank { kind = some bid; token = some spent_token }

abbrev second_block : Block
second_block = record {
  content = record { height = 1; prev_hash = "t0"; timestamp = "t1"; events = bid_action ∷ [] };
  block_hash = "t1";
}

abbrev one_block : Ledger
one_block = record { chain = first_block ∷ []; current_actions = []; max_actions = 1 }

abbrev two_blocks : List Block
two_blocks = first_block ∷ second_block ∷ []

verify-two : (verify_chain by_time two_blocks).0 ≡ true
unfolding verify_chain
verify-two = refl

verify_chain_iff_example : ((verify_chain by_time two_blocks).0 ≡ true) ↔ IsChain by_time two_blocks
verify_chain_iff_example = verify_chain_iff by_time two_blocks

verify-one : (verify_chain by_time (first_block ∷ [])).0 ≡ true
unfolding verify_chain
verify-one = refl

add_action-recorded_example :
    let (r, after) = add_action by_time "t1" bid_action one_block in
    (recorded after ≡ recorded one_block ++ bid_action ∷ [])
    × ((r ≡ ok 0) ⊎ ((r ≡ ok 1) × (after.current_actions ≡ [])))
add_action-recorded_example = add_action-recorded by_time "t1" bid_action one_block (λ e. cc e)

verify_chain-determined_example :
    (second_block ∷ [] ≡ second_block ∷ []) × (first_block.block_hash ≡ first_block.block_hash)
verify_chain-determined_example =
    verify_chain-determined by_time first_block first_block (second_block ∷ []) (second_block ∷ [])
      same_content verify-two verify-two refl refl
  where
    same_content :
        (c d : Block)
        → (c ≡ second_block) ⊎ ⊥
        → (d ≡ second_block) ⊎ ⊥
        → by_time c.content ≡ by_time d.content
        → c.content ≡ d.content
    same_content c d (inl e) (inl e') h = cc
    same_content c d (inl e) (inr none_left) h = absurd none_left
    same_content c d (inr none_left) on_ys h = absurd none_left

token_used-Decides_example :
    Decides (token_used (some "a") two_blocks) (some "a") (spent (events_of two_blocks))
token_used-Decides_example = token_used-Decides (some "a") two_blocks (refl, (tt, tt))
