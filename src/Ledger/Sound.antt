-- ===== src/Ledger/Sound.antt =====
-- What a ledger that only this program has written satisfies.
use onyx_p2p_auction_system.Base.{
  String, true, false, some, List, [], ◌∷◌, ◌++◌, ◌≡◌, ◌≢◌, refl, arith, All, All-append, last?,
}
use onyx_p2p_auction_system.Event.{Event, Token, is_genesis}
use onyx_p2p_auction_system.Ledger.{
  Content, Block, Ledger, LedgerFile, saved, next_block, verify_chain, new_ledger,
}
use onyx_p2p_auction_system.Ledger.Chain.{
  events_of, verify_chain_iff, IsChain-snoc, next_block-IsLink,
}
use onyx_p2p_auction_system.Ledger.Growth.{events_of-commit, snoc-ne-nil, new_ledger-IsChain}
use onyx_p2p_auction_system.Ledger.Spending.{
  HasToken, In, NoRepeat, NoRepeat-snoc, spent, spends, spent-append,
}

-- A ledger with a genesis block that verifies, whose pool is empty and takes one action a block, in
-- which every event but a genesis event carries a token and no token id stands twice, and whose
-- chain is what the file holds.
pub record IsSound (digest : Content → String) (ledger : Ledger) (file : LedgerFile) : Type 0 where
  pub nonempty : ledger.chain ≢ []
  pub verifies : (verify_chain digest ledger.chain).0 ≡ true
  pub empty_pool : ledger.current_actions ≡ []
  pub one_action : ledger.max_actions ≡ 1
  pub tokened : All HasToken (events_of ledger.chain)
  pub spent_once : NoRepeat (spent (events_of ledger.chain))
  pub persisted : file ≡ saved ledger.chain

-- the ledger after one more action
abbrev pub grown : (Content → String) → String → Event → List Block → Block → Ledger
grown digest now action chain prev = record {
  chain = chain ++ next_block digest prev now (action ∷ []) ∷ [];
  current_actions = [];
  max_actions = 1;
}

module _ (digest : Content → String) (now : String) (action : Event) (token : Token)
    (carried : action.token ≡ some token) (no_genesis : is_genesis action.kind ≡ false) where
  spends-action : spends action ≡ token.token_id ∷ []
  spends-action = ground arith

  action-HasToken : HasToken action
  action-HasToken = rw carried tt

  pub grown-IsSound :
      (chain : List Block) (prev : Block)
      → last? chain ≡ some prev
      → chain ≢ []
      → (verify_chain digest chain).0 ≡ true
      → All HasToken (events_of chain)
      → NoRepeat (spent (events_of chain))
      → ¬ In token.token_id (spent (events_of chain))
      → let ledger = grown digest now action chain prev in
        IsSound digest ledger (saved ledger.chain)
  grown-IsSound chain prev tip nonempty verifies tokened once unspent =
      let block = next_block digest prev now (action ∷ []) in
      let events : events_of (chain ++ block ∷ []) ≡ events_of chain ++ action ∷ [] =
        events_of-commit digest chain prev now (action ∷ []) in
      record {
        nonempty = snoc-ne-nil chain block;
        verifies = (verify_chain_iff digest (chain ++ block ∷ [])).1 (
            IsChain-snoc digest chain prev block tip ((verify_chain_iff digest chain).0 verifies)
              (next_block-IsLink digest prev now (action ∷ [])));
        empty_pool = refl;
        one_action = refl;
        tokened =
            rw events
              (All-append HasToken (events_of chain) (action ∷ []) tokened (action-HasToken, tt));
        spent_once =
            rw (events, spent-append, spends-action)
              (NoRepeat-snoc (spent (events_of chain)) token.token_id once unspent);
        persisted = refl;
      }

pub genesis-IsSound :
    (digest : Content → String) (now : String)
    → let ledger = new_ledger digest now in IsSound digest ledger (saved ledger.chain)
unfolding new_ledger
genesis-IsSound digest now = record {
  nonempty = (new_ledger-IsChain digest now).1;
  verifies = (new_ledger-IsChain digest now).0;
  empty_pool = refl;
  one_action = refl;
  tokened = (refl, tt);
  spent_once = tt;
  persisted = refl;
}
