-- ===== src/Ledger/Chain.antt =====
-- What `verify_chain` decides, and which operations keep a chain that it accepts.
use onyx_p2p_auction_system.Base.{
  ◌+◌, String, true, none, some, List, [], ◌∷◌, ◌++◌, last?, ◌≡◌, ◌↔◌, inl, inr, refl, arith,
  str_eq_iff, ap, Option-cases,
}
use onyx_p2p_auction_system.Event.{Event}
use onyx_p2p_auction_system.Ledger.{
  Content, Block, Ledger, chain_is_valid, next_block, check_link, verify_from, verify_chain,
}
use mathlib.Core.List.{append_assoc}

-- The events of a chain, in order, and then those that wait for a block.
abbrev pub events_of : List Block → List Event
events_of [] = []
events_of (block ∷ rest) = block.events ++ events_of rest

abbrev pub recorded : Ledger → List Event
recorded ledger = events_of ledger.chain ++ ledger.current_actions

pub events_of-append : (xs ys : List Block) → events_of (xs ++ ys) ≡ events_of xs ++ events_of ys
events_of-append [] ys = refl
events_of-append (x ∷ xs) ys = simp (events_of-append xs ys, append_assoc)

module _ (digest : Content → String) where
  -- `block` follows `prev`: by height, by hash, and it bears its own hash.
  pub record IsLink (prev block : Block) : Type 0 where
    pub height : block.height ≡ prev.height + 1
    pub linked : block.prev_hash ≡ prev.block_hash
    pub sealed : digest block.content ≡ block.block_hash

  abbrev pub IsChainFrom : Block → List Block → Type 0
  IsChainFrom prev [] = Unit
  IsChainFrom prev (block ∷ rest) = IsLink prev block × IsChainFrom block rest

  -- every block but the first follows the one before it
  abbrev pub IsChain : List Block → Type 0
  IsChain [] = Unit
  IsChain (first ∷ rest) = IsChainFrom first rest

  check_link-none : (prev block : Block) → check_link digest prev block ≡ none → IsLink prev block
  unfolding check_link
  check_link-none prev block h = record {
    height = ground arith;
    linked = ground (arith, str_eq_iff block.prev_hash prev.block_hash);
    sealed = ground (arith, str_eq_iff (digest block.content) block.block_hash);
  }

  check_link-IsLink : (prev block : Block) → IsLink prev block → check_link digest prev block ≡ none
  unfolding check_link
  check_link-IsLink prev block h = ground (
    arith,
    h.height,
    h.linked,
    h.sealed,
    str_eq_iff block.prev_hash prev.block_hash,
    str_eq_iff (digest block.content) block.block_hash,
  )

  verify_from_sound :
      (prev : Block) (rest : List Block)
      → (verify_from digest prev rest).0 ≡ true
      → IsChainFrom prev rest
  unfolding verify_from
  verify_from_sound prev [] h = tt
  verify_from_sound prev (block ∷ rest) h = elim (Option-cases (check_link digest prev block)) [
    | inl passed ↦ (
      check_link-none prev block passed,
      verify_from_sound block rest (rw (passed, verify_from) at h),
    )
    | inr (verdict, e) ↦ cc (rw (e, verify_from) at h)
  ]

  verify_from_complete :
      (prev : Block) (rest : List Block)
      → IsChainFrom prev rest
      → verify_from digest prev rest ≡ (true, chain_is_valid)
  unfolding verify_from
  verify_from_complete prev [] h = refl
  verify_from_complete prev (block ∷ rest) h =
      rw (check_link-IsLink prev block h.0, verify_from) (verify_from_complete block rest h.1)

  -- `verify_chain` accepts a chain exactly when every block but the first has the height after its
  -- predecessor's, names its predecessor's hash, and bears the hash of its own content.
  pub verify_chain_iff :
      (chain : List Block) → ((verify_chain digest chain).0 ≡ true) ↔ IsChain chain
  unfolding verify_chain
  verify_chain_iff [] = (λ _. tt, λ _. refl)
  verify_chain_iff (first ∷ rest) =
      (verify_from_sound first rest, λ h. ap (λ r. r.0) (verify_from_complete first rest h))

  IsChainFrom-snoc :
      (first : Block) (rest : List Block) (prev block : Block)
      → last? (first ∷ rest) ≡ some prev
      → IsChainFrom first rest
      → IsLink prev block
      → IsChainFrom first (rest ++ block ∷ [])
  IsChainFrom-snoc first [] prev block e h link = rw (some_inj e) (link, tt)
    where
      some_inj : some first ≡ some prev → first ≡ prev
      some_inj p = cc
  IsChainFrom-snoc first (b ∷ rest) prev block e h link =
      (h.0, IsChainFrom-snoc b rest prev block e h.1 link)

  pub IsChain-snoc :
      (chain : List Block) (prev block : Block)
      → last? chain ≡ some prev
      → IsChain chain
      → IsLink prev block
      → IsChain (chain ++ block ∷ [])
  IsChain-snoc [] prev block e h link = tt
  IsChain-snoc (first ∷ rest) prev block e h link = IsChainFrom-snoc first rest prev block e h link

  pub next_block-IsLink :
      (prev : Block) (now : String) (events : List Event)
      → IsLink prev (next_block digest prev now events)
  unfolding next_block
  next_block-IsLink prev now events = record { height = refl; linked = refl; sealed = refl }
