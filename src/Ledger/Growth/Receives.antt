-- ===== src/Ledger/Growth/Receives.antt =====
-- What `receive_block` accepts.
use onyx_p2p_auction_system.Base.{
  ◌≤◌, String, true, false, some, [], ◌∷◌, ◌++◌, length, last?, ◌≡◌, ◌≢◌, ◌↔◌, ◌⊎◌, inl, inr, refl,
  arith, str_eq_iff, Bool-cases,
}
use onyx_p2p_auction_system.Base.Exec.{ok}
use onyx_p2p_auction_system.Ledger.{
  Content, Block, Ledger, block_accepted, verify_chain, validate_block, receive_block,
}
use onyx_p2p_auction_system.Ledger.Chain.{IsLink, IsChain-snoc, verify_chain_iff}
use onyx_p2p_auction_system.Ledger.Growth.{last?-ne-nil}

module _ (digest : Content → String) where
  validate_block_iff :
      (block prev : Block)
      → ((validate_block digest block prev).0 ≡ true)
        ↔ (IsLink digest prev block × (length block.events ≤ 3))
  unfolding validate_block
  validate_block_iff block prev = (
    λ h. (
      record {
        height = ground arith;
        linked = ground (arith, str_eq_iff block.prev_hash prev.block_hash);
        sealed = ground (arith, str_eq_iff (digest block.content) block.block_hash);
      },
      ground arith,
    ),
    λ (link, few). ground (
      arith,
      link.height,
      link.linked,
      link.sealed,
      str_eq_iff block.prev_hash prev.block_hash,
      str_eq_iff (digest block.content) block.block_hash,
    ),
  )

  receive_block-accepts :
      (block prev : Block) (ledger : Ledger)
      → last? ledger.chain ≡ some prev
      → (validate_block digest block prev).0 ≡ true
      → receive_block digest block ledger
        ≡ (ok (true, block_accepted), record ledger { chain = ledger.chain ++ block ∷ [] })
  unfolding receive_block
  receive_block-accepts block prev ledger tip e = ground arith

  receive_block-refuses :
      (block prev : Block) (ledger : Ledger)
      → last? ledger.chain ≡ some prev
      → (validate_block digest block prev).0 ≡ false
      → receive_block digest block ledger
        ≡ (ok (false, (validate_block digest block prev).1), ledger)
  unfolding receive_block
  receive_block-refuses block prev ledger tip e = ground arith

  -- On a ledger with a tip, `receive_block` answers `(True, "Block accepted")` exactly when the
  -- block follows the tip (height, previous hash, own hash) and has at most three events.
  pub receive_block_iff :
      (block prev : Block) (ledger : Ledger)
      → last? ledger.chain ≡ some prev
      → ((receive_block digest block ledger).0 ≡ ok (true, block_accepted))
        ↔ (IsLink digest prev block × (length block.events ≤ 3))
  receive_block_iff block prev ledger tip = elim (Bool-cases (validate_block digest block prev).0) [
    | inl yes_valid ↦ (
      λ _. (validate_block_iff block prev).0 yes_valid,
      λ _. rw (receive_block-accepts block prev ledger tip yes_valid),
    )
    | inr invalid ↦ (
      λ h. absurd (cc (h, receive_block-refuses block prev ledger tip invalid)),
      λ h. absurd (cc (invalid, (validate_block_iff block prev).1 h)),
    )
  ]

  -- `receive_block` keeps a chain that verifies so; it adds the block behind the tip if it follows
  -- it and has at most three events, and else leaves the ledger as it was.
  pub receive_block-IsChain :
      (block : Block) (ledger : Ledger)
      → ledger.chain ≢ []
      → (verify_chain digest ledger.chain).0 ≡ true
      → let after = (receive_block digest block ledger).1 in
        ((verify_chain digest after.chain).0 ≡ true)
        × ((after ≡ record ledger { chain = ledger.chain ++ block ∷ [] }) ⊎ (after ≡ ledger))
  receive_block-IsChain block ledger nonempty h =
      let (prev, tip) = last?-ne-nil ledger.chain nonempty in
      elim (Bool-cases (validate_block digest block prev).0) [
        | inl yes_valid ↦ rw (receive_block-accepts block prev ledger tip yes_valid) (
          (verify_chain_iff digest _).1 (
              IsChain-snoc digest ledger.chain prev block tip
                ((verify_chain_iff digest ledger.chain).0 h)
                ((validate_block_iff block prev).0 yes_valid).0),
          inl refl,
        )
        | inr invalid ↦ rw (receive_block-refuses block prev ledger tip invalid) (h, inr refl)
      ]
