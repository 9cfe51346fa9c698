-- ===== src/Ledger/Binding.antt =====
-- What the hash of the tip fixes, when no two block contents have one digest.
use onyx_p2p_auction_system.Base.{
  String, List, [], ◌∷◌, length, ◌≡◌, refl, arith, ap, true, inl, inr,
}
use onyx_p2p_auction_system.Ledger.{Content, Block, check_link, verify_from, verify_chain}
use onyx_p2p_auction_system.Ledger.Chain.{IsChainFrom, verify_chain_iff}
use onyx_p2p_auction_system.Ledger.Spending.{In}

-- the last block of `first ∷ rest`
abbrev pub tip : Block → List Block → Block
tip first [] = first
tip first (block ∷ rest) = tip block rest

Block-path : (a b : Block) → a.content ≡ b.content → a.block_hash ≡ b.block_hash → a ≡ b
Block-path a b p q i = record { content = p i; block_hash = q i }

cons-path {ℓ} : {A : Type ℓ} (x y : A) (xs ys : List A) → x ≡ y → xs ≡ ys → x ∷ xs ≡ y ∷ ys
cons-path x y xs ys p q = cc

module _ (digest : Content → String) where
  -- no block of one chain has the digest of a block of the other without having its content
  abbrev pub IsCollisionFree : List Block → List Block → Type 0
  IsCollisionFree xs ys =
      (c d : Block)
      → In c xs
      → In d ys
      → digest c.content ≡ digest d.content
      → c.content ≡ d.content

  IsChainFrom-determined :
      (a b : Block) (xs ys : List Block)
      → IsCollisionFree xs ys
      → IsChainFrom digest a xs
      → IsChainFrom digest b ys
      → length xs ≡ length ys
      → (tip a xs).block_hash ≡ (tip b ys).block_hash
      → (xs ≡ ys) × (a.block_hash ≡ b.block_hash)
  IsChainFrom-determined a b [] [] free ha hb same_length same_tip = (refl, same_tip)
  IsChainFrom-determined a b [] (y ∷ ys) free ha hb same_length same_tip = absurd (omega arith)
  IsChainFrom-determined a b (x ∷ xs) [] free ha hb same_length same_tip = absurd (omega arith)
  IsChainFrom-determined a b (x ∷ xs) (y ∷ ys) free ha hb same_length same_tip =
      let (tails, hashes) =
        IsChainFrom-determined x y xs ys (λ c d on_xs on_ys. free c d (inr on_xs) (inr on_ys)) ha.1
          hb.1 (omega arith) same_tip in
      let contents : x.content ≡ y.content =
        free x y (inl refl) (inl refl) (cc (ha.0.sealed, hb.0.sealed, hashes)) in
      (
        cons-path x y xs ys (Block-path x y contents hashes) tails,
        cc (ha.0.linked, hb.0.linked, ap (λ (c : Content). c.prev_hash) contents),
      )

  -- Two chains that `verify_chain` accepts, of one length and with the same hash at their tips,
  -- between whose blocks the digest has no collision, have the same blocks behind the genesis
  -- block, and genesis blocks of the same hash.
  pub verify_chain-determined :
      (a b : Block) (xs ys : List Block)
      → IsCollisionFree xs ys
      → (verify_chain digest (a ∷ xs)).0 ≡ true
      → (verify_chain digest (b ∷ ys)).0 ≡ true
      → length xs ≡ length ys
      → (tip a xs).block_hash ≡ (tip b ys).block_hash
      → (xs ≡ ys) × (a.block_hash ≡ b.block_hash)
  verify_chain-determined a b xs ys free va vb =
      IsChainFrom-determined a b xs ys free ((verify_chain_iff digest (a ∷ xs)).0 va)
        ((verify_chain_iff digest (b ∷ ys)).0 vb)

check_link-genesis :
    (digest : Content → String) (first block : Block) (content : Content)
    → content.height ≡ first.height
    → check_link digest (record first { content = content }) block ≡ check_link digest first block
unfolding check_link
check_link-genesis digest first block content same = rw same

-- `verify_chain` never looks at what the first block holds: with any other content of the same
-- height under the same "block_hash" it returns the same.
pub verify_chain-genesis :
    (digest : Content → String) (first : Block) (content : Content) (rest : List Block)
    → content.height ≡ first.height
    → verify_chain digest (record first { content = content } ∷ rest)
      ≡ verify_chain digest (first ∷ rest)
unfolding verify_chain
verify_chain-genesis digest first content [] same = refl
verify_chain-genesis digest first content (block ∷ rest) same =
    rw (check_link-genesis digest first block content same, verify_from)
