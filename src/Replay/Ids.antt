-- ===== src/Replay/Ids.antt =====
-- "last_auction_id" behind a replay.
use onyx_p2p_auction_system.Base.{
  ⊤, ℕ, ◌+◌, ◌≤◌, true, false, List, [], ◌∷◌, ◌≡◌, arith, max, Bool-cases, inl, inr, ap, subst,
}
use onyx_p2p_auction_system.Base.Dict.{Dict, keys, contains}
use onyx_p2p_auction_system.Base.Exec.{Result, ok, raised}
use onyx_p2p_auction_system.Event.{AuctionKey, number, to_int, key_instance, key_beq, key_beq_iff}
use onyx_p2p_auction_system.Auctions.{Auctions, no_auctions}
use onyx_p2p_auction_system.Wallet.{WalletFile}
use onyx_p2p_auction_system.Ledger.{Block}
use onyx_p2p_auction_system.Replay.{max_key, fix_last_id, apply_chain, ledger_to_auction_dict}

max_key-grows : (n : ℕ) (ids : List AuctionKey) → n ≤ max_key n ids
unfolding max_key
max_key-grows n [] = omega arith
max_key-grows n (key ∷ rest) = omega (arith, max_key-grows (max n (to_int key)) rest)

module _ {V : Type 0} where
  max_key-bound :
      (n m : ℕ) (d : Dict AuctionKey V) → contains (number m) d ≡ true → m ≤ max_key n (keys d)
  unfolding max_key
  max_key-bound n m [] known = absurd (cc known)
  max_key-bound n m ((key, v) ∷ d) known = elim (Bool-cases (key_beq (number m) key)) [
    | inl same ↦ omega (
      arith,
      ap to_int ((key_beq_iff (number m) key).0 same),
      max_key-grows (max n (to_int key)) (keys d),
    )
    | inr different ↦ max_key-bound (max n (to_int key)) m d (ground (arith, different, known))
  ]

-- The id that the next own auction gets is not known.
abbrev pub IsNextNew : Auctions → Type 0
IsNextNew auctions = contains (number (auctions.last_auction_id + 1)) auctions.auction_list ≡ false

fix_last_id-IsNextNew : (auctions : Auctions) → IsNextNew (fix_last_id auctions)
unfolding fix_last_id
fix_last_id-IsNextNew auctions =
    elim (Bool-cases (contains (number (last + 1)) auctions.auction_list)) [
      | inl known ↦ absurd (
          omega
            (arith, max_key-bound auctions.last_auction_id (last + 1) auctions.auction_list known))
      | inr new ↦ new
    ]
  where
    last : ℕ
    last = (fix_last_id auctions).last_auction_id

-- Behind a replay the next own auction gets an id that no auction of the chain has.
pub ledger_to_auction_dict-IsNextNew :
    (wallet : WalletFile) (chain : List Block) (auctions : Auctions)
    → ledger_to_auction_dict wallet chain ≡ ok auctions
    → IsNextNew auctions
unfolding ledger_to_auction_dict
ledger_to_auction_dict-IsNextNew wallet chain auctions e =
    by_result (apply_chain wallet chain no_auctions) e
  where
    by_result :
        (out : Result ⊤ × Auctions)
        → (let (r, after) = out in elim r [ ok _ ↦ ok (fix_last_id after) | raised e ↦ raised e ])
          ≡ ok auctions
        → IsNextNew auctions
    by_result (ok _, after) same =
        let found : fix_last_id after ≡ auctions = cc same in
        subst IsNextNew found (fix_last_id-IsNextNew after)
    by_result (raised error, after) same = absurd (cc same)
