-- ===== src/Ledger/Growth.antt =====
-- How `add_action` and `finish_block` grow a chain.
pub mod Receives
use onyx_p2p_auction_system.Base.{
  ℕ, ◌≤◌, String, true, false, some, List, [], ◌∷◌, ◌++◌, length, last?, nat_eq, ◌≡◌, ◌≢◌, ◌↔◌, ◌⊎◌,
  inl, inr, refl, arith, str_eq_iff, Bool-cases,
}
use onyx_p2p_auction_system.Base.Exec.{Result, ok}
use onyx_p2p_auction_system.Event.{Event}
use onyx_p2p_auction_system.Ledger.{
  Content, Block, Ledger, block_accepted, next_block, finish_block, add_action, verify_chain,
  validate_block, receive_block, new_ledger,
}
use onyx_p2p_auction_system.Ledger.Chain.{
  events_of, recorded, events_of-append, IsLink, IsChain, IsChain-snoc, next_block-IsLink,
  verify_chain_iff,
}
use mathlib.Core.List.{append_assoc, append-nil}

pub snoc-ne-nil {ℓ} : {A : Type ℓ} (xs : List A) (x : A) → xs ++ x ∷ [] ≢ []
snoc-ne-nil [] x h = cc
snoc-ne-nil (y ∷ xs) x h = cc

pub last?-cons {ℓ} : {A : Type ℓ} (x : A) (xs : List A) → (y : A) × (last? (x ∷ xs) ≡ some y)
last?-cons x [] = (x, refl)
last?-cons x (y ∷ xs) = last?-cons y xs

pub last?-ne-nil {ℓ} : {A : Type ℓ} (xs : List A) → xs ≢ [] → (y : A) × (last? xs ≡ some y)
last?-ne-nil [] h = absurd (h refl)
last?-ne-nil (x ∷ xs) h = last?-cons x xs

module _ (digest : Content → String) where
  -- What `finish_block` leaves behind when there are actions and a tip.
  finish_block_lem :
      (now : String) (chain : List Block) (actions : List Event) (limit : ℕ) (prev : Block)
      → actions ≢ []
      → last? chain ≡ some prev
      → finish_block digest now
          (record { chain = chain; current_actions = actions; max_actions = limit })
        ≡ (
          ok (next_block digest prev now actions),
          record {
            chain = chain ++ next_block digest prev now actions ∷ [];
            current_actions = [];
            max_actions = limit;
          },
        )
  unfolding finish_block
  finish_block_lem now chain [] limit prev some_action tip = absurd (some_action refl)
  finish_block_lem now chain (a ∷ rest) limit prev some_action tip = ground arith

  -- The two outcomes of `add_action` on a ledger that has a tip: one more action waits, or it and
  -- all that waited are in one new block behind the tip.
  pub data Added (now : String) (action : Event) (ledger : Ledger)
      : Result ℕ × Ledger → Type 0 where
    waits :
        (r : Result ℕ × Ledger)
        → nat_eq (length (ledger.current_actions ++ action ∷ [])) ledger.max_actions ≡ false
        → r ≡ (ok 0, record ledger { current_actions = ledger.current_actions ++ action ∷ [] })
        → Added now action ledger r
    commits :
        (r : Result ℕ × Ledger) (prev : Block)
        → nat_eq (length (ledger.current_actions ++ action ∷ [])) ledger.max_actions ≡ true
        → last? ledger.chain ≡ some prev
        → r ≡ (
          ok 1,
          record ledger {
            chain =
                ledger.chain
                ++ next_block digest prev now (ledger.current_actions ++ action ∷ []) ∷ [];
            current_actions = [];
          },
        )
        → Added now action ledger r

  pub add_action-Added :
      (now : String) (action : Event) (ledger : Ledger)
      → ledger.chain ≢ []
      → Added now action ledger (add_action digest now action ledger)
  unfolding add_action
  add_action-Added now action ledger tip =
      let (prev, e) = last?-ne-nil ledger.chain tip in
      elim (Bool-cases
        (nat_eq (length (ledger.current_actions ++ action ∷ [])) ledger.max_actions)) [
          | inl full ↦ commits _ prev full e (
              ground (
                arith,
                finish_block_lem now ledger.chain (ledger.current_actions ++ action ∷ [])
                    ledger.max_actions prev (snoc-ne-nil ledger.current_actions action) e,
              ))
          | inr room ↦ waits _ room (rw room)
        ]

  Added-IsChain :
      {now : String} {action : Event} {ledger : Ledger} {r : Result ℕ × Ledger}
      → ledger.chain ≢ []
      → IsChain digest ledger.chain
      → Added now action ledger r
      → IsChain digest r.1.chain × (r.1.chain ≢ [])
  Added-IsChain tip h (waits r room e) = rw e (h, tip)
  Added-IsChain {now} {action} {ledger} tip h (commits r prev full last e) =
      let block = next_block digest prev now (ledger.current_actions ++ action ∷ []) in
      rw e (
        IsChain-snoc digest ledger.chain prev block last h
            (next_block-IsLink digest prev now (ledger.current_actions ++ action ∷ [])),
        snoc-ne-nil ledger.chain block,
      )

  pub events_of-commit :
      (chain : List Block) (prev : Block) (now : String) (actions : List Event)
      → events_of (chain ++ next_block digest prev now actions ∷ []) ≡ events_of chain ++ actions
  unfolding next_block
  events_of-commit chain prev now actions = simp (events_of-append, append-nil)

  Added-recorded :
      {now : String} {action : Event} {ledger : Ledger} {r : Result ℕ × Ledger}
      → Added now action ledger r
      → (recorded r.1 ≡ recorded ledger ++ action ∷ [])
        × ((r.0 ≡ ok 0) ⊎ ((r.0 ≡ ok 1) × (r.1.current_actions ≡ [])))
  Added-recorded (waits r room e) = rw e (simp append_assoc, inl refl)
  Added-recorded {now} {action} {ledger} (commits r prev full last e) = rw e (
    simp (
      events_of-commit ledger.chain prev now (ledger.current_actions ++ action ∷ []),
      append-nil,
      append_assoc,
    ),
    inr (refl, refl),
  )

  -- From a ledger with a genesis block whose chain verifies, `add_action` gives such a ledger
  -- again, whatever the action and the size of the pool.
  pub add_action-IsChain :
      (now : String) (action : Event) (ledger : Ledger)
      → ledger.chain ≢ []
      → (verify_chain digest ledger.chain).0 ≡ true
      → let after = (add_action digest now action ledger).1 in
        ((verify_chain digest after.chain).0 ≡ true) × (after.chain ≢ [])
  add_action-IsChain now action ledger tip h =
      let (chained, still) =
        Added-IsChain tip ((verify_chain_iff digest ledger.chain).0 h)
          (add_action-Added now action ledger tip) in
      ((verify_chain_iff digest _).1 chained, still)

  -- Into a ledger with a genesis block `add_action` does not raise, and it puts the action behind
  -- all those recorded before: none is lost, repeated or moved.
  pub add_action-recorded :
      (now : String) (action : Event) (ledger : Ledger)
      → ledger.chain ≢ []
      → let (r, after) = add_action digest now action ledger in
        (recorded after ≡ recorded ledger ++ action ∷ [])
        × ((r ≡ ok 0) ⊎ ((r ≡ ok 1) × (after.current_actions ≡ [])))
  add_action-recorded now action ledger tip =
      Added-recorded (add_action-Added now action ledger tip)

  -- A new ledger verifies and has a genesis block.
  pub new_ledger-IsChain :
      (now : String)
      → ((verify_chain digest (new_ledger digest now).chain).0 ≡ true)
        × ((new_ledger digest now).chain ≢ [])
  unfolding new_ledger
  new_ledger-IsChain now = ((verify_chain_iff digest _).1 tt, λ h. cc h)

  -- A ledger as `Ledger()` and `load_from_file` make it commits every action in a block of its own.
  pub add_action_one :
      (now : String) (action : Event) (chain : List Block)
      → chain ≢ []
      → (prev : Block) × (last? chain ≡ some prev)
        × (add_action digest now action
              (record { chain = chain; current_actions = []; max_actions = 1 })
            ≡ (
              ok 1,
              record {
                chain = chain ++ next_block digest prev now (action ∷ []) ∷ [];
                current_actions = [];
                max_actions = 1;
              },
            ))
  unfolding add_action
  add_action_one now action chain nonempty =
      let (prev, e) = last?-ne-nil chain nonempty in
      (
        prev,
        e,
        ground (arith, finish_block_lem now chain (action ∷ []) 1 prev (snoc-ne-nil [] action) e),
      )
