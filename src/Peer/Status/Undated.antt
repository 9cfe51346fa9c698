-- ===== src/Peer/Status/Undated.antt =====
-- The command "status" and auctions without a closing date.
use onyx_p2p_auction_system.Base.{
  ℕ, String, Bool, true, false, Option, none, some, [], ◌∷◌, ◌≡◌, refl, ap, sym, subst, ◌∙◌, nat_eq,
  arith, Bool-cases, inl, inr, nat_eq_iff, if◌then◌else◌,
}
use onyx_p2p_auction_system.Base.Dict
use onyx_p2p_auction_system.Base.Dict.{Dict}
use onyx_p2p_auction_system.Base.Exec.{Error, Result, ok, raised, bind_result}
use onyx_p2p_auction_system.Event.{AuctionKey, number, to_int, key_instance, key_beq, key_beq_iff}
use onyx_p2p_auction_system.Auctions.{Auctions, Entry, Mine}
use onyx_p2p_auction_system.Peer.Status.{
  in_my_ids, formatted_time, shown_entry, general_lines, shown_own, own_lines, print_auction_state,
}

abbrev Raises : {A : Type 0} → Result A → Type 0
Raises r = (error : Error) × (r ≡ raised error)

bind-Raises :
    {A B : Type 0} (r : Result A) (f : A → Result B)
    → ((a : A) → Raises (f a))
    → Raises (bind_result r f)
bind-Raises (ok a) f h = h a
bind-Raises (raised error) f h = (error, refl)

first-Raises :
    {A B : Type 0} (r : Result A) (f : A → Result B) → Raises r → Raises (bind_result r f)
first-Raises (ok a) f (error, h) = absurd (cc h)
first-Raises (raised error) f h = (error, refl)

if-Raises :
    {A : Type 0} (test : Bool) (x y : Result A)
    → Raises x
    → Raises y
    → Raises (if test then x else y)
if-Raises true x y hx hy = hx
if-Raises false x y hx hy = hy

module _ (local_date : ℕ → Option String) (n : ℕ) (info : Entry)
    (undated : info.closing_date ≡ none) where
  shown-Raises : (key : AuctionKey) → Raises (shown_entry local_date key info)
  unfolding shown_entry formatted_time
  shown-Raises key = rw undated (_, refl)

  -- the line of the auction itself
  line-Raises :
      (key : AuctionKey) (entry : Entry) → entry ≡ info → Raises (shown_entry local_date key entry)
  line-Raises key entry same =
      subst (λ e. Raises (shown_entry local_date key e)) (sym same) (shown-Raises key)

  general-Raises :
      (mine : Dict AuctionKey Mine) (listed : Dict AuctionKey Entry)
      → in_my_ids (number n) mine ≡ false
      → Dict.lookup (number n) listed ≡ some info
      → Raises (general_lines local_date mine listed)
  unfolding general_lines
  general-Raises mine [] other found = absurd (cc found)
  general-Raises mine ((key, entry) ∷ rest) other found =
      elim (Bool-cases (key_beq (number n) key)) [
        | inl e ↦
            let same : number n ≡ key = (key_beq_iff (number n) key).0 e in
            let outside : in_my_ids key mine ≡ false =
              subst (λ k. in_my_ids k mine ≡ false) same other in
            rw outside (first-Raises _ _ (line-Raises key entry (ground (arith, found, e))))
        | inr e ↦
            let ih = general-Raises mine rest other (ground (arith, found, e)) in
            if-Raises (in_my_ids key mine) _ _ ih
              (bind-Raises (shown_entry local_date key entry) _ λ shown. first-Raises _ _ ih)
      ]

  own-Raises :
      (mine : Dict AuctionKey Mine) (listed : Dict AuctionKey Entry)
      → in_my_ids (number n) mine ≡ true
      → Dict.lookup (number n) listed ≡ some info
      → Raises (own_lines local_date listed mine)
  unfolding own_lines in_my_ids
  own-Raises [] listed ours found = absurd (cc ours)
  own-Raises ((key, entry) ∷ rest) listed ours found = elim (Bool-cases (nat_eq (to_int key) n)) [
    | inl e ↦
        let same : to_int key ≡ n = (nat_eq_iff (to_int key) n).0 e in
        first-Raises (shown_own local_date key entry (Dict.lookup (number (to_int key)) listed)) _ (
          subst (λ found. Raises (shown_own local_date key entry found))
            (sym (ap (λ m. Dict.lookup (number m) listed) same ∙ found)) (own_line key entry))
    | inr e ↦
        bind-Raises (shown_own local_date key entry (Dict.lookup (number (to_int key)) listed)) _
          λ shown. first-Raises _ _ (own-Raises rest listed (ground (arith, ours, e)) found)
  ]
    where
      own_line :
          (key : AuctionKey) (entry : Mine) → Raises (shown_own local_date key entry (some info))
      own_line key entry = shown-Raises key

  pub print_auction_state-Raises :
      (state : Auctions)
      → Dict.lookup (number n) state.auction_list ≡ some info
      → Raises (print_auction_state local_date state)
  unfolding print_auction_state
  print_auction_state-Raises state found =
      elim (Bool-cases (in_my_ids (number n) state.my_auctions)) [
        | inl ours ↦
            bind-Raises _ _ λ others.
              first-Raises _ _ (own-Raises state.my_auctions state.auction_list ours found)
        | inr other ↦
            first-Raises _ _ (general-Raises state.my_auctions state.auction_list other found)
      ]
