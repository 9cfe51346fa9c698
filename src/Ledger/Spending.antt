-- ===== src/Ledger/Spending.antt =====
-- `token_used` against the list of the tokens that a chain has recorded.
use onyx_p2p_auction_system.Base.{
  String, Bool, true, false, Option, none, some, List, [], ◌∷◌, ◌++◌, ◌≡◌, ◌↔◌, ◌⊎◌, inl, inr, refl,
  sym, subst, arith, Bool-cases, str_eq_iff, All, if◌then◌else◌,
}
use onyx_p2p_auction_system.Base.Exec.{Result, ok, raised, bind_result, attribute_error}
use onyx_p2p_auction_system.Event.{Event, Token, same_text, is_genesis}
use onyx_p2p_auction_system.Ledger.{Block, action_uses, used_in, token_used}
use onyx_p2p_auction_system.Ledger.Chain.{events_of}
use mathlib.Core.List.{append_assoc}

module _ {A : Type 0} where
  abbrev pub In : A → List A → Type 0
  In a [] = ⊥
  In a (x ∷ xs) = (a ≡ x) ⊎ In a xs

  abbrev pub NoRepeat : List A → Type 0
  NoRepeat [] = Unit
  NoRepeat (x ∷ xs) = (¬ In x xs) × NoRepeat xs

  pub In-append_left : (a : A) (xs ys : List A) → In a xs → In a (xs ++ ys)
  In-append_left a [] ys h = elim h [ ]
  In-append_left a (x ∷ xs) ys (inl e) = inl e
  In-append_left a (x ∷ xs) ys (inr h) = inr (In-append_left a xs ys h)

  pub In-append_right : (a : A) (xs ys : List A) → In a ys → In a (xs ++ ys)
  In-append_right a [] ys h = h
  In-append_right a (x ∷ xs) ys h = inr (In-append_right a xs ys h)

  pub In-append : (a : A) (xs ys : List A) → In a (xs ++ ys) → In a xs ⊎ In a ys
  In-append a [] ys h = inr h
  In-append a (x ∷ xs) ys (inl e) = inl (inl e)
  In-append a (x ∷ xs) ys (inr h) = elim (In-append a xs ys h) [
    | inl left ↦ inl (inr left)
    | inr right ↦ inr right
  ]

  pub NoRepeat-snoc : (xs : List A) (a : A) → NoRepeat xs → ¬ In a xs → NoRepeat (xs ++ a ∷ [])
  NoRepeat-snoc [] a h new = ((λ e. e), tt)
  NoRepeat-snoc (x ∷ xs) a h new = (
    λ again. elim (In-append x xs (a ∷ []) again) [
      | inl old ↦ h.0 old
      | inr same ↦ elim same [ inl e ↦ new (inl (sym e)) | inr none_left ↦ none_left ]
    ],
    NoRepeat-snoc xs a h.1 (λ again. new (inr again)),
  )

-- the token that an event spends: none for the genesis event
abbrev pub spends : Event → List (Option String)
spends action =
    if is_genesis action.kind
    then []
    else elim action.token [ none ↦ [] | some info ↦ info.token_id ∷ [] ]

abbrev pub spent : List Event → List (Option String)
spent [] = []
spent (action ∷ rest) = spends action ++ spent rest

-- every event but a genesis event carries a token
abbrev pub Carries : Bool → Option Token → Type 0
Carries is_first none = is_first ≡ true
Carries is_first (some _) = Unit

abbrev pub HasToken : Event → Type 0
HasToken action = Carries (is_genesis action.kind) action.token

pub spent-append : (xs ys : List Event) → spent (xs ++ ys) ≡ spent xs ++ spent ys
spent-append [] ys = refl
spent-append (x ∷ xs) ys = simp (spent-append xs ys, append_assoc)

pub same_text_iff : (a b : Option String) → (same_text a b ≡ true) ↔ (a ≡ b)
same_text_iff none none = ground arith
same_text_iff none (some b) = ground arith
same_text_iff (some a) none = ground arith
same_text_iff (some a) (some b) = ground (arith, str_eq_iff a b)

-- what a search through a list of tokens must answer
abbrev pub Decides : Result Bool → Option String → List (Option String) → Type 0
Decides r token ids = ((r ≡ ok true) × In token ids) ⊎ ((r ≡ ok false) × (¬ In token ids))

action_uses_cases :
    (token : Option String) (is_first : Bool) (carried : Option Token)
    → Carries is_first carried
    → Decides
        (if is_first then ok false else elim carried [
          | none ↦ raised attribute_error
          | some info ↦ ok (same_text info.token_id token)
        ])
        token
        (if is_first then [] else elim carried [ none ↦ [] | some info ↦ info.token_id ∷ [] ])
action_uses_cases token true carried h = inr (refl, λ e. e)
action_uses_cases token false none h = cc
action_uses_cases token false (some info) h = elim (Bool-cases (same_text info.token_id token)) [
  | inl same ↦ inl (rw same, inl (sym ((same_text_iff info.token_id token).0 same)))
  | inr different ↦ inr (
    rw different,
    λ found. elim found [
      | inl e ↦ cc (different, (same_text_iff info.token_id token).1 (sym e))
      | inr none_left ↦ none_left
    ],
  )
]

action_uses-Decides :
    (token : Option String) (action : Event)
    → HasToken action
    → Decides (action_uses token action) token (spends action)
unfolding action_uses
action_uses-Decides token action h = action_uses_cases token (is_genesis action.kind) action.token h

Decides-bind :
    (r k : Result Bool) (token : Option String) (xs ys : List (Option String))
    → Decides r token xs
    → Decides k token ys
    → Decides (bind_result r (λ hit. if hit then ok true else k)) token (xs ++ ys)
Decides-bind r k token xs ys (inl (e, found)) after = inl (rw e, In-append_left token xs ys found)
Decides-bind r k token xs ys (inr (e, absent)) (inl (e', found)) =
    inl (rw e e', In-append_right token xs ys found)
Decides-bind r k token xs ys (inr (e, absent)) (inr (e', absent')) = inr (
  rw e e',
  λ h. elim (In-append token xs ys h) [ inl left ↦ absent left | inr right ↦ absent' right ],
)

used_in-Decides :
    (token : Option String) (actions : List Event)
    → All HasToken actions
    → Decides (used_in token actions) token (spent actions)
unfolding used_in
used_in-Decides token [] h = inr (refl, λ e. e)
used_in-Decides token (action ∷ rest) h =
    Decides-bind (action_uses token action) (used_in token rest) token (spends action) (spent rest)
      (action_uses-Decides token action h.0) (used_in-Decides token rest h.1)

pub All-split :
    {A : Type 0} (P : A → Type 0) (xs ys : List A) → All P (xs ++ ys) → All P xs × All P ys
All-split P [] ys h = (tt, h)
All-split P (x ∷ xs) ys h = let (l, r) = All-split P xs ys h.1 in ((h.0, l), r)

-- On a chain whose events other than genesis events all carry a token, `token_used` does not raise:
-- it answers True exactly when an event of the chain that is no genesis event bears the token id.
pub token_used-Decides :
    (token : Option String) (chain : List Block)
    → All HasToken (events_of chain)
    → Decides (token_used token chain) token (spent (events_of chain))
unfolding token_used
token_used-Decides token [] h = inr (refl, λ e. e)
token_used-Decides token (block ∷ rest) h =
    let (here, there) = All-split HasToken block.events (events_of rest) h in
    subst (λ ids. Decides (token_used token (block ∷ rest)) token ids)
      (sym (spent-append block.events (events_of rest)))
      (Decides-bind (used_in token block.events) (token_used token rest) token (spent block.events)
        (spent (events_of rest)) (used_in-Decides token block.events here)
        (token_used-Decides token rest there))
