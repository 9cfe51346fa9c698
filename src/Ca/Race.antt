-- ===== src/Ca/Race.antt =====
-- Two requests to /register at a time: FastAPI runs them on two threads, and part 5 of `register`
-- (ca/ca_api/ca_api.py) reads and writes `app.state` without a lock.
use onyx_p2p_auction_system.Base.{
  String, Bool, true, false, Option, none, some, List, [], ◌∷◌, ◌≡◌, refl, sym, subst, ap, ◌⊎◌, inl,
  inr, if◌then◌else◌,
}

-- `KEY_GROUP_BOOL` and `KEY_GROUP`
pub record Shared : Type 0 where
  pub key_group_bool : Bool
  pub key_group : Option String

-- Where a thread is, with the key that it generates: at the test, behind it, between the two
-- assignments, or at the later read of `KEY_GROUP`; and what it read, `none` for the AttributeError.
pub data Thread : Type 0 where
  tests marks assigns : String → Thread
  reads : Thread
  got : Option String → Thread

-- one access to `app.state`
unfoldable pub step : Thread → Shared → Thread × Shared
step (tests key) shared = (if shared.key_group_bool then reads else marks key, shared)
step (marks key) shared = (assigns key, record shared { key_group_bool = true })
step (assigns key) shared = (reads, record shared { key_group = some key })
step reads shared = (got shared.key_group, shared)
step (got key) shared = (got key, shared)

pub record Run : Type 0 where
  pub one : Thread
  pub two : Thread
  pub shared : Shared

-- the next access is the first thread's, or the second's
unfoldable pub turn : Bool → Run → Run
unfolding step
turn true run =
    let (one, shared) = step run.one run.shared in record run { one = one; shared = shared }
turn false run =
    let (two, shared) = step run.two run.shared in record run { two = two; shared = shared }

unfoldable pub interleave : List Bool → Run → Run
unfolding turn
interleave [] run = run
interleave (first ∷ later) run = interleave later (turn first run)

abbrev pub not_registered : Shared
not_registered = record { key_group_bool = false; key_group = none }

-- threads that have nothing left to assign when the key is there
abbrev Safe : String → Thread → Type 0
Safe key (tests own) = Unit
Safe key reads = Unit
Safe key (got read) = read ≡ some key
Safe key _ = ⊥

abbrev registered : String → Shared
registered key = record { key_group_bool = true; key_group = some key }

record IsSettled (key : String) (run : Run) : Type 0 where
  one : Safe key run.one
  two : Safe key run.two
  shared : run.shared ≡ registered key

step-Safe :
    (key : String) (thread : Thread)
    → Safe key thread
    → Safe key (step thread (registered key)).0
      × ((step thread (registered key)).1 ≡ registered key)
unfolding step
step-Safe key (tests own) safe = (tt, refl)
step-Safe key reads safe = (refl, refl)
step-Safe key (got read) safe = (safe, refl)
step-Safe key (marks own) safe = elim safe [ ]
step-Safe key (assigns own) safe = elim safe [ ]

-- a thread that was at the test with this key, while the key is there
abbrev IsAfter : String → Thread → Type 0
IsAfter key (tests own) = own ≡ key
IsAfter key _ = Unit

step-IsAfter :
    (key : String) (thread : Thread) (shared : Shared)
    → IsAfter key thread
    → IsAfter key (step thread shared).0
unfolding step
step-IsAfter key (tests own) shared after = tested shared.key_group_bool
  where
    tested : (made : Bool) → IsAfter key (if made then reads else marks own)
    tested true = tt
    tested false = tt
step-IsAfter key (marks own) shared after = tt
step-IsAfter key (assigns own) shared after = tt
step-IsAfter key reads shared after = tt
step-IsAfter key (got read) shared after = tt

interleave-IsAfter :
    (key : String) (schedule : List Bool) (run : Run)
    → IsAfter key run.two
    → IsAfter key (interleave schedule run).two
unfolding interleave turn
interleave-IsAfter key [] run after = after
interleave-IsAfter key (true ∷ later) run after = interleave-IsAfter key later (turn true run) after
interleave-IsAfter key (false ∷ later) run after =
    interleave-IsAfter key later (turn false run) (step-IsAfter key run.two run.shared after)

step-settled :
    (key : String) (thread : Thread) (shared : Shared)
    → Safe key thread
    → shared ≡ registered key
    → Safe key (step thread shared).0 × ((step thread shared).1 ≡ registered key)
step-settled key thread shared safe e =
    subst (λ s. Safe key (step thread s).0 × ((step thread s).1 ≡ registered key)) (sym e)
      (step-Safe key thread safe)

turn-IsSettled :
    (key : String) (who : Bool) (run : Run) → IsSettled key run → IsSettled key (turn who run)
unfolding turn
turn-IsSettled key true run h =
    let (safe, same) = step-settled key run.one run.shared h.one h.shared in
    record { one = safe; two = h.two; shared = same }
turn-IsSettled key false run h =
    let (safe, same) = step-settled key run.two run.shared h.two h.shared in
    record { one = h.one; two = safe; shared = same }

interleave-IsSettled :
    (key : String) (schedule : List Bool) (run : Run)
    → IsSettled key run
    → IsSettled key (interleave schedule run)
unfolding interleave
interleave-IsSettled key [] run h = h
interleave-IsSettled key (who ∷ later) run h =
    interleave-IsSettled key later (turn who run) (turn-IsSettled key who run h)

Safe-cases :
    (key other : String) (thread : Thread)
    → IsAfter other thread
    → Safe key thread
    → (thread ≡ tests other) ⊎ ((thread ≡ reads) ⊎ (thread ≡ got (some key)))
Safe-cases key other (tests own) after safe = inl (ap tests after)
Safe-cases key other reads after safe = inr (inl refl)
Safe-cases key other (got read) after safe = inr (inr (ap got safe))
Safe-cases key other (marks own) after safe = elim safe [ ]
Safe-cases key other (assigns own) after safe = elim safe [ ]

-- Behind a first registration that is over, two more at a time are safe: on every schedule the second
-- one (and so either) is at the test, at the read, or has read the key of the first. But for every two
-- keys there is a schedule on which two first registrations read different keys, and one on which the
-- second reads `KEY_GROUP` before it exists.
pub interleave-keys :
    (key own other : String) (schedule : List Bool)
    → let settled : Run = record { one = tests own; two = tests other; shared = registered key } in
      let both : Run = record { one = tests own; two = tests other; shared = not_registered } in
      let second = (interleave schedule settled).two in
      ((second ≡ tests other) ⊎ ((second ≡ reads) ⊎ (second ≡ got (some key))))
      × ((unlucky : List Bool) × (interleave unlucky both
            ≡ record { one = got (some own); two = got (some other); shared = registered other }))
      × ((early : List Bool) × ((interleave early both).two ≡ got none))
unfolding interleave turn step
interleave-keys key own other schedule =
    let settled : Run = record { one = tests own; two = tests other; shared = registered key } in
    (
      Safe-cases key other (interleave schedule settled).two
          (interleave-IsAfter other schedule settled refl)
          (interleave-IsSettled key schedule settled
            (record { one = tt; two = tt; shared = refl })).two,
      (true ∷ false ∷ true ∷ true ∷ true ∷ false ∷ false ∷ false ∷ [], refl),
      (true ∷ true ∷ false ∷ false ∷ [], refl),
    )
