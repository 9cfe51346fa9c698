-- ===== src/Relay/Threads/Heard.antt =====
-- What a socket hears while the other threads run: the senders' messages, in the order of a schedule.
pub mod Steps
pub mod Runs
use onyx_p2p_auction_system.Base.{
  ℕ, String, Bool, true, false, not, Option, none, some, List, [], ◌∷◌, ◌++◌, map, ◌≡◌, refl, sym,
  ap, subst, ◌∙◌, arith, nat_eq, nat_eq_iff, Bool-cases, inl, inr, if◌then◌else◌, str_eq,
}
use mathlib.Core.List.{append_assoc, append-nil}
use onyx_p2p_auction_system.Base.Dict
use onyx_p2p_auction_system.Base.Dict.{keys}
use onyx_p2p_auction_system.Network.{Recv, chunk, timed_out, broken}
use onyx_p2p_auction_system.Relay.{
  Relay, socket_instance, register_uuid, broadcast, copies, copies_to_all, hang_up,
}
use onyx_p2p_auction_system.Relay.Delivery.{
  Reach, Reach-Once, Once, Once-insert, Once-erase, is_among, is_among-insert, is_among-erase,
  written, written-append, written-copies,
}
use onyx_p2p_auction_system.Relay.Leaving.{written-copies_to_all}
use onyx_p2p_auction_system.Relay.Threads.{
  Action, enter, pass_on, leave, Turn, Pending, relay_loop, handle_client, act, after_action,
  run_thread, run_threads,
}

-- a turn behind which the loop goes on
abbrev pub goes_on : Turn → Bool
goes_on turn = if turn.stopped then false else elim turn.got [
  | chunk [] ↦ false
  | chunk (byte ∷ bytes) ↦ true
  | timed_out _ ↦ true
  | broken ↦ false
]

abbrev pub is_over : List Turn → Bool
is_over [] = false
is_over (turn ∷ rest) = if goes_on turn then is_over rest else true

abbrev bytes_in : Recv → List (List ℕ)
bytes_in (chunk bytes) = bytes ∷ []
bytes_in _ = []

-- the bytes that arrive up to the end of a socket
abbrev pub arrived : List Turn → List (List ℕ)
arrived [] = []
arrived (turn ∷ rest) = if goes_on turn then bytes_in turn.got ++ arrived rest else []

-- what a socket in the table gives to the others: each chunk that arrives, and behind its end the
-- answer of the CA
abbrev pub messages : List ℕ → List Turn → List (List ℕ)
messages to_send turns = arrived turns ++ (if is_over turns then to_send ∷ [] else [])

-- the same step by step; the step into the table says nothing, and without a uuid it is the last
abbrev singles : List (List ℕ) → List (List (List ℕ))
singles [] = []
singles (x ∷ rest) = (x ∷ []) ∷ singles rest

abbrev pub says : Bool → Option String → List ℕ → List Turn → List (List (List ℕ))
says true first to_send turns = singles (messages to_send turns)
says false none to_send turns = [] ∷ []
says false (some uuid) to_send turns =
    [] ∷ (if str_eq uuid "" then [] else singles (messages to_send turns))

abbrev later_of : {A : Type 0} → List A → List A
later_of [] = []
later_of (x ∷ rest) = rest

abbrev said : List (List (List ℕ)) → List (List ℕ)
said [] = []
said (x ∷ rest) = x

-- what a socket hears if each step of the schedule takes what its thread says next
unfoldable pub heard : ℕ → List ℕ → (ℕ → List (List (List ℕ))) → List (List ℕ)
heard c [] queues = []
heard c (conn ∷ schedule) queues =
    (if nat_eq c conn then [] else said (queues conn))
    ++ heard c schedule (λ j. if nat_eq j conn then later_of (queues conn) else queues j)

unfoldable pub slot : Action → List (List ℕ)
slot (enter first) = []
slot (pass_on msg) = msg ∷ []
slot (leave to_send) = to_send ∷ []

slots : List Action → List (List (List ℕ))
unfolding slot
slots [] = []
slots (action ∷ rest) = slot action ∷ slots rest

-- no thread's own end, and no second entry
unfoldable pub IsStaying : List Action → Type 0
IsStaying [] = Unit
IsStaying (pass_on msg ∷ rest) = IsStaying rest
IsStaying (_ ∷ rest) = ⊥

slots-relay_loop :
    (to_send : List ℕ) (turns : List Turn)
    → slots (relay_loop to_send turns) ≡ singles (messages to_send turns)
unfolding relay_loop slots slot
slots-relay_loop to_send [] = refl
slots-relay_loop to_send (turn ∷ rest) =
    by_turn turn.stopped turn.got (slots-relay_loop to_send rest)
  where
    by_turn :
        (stopped : Bool) (got : Recv)
        → slots (relay_loop to_send rest) ≡ singles (messages to_send rest)
        → slots (relay_loop to_send (record { stopped = stopped; got = got } ∷ rest))
          ≡ singles (messages to_send (record { stopped = stopped; got = got } ∷ rest))
    by_turn true got same = refl
    by_turn false (chunk []) same = refl
    by_turn false (chunk (byte ∷ bytes)) same = ap (λ later. ((byte ∷ bytes) ∷ []) ∷ later) same
    by_turn false (timed_out x) same = same
    by_turn false broken same = refl

relay_loop-IsStaying :
    (to_send : List ℕ) (turns : List Turn)
    → is_over turns ≡ false
    → IsStaying (relay_loop to_send turns)
unfolding relay_loop IsStaying
relay_loop-IsStaying to_send [] e = tt
relay_loop-IsStaying to_send (turn ∷ rest) e =
    by_turn turn.stopped turn.got e (relay_loop-IsStaying to_send rest)
  where
    by_turn :
        (stopped : Bool) (got : Recv)
        → is_over (record { stopped = stopped; got = got } ∷ rest) ≡ false
        → (is_over rest ≡ false → IsStaying (relay_loop to_send rest))
        → IsStaying (relay_loop to_send (record { stopped = stopped; got = got } ∷ rest))
    by_turn true got e h = absurd (cc e)
    by_turn false (chunk []) e h = absurd (cc e)
    by_turn false (chunk (byte ∷ bytes)) e h = h e
    by_turn false (timed_out x) e h = h e
    by_turn false broken e h = absurd (cc e)

-- what is heard depends on the queues' elements only
heard_cong :
    (c : ℕ) (schedule : List ℕ) (a b : ℕ → List (List (List ℕ)))
    → ((j : ℕ) → a j ≡ b j)
    → heard c schedule a ≡ heard c schedule b
unfolding heard
heard_cong c [] a b same = refl
heard_cong c (conn ∷ schedule) a b same =
    ap
      (λ queue.
        (if nat_eq c conn then [] else said queue)
        ++ heard c schedule (λ j. if nat_eq j conn then later_of (a conn) else a j))
      (same conn)
    ∙ ap (λ rest. (if nat_eq c conn then [] else said (b conn)) ++ rest)
        (heard_cong c schedule _ _ (λ j. by_test (nat_eq j conn) j))
  where
    by_test :
        (here : Bool) (j : ℕ)
        → (if here then later_of (a conn) else a j) ≡ (if here then later_of (b conn) else b j)
    by_test true j = ap later_of (same conn)
    by_test false j = same j

slots-after_action :
    (conn : ℕ) (rest : List Action) (pending : Pending) (j : ℕ)
    → slots (after_action conn rest pending j)
      ≡ (if nat_eq j conn then slots rest else slots (pending j))
slots-after_action conn rest pending j = by_test (nat_eq j conn)
  where
    by_test :
        (here : Bool)
        → slots (if here then rest else pending j)
          ≡ (if here then slots rest else slots (pending j))
    by_test true = refl
    by_test false = refl

after_action-IsStaying :
    (c conn : ℕ) (action : Action) (rest : List Action) (pending : Pending)
    → pending conn ≡ action ∷ rest
    → IsStaying (pending c)
    → IsStaying (after_action conn rest pending c)
unfolding IsStaying
after_action-IsStaying c conn action rest pending e stays = elim (Bool-cases (nat_eq c conn)) [
  | inl same ↦
      rw same (tail action (subst IsStaying (ap pending ((nat_eq_iff c conn).0 same) ∙ e) stays))
  | inr other ↦ rw other stays
]
  where
    tail : (action : Action) → IsStaying (action ∷ rest) → IsStaying rest
    tail (pass_on msg) h = h
    tail (enter first) h = absurd h
    tail (leave to_send) h = absurd h
