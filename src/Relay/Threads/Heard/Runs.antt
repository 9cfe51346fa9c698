-- ===== src/Relay/Threads/Heard/Runs.antt =====
-- What a socket hears in a whole run of the relay's threads.
use onyx_p2p_auction_system.Base.{
  ℕ, String, Bool, true, false, Option, none, some, List, [], ◌∷◌, ◌++◌, ◌≡◌, refl, sym, ap, subst,
  ◌∙◌, nat_eq, nat_eq_iff, Bool-cases, inl, inr, if◌then◌else◌, str_eq,
}
use mathlib.Core.List.{append_assoc, append-nil}
use onyx_p2p_auction_system.Base.Dict.{keys}
use onyx_p2p_auction_system.Relay.{Relay}
use onyx_p2p_auction_system.Relay.Delivery.{Reach, Reach-Once, is_among, written}
use onyx_p2p_auction_system.Relay.Threads.{
  Action, enter, Turn, Pending, relay_loop, handle_client, act, after_action, run_thread,
  run_threads,
}
use onyx_p2p_auction_system.Relay.Threads.Heard.{
  is_over, messages, singles, says, later_of, said, heard, slot, slots, IsStaying, slots-relay_loop,
  relay_loop-IsStaying, heard_cong, slots-after_action, after_action-IsStaying,
}
use onyx_p2p_auction_system.Relay.Threads.Heard.Steps.{IsIn, act-IsHeard}

no_news : (own : Bool) (rest : List (List ℕ)) → (if own then [] else []) ++ rest ≡ rest
no_news true rest = refl
no_news false rest = refl

idle_queue :
    (conn j : ℕ) (pending : Pending)
    → pending conn ≡ []
    → slots (pending j) ≡ (if nat_eq j conn then [] else slots (pending j))
unfolding slots
idle_queue conn j pending e = elim (Bool-cases (nat_eq j conn)) [
  | inl same ↦ rw same (ap slots (ap pending ((nat_eq_iff j conn).0 same) ∙ e))
  | inr other ↦ rw other refl
]

run_threads-slots :
    (c : ℕ) (schedule : List ℕ) (pending : Pending) (relay : Relay)
    → IsStaying (pending c)
    → IsIn c relay
    → written c (run_threads act schedule pending relay).sent
      ≡ written c relay.sent ++ heard c schedule (λ j. slots (pending j))
unfolding run_threads heard run_thread slots
run_threads-slots c [] pending relay stays within = simp append-nil
run_threads-slots c (conn ∷ schedule) pending relay stays within =
    by_actions (pending conn) refl (run_threads-slots c schedule)
  where
    by_actions :
        (actions : List Action)
        → pending conn ≡ actions
        → ((later : Pending) (after : Relay)
            → IsStaying (later c)
            → IsIn c after
            → written c (run_threads act schedule later after).sent
              ≡ written c after.sent ++ heard c schedule (λ j. slots (later j)))
        → let (later, after) = run_thread act conn actions pending relay in
          written c (run_threads act schedule later after).sent
          ≡ written c relay.sent
            ++ ((if nat_eq c conn then [] else said (slots actions))
                ++ heard c schedule
                    (λ j. if nat_eq j conn then later_of (slots actions) else slots (pending j)))
    by_actions [] e next =
        next pending relay stays within
        ∙ ap (λ more. written c relay.sent ++ more)
            (heard_cong c schedule _ _ (λ j. idle_queue conn j pending e)
              ∙ sym (no_news (nat_eq c conn) _))
    by_actions (action ∷ rest) e next =
        let step =
          act-IsHeard c conn action rest relay
            (λ same. subst IsStaying (ap pending ((nat_eq_iff c conn).0 same) ∙ e) stays) within in
        next (after_action conn rest pending) (act conn action relay)
          (after_action-IsStaying c conn action rest pending e stays) step.stays
        ∙ ap (λ before. before ++ heard c schedule (λ j. slots (after_action conn rest pending j)))
            step.hears
        ∙ append_assoc (written c relay.sent) (if nat_eq c conn then [] else slot action) _
        ∙ ap (λ more. written c relay.sent ++ ((if nat_eq c conn then [] else slot action) ++ more))
            (heard_cong c schedule _ _ (λ j. slots-after_action conn rest pending j))

module _ (first : ℕ → Option String) (to_send : ℕ → List ℕ) (turns : ℕ → List Turn)
    (entered : ℕ → Bool) where
  -- the threads of sockets of which some are in the table already
  abbrev pub threads : Pending
  threads conn =
      if entered conn
      then relay_loop (to_send conn) (turns conn)
      else handle_client (first conn) (to_send conn) (turns conn)

  slots-threads :
      (conn : ℕ)
      → slots (threads conn) ≡ says (entered conn) (first conn) (to_send conn) (turns conn)
  unfolding slots slot handle_client
  slots-threads conn = by_entry (entered conn)
    where
      by_uuid :
          (uuid : String) (empty : Bool)
          → slots (
              enter (some uuid)
              ∷ (if (if empty then false else true)
                  then relay_loop (to_send conn) (turns conn)
                  else []))
            ≡ [] ∷ (if empty then [] else singles (messages (to_send conn) (turns conn)))
      by_uuid uuid true = refl
      by_uuid uuid false = ap (λ later. [] ∷ later) (slots-relay_loop (to_send conn) (turns conn))

      by_first :
          (start : Option String)
          → slots (handle_client start (to_send conn) (turns conn))
            ≡ says false start (to_send conn) (turns conn)
      by_first none = refl
      by_first (some uuid) = by_uuid uuid (str_eq uuid "")

      by_entry :
          (inside : Bool)
          → slots (
              if inside
              then relay_loop (to_send conn) (turns conn)
              else handle_client (first conn) (to_send conn) (turns conn))
            ≡ says inside (first conn) (to_send conn) (turns conn)
      by_entry true = slots-relay_loop (to_send conn) (turns conn)
      by_entry false = by_first (first conn)

  threads-IsStaying : (c : ℕ) → entered c ≡ true → is_over (turns c) ≡ false → IsStaying (threads c)
  threads-IsStaying c inside open_still =
      rw inside (relay_loop-IsStaying (to_send c) (turns c) open_still)

  -- A socket that is in the table of a reachable relay, and whose own data does not end, is written,
  -- under any schedule of the threads, just what the others say, in the order in which the schedule
  -- lets them: of each the chunks that arrive up to its end, whole, once and in their order, and
  -- behind them the answer of the CA; nothing before a socket has a name, and nothing of its own.
  pub run_threads-heard :
      (schedule : List ℕ) (c : ℕ) (relay : Relay)
      → Reach relay
      → is_among c (keys relay.connections) ≡ true
      → entered c ≡ true
      → is_over (turns c) ≡ false
      → written c (run_threads act schedule threads relay).sent
        ≡ written c relay.sent
          ++ heard c schedule (λ conn. says (entered conn) (first conn) (to_send conn) (turns conn))
  run_threads-heard schedule c relay reached there inside open_still =
      run_threads-slots c schedule threads relay (threads-IsStaying c inside open_still)
        (record { once = Reach-Once reached; there = there })
      ∙ ap (λ more. written c relay.sent ++ more) (heard_cong c schedule _ _ slots-threads)
