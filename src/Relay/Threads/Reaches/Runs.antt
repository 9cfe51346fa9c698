-- ===== src/Relay/Threads/Reaches/Runs.antt =====
-- Whole threads and schedules of them.
use onyx_p2p_auction_system.Base.{
  ℕ, String, Option, List, [], ◌∷◌, ◌≡◌, refl, sym, subst, arith, nat_eq, nat_eq_iff, Bool-cases,
  inl, inr,
}
use onyx_p2p_auction_system.Base.Dict.{contains}
use onyx_p2p_auction_system.Relay.{Relay, started, socket_instance}
use onyx_p2p_auction_system.Relay.Delivery.{Reach, start}
use onyx_p2p_auction_system.Relay.Threads.{
  Action, Turn, handle_client, act, Pending, after_action, run_thread, run_threads,
}
use onyx_p2p_auction_system.Relay.Threads.Reaches.{
  IsAt, IsRun, IsStep, act-IsStep, handle_client-IsOuter,
}

run_thread-IsRun :
    (conn : ℕ) (actions : List Action) (pending : Pending) (relay : Relay)
    → pending conn ≡ actions
    → IsRun pending relay
    → let (later, after) = run_thread act conn actions pending relay in IsRun later after
unfolding run_thread
run_thread-IsRun conn [] pending relay e run = run
run_thread-IsRun conn (action ∷ rest) pending relay e run = record {
  reached = step.reached;
  at = at_each;
}
  where
    step : IsStep conn rest relay (act conn action relay)
    step =
        act-IsStep conn relay run.reached action rest (contains conn relay.connections) refl
          (subst (IsAt (contains conn relay.connections)) e (run.at conn))

    at_each :
        (c : ℕ)
        → IsAt (contains c (act conn action relay).connections) (after_action conn rest pending c)
    at_each c = elim (Bool-cases (nat_eq c conn)) [
      | inl same ↦
          let e : c ≡ conn = (nat_eq_iff c conn).0 same in
          rw same (
            subst (λ j. IsAt (contains j (act conn action relay).connections) rest) (sym e)
              step.own)
      | inr other ↦ rw other (
          subst (λ inside. IsAt inside (pending c))
            (sym (step.others c (λ e. ground (arith, nat_eq_iff c conn)))) (run.at c))
    ]

run_threads-IsRun :
    (schedule : List ℕ) (pending : Pending) (relay : Relay)
    → IsRun pending relay
    → Reach (run_threads act schedule pending relay)
unfolding run_threads
run_threads-IsRun [] pending relay run = run.reached
run_threads-IsRun (conn ∷ schedule) pending relay run =
    run_threads-IsRun schedule _ _ (run_thread-IsRun conn (pending conn) pending relay refl run)

-- The relay starts, and sockets are served, each by its thread, in any order of their steps: its state
-- is one that single events reach.
pub run_threads-Reach :
    (schedule : List ℕ) (first : ℕ → Option String) (to_send : ℕ → List ℕ) (turns : ℕ → List Turn)
    → Reach (
        run_threads act schedule
          (λ conn. handle_client (first conn) (to_send conn) (turns conn))
          started)
run_threads-Reach schedule first to_send turns = run_threads-IsRun schedule _ started (record {
  reached = start;
  at = λ conn. handle_client-IsOuter (first conn) (to_send conn) (turns conn);
})
