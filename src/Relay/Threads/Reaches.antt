-- ===== src/Relay/Threads/Reaches.antt =====
-- Whatever the order of its threads' steps, the relay is in a state that single events reach.
pub mod Runs
use onyx_p2p_auction_system.Base.{
  ℕ, String, Bool, true, false, Option, none, some, List, [], ◌∷◌, ◌++◌, ◌≡◌, ◌≢◌, refl, sym, subst,
  ap, ◌∙◌, arith, nat_eq, nat_eq_iff, str_eq, Bool-cases, inl, inr, if◌then◌else◌,
}
use onyx_p2p_auction_system.Base.Dict
use onyx_p2p_auction_system.Base.Dict.{
  keys, contains, lookup-insert_self, lookup-insert_ne, lookup-erase,
}
use onyx_p2p_auction_system.Network.{Recv, chunk, timed_out, broken}
use onyx_p2p_auction_system.Relay.{
  Relay, started, socket_instance, register_uuid, broadcast, hang_up,
}
use onyx_p2p_auction_system.Relay.Delivery.{
  connects, sends, leaves, Reach, start, next, written, is_among, broadcast-written,
}
use onyx_p2p_auction_system.Relay.Threads.{
  Action, enter, pass_on, leave, Turn, relay_loop, handle_client, is_named, act, Pending,
  after_action, run_thread, run_threads,
}

-- behind `enter`: forwarding, and at the end a `leave`
abbrev IsInner : List Action → Type 0
IsInner [] = Unit
IsInner (enter first ∷ rest) = ⊥
IsInner (pass_on msg ∷ rest) = IsInner rest
IsInner (leave to_send ∷ []) = Unit
IsInner (leave to_send ∷ action ∷ rest) = ⊥

-- behind an `enter`, with a uuid or without
abbrev IsBehind : Bool → List Action → Type 0
IsBehind true actions = IsInner actions
IsBehind false [] = Unit
IsBehind false (action ∷ rest) = ⊥

abbrev IsOuter : List Action → Type 0
IsOuter [] = Unit
IsOuter (enter first ∷ rest) = IsBehind (is_named first) rest
IsOuter (action ∷ rest) = ⊥

-- A thread is behind `enter` exactly while its socket is in the table.
abbrev IsAt : Bool → List Action → Type 0
IsAt true actions = IsInner actions
IsAt false actions = IsOuter actions

record IsRun (pending : Pending) (relay : Relay) : Type 0 where
  reached : Reach relay
  at : (conn : ℕ) → IsAt (contains conn relay.connections) (pending conn)

relay_loop-IsInner : (to_send : List ℕ) (turns : List Turn) → IsInner (relay_loop to_send turns)
unfolding relay_loop
relay_loop-IsInner to_send [] = tt
relay_loop-IsInner to_send (turn ∷ rest) =
    by_turn turn.stopped turn.got (relay_loop-IsInner to_send rest)
  where
    by_turn :
        (stopped : Bool) (got : Recv)
        → IsInner (relay_loop to_send rest)
        → IsInner (
            if stopped then leave to_send ∷ [] else elim got [
              | chunk [] ↦ leave to_send ∷ []
              | chunk (byte ∷ bytes) ↦ pass_on (byte ∷ bytes) ∷ relay_loop to_send rest
              | timed_out _ ↦ relay_loop to_send rest
              | broken ↦ leave to_send ∷ []
            ])
    by_turn true got ih = tt
    by_turn false (chunk []) ih = tt
    by_turn false (chunk (byte ∷ bytes)) ih = ih
    by_turn false (timed_out stop) ih = ih
    by_turn false broken ih = tt

handle_client-IsOuter :
    (first : Option String) (to_send : List ℕ) (turns : List Turn)
    → IsOuter (handle_client first to_send turns)
unfolding handle_client
handle_client-IsOuter first to_send turns = by_test (is_named first)
  where
    by_test : (named : Bool) → IsBehind named (if named then relay_loop to_send turns else [])
    by_test true = relay_loop-IsInner to_send turns
    by_test false = tt

-- what a step leaves
record IsStep (conn : ℕ) (rest : List Action) (before after : Relay) : Type 0 where
  reached : Reach after
  own : IsAt (contains conn after.connections) rest
  others : (c : ℕ) → c ≢ conn → contains c after.connections ≡ contains c before.connections

abbrev is_found : Option String → Bool
is_found found = elim found [ none ↦ false | some _ ↦ true ]

module _ (conn : ℕ) (relay : Relay) (reached : Reach relay) where
  named-IsStep :
      (user_uuid : String) (rest : List Action)
      → contains conn relay.connections ≡ false
      → str_eq user_uuid "" ≡ false
      → IsInner rest
      → IsStep conn rest relay (register_uuid conn (some user_uuid) relay)
  named-IsStep user_uuid rest outside named inner = record {
    reached = next reached (connects relay conn (some user_uuid) outside);
    own = subst (λ inside. IsAt inside rest) (sym entered) inner;
    others = kept;
  }
    where
      registered :
          (register_uuid conn (some user_uuid) relay).connections
          ≡ Dict.insert conn user_uuid relay.connections
      registered = unfold register_uuid in rw named refl

      entered : contains conn (register_uuid conn (some user_uuid) relay).connections ≡ true
      entered =
          ap (λ d. contains conn d) registered
          ∙ ap is_found (lookup-insert_self conn user_uuid relay.connections)

      kept :
          (c : ℕ)
          → c ≢ conn
          → contains c (register_uuid conn (some user_uuid) relay).connections
            ≡ contains c relay.connections
      kept c h =
          ap (λ d. contains c d) registered
          ∙ ap is_found (lookup-insert_ne conn c user_uuid relay.connections (λ e. h (sym e)))

  -- a step that leaves the relay as it was
  idle-IsStep :
      (rest : List Action) (after : Relay)
      → after ≡ relay
      → contains conn relay.connections ≡ false
      → IsBehind false rest
      → IsStep conn rest relay after
  idle-IsStep [] after same outside behind = subst (IsStep conn [] relay) (sym same) (record {
    reached = reached;
    own = subst (λ inside. IsAt inside []) (sym outside) tt;
    others = λ c h. refl;
  })
  idle-IsStep (action ∷ rest) after same outside behind = absurd behind

  enter-IsStep :
      (first : Option String) (rest : List Action)
      → contains conn relay.connections ≡ false
      → IsBehind (is_named first) rest
      → IsStep conn rest relay (register_uuid conn first relay)
  unfolding register_uuid
  enter-IsStep none rest outside behind = idle-IsStep rest relay refl outside behind
  enter-IsStep (some user_uuid) rest outside behind = elim (Bool-cases (str_eq user_uuid "")) [
    | inl empty ↦
        idle-IsStep rest (register_uuid conn (some user_uuid) relay) (rw empty refl) outside
          (subst (λ (b : Bool). IsBehind (if b then false else true) rest) empty behind)
    | inr named ↦
        named-IsStep user_uuid rest outside named
          (subst (λ (b : Bool). IsBehind (if b then false else true) rest) named behind)
  ]

  pass_on-IsStep :
      (msg : List ℕ) (rest : List Action)
      → contains conn relay.connections ≡ true
      → IsInner rest
      → IsStep conn rest relay (broadcast conn msg relay)
  unfolding broadcast
  pass_on-IsStep msg rest inside inner = record {
    reached = next reached (sends relay conn msg inside);
    own = subst (λ inside. IsAt inside rest) (sym inside) inner;
    others = λ c h. refl;
  }

  leave-IsStep :
      (to_send : List ℕ)
      → contains conn relay.connections ≡ true
      → IsStep conn [] relay (hang_up conn to_send relay)
  unfolding hang_up
  leave-IsStep to_send inside = record {
    reached = next reached (leaves relay conn to_send inside);
    own = subst (λ inside. IsAt inside []) (sym (ap is_found gone)) tt;
    others = λ c h.
        ap is_found (lookup-erase conn c relay.connections ∙ ground (arith, nat_eq_iff conn c));
  }
    where
      gone : Dict.lookup conn (Dict.erase conn relay.connections) ≡ none
      gone = lookup-erase conn conn relay.connections ∙ ground (arith, nat_eq_iff conn conn)

  act-IsStep :
      (action : Action) (rest : List Action) (inside : Bool)
      → contains conn relay.connections ≡ inside
      → IsAt inside (action ∷ rest)
      → IsStep conn rest relay (act conn action relay)
  unfolding act
  act-IsStep (enter first) rest true e at = absurd at
  act-IsStep (enter first) rest false e at = enter-IsStep first rest e at
  act-IsStep (pass_on msg) rest true e at = pass_on-IsStep msg rest e at
  act-IsStep (pass_on msg) rest false e at = absurd at
  act-IsStep (leave to_send) [] true e at = leave-IsStep to_send e
  act-IsStep (leave to_send) (action ∷ rest) true e at = absurd at
  act-IsStep (leave to_send) rest false e at = absurd at
