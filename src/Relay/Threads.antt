-- ===== src/Relay/Threads.antt =====
-- The threads of the relay: `handle_client` of relay_server.py as the actions that it takes on the
-- table under `RELAY_LOCK`, one thread for each socket, in any order of their steps.
pub mod Reaches
pub mod Heard
use onyx_p2p_auction_system.Base.{
  ℕ, String, Bool, true, false, Option, none, some, List, [], ◌∷◌, ◌≡◌, refl, sym, subst, arith,
  nat_eq, nat_eq_iff, str_eq, Bool-cases, ◌⊎◌, inl, inr, if◌then◌else◌,
}
use onyx_p2p_auction_system.Base.Dict
use onyx_p2p_auction_system.Base.Dict.{contains, lookup-insert, lookup-insert_self}
use onyx_p2p_auction_system.Network.{Recv, chunk, timed_out, broken}
use onyx_p2p_auction_system.Relay.{
  Relay, started, socket_instance, register_uuid, broadcast, hang_up,
}
use onyx_p2p_auction_system.Relay.Delivery.{Step, connects, sends, leaves, Reach, start, next}

-- What a thread does to the table and to the other sockets, each under the lock.
pub data Action : Type 0 where
  enter : Option String → Action
  pass_on : List ℕ → Action
  leave : List ℕ → Action

-- One turn of the loop: whether `STOP_EVENT` is set, and what `recv` meets.
pub record Turn : Type 0 where
  pub stopped : Bool
  pub got : Recv

-- the loop, and the end behind it, for which `peer_left` gave `to_send`
unfoldable pub relay_loop : List ℕ → List Turn → List Action
relay_loop to_send [] = []
relay_loop to_send (turn ∷ rest) =
    let later = relay_loop to_send rest in
    if turn.stopped then leave to_send ∷ [] else elim turn.got [
      | chunk [] ↦ leave to_send ∷ []
      | chunk (byte ∷ bytes) ↦ pass_on (byte ∷ bytes) ∷ later
      | timed_out _ ↦ later
      | broken ↦ leave to_send ∷ []
    ]

-- whether the first bytes give a uuid
abbrev pub is_named : Option String → Bool
is_named none = false
is_named (some user_uuid) = if str_eq user_uuid "" then false else true

-- `first` is what the first `recv(1024)` gives, decoded and stripped, `none` if that raises; without
-- a uuid the thread returns at once.
unfoldable pub handle_client : Option String → List ℕ → List Turn → List Action
unfolding relay_loop
handle_client first to_send turns =
    enter first ∷ (if is_named first then relay_loop to_send turns else [])

unfoldable pub act : ℕ → Action → Relay → Relay
act conn (enter first) relay = register_uuid conn first relay
act conn (pass_on msg) relay = broadcast conn msg relay
act conn (leave to_send) relay = hang_up conn to_send relay

-- what each thread has still to do, by its socket
abbrev pub Pending : Type 0
Pending = ℕ → List Action

abbrev pub after_action : ℕ → List Action → Pending → Pending
after_action conn rest pending c = if nat_eq c conn then rest else pending c

module _ {S : Type 0} (step : ℕ → Action → S → S) where
  -- one thread goes on
  unfoldable pub run_thread : ℕ → List Action → Pending → S → Pending × S
  run_thread conn [] pending state = (pending, state)
  run_thread conn (action ∷ rest) pending state =
      (after_action conn rest pending, step conn action state)

  -- the threads go on in the order of a schedule
  unfoldable pub run_threads : List ℕ → Pending → S → S
  unfolding run_thread
  run_threads [] pending state = state
  run_threads (conn ∷ schedule) pending state =
      let (later, state') = run_thread conn (pending conn) pending state in
      run_threads schedule later state'
