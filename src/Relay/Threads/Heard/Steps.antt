-- ===== src/Relay/Threads/Heard/Steps.antt =====
-- What a socket hears of a single action.
use onyx_p2p_auction_system.Base.{
  ℕ, String, Bool, true, false, Option, none, some, List, [], ◌∷◌, ◌++◌, ◌≡◌, ap, ◌∙◌, arith,
  nat_eq, nat_eq_iff, Bool-cases, inl, inr, if◌then◌else◌, str_eq,
}
use mathlib.Core.List.{append-nil}
use onyx_p2p_auction_system.Base.Dict
use onyx_p2p_auction_system.Base.Dict.{keys}
use onyx_p2p_auction_system.Relay.{
  Relay, socket_instance, register_uuid, broadcast, copies, copies_to_all, hang_up,
}
use onyx_p2p_auction_system.Relay.Delivery.{
  Once, Once-insert, Once-erase, is_among, is_among-insert, is_among-erase, written, written-append,
  written-copies,
}
use onyx_p2p_auction_system.Relay.Leaving.{written-copies_to_all}
use onyx_p2p_auction_system.Relay.Threads.{Action, enter, pass_on, leave, act}
use onyx_p2p_auction_system.Relay.Threads.Heard.{slot, IsStaying}

-- a socket that is in the table, each socket once
pub record IsIn (c : ℕ) (relay : Relay) : Type 0 where
  pub once : Once (keys relay.connections)
  pub there : is_among c (keys relay.connections) ≡ true

-- One action of another thread, or a broadcast of one's own.
pub record IsHeard (c conn : ℕ) (action : Action) (before after : Relay) : Type 0 where
  pub stays : IsIn c after
  pub hears :
      written c after.sent ≡ written c before.sent ++ (if nat_eq c conn then [] else slot action)

enter-IsHeard :
    (c conn : ℕ) (first : Option String) (relay : Relay)
    → IsIn c relay
    → IsHeard c conn (enter first) relay (register_uuid conn first relay)
unfolding register_uuid slot
enter-IsHeard c conn none relay within = record {
  stays = within;
  hears = ground (arith, append-nil (written c relay.sent));
}
enter-IsHeard c conn (some uuid) relay within = by_test (str_eq uuid "")
  where
    by_test :
        (empty : Bool)
        → IsHeard c conn (enter (some uuid)) relay (
            if empty
            then relay
            else record relay { connections = Dict.insert conn uuid relay.connections })
    by_test true = record {
      stays = within;
      hears = ground (arith, append-nil (written c relay.sent));
    }
    by_test false = record {
      stays = record {
        once = Once-insert conn uuid relay.connections within.once;
        there = ground (arith, is_among-insert c conn uuid relay.connections, within.there);
      };
      hears = ground (arith, append-nil (written c relay.sent));
    }

pass_on-IsHeard :
    (c conn : ℕ) (msg : List ℕ) (relay : Relay)
    → IsIn c relay
    → IsHeard c conn (pass_on msg) relay (broadcast conn msg relay)
unfolding broadcast slot
pass_on-IsHeard c conn msg relay within = record {
  stays = record { once = within.once; there = within.there };
  hears =
      written-append c relay.sent (copies conn msg (keys relay.connections))
      ∙ ap (λ more. written c relay.sent ++ more)
          (written-copies c conn msg (keys relay.connections) within.once
            ∙ ground (arith, within.there));
}

leave-IsHeard :
    (c conn : ℕ) (to_send : List ℕ) (relay : Relay)
    → nat_eq c conn ≡ false
    → IsIn c relay
    → IsHeard c conn (leave to_send) relay (hang_up conn to_send relay)
unfolding hang_up slot
leave-IsHeard c conn to_send relay other within =
    let left = Dict.erase conn relay.connections in
    let once = Once-erase conn relay.connections within.once in
    let there : is_among c (keys left) ≡ true = ground (
      arith,
      is_among-erase c conn relay.connections,
      within.there,
      other,
      nat_eq_iff conn c,
      nat_eq_iff c conn,
    ) in
    record {
      stays = record { once = once; there = there };
      hears =
          written-append c relay.sent (copies_to_all to_send (keys left))
          ∙ ap (λ more. written c relay.sent ++ more)
              (written-copies_to_all c to_send (keys left) once ∙ ground (arith, there, other));
    }

pub act-IsHeard :
    (c conn : ℕ) (action : Action) (rest : List Action) (relay : Relay)
    → (nat_eq c conn ≡ true → IsStaying (action ∷ rest))
    → IsIn c relay
    → IsHeard c conn action relay (act conn action relay)
unfolding act IsStaying
act-IsHeard c conn (enter first) rest relay own within = enter-IsHeard c conn first relay within
act-IsHeard c conn (pass_on msg) rest relay own within = pass_on-IsHeard c conn msg relay within
act-IsHeard c conn (leave to_send) rest relay own within = elim (Bool-cases (nat_eq c conn)) [
  | inl same ↦ absurd (own same)
  | inr other ↦ leave-IsHeard c conn to_send relay other within
]
