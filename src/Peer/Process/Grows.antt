-- ===== src/Peer/Process/Grows.antt =====
-- No message makes the local chain shorter.
use onyx_p2p_auction_system.Base.{◌≤◌, Option, none, some, arith, inl, inr, length}
use onyx_p2p_auction_system.Base.Exec.{Exec, Result, ok, raised, resume, ◌>>◌}
use onyx_p2p_auction_system.Event.{
  Event, Kind, genesis, auction, bid, ledger_request, ledger_update, auction_end,
  winner_token_reveal, auction_owner_revelation, winner_revelation, new_key, other,
}
use onyx_p2p_auction_system.Ledger.Longer.{add_action-longer}
use onyx_p2p_auction_system.Peer.{Client, Library, Inputs, Message}
use onyx_p2p_auction_system.Peer.Sync.Adopts.{ledger_update_handler-longer}
use onyx_p2p_auction_system.Peer.Reveal.Keeps.{Keeps}
use onyx_p2p_auction_system.Peer.Reveal.Keeps.Handlers.{
  handle_auction_end-Keeps, handle_winner_reveal-Keeps, get_client_identity-Keeps,
  prepare_winner_identity-Keeps,
}
use onyx_p2p_auction_system.Peer.Process.{
  process_message, route, checked, dispatch, store, handle_bid, record_action, save_if,
  receive_update,
}
use onyx_p2p_auction_system.Peer.Process.Rejects.{checked-Gate}
use onyx_p2p_auction_system.Peer.Process.Ledgers.{answer_request-Keeps, rotate_key-Keeps}

-- `m` shortens no chain, whether it returns or raises.
pub record Grows {A : Type 0} (m : Exec Client A) : Type 0 where
  pub chain : (c : Client) → length c.ledger.chain ≤ length (m c).1.ledger.chain

Keeps-Grows : {A : Type 0} (m : Exec Client A) → Keeps m → Grows m
Keeps-Grows m keeps = record { chain = λ c. rw (keeps.ledger c) (omega arith) }

Grows-then : {A : Type 0} (m k : Exec Client A) → Grows m → Grows k → Grows (m >> k)
Grows-then {A} m k first second = record { chain = λ c. then_longer c (m c) (first.chain c) }
  where
    then_longer :
        (c : Client) (out : Result A × Client)
        → length c.ledger.chain ≤ length out.1.ledger.chain
        → length c.ledger.chain ≤ length (resume out.0 (λ _. k) out.1).1.ledger.chain
    then_longer c (ok _, after) h = omega (arith, h, second.chain after)
    then_longer c (raised error, after) h = h

module _ (library : Library) (inputs : Inputs) where
  record_action-Grows : (action : Event) → Grows (record_action library inputs action)
  unfolding record_action save_if
  record_action-Grows action = record {
    chain = λ c. ground (arith, add_action-longer library.digest inputs.utc action c.ledger);
  }

  store-Grows : (msg : Message) → Grows (store library inputs msg)
  unfolding store
  store-Grows msg =
      Grows-then _ _ (record_action-Grows msg.event) (record { chain = λ c. omega arith })

  handle_bid-Grows : (msg : Message) → Grows (handle_bid library inputs msg)
  unfolding handle_bid
  handle_bid-Grows msg = record { chain = λ c. ground (arith, (store-Grows msg).chain c) }

  receive_update-Grows : (msg : Message) → Grows (receive_update library msg)
  unfolding receive_update
  receive_update-Grows msg = record {
    chain = λ c. ground (arith, ledger_update_handler-longer library msg c);
  }

  dispatch-Grows : (msg : Message) (kind : Kind) → Grows (dispatch library inputs msg kind)
  unfolding dispatch
  dispatch-Grows msg auction = store-Grows msg
  dispatch-Grows msg bid = handle_bid-Grows msg
  dispatch-Grows msg auction_end =
      Grows-then _ _ (Keeps-Grows _ (handle_auction_end-Keeps library inputs msg))
        (record_action-Grows msg.event)
  dispatch-Grows msg winner_token_reveal =
      Keeps-Grows _ (handle_winner_reveal-Keeps library inputs msg)
  dispatch-Grows msg auction_owner_revelation =
      Keeps-Grows _ (prepare_winner_identity-Keeps library inputs msg)
  dispatch-Grows msg winner_revelation =
      Keeps-Grows _ (get_client_identity-Keeps library inputs msg)
  dispatch-Grows msg ledger_request = Keeps-Grows _ (answer_request-Keeps library inputs msg)
  dispatch-Grows msg ledger_update = receive_update-Grows msg
  dispatch-Grows msg genesis = record { chain = λ c. omega arith }
  dispatch-Grows msg new_key = record { chain = λ c. omega arith }
  dispatch-Grows msg other = record { chain = λ c. omega arith }

  checked-Grows :
      (msg : Message) (kind : Kind) (c : Client)
      → length c.ledger.chain ≤ length (checked library inputs msg kind c).1.ledger.chain
  checked-Grows msg kind c = elim (checked-Gate library inputs msg c kind) [
    | inl same ↦ rw same (omega arith)
    | inr (passed, e) ↦ rw e ((dispatch-Grows msg kind).chain c)
  ]

  pub process_message-Grows : (m : Option Message) → Grows (process_message library inputs m)
  unfolding process_message route
  process_message-Grows none = record { chain = λ c. omega arith }
  process_message-Grows (some msg) = routed msg msg.kind
    where
      routed : (msg : Message) (kind : Option Kind) → Grows (route library inputs msg kind)
      routed msg none = record { chain = λ c. omega arith }
      routed msg (some genesis) = record { chain = λ c. omega arith }
      routed msg (some other) = record { chain = λ c. omega arith }
      routed msg (some new_key) = Keeps-Grows _ (rotate_key-Keeps library inputs msg)
      routed msg (some kind) = record { chain = λ c. checked-Grows msg kind c }
