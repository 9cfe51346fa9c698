-- ===== src/Peer/Sync.antt =====
-- client/ledger/ledger_handler.py: exchanging whole ledgers, and the ledger of a starting peer.
pub mod Start
pub mod Adopts
use onyx_p2p_auction_system.Base.{
  ℕ, String, Bool, true, false, Option, none, some, ⊤, if◌then◌else◌, ltb, length,
}
use onyx_p2p_auction_system.Base.Exec.{
  Exec, Result, ok, raised, ◌>>=◌, ◌>>◌, pure, raise, lift, modify, gets, type_error,
}
use onyx_p2p_auction_system.Event.{Token, Event, blank, ledger_update, ledger_request}
use onyx_p2p_auction_system.Ledger.{
  Ledger, LedgerFile, Choice, remote, local, absent, empty, save_to_file, load_from_file,
  new_ledger, verify_chain, compare_chains, Verdict,
}
use onyx_p2p_auction_system.Replay.{ledger_to_auction_dict}
use onyx_p2p_auction_system.Peer.{Client, Library, Inputs, Message, message}
use onyx_p2p_auction_system.Peer.Tokens.{get_token}

-- A pair is true in a test, whatever it holds.
abbrev truth_of_pair {ℓ κ} : {A : Type ℓ} {B : Type κ} → A × B → Bool
truth_of_pair _ = true

-- What `try: token_data = get_token()` with `except: return None` goes on with.
abbrev pub after_token :
    {A : Type 0}
    → Result Token
    → Exec Client A
    → (Token → Exec Client A)
    → Client
    → Result A × Client
after_token (ok token) otherwise k client = k token client
after_token (raised error) otherwise k client = otherwise client

abbrev pub try_token :
    {A : Type 0} → Exec Client Token → Exec Client A → (Token → Exec Client A) → Exec Client A
try_token token otherwise k client =
    let (r, client') = token client in after_token r otherwise k client'

module _ (library : Library) where
  unfoldable pub ledger_request_handler : Inputs → Option ℕ → Exec Client (Option Message)
  ledger_request_handler inputs request_id = do
    to_send ← gets (λ client. client.ledger)
    try_token (get_token library inputs) (pure none) λ token_data. pure (
        some
          (record (message (record blank {
            kind = some ledger_update;
            token = some token_data;
            timestamp = inputs.stamp;
          })) { ledger = some to_send; request_id = request_id }))

  unfoldable pub prepare_ledger_request : Inputs → Exec Client (Option Message)
  prepare_ledger_request inputs = try_token (get_token library inputs) (pure none) λ token_data. do
    modify (λ client. record client { ledger_request_id = some inputs.random_id })
    pure (
        some
          (record (message (record blank {
            kind = some ledger_request;
            token = some token_data;
            timestamp = inputs.stamp;
          })) { request_id = some inputs.random_id }))

  adopt : Ledger → Exec Client ⊤
  adopt ledger client =
      let client' : Client = record client {
        ledger = ledger;
        ledger_file = save_to_file ledger;
        ledger_request_id = some 0;
      } in
      elim (ledger_to_auction_dict client.wallet ledger.chain) [
        | raised e ↦ (raised e, client')
        | ok translated ↦ (ok tt, record client' { auctions = translated })
      ]

  update_from : Option Ledger → Exec Client ⊤
  unfolding adopt
  update_from none client = (raised type_error, client)
  update_from (some ledger) client = elim (compare_chains client.ledger.chain ledger.chain) [
    | local ↦ (ok tt, client)
    | remote ↦
        if truth_of_pair (verify_chain library.digest ledger.chain)
        then adopt ledger client
        else (ok tt, client)
  ]

  -- `if ledger.verify_chain():` tests the pair that `verify_chain` returns.
  unfoldable pub ledger_update_handler : Message → Exec Client ⊤
  unfolding update_from
  ledger_update_handler msg = update_from msg.ledger

  unfoldable pub touch : LedgerFile → LedgerFile
  touch absent = empty
  touch file = file

  unfoldable pub use_loaded : String → Option Ledger → Exec Client ⊤
  use_loaded utc none client =
      let fresh = new_ledger library.digest utc in
      (ok tt, record client { ledger = fresh; ledger_file = save_to_file fresh })
  use_loaded utc (some loaded) client = (ok tt, record client { ledger = loaded })

  unfoldable pub init_cli_ledger : Inputs → Exec Client ⊤
  unfolding touch use_loaded
  init_cli_ledger inputs = do
    modify (λ client. record client { ledger_file = touch client.ledger_file })
    loaded ← (λ client. (load_from_file client.ledger_file, client))
    use_loaded inputs.utc loaded
