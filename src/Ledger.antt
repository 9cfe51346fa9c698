-- ===== src/Ledger.antt =====
-- client/ledger/ledger_logic.py: blocks, the `Ledger` class and its helpers. `digest` stands for
-- `sha256(json.dumps(block, sort_keys=True))` of a block without its "block_hash".
pub mod Chain
pub mod Growth
pub mod Longer
pub mod Binding
pub mod Spending
pub mod Sound
mod Tests
use onyx_p2p_auction_system.Base.{
  ℕ, suc, ◌+◌, String, Bool, true, false, not, Option, none, some, List, [], ◌∷◌, ◌++◌, length,
  last?, nat_eq, ltb, str_eq, if◌then◌else◌,
}
use onyx_p2p_auction_system.Base.Exec.{
  Error, Result, ok, raised, Exec, ◌>>=◌, ◌>>◌, pure, raise, lift, gets, modify, or_raise,
  bind_result, runtime_error, index_error, attribute_error, os_error,
}
use onyx_p2p_auction_system.Event.{
  AuctionKey, Event, Token, genesis, blank, same_text, is_genesis, is_auction, is_empty, key_beq,
}

-- a block without its "block_hash": what is hashed
pub record Content : Type 0 where
  pub height : ℕ
  pub prev_hash : String
  pub timestamp : String
  pub events : List Event

pub record Block : Type 0 where
  pub content : Content
  pub open content use *
  pub block_hash : String

pub record Ledger : Type 0 where
  pub chain : List Block
  pub current_actions : List Event
  pub max_actions : ℕ

-- the second component of what `verify_chain` and `validate_block` return
pub data Verdict : Type 0 where
  -- of `verify_chain`, the failures with the block's height
  chain_is_valid : Verdict
  height_mismatch_at prev_hash_mismatch_at invalid_block_hash_at : ℕ → Verdict
  -- of `validate_block` and `receive_block`
  block_ok block_accepted height_mismatch prev_hash_mismatch hash_mismatch : Verdict
  too_many_events : Verdict

pub data Choice : Type 0 where
  remote local : Choice

-- "ledger.json": no file, an empty one, one that is no JSON, or the chain that was dumped
pub data LedgerFile : Type 0 where
  absent empty corrupt : LedgerFile
  saved : List Block → LedgerFile

abbrev pub genesis_event : Event
genesis_event = record blank { kind = some genesis }

unfoldable pub save_to_file : Ledger → LedgerFile
save_to_file ledger = saved ledger.chain

-- `none` is the None that makes the caller build a new ledger; `getsize` raises without a file.
unfoldable pub load_from_file : LedgerFile → Result (Option Ledger)
load_from_file absent = raised os_error
load_from_file empty = ok none
load_from_file corrupt = ok none
load_from_file (saved chain) =
    ok (some (record { chain = chain; current_actions = []; max_actions = 1 }))

pub same_key : Option AuctionKey → Option AuctionKey → Bool
same_key none none = true
same_key (some a) (some b) = key_beq a b
same_key _ _ = false

public_key_in : Option AuctionKey → List Event → Option (Option String)
unfolding same_key
public_key_in auction_id [] = none
public_key_in auction_id (action ∷ rest) =
    if is_auction action.kind
    then (if same_key action.id auction_id
        then some action.public_key
        else public_key_in auction_id rest)
    else public_key_in auction_id rest

-- The value that the nested loops return, or None behind them.
pub find_auction_public_key : Option AuctionKey → List Block → Option String
unfolding public_key_in
find_auction_public_key auction_id [] = none
find_auction_public_key auction_id (block ∷ rest) = elim (public_key_in auction_id block.events) [
  | some found ↦ found
  | none ↦ find_auction_public_key auction_id rest
]

signature_in : Option String → List Event → Option (Option String)
signature_in token_id [] = none
signature_in token_id (action ∷ rest) = elim action.token [
  | none ↦ signature_in token_id rest
  | some info ↦
      if is_empty info
      then signature_in token_id rest
      else if same_text info.token_id token_id
      then some info.token_sig
      else signature_in token_id rest
]

unfoldable pub find_token_signature : Option String → List Block → Option String
unfolding signature_in
find_token_signature token_id [] = none
find_token_signature token_id (block ∷ rest) = elim (signature_in token_id block.events) [
  | some found ↦ found
  | none ↦ find_token_signature token_id rest
]

-- One pass of the inner loop of `token_used`: an action without a token raises, unless it is the
-- genesis event.
action_uses : Option String → Event → Result Bool
action_uses token action = if is_genesis action.kind then ok false else elim action.token [
  | none ↦ raised attribute_error
  | some info ↦ ok (same_text info.token_id token)
]

used_in : Option String → List Event → Result Bool
unfolding action_uses
used_in token [] = ok false
used_in token (action ∷ rest) =
    bind_result (action_uses token action) (λ hit. if hit then ok true else used_in token rest)

unfoldable pub token_used : Option String → List Block → Result Bool
unfolding used_in
token_used token [] = ok false
token_used token (block ∷ rest) =
    bind_result (used_in token block.events) (λ hit. if hit then ok true else token_used token rest)

pub get_latest_block : Ledger → Result Block
get_latest_block ledger = or_raise (last? ledger.chain) index_error

-- The longest chain rule.
unfoldable pub compare_chains : List Block → List Block → Choice
compare_chains local_chain remote_chain =
    if ltb (length local_chain) (length remote_chain) then remote else local

module _ (digest : Content → String) where
  pub compute_hash : Block → String
  compute_hash block = digest block.content

  -- `Ledger.__init__` with `create_ledger`; `now` is the UTC time that it reads
  unfoldable pub new_ledger : String → Ledger
  new_ledger now =
      let content : Content = record {
        height = 0;
        prev_hash = "0";
        timestamp = now;
        events = genesis_event ∷ [];
      } in
      record {
        chain = record { content = content; block_hash = digest content } ∷ [];
        current_actions = [];
        max_actions = 1;
      }

  -- the new block of `finish_block`
  pub next_block : Block → String → List Event → Block
  next_block prev now events =
      let content : Content = record {
        height = prev.height + 1;
        prev_hash = prev.block_hash;
        timestamp = now;
        events = events;
      } in
      record { content = content; block_hash = digest content }

  pub commit_block : Block → Exec Ledger Block
  commit_block block ledger =
      (ok block, record ledger { chain = ledger.chain ++ block ∷ []; current_actions = [] })

  pub finish_block : String → Exec Ledger Block
  unfolding next_block commit_block
  finish_block now ledger = elim ledger.current_actions [
    | [] ↦ (raised runtime_error, ledger)
    | action ∷ rest ↦ elim (last? ledger.chain) [
      | none ↦ (raised index_error, ledger)
      | some prev_block ↦ commit_block (next_block prev_block now (action ∷ rest)) ledger
    ]
  ]

  -- 1 if a block was made, 0 otherwise
  pub add_action : String → Event → Exec Ledger ℕ
  unfolding finish_block
  add_action now action = do
    modify (λ ledger. record ledger { current_actions = ledger.current_actions ++ action ∷ [] })
    full ← gets (λ ledger. nat_eq (length ledger.current_actions) ledger.max_actions)
    if full then (do block ← finish_block now; pure 1) else pure 0

  -- the three checks of one round of `verify_chain`; `none` lets the loop go on
  pub check_link : Block → Block → Option Verdict
  unfolding compute_hash
  check_link prev block =
      if not (nat_eq block.height (prev.height + 1))
      then some (height_mismatch_at block.height)
      else if not (str_eq block.prev_hash prev.block_hash)
      then some (prev_hash_mismatch_at block.height)
      else if not (str_eq (compute_hash block) block.block_hash)
      then some (invalid_block_hash_at block.height)
      else none

  verify_from : Block → List Block → Bool × Verdict
  unfolding check_link
  verify_from prev [] = (true, chain_is_valid)
  verify_from prev (block ∷ rest) = elim (check_link prev block) [
    | some verdict ↦ (false, verdict)
    | none ↦ verify_from block rest
  ]

  pub verify_chain : List Block → Bool × Verdict
  unfolding verify_from
  verify_chain [] = (true, chain_is_valid)
  verify_chain (first ∷ rest) = verify_from first rest

  pub validate_block : Block → Block → Bool × Verdict
  unfolding compute_hash
  validate_block block prev_block =
      if not (nat_eq block.height (prev_block.height + 1))
      then (false, height_mismatch)
      else if not (str_eq block.prev_hash prev_block.block_hash)
      then (false, prev_hash_mismatch)
      else if not (str_eq (compute_hash block) block.block_hash)
      then (false, hash_mismatch)
      else if ltb 3 (length block.events)
      then (false, too_many_events)
      else (true, block_ok)

  pub receive_block : Block → Exec Ledger (Bool × Verdict)
  unfolding get_latest_block
  receive_block block = do
    prev_block ← (λ ledger. (get_latest_block ledger, ledger))
    (λ ledger.
        let (accepted, verdict) = validate_block block prev_block in
        if accepted
        then (ok (true, block_accepted), record ledger { chain = ledger.chain ++ block ∷ [] })
        else (ok (false, verdict), ledger))
