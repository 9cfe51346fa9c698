-- ===== src/Peer/Sync/Start.antt =====
-- A peer's ledger when it starts (`init_cli_ledger`).
use onyx_p2p_auction_system.Base.{String, List, [], ◌≡◌, refl, sym, ap, ◌∙◌}
use onyx_p2p_auction_system.Base.Exec.{ok}
use onyx_p2p_auction_system.Ledger.{
  Content, Block, Ledger, LedgerFile, absent, empty, corrupt, saved, load_from_file, save_to_file,
}
use onyx_p2p_auction_system.Ledger.Sound.{IsSound, genesis-IsSound}
use onyx_p2p_auction_system.Peer.{Client, Library, Inputs}
use onyx_p2p_auction_system.Peer.Sync.{init_cli_ledger, touch, use_loaded}
use onyx_p2p_auction_system.Peer.Process.Ledgers.{HasSoundLedger}

-- the ledger that `load_from_file` makes of a chain
abbrev loaded : List Block → Ledger
loaded chain = record { chain = chain; current_actions = []; max_actions = 1 }

-- if "ledger.json" holds a chain, it is that of a sound ledger
abbrev pub HasSoundFile : (Content → String) → LedgerFile → Type 0
HasSoundFile digest (saved chain) = IsSound digest (loaded chain) (saved chain)
HasSoundFile digest _ = Unit

module _ (library : Library) (inputs : Inputs) where
  start :
      (file : LedgerFile) (client : Client)
      → client.ledger_file ≡ file
      → HasSoundFile library.digest file
      → let (r, after) = init_cli_ledger library inputs client in
        (r ≡ ok tt) × HasSoundLedger library after
  unfolding init_cli_ledger touch use_loaded load_from_file save_to_file
  start absent client e h = rw e (refl, genesis-IsSound library.digest inputs.utc)
  start empty client e h = rw e (refl, genesis-IsSound library.digest inputs.utc)
  start corrupt client e h = rw e (refl, genesis-IsSound library.digest inputs.utc)
  start (saved chain) client e h = rw e (refl, h)

  -- `init_cli_ledger` never raises, and it leaves a sound ledger whenever a chain that the file
  -- holds is sound: without a file, with an empty one and with one that is no JSON it starts anew.
  pub init_cli_ledger-IsSound :
      (client : Client)
      → HasSoundFile library.digest client.ledger_file
      → let (r, after) = init_cli_ledger library inputs client in
        (r ≡ ok tt) × HasSoundLedger library after
  init_cli_ledger-IsSound client = start client.ledger_file client refl

  reload :
      (chain : List Block) (after : Client)
      → after.ledger_file ≡ saved chain
      → init_cli_ledger library inputs after ≡ (ok tt, record after { ledger = loaded chain })
  unfolding init_cli_ledger touch use_loaded load_from_file
  reload chain after e = rw (init_cli_ledger, e) refl

  loaded-path : (l : Ledger) → l.current_actions ≡ [] → l.max_actions ≡ 1 → loaded l.chain ≡ l
  loaded-path l p q i = record { chain = l.chain; current_actions = sym p i; max_actions = sym q i }

  -- A peer that stops with a sound ledger and starts again on its file has the ledger it had.
  pub init_cli_ledger-restores :
      (before after : Client)
      → HasSoundLedger library before
      → after.ledger_file ≡ before.ledger_file
      → init_cli_ledger library inputs after ≡ (ok tt, record after { ledger = before.ledger })
  init_cli_ledger-restores before after h same =
      reload before.ledger.chain after (same ∙ h.persisted)
      ∙ ap (λ (l : Ledger). (ok tt, record after { ledger = l }))
          (loaded-path before.ledger h.empty_pool h.one_action)
