-- ===== src/Ca/Startup.antt =====
-- The start of the CA (ca/ca_service.py): its key files, its database, and what the service holds in
-- memory. Where it listens is left out.
use onyx_p2p_auction_system.Base.{String, Option, none, some, [], false}
use onyx_p2p_auction_system.Base.Exec.{Exec, Result, ok, raised}
use onyx_p2p_auction_system.Ca.{Db, Ca}
use onyx_p2p_auction_system.Keys.{KeyFiles, Pem, Generated, prepare_key_pair_generation}

-- `CREATE TABLE IF NOT EXISTS`, on the rows of the file
unfoldable pub init_db : Option Db → Db
init_db none = record { users = []; tokens = [] }
init_db (some db) = db

-- `CA_SK` and `CA_VK` with the state of the service
pub record Service : Type 0 where
  pub ca_sk : String
  pub ca_vk : String
  pub ca : Ca

-- a service in whose `app.state` only KEY_GROUP_BOOL and PEER_SESSIONS are set
unfoldable pub fresh_ca : Db → Ca
fresh_ca db = record { db = db; key_group = none; key_group_bool = false; peer_sessions = [] }

service : Option Db → Result (String × String) → Result Service
unfolding init_db fresh_ca
service db (raised error) = raised error
service db (ok (ca_sk, ca_vk)) =
    ok (record { ca_sk = ca_sk; ca_vk = ca_vk; ca = fresh_ca (init_db db) })

-- `run_ca` up to `uvicorn.run`, with `prepare_ca`
unfoldable pub run_ca : Pem → Generated → Option Db → Exec KeyFiles Service
unfolding service
run_ca pem made db files =
    let (keys, kept) = prepare_key_pair_generation pem made files in (service db keys, kept)
