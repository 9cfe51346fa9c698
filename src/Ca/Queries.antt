-- ===== src/Ca/Queries.antt =====
-- ca/ca_db.py: the queries. Foreign keys are not enforced by SQLite's default.
use onyx_p2p_auction_system.Base.{
  ℕ, ◌+◌, String, Bool, true, false, List, [], ◌∷◌, ◌++◌, ⊤, str_eq, if◌then◌else◌, map,
}
use onyx_p2p_auction_system.Base.Exec.{Exec, ok, raised, integrity_error}
use onyx_p2p_auction_system.Ca.{User, Issued, Db}

unfoldable pub has_uid : String → List User → Bool
has_uid uid [] = false
has_uid uid (user ∷ rest) = if str_eq user.uid uid then true else has_uid uid rest

unfoldable pub user_exists : Db → String → Bool
unfolding has_uid
user_exists conn uid = has_uid uid conn.users

unfoldable pub has_token : String → List Issued → Bool
has_token tid [] = false
has_token tid (row ∷ rest) = if str_eq row.token_id tid then true else has_token tid rest

unfoldable pub insert_token : String → String → String → Exec Db String
unfolding has_token
insert_token tid now uid conn =
    if has_token tid conn.tokens then (raised integrity_error, conn) else (
      ok tid,
      record conn {
        tokens =
            conn.tokens ++ record { token_id = tid; uid = uid; issued_at = now; used = 0 } ∷ [];
      },
    )

unfoldable pub add_quota : String → ℕ → List User → List User
add_quota uid amount [] = []
add_quota uid amount (user ∷ rest) =
    let others = add_quota uid amount rest in
    if str_eq user.uid uid
    then record user { token_quota = user.token_quota + amount } ∷ others
    else user ∷ others

unfoldable pub increment_token_quota : String → ℕ → Exec Db ⊤
unfolding add_quota
increment_token_quota uid amount conn =
    (ok tt, record conn { users = add_quota uid amount conn.users })

-- the public key stands in the column of the request too
unfoldable pub store_user : String → String → String → String → Exec Db ⊤
unfolding has_uid
store_user uid csr_pem cert_pem now conn =
    if has_uid uid conn.users then (raised integrity_error, conn) else (
      ok tt,
      record conn {
        users =
            conn.users
            ++ record {
              uid = uid;
              user_pub_pem = csr_pem;
              csr_pem = csr_pem;
              cert_pem = cert_pem;
              created_at = now;
              token_quota = 0;
            }
              ∷ [];
      },
    )

unfoldable pub without : String → List User → List User
without uid [] = []
without uid (user ∷ rest) =
    let others = without uid rest in if str_eq user.uid uid then others else user ∷ others

unfoldable pub remove_user_and_get_remaining_pubkeys : String → Exec Db (List String)
unfolding without
remove_user_and_get_remaining_pubkeys uid conn =
    let users = without uid conn.users in
    (ok (map (λ (user : User). user.user_pub_pem) users), record conn { users = users })
