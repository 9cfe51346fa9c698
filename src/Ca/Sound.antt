-- ===== src/Ca/Sound.antt =====
-- What every endpoint keeps true of the tables and of the group key, whether it raises or not.
use onyx_p2p_auction_system.Base.{
  ℕ, String, Bool, true, false, Option, none, some, List, ◌≡◌, ◌⊎◌, inl, inr, refl, sym, subst,
  arith, All-append,
}
use onyx_p2p_auction_system.Base.Int.{ℤ}
use onyx_p2p_auction_system.Base.Exec.{resume, or_raise, http_400, ◌>>◌}
use onyx_p2p_auction_system.Ca.{Ca, Draws, Authority}
use onyx_p2p_auction_system.Ca.Hybrid.{Plain}
use onyx_p2p_auction_system.Ca.Queries.{has_uid, store_user, remove_user_and_get_remaining_pubkeys}
use onyx_p2p_auction_system.Ca.Rows.{
  UniqueUsers, UniqueTokens, Covered, UniqueUsers-append, UniqueUsers-add_quota,
  UniqueUsers-without, Covered-add_quota, Covered-without,
}
use onyx_p2p_auction_system.Ca.Issue.{issue_tokens-atomic}
use onyx_p2p_auction_system.Ca.Api.{
  RevealReq, register, issue_tokens, blind_sign, timestamp, leave_network, reveal_identity,
  transaction, rotate_group_key, grant, ensure_group_key, open_session,
}

-- A request to one of the endpoints that work on the state.
pub data Request : Type 0 where
  register_request : String → Request
  tokens_request : String → ℕ → Request
  blind_sign_request : String → String → Request
  timestamp_request : Option ℤ → Request
  leave_request : Option String → Request
  reveal_request : RevealReq → Request

-- there is a group key once somebody registered, and only then
abbrev pub HasKey : Bool → Option String → Type 0
HasKey false none = Unit
HasKey false (some key) = ⊥
HasKey true none = ⊥
HasKey true (some key) = Unit

pub record IsSound (ca : Ca) : Type 0 where
  pub unique_users : UniqueUsers ca.db.users
  pub unique_tokens : UniqueTokens ca.db.tokens
  pub covered : Covered ca.db.tokens ca.db.users
  pub has_key : HasKey ca.key_group_bool ca.key_group

module _ (authority : Authority) (decrypt : String → Option Plain) (draws : Draws) where
  -- the state behind a request
  pub serve : Request → Ca → Ca
  serve (register_request csr) ca = (register authority draws csr ca).1
  serve (tokens_request uid count) ca = (issue_tokens draws uid count ca).1
  serve (blind_sign_request uid blinded) ca = (blind_sign authority uid blinded ca).1
  serve (timestamp_request delta) ca = (timestamp authority draws delta ca).1
  serve (leave_request uid) ca = (leave_network authority draws uid ca).1
  serve (reveal_request req) ca = (reveal_identity authority decrypt draws req ca).1

  tokens-IsSound :
      (uid : String) (count : ℕ) (ca : Ca)
      → IsSound ca
      → IsSound (issue_tokens draws uid count ca).1
  tokens-IsSound uid count ca h = elim (issue_tokens-atomic draws uid count ca h.unique_tokens) [
    | inl (error, e, same) ↦ subst IsSound (sym same) h
    | inr added ↦ subst IsSound (sym added.stored) (record {
      unique_users = UniqueUsers-add_quota uid count ca.db.users h.unique_users;
      unique_tokens = added.unique;
      covered =
          Covered-add_quota uid count ca.db.tokens added.more ca.db.users added.for_uid h.covered;
      has_key = h.has_key;
    })
  ]

  rotate_group_key-cases :
      (pems : List String) (ca : Ca)
      → ((rotate_group_key authority draws pems ca).1 ≡ ca)
        ⊎ ((old : String) × (ca.key_group ≡ some old)
            × ((rotate_group_key authority draws pems ca).1
                ≡ record ca { key_group = some draws.fresh_group_key }))
  unfolding rotate_group_key
  rotate_group_key-cases pems ca = ground arith

  HasKey-replaced :
      (made : Bool) (old new : String) → HasKey made (some old) → HasKey made (some new)
  HasKey-replaced false old new h = elim h [ ]
  HasKey-replaced true old new h = tt

  rotate_group_key-IsSound :
      (pems : List String) (ca : Ca)
      → IsSound ca
      → IsSound (rotate_group_key authority draws pems ca).1
  rotate_group_key-IsSound pems ca h = elim (rotate_group_key-cases pems ca) [
    | inl same ↦ subst IsSound (sym same) h
    | inr (old, e, replaced) ↦ subst IsSound (sym replaced) (record {
      unique_users = h.unique_users;
      unique_tokens = h.unique_tokens;
      covered = h.covered;
      has_key =
          HasKey-replaced ca.key_group_bool old draws.fresh_group_key
            (subst (HasKey ca.key_group_bool) e h.has_key);
    })
  ]

  leave-IsSound :
      (uid : Option String) (ca : Ca)
      → IsSound ca
      → IsSound (leave_network authority draws uid ca).1
  unfolding leave_network remove_user_and_get_remaining_pubkeys
  leave-IsSound none ca h = h
  leave-IsSound (some uid) ca h = rotate_group_key-IsSound _ _ (record {
    unique_users = UniqueUsers-without uid ca.db.users h.unique_users;
    unique_tokens = h.unique_tokens;
    covered = Covered-without uid ca.db.tokens ca.db.users h.covered;
    has_key = h.has_key;
  })

  grant_lem :
      (csr user_pub : String) (ca : Ca)
      → (grant authority draws csr user_pub ca).1
        ≡ open_session draws (ensure_group_key draws.fresh_group_key ca)
  unfolding grant
  grant_lem csr user_pub ca = ground arith

  grant-IsSound :
      (csr user_pub : String) (ca : Ca)
      → IsSound ca
      → IsSound (grant authority draws csr user_pub ca).1
  unfolding ensure_group_key open_session
  grant-IsSound csr user_pub ca h = subst IsSound (sym (grant_lem csr user_pub ca)) (record {
    unique_users = ground (arith, h.unique_users);
    unique_tokens = ground (arith, h.unique_tokens);
    covered = ground (arith, h.covered);
    has_key = ground (arith, h.has_key);
  })

  stored-IsSound :
      (csr cert user_pub : String) (ca : Ca) (known : Bool)
      → has_uid draws.fresh_uid ca.db.users ≡ known
      → IsSound ca
      → let stored = transaction (store_user draws.fresh_uid user_pub cert draws.iso) ca in
        IsSound (resume stored.0 (λ _. grant authority draws csr user_pub) stored.1).1
  unfolding store_user
  stored-IsSound csr cert user_pub ca true e h = rw e h
  stored-IsSound csr cert user_pub ca false e h = rw e (
      grant-IsSound csr user_pub _ (record {
        unique_users = UniqueUsers-append ca.db.users _ e h.unique_users;
        unique_tokens = h.unique_tokens;
        covered = All-append _ ca.db.users _ h.covered (omega arith, tt);
        has_key = h.has_key;
      }))

  register-IsSound :
      (csr : String) (ca : Ca) → IsSound ca → IsSound (register authority draws csr ca).1
  unfolding register
  register-IsSound csr ca h = verified (authority.verify_csr csr)
    where
      verified :
          (user_pub : Option String)
          → IsSound
              (resume
                (or_raise user_pub http_400)
                (λ user_pub.
                  transaction (
                    store_user draws.fresh_uid user_pub
                      (authority.make_x509_certificate csr)
                      draws.iso)
                  >> grant authority draws csr user_pub)
                ca).1
      verified none = h
      verified (some user_pub) =
          stored-IsSound csr (authority.make_x509_certificate csr) user_pub ca _ refl h

  -- Every request, also one that raises, leaves the tables and the group key sound: no two users
  -- with one uid, no two tokens with one id, no quota above the number of tokens issued to its uid,
  -- and a group key exactly if somebody registered.
  pub serve-IsSound : (request : Request) (ca : Ca) → IsSound ca → IsSound (serve request ca)
  unfolding serve blind_sign timestamp reveal_identity
  serve-IsSound (register_request csr) ca h = register-IsSound csr ca h
  serve-IsSound (tokens_request uid count) ca h = tokens-IsSound uid count ca h
  serve-IsSound (blind_sign_request uid blinded) ca h = ground (arith, h)
  serve-IsSound (timestamp_request delta) ca h = ground (arith, h)
  serve-IsSound (leave_request uid) ca h = leave-IsSound uid ca h
  serve-IsSound (reveal_request req) ca h = h
