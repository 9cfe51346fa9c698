-- ===== src/Ca/Api.antt =====
-- ca/ca_api/ca_api.py: the endpoints, with the request models of ca/ca_api/. Each works on the state
-- of the service, with the database's transactions: what is not committed is gone when it raises.
use onyx_p2p_auction_system.Base.{
  ℕ, zero, suc, String, Bool, true, false, ◌&&◌, Option, none, some, List, [], ◌∷◌, leb, str_eq,
  if◌then◌else◌,
}
use onyx_p2p_auction_system.Base.Int.{ℤ, pos, ◌+ℤ◌}
use onyx_p2p_auction_system.Base.Dict
use onyx_p2p_auction_system.Base.Exec.{
  Exec, Result, ok, raised, ◌>>=◌, ◌>>◌, pure, lift, gets, modify, bind_result, or_raise, key_error,
  attribute_error, http_404, http_400, http_422, overflow_error,
}
use onyx_p2p_auction_system.Event.{Stamp, blank, new_key}
use onyx_p2p_auction_system.Token.{sign_blinded}
use onyx_p2p_auction_system.Peer.{message, Sent, sent}
use onyx_p2p_auction_system.Ca.{text_instance, Db, Ca, Receipt, Authority, Draws}
use onyx_p2p_auction_system.Ca.Queries.{
  user_exists, insert_token, increment_token_quota, store_user,
  remove_user_and_get_remaining_pubkeys,
}
use onyx_p2p_auction_system.Ca.Hybrid.{Plain, falsy, no_object, identity_package}

-- `RegisterResp`, but for the CA's own public key, with the quota of a new user
pub record Registered : Type 0 where
  pub uid : String
  pub cert_pem : String
  pub encrypted_secrets : String
  pub token_quota : ℕ

-- `RevealReq`; the requester's uid is only logged
pub record RevealReq : Type 0 where
  pub encrypted_identity : String
  pub token_id_disputed : String

abbrev pub commit : {A : Type 0} → Ca → Result A → Db → Result A × Ca
commit ca (raised error) db = (raised error, ca)
commit ca (ok a) db = (ok a, record ca { db = db })

-- queries that end with a commit: when one raises, the transaction is lost
abbrev pub transaction : {A : Type 0} → Exec Db A → Exec Ca A
transaction m ca = commit ca (m ca.db).0 (m ca.db).1

-- part 5 of `register`
unfoldable pub ensure_group_key : String → Ca → Ca
ensure_group_key group_key ca =
    if ca.key_group_bool
    then ca
    else record ca { key_group_bool = true; key_group = some group_key }

unfoldable pub open_session : Draws → Ca → Ca
open_session draws ca = record ca {
  peer_sessions = Dict.insert draws.fresh_uid draws.fresh_session_key ca.peer_sessions;
}

-- the `for` loop, from the i-th draw on
unfoldable pub insert_tokens : (ℕ → String × String) → String → ℕ → ℕ → Exec Db (List String)
insert_tokens fresh uid i zero = pure []
insert_tokens fresh uid i (suc left) = do
  tid ← insert_token (fresh i).0 (fresh i).1 uid
  issued ← insert_tokens fresh uid (suc i) left
  pure (tid ∷ issued)

unfoldable pub issue : Draws → String → ℕ → Exec Db (List String)
unfolding insert_tokens
issue draws uid count = do
  issued ← insert_tokens draws.fresh_token uid 0 count
  increment_token_quota uid count
  pure issued

-- `count: int = Field(ge=1, le=100)`
abbrev pub valid_count : ℕ → Bool
valid_count count = leb 1 count && leb count 100

unfoldable pub issue_tokens : Draws → String → ℕ → Exec Ca (List String)
unfolding issue
issue_tokens draws uid count ca =
    if valid_count count
    then (if user_exists ca.db uid
        then transaction (issue draws uid count) ca
        else (raised http_404, ca))
    else (raised http_422, ca)

module _ (authority : Authority) where
  open authority use {
    encoding, n, d, verify_csr, make_x509_certificate, seal_secrets, rsa_encrypt, sign, iso_at,
    receipt_text,
  }

  -- `register` from part 5 on
  unfoldable pub grant : Draws → String → String → Exec Ca Registered
  grant draws csr_pem_b64 user_pub = do
    modify (ensure_group_key draws.fresh_group_key)
    modify (open_session draws)
    key_group ← gets (λ ca. ca.key_group)
    group_key ← lift (or_raise key_group attribute_error)
    encrypted_blob ← lift (seal_secrets user_pub group_key draws.fresh_session_key)
    pure (record {
      uid = draws.fresh_uid;
      cert_pem = make_x509_certificate csr_pem_b64;
      encrypted_secrets = encrypted_blob;
      token_quota = 0;
    })

  -- What was committed and assigned before an exception stays.
  unfoldable pub register : Draws → String → Exec Ca Registered
  register draws csr_pem_b64 = do
    user_pub ← lift (or_raise (verify_csr csr_pem_b64) http_400)
    transaction (store_user draws.fresh_uid user_pub (make_x509_certificate csr_pem_b64) draws.iso)
    grant draws csr_pem_b64 user_pub

  unfoldable pub blind_sign : String → String → Exec Ca String
  blind_sign uid blinded_token_b64 ca =
      if user_exists ca.db uid
      then (sign_blinded encoding n d blinded_token_b64, ca)
      else (raised http_404, ca)

  unfoldable pub target_time : Draws → Option ℤ → ℤ
  target_time draws none = pos draws.now
  target_time draws (some delta) = pos draws.now +ℤ delta

  unfoldable pub timestamp : Draws → Option ℤ → Exec Ca Stamp
  unfolding target_time
  timestamp draws delta = do
    ts ← lift (or_raise (iso_at (target_time draws delta)) overflow_error)
    pure (record { iso = some ts; signature = some (sign ts) })

  -- the `for` loop of `leave_network`
  unfoldable pub encrypt_for_all : String → List String → Result (List String)
  encrypt_for_all new_group_key [] = ok []
  encrypt_for_all new_group_key (pem ∷ rest) =
      bind_result (rsa_encrypt pem new_group_key) λ ciphertext.
        bind_result (encrypt_for_all new_group_key rest) λ others. ok (ciphertext ∷ others)

  -- `leave_network` behind the queries
  unfoldable pub rotate_group_key : Draws → List String → Exec Ca Sent
  rotate_group_key draws remaining_pub_pems = do
    encrypted_key_list ← lift (encrypt_for_all draws.fresh_group_key remaining_pub_pems)
    key_group ← gets (λ ca. ca.key_group)
    old_key ← lift (or_raise key_group attribute_error)
    modify (λ ca. record ca { key_group = some draws.fresh_group_key })
    pure (
        sent old_key (record (message (record blank { kind = some new_key })) {
          encrypted_keys = some encrypted_key_list;
        }))

  unfoldable pub leave_network : Draws → Option String → Exec Ca Sent
  leave_network draws request = do
    uid ← lift (or_raise request key_error)
    remaining_pub_pems ← transaction (remove_user_and_get_remaining_pubkeys uid)
    rotate_group_key draws remaining_pub_pems

  unfoldable pub signed_receipt :
      Draws → String → Option String → Option String → Result (Receipt × String)
  signed_receipt draws token_id none cert = raised key_error
  signed_receipt draws token_id (some uid) none = raised key_error
  signed_receipt draws token_id (some uid) (some cert) =
      let receipt : Receipt = record {
        token_id = token_id;
        real_uid = uid;
        certificate_pem = cert;
        timestamp = draws.iso;
      } in
      ok (receipt, sign (receipt_text receipt))

  unfoldable pub is_bound : Option String → String → Bool
  is_bound none disputed = false
  is_bound (some bound) disputed = str_eq bound disputed

  unfoldable pub opened : Draws → String → Option Plain → Result (Receipt × String)
  unfolding signed_receipt is_bound
  opened draws disputed none = raised http_400
  opened draws disputed (some falsy) = raised http_400
  opened draws disputed (some no_object) = raised attribute_error
  opened draws disputed (some (identity_package identity)) =
      if is_bound identity.token_id_bound disputed
      then signed_receipt draws disputed identity.real_uid identity.cert_pem_b64
      else raised http_400

  -- the receipt and its signature; `decrypt` is `hybrid_decrypt` with `CA_SK`
  unfoldable pub reveal_identity :
      (String → Option Plain) → Draws → RevealReq → Exec Ca (Receipt × String)
  unfolding opened
  reveal_identity decrypt draws req ca =
      (opened draws req.token_id_disputed (decrypt req.encrypted_identity), ca)
