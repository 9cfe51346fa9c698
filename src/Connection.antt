-- ===== src/Connection.antt =====
-- client/ca_handler/ca_connection.py: how a peer registers, and how it asks for a winner's identity.
-- The requests are run on a state that the CA keeps.
pub mod Enrols
pub mod Certified
pub mod Restarted
mod Tests
use onyx_p2p_auction_system.Base.{ℕ, String, Bool, true, false, Option, none, some, if◌then◌else◌}
use onyx_p2p_auction_system.Base.Exec.{Exec, Result, ok, raised, pure}
use onyx_p2p_auction_system.Ca.{Receipt}
use onyx_p2p_auction_system.Ca.Api.{Registered, RevealReq}

-- the JSON object that the CA encrypts for a new peer
pub record Secrets : Type 0 where
  pub group_key : String
  pub session_key : String

-- the dictionary that is returned, and what becomes of `client.ca_session_key`
pub record Enrolled : Type 0 where
  pub uid : String
  pub cert_pem : String
  pub group_key : String
  pub token_quota : ℕ
  pub ca_session_key : String

opened : Registered → Option Secrets → Option Enrolled
opened response none = none
opened response (some secrets) = some (record {
  uid = response.uid;
  cert_pem = response.cert_pem;
  group_key = secrets.group_key;
  token_quota = response.token_quota;
  ca_session_key = secrets.session_key;
})

module _ {S : Type 0} where
  accepted : (String → Option Secrets) → Result Registered × S → Result (Option Enrolled) × S
  unfolding opened
  accepted decrypt (raised error, s) = (ok none, s)
  accepted decrypt (ok response, s) = (ok (opened response (decrypt response.encrypted_secrets)), s)

  submitted :
      (String → Exec S Registered)
      → (String → Option Secrets)
      → Option String
      → Exec S (Option Enrolled)
  unfolding accepted
  submitted post decrypt none s = (ok none, s)
  submitted post decrypt (some csr_pem) s = accepted decrypt (post csr_pem s)

  -- `none` is `sys.exit(1)`; the arguments are whether the health check passes, what
  -- `create_x509_csr` gives, POST /register, and the decryption of the secrets.
  pub connect_and_register_to_ca :
      Bool
      → Option String
      → (String → Exec S Registered)
      → (String → Option Secrets)
      → Exec S (Option Enrolled)
  unfolding submitted
  connect_and_register_to_ca online csr post decrypt s =
      if online then submitted post decrypt csr s else (ok none, s)

  unfoldable pub receipt_checked :
      (Receipt → String)
      → (String → String → Bool)
      → Result (Receipt × String) × S
      → Result (Option Receipt) × S
  receipt_checked text valid (raised error, s) = (ok none, s)
  receipt_checked text valid (ok (receipt_data, signature), s) =
      (ok (if valid (text receipt_data) signature then some receipt_data else none), s)

  -- POST /reveal_identity, the JSON text of a receipt and the check of a signature; every exception
  -- is answered with None
  unfoldable pub request_winner_reveal :
      (RevealReq → Exec S (Receipt × String))
      → (Receipt → String)
      → (String → String → Bool)
      → String
      → String
      → Exec S (Option Receipt)
  unfolding receipt_checked
  request_winner_reveal post text valid token_id encrypted_identity_blob s =
      receipt_checked text valid (
        post (record { encrypted_identity = encrypted_identity_blob; token_id_disputed = token_id })
          s)
