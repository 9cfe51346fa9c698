-- ===== src/Ca.antt =====
-- The certificate authority (ca/): its two tables, what a running service holds, and what it takes
-- from outside.
pub mod Queries
pub mod Hybrid
pub mod Api
pub mod Rows
pub mod Issue
pub mod Sound
pub mod Rotation
pub mod Signs
pub mod Race
pub mod Startup
pub mod Reveals
pub mod Toys
mod Tests
use onyx_p2p_auction_system.Base.{ℕ, String, Bool, Option, List, str_eq, str_eq_iff}
use onyx_p2p_auction_system.Base.Eq.{HasEq}
use onyx_p2p_auction_system.Base.Int.{ℤ}
use onyx_p2p_auction_system.Base.Dict.{Dict}
use onyx_p2p_auction_system.Base.Exec.{Result}
use onyx_p2p_auction_system.Token.{Encoding}

instance abbrev pub text_instance : HasEq String
text_instance = record { equals = str_eq; equals_iff = str_eq_iff }

-- A row of the table `users`.
pub record User : Type 0 where
  pub uid : String
  pub user_pub_pem : String
  pub csr_pem : String
  pub cert_pem : String
  pub created_at : String
  pub token_quota : ℕ

-- A row of the table `tokens`.
pub record Issued : Type 0 where
  pub token_id : String
  pub uid : String
  pub issued_at : String
  pub used : ℕ

-- ca.db, the rows in the order in which they were inserted
pub record Db : Type 0 where
  pub users : List User
  pub tokens : List Issued

-- ca.db and `app.state`; without a first registration there is no `KEY_GROUP`.
pub record Ca : Type 0 where
  pub db : Db
  pub key_group : Option String
  pub key_group_bool : Bool
  pub peer_sessions : Dict String String

-- "receipt_data", but for its constant "status"
pub record Receipt : Type 0 where
  pub token_id : String
  pub real_uid : String
  pub certificate_pem : String
  pub timestamp : String

-- The keys `CA_SK` and `CA_VK`, and what is called on them.
pub record Authority : Type 0 where
  pub encoding : Encoding
  -- the numbers n and d of `CA_SK`
  pub n : ℕ
  pub d : ℕ
  -- `verify_csr`: the PEM of the public key of a request that verifies
  pub verify_csr : String → Option String
  -- `make_x509_certificate`, by the request
  pub make_x509_certificate : String → String
  -- `encrypt_with_public_key` of the JSON text of a group key and a session key, in base64
  pub seal_secrets : String → String → String → Result String
  -- `load_pem_public_key`, OAEP encryption and `b64e`
  pub rsa_encrypt : String → String → Result String
  -- RSA-PSS signature by `CA_SK`, in base64
  pub sign : String → String
  -- the ISO text of a time in seconds, `none` out of the range of `datetime`
  pub iso_at : ℤ → Option String
  -- the JSON text of a receipt with sorted keys
  pub receipt_text : Receipt → String

-- What one request reads from clocks and random numbers.
pub record Draws : Type 0 where
  -- `datetime.now` in seconds, `now_iso()`
  pub now : ℕ
  pub iso : String
  -- `uuid.uuid4()` of `register`, and those of `insert_token` with their times
  pub fresh_uid : String
  pub fresh_token : ℕ → String × String
  -- `generate_aes_key()` for the group and for the session
  pub fresh_group_key : String
  pub fresh_session_key : String
