-- ===== src/Peer.antt =====
-- client/client_state.py and what every handler of a peer shares: the state, the messages, and what
-- is taken from outside (the cryptography package, the CA's answers, clocks, random numbers).
pub mod Tokens
pub mod Sync
pub mod Reveal
pub mod Process
pub mod Status
pub mod Commands
pub mod Toys
use onyx_p2p_auction_system.Base.{
  ℕ, String, Bool, true, false, Option, none, some, List, [], ◌∷◌, ◌++◌, ⊤,
}
use onyx_p2p_auction_system.Base.Exec.{Exec, Result, ok, modify}
use onyx_p2p_auction_system.Event.{Event, Stamp, Token, AuctionKey}
use onyx_p2p_auction_system.Ledger.{Content, Ledger, LedgerFile}
use onyx_p2p_auction_system.Auctions.{Auctions}
use onyx_p2p_auction_system.Wallet.{WalletFile}
use onyx_p2p_auction_system.Token.{Encoding, PublicKey}

-- {"nonce", "ciphertext", "tag"} of `encrypt_message_symmetric_gcm`
pub record Sealed : Type 0 where
  pub nonce : String
  pub ciphertext : String
  pub tag : String

-- the JSON object that "private_info" hides
pub record Private : Type 0 where
  pub token_winner_bid_id : Option String
  pub token_auction_id : Option String
  pub blinding_factor_r : Option ℕ
  pub certificate : Option String

-- A message: the event that a block may keep, and the keys that only handlers read.
pub record Message : Type 0 where
  pub event : Event
  pub open event use *
  pub ledger : Option Ledger
  pub request_id : Option ℕ
  pub deal_key : Option String
  pub private_info : Option Sealed
  pub encrypted_keys : Option (List String)

abbrev pub message : Event → Message
message event = record {
  event = event;
  ledger = none;
  request_id = none;
  deal_key = none;
  private_info = none;
  encrypted_keys = none;
}

-- what was handed to `send_to_peers`: the message and the group key that it was encrypted with
pub data Sent : Type 0 where
  sent : String → Message → Sent

pub record Client : Type 0 where
  pub uuid : String
  pub cert_pem : String
  pub private_key : String
  pub group_key : String
  pub wallet : WalletFile
  pub ledger_request_id : Option ℕ
  pub ledger : Ledger
  pub ledger_file : LedgerFile
  pub auctions : Auctions
  pub outbox : List Sent

-- Fixed functions from outside.
pub record Library : Type 0 where
  pub encoding : Encoding
  -- the numbers of `ca_pub_pem`
  pub ca_key : PublicKey
  pub digest : Content → String
  -- RSA-PSS verification of a base64 signature of a text under the CA's key
  pub pss_valid : String → String → Bool
  -- `datetime.fromisoformat`
  pub iso_time : String → Option ℕ
  -- `datetime.fromtimestamp(...).strftime(...)`, `none` out of range
  pub local_date : ℕ → Option String
  -- AES-GCM of the JSON text of a payload: key, nonce; ciphertext and tag
  pub gcm_seal : String → String → Private → String × String
  pub gcm_open : String → String → String → String → Option Private
  -- `encrypt_with_public_key` then `b64e`; `b64d` then `decrypt_with_private_key`
  pub rsa_encrypt : String → String → Option String
  pub rsa_decrypt : String → String → Option String
  -- `hybrid_encrypt` of the identity package: uid, certificate, bound token id, nonce
  pub seal_identity : String → String → String → String → String
  -- `b64e` and `b64d` of a certificate; whether `inspect_certificate` returns
  pub cert_encode : String → String
  pub cert_decode : String → Option String
  pub cert_readable : String → Bool
  -- POST /blind_sign
  pub ca_sign : String → Result String

-- What one run of a handler reads from clocks, random numbers and the CA.
pub record Inputs : Type 0 where
  -- `int(time.time())` and `datetime.utcnow().isoformat()`
  pub now : ℕ
  pub utc : String
  -- whether POST /tokens succeeds
  pub quota_granted : Bool
  -- `secrets.token_hex(16)` and `generate_blinding_factor()` of `get_token`
  pub fresh_token_id : String
  pub fresh_r : ℕ
  -- `get_valid_timestamp()`, in `_save_to_wallet` and in the handler
  pub wallet_stamp : Option Stamp
  pub stamp : Option Stamp
  -- `generate_aes_key()`, nonces, `random.randint`, `generate_key_pair()`
  pub fresh_key : String
  pub fresh_nonce : String
  pub identity_nonce : String
  pub random_id : ℕ
  pub fresh_private_key : String
  pub fresh_public_key : String

-- `send_to_peers(encrypt_message_symmetric_gcm(json.dumps(m), group_key), connections)`
abbrev pub send : Message → Exec Client ⊤
send m = modify λ client. record client { outbox = client.outbox ++ sent client.group_key m ∷ [] }

-- code that works on the peer's dictionaries
abbrev pub on_auctions {ℓ} : {A : Type ℓ} → Exec Auctions A → Exec Client A
on_auctions m client =
    let (r, auctions) = m client.auctions in (r, record client { auctions = auctions })
