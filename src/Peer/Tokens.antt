-- ===== src/Peer/Tokens.antt =====
-- `TokenManager.get_token` and `verify_token`, and the AES-GCM envelope (crypto/crypt_decrypt/crypt.py
-- and decrypt.py), as the handlers call them.
pub mod Obtained
use onyx_p2p_auction_system.Base.{
  ℕ, String, Bool, true, false, Option, none, some, not, ⊤, if◌then◌else◌,
}
use onyx_p2p_auction_system.Base.Exec.{
  Exec, Result, ok, raised, ◌>>=◌, ◌>>◌, pure, raise, lift, modify, bind_result, or_raise,
  request_error, plain_exception, attribute_error, type_error, value_error,
}
use onyx_p2p_auction_system.Event.{Token}
use onyx_p2p_auction_system.Wallet.{save_to_wallet}
use onyx_p2p_auction_system.Token.{blind, unblind, verify}
use onyx_p2p_auction_system.Peer.{Client, Library, Inputs, Sealed, Private}

module _ (library : Library) where
  open library use {encoding, ca_key, gcm_seal, gcm_open, ca_sign}

  -- the signature that `get_token` unblinds and checks
  unfoldable pub signed_token : Inputs → Result String
  signed_token inputs =
      bind_result (ca_sign (blind encoding ca_key inputs.fresh_token_id inputs.fresh_r).0)
        λ blind_sig_b64.
          bind_result (unblind encoding ca_key blind_sig_b64 inputs.fresh_r) λ token_sig_b64.
            bind_result (verify encoding ca_key inputs.fresh_token_id token_sig_b64)
              λ valid. if valid then ok token_sig_b64 else raised plain_exception

  keep_token : Inputs → String → Exec Client Token
  keep_token inputs token_sig client = (
    ok (record { token_id = some inputs.fresh_token_id; token_sig = some token_sig }),
    record client {
      wallet =
          save_to_wallet inputs.fresh_token_id
            (blind encoding ca_key inputs.fresh_token_id inputs.fresh_r).0 inputs.fresh_r token_sig
            inputs.wallet_stamp client.wallet;
    },
  )

  require_quota : Inputs → Exec Client ⊤
  require_quota inputs = if inputs.quota_granted then pure tt else raise request_error

  unfoldable pub get_token : Inputs → Exec Client Token
  unfolding signed_token keep_token require_quota
  get_token inputs = do
    require_quota inputs
    token_sig ← lift (signed_token inputs)
    keep_token inputs token_sig

  -- A missing id has no `encode`, and a missing signature cannot be decoded.
  unfoldable pub verify_token : Option String → Option String → Result Bool
  verify_token none token_sig_b64 = raised attribute_error
  verify_token (some token_id) none = raised type_error
  verify_token (some token_id) (some token_sig_b64) = verify encoding ca_key token_id token_sig_b64

  unfoldable pub encrypt_message_symmetric_gcm : String → Private → String → Sealed
  encrypt_message_symmetric_gcm nonce payload key =
      let (ciphertext, tag) = gcm_seal key nonce payload in
      record { nonce = nonce; ciphertext = ciphertext; tag = tag }

  unfoldable pub decrypt_message_symmetric_gcm : Option Sealed → String → Result Private
  decrypt_message_symmetric_gcm none key = raised type_error
  decrypt_message_symmetric_gcm (some sealed) key =
      or_raise (gcm_open key sealed.nonce sealed.ciphertext sealed.tag) value_error
