-- ===== src/Ca/Reveals.antt =====
-- From a peer's sealed identity package to the receipt that another peer accepts.
use onyx_p2p_auction_system.Base.{
  String, Bool, true, false, none, some, ◌≡◌, refl, str_eq, if◌then◌else◌,
}
use onyx_p2p_auction_system.Base.Exec.{ok}
use onyx_p2p_auction_system.Ca.{Ca, Draws, Receipt, Authority}
use onyx_p2p_auction_system.Ca.Hybrid.{
  Primitives, Plain, Wrapper, identity_package, hybrid_encrypt, hybrid_decrypt, open_wrapper,
}
use onyx_p2p_auction_system.Ca.Api.{reveal_identity, opened, signed_receipt, is_bound}
use onyx_p2p_auction_system.Connection.{request_winner_reveal, receipt_checked}

-- The primitives undo each other for the key pair with this public key.
pub record IsPair (primitives : Primitives) (public : String) : Type 0 where
  pub parses : (wrapper : Wrapper) → primitives.loads (primitives.dumps wrapper) ≡ some wrapper
  pub seals :
      (key : String)
      → (ct : String) × (primitives.rsa_seal public key ≡ ok ct)
        × (primitives.rsa_open ct ≡ some key)
  pub deciphers :
      (key nonce : String) (payload : Plain)
      → let (ct, tag) = primitives.gcm_seal key nonce payload in
        primitives.gcm_open key nonce tag ct ≡ some payload

module _ (primitives : Primitives) (public : String) (pair : IsPair primitives public) where
  -- What is encrypted for a public key is what the holder of the private key decrypts.
  pub hybrid_decrypt-hybrid_encrypt :
      (aes_key nonce : String) (payload : Plain)
      → (blob : String) × (hybrid_encrypt primitives aes_key nonce payload public ≡ ok blob)
        × (hybrid_decrypt primitives blob ≡ some payload)
  unfolding hybrid_encrypt hybrid_decrypt open_wrapper
  hybrid_decrypt-hybrid_encrypt aes_key nonce payload =
      let (ct, sealed, read) = pair.seals aes_key in
      let (ciphertext, tag) = primitives.gcm_seal aes_key nonce payload in
      let wrapper : Wrapper = record {
        enc_aes_key = some ct;
        nonce = some nonce;
        tag = some tag;
        ciphertext = some ciphertext;
      } in
      (
        primitives.dumps wrapper,
        rw sealed refl,
        rw (pair.parses wrapper, read, pair.deciphers aes_key nonce payload) refl,
      )

  -- An identity package that a peer sealed for the CA's key is opened again: whoever asks with the
  -- token id that it is bound to gets a receipt with this uid and certificate, whose signature the
  -- client accepts; with another token id the client gets nothing. The CA's state stays as it is.
  pub request_winner_reveal-opens :
      (authority : Authority) (valid : String → String → Bool)
      → ((text : String) → valid text (authority.sign text) ≡ true)
      → (draws : Draws) (ca : Ca) (aes_key nonce uid cert bound asked : String)
      → let payload =
          identity_package (record {
            real_uid = some uid;
            cert_pem_b64 = some cert;
            token_id_bound = some bound;
          }) in
        (blob : String) × (hybrid_encrypt primitives aes_key nonce payload public ≡ ok blob)
        × (request_winner_reveal
              (reveal_identity authority (hybrid_decrypt primitives) draws)
              authority.receipt_text
              valid
              asked
              blob
              ca
            ≡ (
              ok (
                  if str_eq bound asked
                  then some (record {
                    token_id = asked;
                    real_uid = uid;
                    certificate_pem = cert;
                    timestamp = draws.iso;
                  })
                  else none),
              ca,
            ))
  unfolding request_winner_reveal receipt_checked reveal_identity opened signed_receipt is_bound
  request_winner_reveal-opens authority valid genuine draws ca aes_key nonce uid cert bound asked =
      let (blob, sealed, read) = hybrid_decrypt-hybrid_encrypt aes_key nonce (
        identity_package (record {
          real_uid = some uid;
          cert_pem_b64 = some cert;
          token_id_bound = some bound;
        })) in
      (blob, sealed, answers blob read (str_eq bound asked) refl)
    where
      receipt : Receipt
      receipt = record {
        token_id = asked;
        real_uid = uid;
        certificate_pem = cert;
        timestamp = draws.iso;
      }

      answers :
          (blob : String)
          → hybrid_decrypt primitives blob
            ≡ some (
                identity_package (record {
                  real_uid = some uid;
                  cert_pem_b64 = some cert;
                  token_id_bound = some bound;
                }))
          → (same : Bool) → str_eq bound asked ≡ same
          → request_winner_reveal
              (reveal_identity authority (hybrid_decrypt primitives) draws)
              authority.receipt_text
              valid
              asked
              blob
              ca
            ≡ (ok (if same then some receipt else none), ca)
      answers blob read true e = rw (read, e, genuine (authority.receipt_text receipt)) refl
      answers blob read false e = rw (read, e) refl
