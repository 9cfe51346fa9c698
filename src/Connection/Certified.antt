-- ===== src/Connection/Certified.antt =====
-- Registration with the requests and certificates of crypto/certificates/certificates.py.
use onyx_p2p_auction_system.Base.{ℕ, String, true, false, Option, none, some, ◌≡◌, ap, ◌∙◌}
use onyx_p2p_auction_system.Base.Exec.{Result, ok, raised}
use onyx_p2p_auction_system.Ca.{Ca, Draws, Authority}
use onyx_p2p_auction_system.Ca.Queries.{has_uid}
use onyx_p2p_auction_system.Ca.Sound.{HasKey}
use onyx_p2p_auction_system.Ca.Api.{register}
use onyx_p2p_auction_system.Certificates.{
  X509, Csr, verify_csr, create_x509_csr, signed_request, signed_certificate, make_x509_certificate,
  verify_certificate,
}
use onyx_p2p_auction_system.Certificates.Issued.{
  IsFaithful, KeepsCsr, KeepsCertificate, verify_csr-create, verify_certificate-make,
}
use onyx_p2p_auction_system.Connection.{Secrets, Enrolled, connect_and_register_to_ca}
use onyx_p2p_auction_system.Connection.Enrols.{
  IsSealed, IsEnrolled, connect_and_register_to_ca-IsEnrolled,
}

-- What the CA's certificates take from outside: its private key, and for each request a serial number
-- and the two readings of the clock.
pub record Issuing : Type 0 where
  pub ca_sk : String
  pub serial_number : ℕ
  pub now : ℕ
  pub later : ℕ

-- `csr.public_key()` of a request that verifies
abbrev pub key_of : Result Csr → Option String
key_of (raised error) = none
key_of (ok csr) = some csr.request.public_key

-- "Auction CA" is the default of `ca_subject_name`
abbrev pub certificate_of : X509 → Issuing → Result Csr → String
certificate_of x509 issuing (raised error) = ""
certificate_of x509 issuing (ok csr) =
    make_x509_certificate x509 csr issuing.ca_sk "Auction CA" issuing.serial_number issuing.now
      issuing.later

-- a CA with the repository's own verification of requests and making of certificates
unfoldable pub issuing_authority : X509 → Issuing → Authority → Authority
issuing_authority x509 issuing authority = record authority {
  verify_csr = λ csr_pem_b64. key_of (verify_csr x509 csr_pem_b64);
  make_x509_certificate = λ csr_pem_b64. certificate_of x509 issuing (verify_csr x509 csr_pem_b64);
}

-- `payload["csr_pem_b64"]`
abbrev pub own_request : X509 → String → String → String → String
own_request x509 private_key public_key meta_json =
    x509.b64e (create_x509_csr x509 private_key public_key "AnonymousPeer" meta_json)

module _ (x509 : X509) (faithful : IsFaithful x509) (issuing : Issuing) (authority : Authority)
    (decrypt : String → String → Option Secrets)
    (sealed : IsSealed authority.seal_secrets decrypt x509.public_of) where
  -- A peer with a new uid that registers with the request that it makes of its private key is
  -- enrolled, and has a certificate that verifies under the public key of the CA.
  pub connect_and_register_to_ca-certified :
      (draws : Draws) (private_key public_key meta_json : String) (ca : Ca)
      → has_uid draws.fresh_uid ca.db.users ≡ false
      → HasKey ca.key_group_bool ca.key_group
      → let request = signed_request x509 private_key "AnonymousPeer" meta_json in
        KeepsCsr x509 request
        → KeepsCertificate x509 (
            signed_certificate x509 request issuing.ca_sk "Auction CA" issuing.serial_number
              issuing.now issuing.later)
        → let issuer = issuing_authority x509 issuing authority in
          let csr = own_request x509 private_key public_key meta_json in
          (enrolled : Enrolled) × (after : Ca) × (connect_and_register_to_ca true
              (some csr)
              (register issuer draws)
              (decrypt private_key)
              ca
            ≡ (ok (some enrolled), after))
          × IsEnrolled draws (issuer.make_x509_certificate csr) ca after enrolled
          × (verify_certificate x509 (x509.b64e enrolled.cert_pem) (x509.public_of issuing.ca_sk)
              ≡ ok true)
  unfolding issuing_authority
  connect_and_register_to_ca-certified draws private_key public_key meta_json ca new has_key keeps
        keeps_certificate =
      let csr = own_request x509 private_key public_key meta_json in
      let made =
        verify_csr-create x509 faithful private_key public_key "AnonymousPeer" meta_json keeps in
      let (enrolled, after, done, is_enrolled) =
        connect_and_register_to_ca-IsEnrolled (issuing_authority x509 issuing authority) decrypt
          x509.public_of sealed draws private_key csr ca (ap key_of made) new has_key in
      (
        enrolled,
        after,
        done,
        is_enrolled,
        ap (λ cert. verify_certificate x509 (x509.b64e cert) (x509.public_of issuing.ca_sk))
              (is_enrolled.certified ∙ ap (certificate_of x509 issuing) made)
            ∙ verify_certificate-make x509 faithful
                (signed_request x509 private_key "AnonymousPeer" meta_json) issuing.ca_sk
                "Auction CA" issuing.serial_number issuing.now issuing.later keeps_certificate,
      )
