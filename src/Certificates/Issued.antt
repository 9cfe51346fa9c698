-- ===== src/Certificates/Issued.antt =====
-- From a peer's request to the certificate that everybody can verify.
use onyx_p2p_auction_system.Base.{ℕ, String, true, some, ◌≡◌, refl}
use onyx_p2p_auction_system.Base.Exec.{ok}
use onyx_p2p_auction_system.Certificates.{
  X509, Csr, Certificate, checked_csr, verify_csr, create_x509_csr, signed_request,
  signed_certificate, make_x509_certificate, verify_certificate, details, inspect_certificate,
}

-- What the package promises of texts and keys: base64 loses nothing, and a signature verifies under
-- the public key of the key that made it.
pub record IsFaithful (x509 : X509) : Type 0 where
  pub base64 : (text : String) → x509.b64d (x509.b64e text) ≡ some text
  pub signatures :
      (key text : String) → x509.verify (x509.public_of key) text (x509.sign key text) ≡ true

-- PEM loses nothing of a request, or of a certificate.
abbrev pub KeepsCsr : X509 → Csr → Type 0
KeepsCsr x509 csr = x509.load_pem_x509_csr (x509.csr_pem csr) ≡ some csr

abbrev pub KeepsCertificate : X509 → Certificate → Type 0
KeepsCertificate x509 cert = x509.load_pem_x509_certificate (x509.certificate_pem cert) ≡ some cert

module _ (x509 : X509) (faithful : IsFaithful x509) where
  -- A request verifies, whatever public key was handed over beside the private key.
  pub verify_csr-create :
      (private_key public_key common_name meta_json : String)
      → KeepsCsr x509 (signed_request x509 private_key common_name meta_json)
      → verify_csr x509
          (x509.b64e (create_x509_csr x509 private_key public_key common_name meta_json))
        ≡ ok (signed_request x509 private_key common_name meta_json)
  unfolding verify_csr create_x509_csr checked_csr
  verify_csr-create private_key public_key common_name meta_json keeps =
      rw (faithful.base64, keeps, faithful.signatures) refl

  -- A certificate verifies under the key of the CA that made it, at any time.
  pub verify_certificate-make :
      (csr : Csr) (ca_sk ca_name : String) (serial now later : ℕ)
      → KeepsCertificate x509 (signed_certificate x509 csr ca_sk ca_name serial now later)
      → verify_certificate x509
          (x509.b64e (make_x509_certificate x509 csr ca_sk ca_name serial now later))
          (x509.public_of ca_sk)
        ≡ ok true
  unfolding verify_certificate make_x509_certificate
  verify_certificate-make csr ca_sk ca_name serial now later keeps =
      rw (faithful.base64, keeps, faithful.signatures) refl

-- what is shown of a certificate that the CA made
pub inspect_certificate-make :
    (x509 : X509) (csr : Csr) (ca_sk ca_name : String) (serial now later : ℕ)
    → KeepsCertificate x509 (signed_certificate x509 csr ca_sk ca_name serial now later)
    → inspect_certificate x509 (make_x509_certificate x509 csr ca_sk ca_name serial now later)
      ≡ some (record {
        subject_cn = csr.request.subject;
        full_subject = x509.rfc4514_string csr.request.subject;
        issuer = x509.rfc4514_string ca_name;
        serial_no = serial;
      })
unfolding inspect_certificate make_x509_certificate details
inspect_certificate-make x509 csr ca_sk ca_name serial now later keeps = rw keeps refl
