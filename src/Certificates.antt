-- ===== src/Certificates.antt =====
-- crypto/certificates/certificates.py: requests for certificates, the certificates that the CA makes
-- of them, and their verification. The objects of the package `cryptography` are records; PEM, base64
-- (crypto/encoding/b64.py) and the signatures are taken from outside.
pub mod Issued
use onyx_p2p_auction_system.Base.{
  ℕ, ◌+◌, ◌*◌, String, Bool, true, false, Option, none, some, List, [], ◌∷◌, if◌then◌else◌,
}
use onyx_p2p_auction_system.Base.Exec.{Result, ok, raised, bind_result, or_raise, value_error}

-- what a request has signed, and its signature
pub record Request : Type 0 where
  pub subject : String
  pub public_key : String
  pub metadata : String

pub record Csr : Type 0 where
  pub request : Request
  pub signature : String

-- what a certificate has signed, and its signature; `authority` is BasicConstraints' `ca`
pub record Body : Type 0 where
  pub subject : String
  pub issuer : String
  pub public_key : String
  pub serial_number : ℕ
  pub not_valid_before : ℕ
  pub not_valid_after : ℕ
  pub authority : Bool

pub record Certificate : Type 0 where
  pub body : Body
  pub signature : String

pub record X509 : Type 0 where
  -- `b64e` and `b64d`
  pub b64e : String → String
  pub b64d : String → Option String
  -- `public_bytes` in PEM, and the loaders, `none` where they raise
  pub csr_pem : Csr → String
  pub load_pem_x509_csr : String → Option Csr
  pub certificate_pem : Certificate → String
  pub load_pem_x509_certificate : String → Option Certificate
  -- the public key of a private key, and RSA signatures with PKCS1v15 and SHA-256 of the bytes to be
  -- signed
  pub public_of : String → String
  pub tbs_certrequest_bytes : Request → String
  pub tbs_certificate_bytes : Body → String
  pub sign : String → String → String
  pub verify : String → String → String → Bool
  -- the RFC 4514 text of a name with this common name
  pub rfc4514_string : String → String

module _ (x509 : X509) where
  open x509 use {
    b64d, csr_pem, load_pem_x509_csr, certificate_pem, load_pem_x509_certificate, public_of,
    tbs_certrequest_bytes, tbs_certificate_bytes, sign, verify, rfc4514_string,
  }

  checked_csr : Csr → Result Csr
  checked_csr csr =
      if verify csr.request.public_key (tbs_certrequest_bytes csr.request) csr.signature
      then ok csr
      else raised value_error

  unfoldable pub verify_csr : String → Result Csr
  unfolding checked_csr
  verify_csr csr_pem_b64 =
      bind_result (or_raise (b64d csr_pem_b64) value_error)
        λ pem. bind_result (or_raise (load_pem_x509_csr pem) value_error) λ csr. checked_csr csr

  -- The argument `public_key` is not used: the builder takes that of the private key.
  -- what the builder signs: it takes the public key of the private key
  abbrev pub signed_request : String → String → String → Csr
  signed_request private_key common_name meta_json =
      let request : Request = record {
        subject = common_name;
        public_key = public_of private_key;
        metadata = meta_json;
      } in
      record { request = request; signature = sign private_key (tbs_certrequest_bytes request) }

  -- the argument `public_key` is not used
  unfoldable pub create_x509_csr : String → String → String → String → String
  create_x509_csr private_key public_key common_name meta_json =
      csr_pem (signed_request private_key common_name meta_json)

  -- `timedelta(days=180)` in seconds
  abbrev pub validity : ℕ
  validity = 180 * 86400

  -- the arguments behind the names are `random_serial_number()` and the two calls of `utcnow()`
  abbrev pub signed_certificate : Csr → String → String → ℕ → ℕ → ℕ → Certificate
  signed_certificate csr ca_sk ca_subject_name serial_number now later =
      let body : Body = record {
        subject = csr.request.subject;
        issuer = ca_subject_name;
        public_key = csr.request.public_key;
        serial_number = serial_number;
        not_valid_before = now;
        not_valid_after = later + validity;
        authority = false;
      } in
      record { body = body; signature = sign ca_sk (tbs_certificate_bytes body) }

  unfoldable pub make_x509_certificate : Csr → String → String → ℕ → ℕ → ℕ → String
  make_x509_certificate csr ca_sk ca_subject_name serial_number now later =
      certificate_pem (signed_certificate csr ca_sk ca_subject_name serial_number now later)

  unfoldable pub verify_certificate : String → String → Result Bool
  verify_certificate cert_pem_b64 ca_pub =
      bind_result (or_raise (b64d cert_pem_b64) value_error) λ pem.
        bind_result (or_raise (load_pem_x509_certificate pem) value_error)
          λ cert. ok (verify ca_pub (tbs_certificate_bytes cert.body) cert.signature)

  -- what `inspect_certificate` prints; no certificate has alternative names
  pub record Shown : Type 0 where
    pub subject_cn : String
    pub full_subject : String
    pub issuer : String
    pub serial_no : ℕ

  details : Option Certificate → Option Shown
  details none = none
  details (some cert) = some (record {
    subject_cn = cert.body.subject;
    full_subject = rfc4514_string cert.body.subject;
    issuer = rfc4514_string cert.body.issuer;
    serial_no = cert.body.serial_number;
  })

  -- nothing but an error message where the bytes are no certificate
  unfoldable pub inspect_certificate : String → Option Shown
  unfolding details
  inspect_certificate cert_raw = details (load_pem_x509_certificate cert_raw)
