-- ===== src/Connection/Tests.antt =====
-- A peer that registers with its own request at a CA without users.
use onyx_p2p_auction_system.Base.{true, false, none, some, [], ◌≡◌, refl, str_eq, str_eq_iff}
use onyx_p2p_auction_system.Base.Exec.{ok}
use onyx_p2p_auction_system.Ca.{Ca, Draws}
use onyx_p2p_auction_system.Ca.Queries.{has_uid, store_user}
use onyx_p2p_auction_system.Ca.Api.{register, grant, ensure_group_key, open_session}
use onyx_p2p_auction_system.Ca.Toys.{toy_authority, toy_seal, toy_secrets, toy-IsSealed}
use onyx_p2p_auction_system.Certificates.{X509, Csr, Certificate, verify_certificate}
use onyx_p2p_auction_system.Certificates.Issued.{IsFaithful}
use onyx_p2p_auction_system.Connection.Restarted.{Splits, run_ca-Splits}
use onyx_p2p_auction_system.Keys.{KeyFiles, Pem, Generated, load_private_and_public_key}
use onyx_p2p_auction_system.Connection.{Enrolled, connect_and_register_to_ca}
use onyx_p2p_auction_system.Connection.Enrols.{IsEnrolled}
use onyx_p2p_auction_system.Connection.Certified.{
  Issuing, issuing_authority, own_request, connect_and_register_to_ca-certified,
}

-- a key is its own public key, and a signature is the signed text under the name of the key
abbrev toy_x509 : Csr → Certificate → X509
toy_x509 csr cert = record {
  b64e = λ text. text;
  b64d = λ text. some text;
  csr_pem = λ csr. "csr";
  load_pem_x509_csr = λ pem. some csr;
  certificate_pem = λ cert. "cert";
  load_pem_x509_certificate = λ pem. some cert;
  public_of = λ key. key;
  tbs_certrequest_bytes = λ request. request.public_key;
  tbs_certificate_bytes = λ body. body.public_key;
  sign = λ key text. text;
  verify = λ key text signature. str_eq text signature;
  rfc4514_string = λ name. name;
}

abbrev peer_request : Csr
peer_request = record {
  request = record { subject = "AnonymousPeer"; public_key = "k3"; metadata = "{}" };
  signature = "k3";
}

abbrev peer_certificate : Certificate
peer_certificate = record {
  body = record {
    subject = "AnonymousPeer";
    issuer = "Auction CA";
    public_key = "k3";
    serial_number = 5;
    not_valid_before = 100;
    not_valid_after = 15552101;
    authority = false;
  };
  signature = "k3";
}

abbrev x509 : X509
x509 = toy_x509 peer_request peer_certificate

x509-IsFaithful : IsFaithful x509
x509-IsFaithful = record {
  base64 = λ text. refl;
  signatures = λ key text. (str_eq_iff text text).1 refl;
}

abbrev issuing : Issuing
issuing = record { ca_sk = "ca"; serial_number = 5; now = 100; later = 101 }

abbrev empty_service : Ca
empty_service = record {
  db = record { users = []; tokens = [] };
  key_group = none;
  key_group_bool = false;
  peer_sessions = [];
}

abbrev first_draws : Draws
first_draws = record {
  now = 100;
  iso = "t1";
  fresh_uid = "u1";
  fresh_token = λ i. ("a", "t1");
  fresh_group_key = "new";
  fresh_session_key = "s1";
}

connect_and_register_to_ca-certified_example :
    let issuer = issuing_authority x509 issuing toy_authority in
    let csr = own_request x509 "k3" "pub" "{}" in
    (enrolled : Enrolled) × (after : Ca) × (connect_and_register_to_ca true
        (some csr)
        (register issuer first_draws)
        (toy_secrets "k3")
        empty_service
      ≡ (ok (some enrolled), after))
    × IsEnrolled first_draws (issuer.make_x509_certificate csr) empty_service after enrolled
    × (verify_certificate x509 (x509.b64e enrolled.cert_pem) "ca" ≡ ok true)
unfolding has_uid toy_authority
connect_and_register_to_ca-certified_example =
    connect_and_register_to_ca-certified x509 x509-IsFaithful issuing toy_authority toy_secrets
      toy-IsSealed first_draws "k3" "pub" "{}" empty_service refl tt refl refl

abbrev second_draws : Draws
second_draws = record first_draws {
  iso = "t2";
  fresh_uid = "u2";
  fresh_group_key = "newer";
  fresh_session_key = "s2";
}

-- a PEM text is the name of a key
abbrev toy_pem : Pem
toy_pem = record {
  load_pem_private_key = λ text. some text;
  load_pem_public_key = λ text. some text;
  is_rsa = λ key. true;
}

abbrev toy_pair : Generated
toy_pair = record { private_pem = "ca"; public_pem = "ca_pub" }

abbrev no_files : KeyFiles
no_files = record { private_file = none; public_file = none }

abbrev written_files : KeyFiles
written_files = record { private_file = some "ca"; public_file = some "ca_pub" }

toy_files-load : load_private_and_public_key toy_pem written_files ≡ ok ("ca", "ca_pub")
unfolding load_private_and_public_key
toy_files-load = refl

run_ca-Splits_example :
    let out =
      connect_and_register_to_ca true
        (some "k3")
        (register toy_authority first_draws)
        (toy_secrets "k3")
        empty_service in
    Splits toy_pem toy_pair no_files toy_authority toy_secrets first_draws second_draws "k4" "k4"
      empty_service out
unfolding has_uid toy_authority connect_and_register_to_ca register grant ensure_group_key
    open_session store_user toy_seal
run_ca-Splits_example =
    run_ca-Splits toy_pem toy_pair no_files "ca" "ca_pub" toy_files-load toy_authority toy_secrets
      (λ key. key) toy-IsSealed first_draws second_draws "k3" "k3" "k4" "k4" empty_service refl refl
      refl tt refl
