-- ===== src/Ca/Tests.antt =====
-- Runs of a CA with stand-ins for the cryptography.
use onyx_p2p_auction_system.Base.{
  Bool, List, ◌⊎◌, ℕ, zero, suc, String, true, false, none, some, [], ◌∷◌, ◌≡◌, refl, arith,
  str_eq_iff,
}
use onyx_p2p_auction_system.Base.Int.{ℤ}
use onyx_p2p_auction_system.Base.Exec.{ok}
use onyx_p2p_auction_system.Number.{zero_value}
use onyx_p2p_auction_system.Event.{Stamp}
use onyx_p2p_auction_system.Token.{PublicKey, blind, unblind, verify}
use onyx_p2p_auction_system.Token.Letters.{letter_encoding, letter-IsCodec, small-IsKeyPair}
use onyx_p2p_auction_system.Peer.Toys.{stamped_now, toy, time_of}
use onyx_p2p_auction_system.Peer.Process.{takes_lead, verify_timestamp_signature}
use onyx_p2p_auction_system.Connection.{request_winner_reveal}
use onyx_p2p_auction_system.Ca.{User, Ca, Draws}
use onyx_p2p_auction_system.Ca.Queries.{
  user_exists, has_uid, has_token, insert_token, increment_token_quota, add_quota,
}
use onyx_p2p_auction_system.Ca.Hybrid.{identity_package, hybrid_encrypt, hybrid_decrypt}
use onyx_p2p_auction_system.Ca.Api.{
  insert_tokens, issue, issue_tokens, blind_sign, timestamp, reveal_identity,
}
use onyx_p2p_auction_system.Ca.Issue.{AllOrNothing, issue_tokens-atomic}
use onyx_p2p_auction_system.Ca.Sound.{IsSound, serve, tokens_request, serve-IsSound}
use onyx_p2p_auction_system.Ca.Race.{
  Run, tests, reads, got, interleave, not_registered, interleave-keys,
}
use onyx_p2p_auction_system.Ca.Signs.{blind_sign-unmetered, timestamp-backdated}
use onyx_p2p_auction_system.Ca.Reveals.{request_winner_reveal-opens}
use onyx_p2p_auction_system.Ca.Toys.{toy_authority, toy_primitives, toy-IsPair}

abbrev user_of : String → String → User
user_of uid pem = record {
  uid = uid;
  user_pub_pem = pem;
  csr_pem = pem;
  cert_pem = "cert";
  created_at = "t0";
  token_quota = 0;
}

-- two users, and no token yet
abbrev service : Ca
service = record {
  db = record { users = user_of "u1" "key" ∷ user_of "u2" "other" ∷ []; tokens = [] };
  key_group = some "group";
  key_group_bool = true;
  peer_sessions = [];
}

-- the same tables behind a restart
abbrev restarted : Ca
restarted = record service { key_group = none; key_group_bool = false }

token_ids : ℕ → String × String
token_ids zero = ("a", "t1")
token_ids (suc zero) = ("b", "t1")
token_ids (suc (suc n)) = ("c", "t1")

abbrev fresh : Draws
fresh = record {
  now = 100;
  iso = "t1";
  fresh_uid = "u3";
  fresh_token = token_ids;
  fresh_group_key = "new";
  fresh_session_key = "s3";
}

issued_two : (issue_tokens fresh "u2" 2 service).0 ≡ ok ("a" ∷ "b" ∷ [])
unfolding issue_tokens token_ids user_exists has_uid insert_tokens insert_token issue has_token
    increment_token_quota add_quota
issued_two = refl

service-IsSound : IsSound service
unfolding has_uid
service-IsSound = record {
  unique_users = (refl, (refl, tt));
  unique_tokens = tt;
  covered = (omega arith, (omega arith, tt));
  has_key = tt;
}

serve-IsSound_example :
    IsSound
      (serve toy_authority (hybrid_decrypt toy_primitives) fresh (tokens_request "u2" 2) service)
serve-IsSound_example =
    serve-IsSound toy_authority (hybrid_decrypt toy_primitives) fresh (tokens_request "u2" 2)
      service service-IsSound

issue_tokens-atomic_example : AllOrNothing "u2" 2 service (issue_tokens fresh "u2" 2 service)
issue_tokens-atomic_example = issue_tokens-atomic fresh "u2" 2 service tt

blind_sign-unmetered_example :
    let key : PublicKey = record { n = 15; e = 3 } in
    (reply : String) × (sig : String) × (blind_sign toy_authority "u2"
        (blind letter_encoding key "t" 7).0
        service
      ≡ (ok reply, service))
    × (unblind letter_encoding key reply 7 ≡ ok sig)
    × (verify letter_encoding key "t" sig ≡ ok true)
unfolding toy_authority user_exists has_uid
blind_sign-unmetered_example =
    blind_sign-unmetered toy_authority 3 (omega arith) letter-IsCodec small-IsKeyPair service "u2"
      "t" 7 refl (13, refl)

timestamp-backdated_example :
    (delta : ℤ) × (stamp : Stamp) × (timestamp toy_authority fresh (some delta) service
      ≡ (ok stamp, service))
    × (verify_timestamp_signature toy.pss_valid (some stamp) ≡ true)
    × (takes_lead time_of (some zero_value) (some zero_value) (some stamped_now) (some stamp)
        ≡ ok true)
unfolding toy_authority
timestamp-backdated_example =
    timestamp-backdated toy_authority toy.pss_valid time_of (λ text. refl)
      (λ text e. ground (arith, (str_eq_iff "sig" "").1 e)) fresh service 5 "t5" zero_value
      stamped_now "now" 5 refl (λ e. ground (arith, (str_eq_iff "t5" "").1 e)) refl refl refl
      (omega arith)

request_winner_reveal-opens_example :
    let payload =
      identity_package
        (record { real_uid = some "u2"; cert_pem_b64 = some "cert"; token_id_bound = some "t" }) in
    (blob : String) × (hybrid_encrypt toy_primitives "k" "n" payload "ca" ≡ ok blob)
    × (request_winner_reveal
          (reveal_identity toy_authority (hybrid_decrypt toy_primitives) fresh)
          toy_authority.receipt_text
          toy.pss_valid
          "t"
          blob
          service
        ≡ (
          ok (
              some (record {
                token_id = "t";
                real_uid = "u2";
                certificate_pem = "cert";
                timestamp = "t1";
              })),
          service,
        ))
request_winner_reveal-opens_example =
    request_winner_reveal-opens toy_primitives "ca" toy-IsPair toy_authority toy.pss_valid
      (λ text. refl) fresh service "k" "n" "u2" "cert" "t" "t"

interleave-keys_example :
    let settled : Run = record {
      one = tests "b";
      two = tests "c";
      shared = record { key_group_bool = true; key_group = some "a" };
    } in
    let both : Run = record { one = tests "b"; two = tests "c"; shared = not_registered } in
    let second = (interleave (false ∷ []) settled).two in
    ((second ≡ tests "c") ⊎ ((second ≡ reads) ⊎ (second ≡ got (some "a"))))
    × ((unlucky : List Bool) × (interleave unlucky both ≡ record {
      one = got (some "b");
      two = got (some "c");
      shared = record { key_group_bool = true; key_group = some "c" };
    }))
    × ((early : List Bool) × ((interleave early both).two ≡ got none))
interleave-keys_example = interleave-keys "a" "b" "c" (false ∷ [])
