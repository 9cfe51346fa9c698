-- ===== src/Connection/Enrols.antt =====
-- Registration between a peer and the CA.
use onyx_p2p_auction_system.Base.{
  String, Bool, true, false, Option, none, some, [], ◌∷◌, ◌++◌, ◌≡◌, refl, arith, str_eq_iff,
}
use onyx_p2p_auction_system.Base.Dict
use onyx_p2p_auction_system.Base.Exec.{Result, ok}
use onyx_p2p_auction_system.Ca.{text_instance, Ca, User, Draws, Authority}
use onyx_p2p_auction_system.Ca.Queries.{has_uid, user_exists, store_user}
use onyx_p2p_auction_system.Ca.Rows.{has_uid-append}
use onyx_p2p_auction_system.Ca.Sound.{HasKey}
use onyx_p2p_auction_system.Ca.Api.{register, grant, ensure_group_key, open_session}
use onyx_p2p_auction_system.Connection.{
  Secrets, Enrolled, connect_and_register_to_ca, submitted, accepted, opened,
}

-- The secrets are encrypted for a public key and decrypted with the private key.
pub record IsSealed (seal : String → String → String → Result String)
    (decrypt : String → String → Option Secrets) (public : String → String) : Type 0 where
  pub seals :
      (sk group session : String) → (blob : String) × (seal (public sk) group session ≡ ok blob)
  pub opens :
      (sk group session blob : String)
      → seal (public sk) group session ≡ ok blob
      → decrypt sk blob ≡ some (record { group_key = group; session_key = session })

-- the group key of the CA, or a new one where it has none
unfoldable pub held_or : String → Option String → String
held_or fresh none = fresh
held_or fresh (some key) = key

-- What the CA and a peer share behind the registration.
pub record IsEnrolled (draws : Draws) (certificate : String) (ca after : Ca) (enrolled : Enrolled)
    : Type 0 where
  pub certified : enrolled.cert_pem ≡ certificate
  pub current : after.key_group ≡ some enrolled.group_key
  pub lasting : enrolled.group_key ≡ held_or draws.fresh_group_key ca.key_group
  pub session : Dict.lookup enrolled.uid after.peer_sessions ≡ some enrolled.ca_session_key
  pub known : user_exists after.db enrolled.uid ≡ true
  pub no_quota : enrolled.token_quota ≡ 0

module _ (authority : Authority) (decrypt : String → String → Option Secrets)
    (public : String → String) (sealed : IsSealed authority.seal_secrets decrypt public) where
  -- A peer that reaches a CA whose group key is there exactly if somebody registered, with a request
  -- that verifies and a new uid, is enrolled: it gets the CA's group key, which is the old one if
  -- there was one, a session key that the CA keeps for its uid, the certificate that is made of its
  -- request, a row in `users` and no quota.
  pub connect_and_register_to_ca-IsEnrolled :
      (draws : Draws) (sk csr : String) (ca : Ca)
      → authority.verify_csr csr ≡ some (public sk)
      → has_uid draws.fresh_uid ca.db.users ≡ false
      → HasKey ca.key_group_bool ca.key_group
      → (enrolled : Enrolled) × (after : Ca) × (connect_and_register_to_ca true
            (some csr)
            (register authority draws)
            (decrypt sk)
            ca
          ≡ (ok (some enrolled), after))
        × IsEnrolled draws (authority.make_x509_certificate csr) ca after enrolled
  unfolding connect_and_register_to_ca submitted accepted opened register grant ensure_group_key
      open_session store_user user_exists held_or
  connect_and_register_to_ca-IsEnrolled draws sk csr ca e new has_key =
      held ca.key_group_bool ca.key_group refl refl has_key
    where
      row : User
      row = record {
        uid = draws.fresh_uid;
        user_pub_pem = public sk;
        csr_pem = public sk;
        cert_pem = authority.make_x509_certificate csr;
        created_at = draws.iso;
        token_quota = 0;
      }

      behind : String → Ca
      behind group = record {
        db = record ca.db { users = ca.db.users ++ row ∷ [] };
        key_group = some group;
        key_group_bool = true;
        peer_sessions = Dict.insert draws.fresh_uid draws.fresh_session_key ca.peer_sessions;
      }

      with_key : String → Enrolled
      with_key group = record {
        uid = draws.fresh_uid;
        cert_pem = authority.make_x509_certificate csr;
        group_key = group;
        token_quota = 0;
        ca_session_key = draws.fresh_session_key;
      }

      shared :
          (group : String)
          → group ≡ held_or draws.fresh_group_key ca.key_group
          → IsEnrolled draws
              (authority.make_x509_certificate csr)
              ca
              (behind group)
              (with_key group)
      shared group lasting = record {
        certified = refl;
        current = refl;
        lasting = lasting;
        session = Dict.lookup-insert_self draws.fresh_uid draws.fresh_session_key ca.peer_sessions;
        known = ground (
          arith,
          has_uid-append draws.fresh_uid ca.db.users row,
          str_eq_iff draws.fresh_uid draws.fresh_uid,
        );
        no_quota = refl;
      }

      held :
          (made : Bool) (group : Option String)
          → ca.key_group_bool ≡ made
          → ca.key_group ≡ group
          → HasKey made group
          → (enrolled : Enrolled) × (after : Ca) × (connect_and_register_to_ca true
                (some csr)
                (register authority draws)
                (decrypt sk)
                ca
              ≡ (ok (some enrolled), after))
            × IsEnrolled draws (authority.make_x509_certificate csr) ca after enrolled
      held false none f g h =
          let (blob, e_blob) = sealed.seals sk draws.fresh_group_key draws.fresh_session_key in
          let opens = sealed.opens sk draws.fresh_group_key draws.fresh_session_key blob e_blob in
          (
            with_key draws.fresh_group_key,
            behind draws.fresh_group_key,
            rw (e, new, f, e_blob, opens) refl,
            shared draws.fresh_group_key (rw g refl),
          )
      held true (some group) f g h =
          let (blob, e_blob) = sealed.seals sk group draws.fresh_session_key in
          let opens = sealed.opens sk group draws.fresh_session_key blob e_blob in
          (
            with_key group,
            behind group,
            rw (e, new, f, g, e_blob, opens) refl,
            shared group (rw g refl),
          )
      held false (some group) f g h = elim h [ ]
      held true none f g h = elim h [ ]
