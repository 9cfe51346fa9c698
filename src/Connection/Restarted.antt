-- ===== src/Connection/Restarted.antt =====
-- Peers that register before and behind a restart of the CA.
use onyx_p2p_auction_system.Base.{String, true, false, Option, some, ◌≡◌, refl, ap, sym, subst, ◌∙◌}
use onyx_p2p_auction_system.Base.Exec.{Result, ok}
use onyx_p2p_auction_system.Ca.{Ca, Draws, Authority}
use onyx_p2p_auction_system.Ca.Queries.{has_uid, user_exists}
use onyx_p2p_auction_system.Ca.Sound.{HasKey}
use onyx_p2p_auction_system.Ca.Api.{register}
use onyx_p2p_auction_system.Ca.Startup.{Service, init_db, fresh_ca, run_ca}
use onyx_p2p_auction_system.Keys.{KeyFiles, Pem, Generated, load_private_and_public_key}
use onyx_p2p_auction_system.Keys.Persist.{files_after, prepare_key_pair_generation-lasts}
use onyx_p2p_auction_system.Connection.{Secrets, Enrolled, connect_and_register_to_ca}
use onyx_p2p_auction_system.Connection.Enrols.{
  IsSealed, IsEnrolled, held_or, connect_and_register_to_ca-IsEnrolled,
}

module _ (pem : Pem) (made : Generated) (files : KeyFiles) (authority : Authority)
    (decrypt : String → String → Option Secrets) (old new : Draws) (sk2 csr2 : String) where
  -- how a registration at `ca` and one behind a restart end, `out` being the end of the first
  abbrev pub Splits : Ca → Result (Option Enrolled) × Ca → Type 0
  Splits ca (r1, before) =
      let (started, kept) = run_ca pem made (some before.db) files in
      (service : Service) × (started ≡ ok service)
      × let (r2, after) =
          connect_and_register_to_ca true (some csr2) (register authority new) (decrypt sk2)
            service.ca in
        (first second : Enrolled) × (r1 ≡ ok (some first))
        × (r2 ≡ ok (some second))
        × (user_exists service.ca.db first.uid ≡ true)
        × (first.group_key ≡ held_or old.fresh_group_key ca.key_group)
        × (second.group_key ≡ new.fresh_group_key)
        × (after.key_group ≡ some new.fresh_group_key)

module _ (pem : Pem) (made : Generated) (files : KeyFiles) (ca_sk ca_vk : String)
    (loads : load_private_and_public_key pem
        (files_after pem made made files.private_file files.public_file)
      ≡ ok (ca_sk, ca_vk)) where
  -- A start with key files that can be read gives the service its keys, the rows that there were,
  -- and neither a group key nor sessions.
  run_ca-fresh :
      (ca : Ca)
      → run_ca pem made (some ca.db) files ≡ (
        ok (record { ca_sk = ca_sk; ca_vk = ca_vk; ca = fresh_ca ca.db }),
        files_after pem made made files.private_file files.public_file,
      )
  unfolding run_ca init_db fresh_ca
  run_ca-fresh ca = rw ((prepare_key_pair_generation-lasts pem made made files).0, loads) refl

  module _ (authority : Authority) (decrypt : String → String → Option Secrets)
      (public : String → String) (sealed : IsSealed authority.seal_secrets decrypt public)
      (old new : Draws) (sk1 csr1 sk2 csr2 : String) where
    Splits-enrolled :
        (ca : Ca) (first : Enrolled) (before : Ca)
        → authority.verify_csr csr2 ≡ some (public sk2)
        → IsEnrolled old (authority.make_x509_certificate csr1) ca before first
        → has_uid new.fresh_uid before.db.users ≡ false
        → Splits pem made files authority decrypt old new sk2 csr2 ca (ok (some first), before)
    unfolding fresh_ca held_or
    Splits-enrolled ca first before verifies enrolled fresh =
        let (second, after, e2, enrolled2) =
          connect_and_register_to_ca-IsEnrolled authority decrypt public sealed new sk2 csr2
            (fresh_ca before.db) verifies fresh tt in
        rw (run_ca-fresh before) (
          record { ca_sk = ca_sk; ca_vk = ca_vk; ca = fresh_ca before.db },
          refl,
          rw e2 (
            first,
            second,
            refl,
            refl,
            enrolled.known,
            enrolled.lasting,
            enrolled2.lasting,
            enrolled2.current ∙ ap some enrolled2.lasting,
          ),
        )

    -- A peer registers, the CA stops and starts again on its database and its key files, and then a
    -- second peer registers with a new uid. Both are enrolled and the CA still knows the first, but
    -- the first has the group key of the old run, and the second and the CA have a new one.
    pub run_ca-Splits :
        (ca : Ca)
        → authority.verify_csr csr1 ≡ some (public sk1)
        → authority.verify_csr csr2 ≡ some (public sk2)
        → has_uid old.fresh_uid ca.db.users ≡ false
        → HasKey ca.key_group_bool ca.key_group
        → let out =
            connect_and_register_to_ca true (some csr1) (register authority old) (decrypt sk1) ca in
          has_uid new.fresh_uid out.1.db.users ≡ false
          → Splits pem made files authority decrypt old new sk2 csr2 ca out
    run_ca-Splits ca verifies1 verifies2 fresh1 has_key fresh2 =
        let (first, before, e1, enrolled) =
          connect_and_register_to_ca-IsEnrolled authority decrypt public sealed old sk1 csr1 ca
            verifies1 fresh1 has_key in
        subst (λ out. Splits pem made files authority decrypt old new sk2 csr2 ca out) (sym e1)
          (Splits-enrolled ca first before verifies2 enrolled
            (subst (λ out. has_uid new.fresh_uid out.1.db.users ≡ false) e1 fresh2))
