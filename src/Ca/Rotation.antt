-- ===== src/Ca/Rotation.antt =====
-- The rotation of the group key when a user leaves: what the CA hands out, and what a peer makes of
-- it (crypto/keys/group_keys.py, and `new_key` messages in client/message/process_message.py).
use onyx_p2p_auction_system.Base.{
  String, Bool, true, false, Option, none, some, List, [], ◌∷◌, map, ◌≡◌, ◌≢◌, refl, sym, subst,
  arith, All, str_eq, str_eq_iff, if◌then◌else◌,
}
use onyx_p2p_auction_system.Base.Exec.{Error, Result, ok, raised, attribute_error}
use onyx_p2p_auction_system.Peer.{Client, Library, Inputs, sent}
use onyx_p2p_auction_system.Peer.Process.{process_message, find_my_new_key}
use onyx_p2p_auction_system.Peer.Process.Rotates.{
  rotation, process_message-found, process_message-not_found,
}
use onyx_p2p_auction_system.Ca.{User, Ca, Draws, Authority}
use onyx_p2p_auction_system.Ca.Queries.{
  without, user_exists, has_uid, remove_user_and_get_remaining_pubkeys,
}
use onyx_p2p_auction_system.Ca.Rows.{has_uid-without}
use onyx_p2p_auction_system.Ca.Api.{leave_network, rotate_group_key, encrypt_for_all}

-- RSA-OAEP: `public` gives the PEM text of the public key that belongs to a private key.
pub record IsOaep (encrypt : String → String → Result String)
    (decrypt : String → String → Option String) (public : String → String) : Type 0 where
  pub encrypts : (sk key : String) → (ct : String) × (encrypt (public sk) key ≡ ok ct)
  pub opens : (sk key ct : String) → encrypt (public sk) key ≡ ok ct → decrypt sk ct ≡ some key
  pub refuses :
      (pem sk key ct : String) → encrypt pem key ≡ ok ct → public sk ≢ pem → decrypt sk ct ≡ none

-- whether a public key is among those of the users
pub has_pem : String → List User → Bool
has_pem pem [] = false
has_pem pem (user ∷ rest) = if str_eq pem user.user_pub_pem then true else has_pem pem rest

-- `register` stores PEM texts of RSA keys
abbrev pub HasPem : (String → String) → User → Type 0
HasPem public user = (sk : String) × (user.user_pub_pem ≡ public sk)

abbrev pub pems_of : List User → List String
pems_of = map λ (user : User). user.user_pub_pem

without_gone : (uid : String) (users : List User) → has_uid uid (without uid users) ≡ false
without_gone uid users = ground (arith, has_uid-without uid uid users, str_eq_iff uid uid)

module _ (authority : Authority) (library : Library) (public : String → String)
    (oaep : IsOaep authority.rsa_encrypt library.rsa_decrypt public) (draws : Draws) where
  abbrev key : String
  key = draws.fresh_group_key

  -- every user's key is encrypted for, and only they find the new key
  encrypt_for_all-found :
      (users : List User)
      → All (HasPem public) users
      → (list : List String) × (encrypt_for_all authority key (pems_of users) ≡ ok list)
        × ((sk : String)
            → find_my_new_key (library.rsa_decrypt sk) list
              ≡ (if has_pem (public sk) users then some key else none))
  unfolding encrypt_for_all has_pem find_my_new_key
  encrypt_for_all-found [] h = ([], refl, λ sk. refl)
  encrypt_for_all-found (user ∷ rest) ((owner, e), others) =
      let (ct, sealed) = oaep.encrypts owner key in
      let (list, e_list, found) = encrypt_for_all-found rest others in
      (
        ct ∷ list,
        rw (e, sealed, e_list) refl,
        λ sk.
            opened sk ct list (subst (λ pem. authority.rsa_encrypt pem key ≡ ok ct) (sym e) sealed)
              (found sk) (str_eq (public sk) user.user_pub_pem) refl,
      )
    where
      opened :
          (sk ct : String) (list : List String)
          → authority.rsa_encrypt user.user_pub_pem key ≡ ok ct
          → find_my_new_key (library.rsa_decrypt sk) list
            ≡ (if has_pem (public sk) rest then some key else none)
          → (mine : Bool) → str_eq (public sk) user.user_pub_pem ≡ mine
          → find_my_new_key (library.rsa_decrypt sk) (ct ∷ list)
            ≡ (if has_pem (public sk) (user ∷ rest) then some key else none)
      opened sk ct list sealed found true e' =
          let own = (str_eq_iff (public sk) user.user_pub_pem).0 e' in
          let mine : library.rsa_decrypt sk ct ≡ some key =
            oaep.opens sk key ct
              (subst (λ pem. authority.rsa_encrypt pem key ≡ ok ct) (sym own) sealed) in
          ground (arith, mine, e')
      opened sk ct list sealed found false e' =
          let not_mine : library.rsa_decrypt sk ct ≡ none =
            oaep.refuses user.user_pub_pem sk key ct sealed
              (λ own. cc (e', (str_eq_iff (public sk) user.user_pub_pem).1 own)) in
          ground (arith, not_mine, e', found)

  -- When a user leaves a CA with a group key, the CA answers with a message under the old key, and
  -- holds a new key and no such user. A peer that handles the message has the new key if its public
  -- key is that of a remaining user; otherwise it stays as it was.
  pub leave_network-rotates :
      (uid old : String) (ca : Ca)
      → ca.key_group ≡ some old
      → All (HasPem public) (without uid ca.db.users)
      → (list : List String) × (after : Ca) × (encrypt_for_all authority key
            (pems_of (without uid ca.db.users))
          ≡ ok list)
        × (leave_network authority draws (some uid) ca ≡ (ok (sent old (rotation list)), after))
        × (after.key_group ≡ some key)
        × (user_exists after.db uid ≡ false)
        × ((inputs : Inputs) (client : Client)
            → process_message library inputs (some (rotation list)) client ≡ (
              ok tt,
              record client {
                group_key =
                    if has_pem (public client.private_key) after.db.users
                    then key
                    else client.group_key;
              },
            ))
  unfolding leave_network remove_user_and_get_remaining_pubkeys rotate_group_key user_exists
  leave_network-rotates uid old ca e h =
      let (list, e_list, found) = encrypt_for_all-found (without uid ca.db.users) h in
      (
        list,
        record ca { db = record ca.db { users = without uid ca.db.users }; key_group = some key },
        e_list,
        rw (e_list, e) refl,
        refl,
        without_gone uid ca.db.users,
        λ inputs client.
            taken inputs client list (has_pem (public client.private_key) (without uid ca.db.users))
              (found client.private_key),
      )
    where
      taken :
          (inputs : Inputs) (client : Client) (list : List String) (mine : Bool)
          → find_my_new_key (library.rsa_decrypt client.private_key) list
            ≡ (if mine then some key else none)
          → process_message library inputs (some (rotation list)) client
            ≡ (ok tt, record client { group_key = if mine then key else client.group_key })
      taken inputs client list true found =
          process_message-found library inputs list client key found
      taken inputs client list false found =
          process_message-not_found library inputs list client found

module _ (authority : Authority) (draws : Draws) where
  rotation_refused :
      (pems : List String) (ca : Ca)
      → ca.key_group ≡ none
      → ((error : Error) × ((rotate_group_key authority draws pems ca).0 ≡ raised error))
        × ((rotate_group_key authority draws pems ca).1 ≡ ca)
  unfolding rotate_group_key
  rotation_refused pems ca e = refused (encrypt_for_all authority draws.fresh_group_key pems) refl
    where
      refused :
          (list : Result (List String))
          → encrypt_for_all authority draws.fresh_group_key pems ≡ list
          → ((error : Error) × ((rotate_group_key authority draws pems ca).0 ≡ raised error))
            × ((rotate_group_key authority draws pems ca).1 ≡ ca)
      refused (raised error) f = ((error, rw f refl), rw f refl)
      refused (ok list) f = ((attribute_error, rw (f, e) refl), rw (f, e) refl)

  -- Without a group key, as behind a restart of the CA, leaving raises, and yet the user is gone.
  pub leave_network-removes :
      (uid : String) (ca : Ca)
      → ca.key_group ≡ none
      → let (r, after) = leave_network authority draws (some uid) ca in
        ((error : Error) × (r ≡ raised error))
        × (after ≡ record ca { db = record ca.db { users = without uid ca.db.users } })
        × (user_exists after.db uid ≡ false)
  unfolding leave_network remove_user_and_get_remaining_pubkeys user_exists
  leave_network-removes uid ca e =
      let (r, same) =
        rotation_refused (pems_of (without uid ca.db.users))
          (record ca { db = record ca.db { users = without uid ca.db.users } }) e in
      (r, same, rw same (without_gone uid ca.db.users))
