-- ===== src/Keys.antt =====
-- A peer's key pair: crypto/keys/keys_handler.py and the loading and making of keys in
-- crypto/keys/keys_crypto.py. The PEM texts come from outside.
pub mod Persist
use onyx_p2p_auction_system.Base.{String, Bool, true, false, Option, none, some, if◌then◌else◌}
use onyx_p2p_auction_system.Base.Exec.{
  Exec, Result, ok, raised, bind_result, or_raise, value_error, os_error,
}

-- "private_key.pem" and "public_key.pem"
pub record KeyFiles : Type 0 where
  pub private_file : Option String
  pub public_file : Option String

pub record Pem : Type 0 where
  -- the loaders of PEM texts, `none` where they raise; a key is named by a text
  pub load_pem_private_key : String → Option String
  pub load_pem_public_key : String → Option String
  -- whether the key is an RSA key
  pub is_rsa : String → Bool

-- What `rsa.generate_private_key` gives, in PEM: the private key and its public key.
pub record Generated : Type 0 where
  pub private_pem : String
  pub public_pem : String

module _ (pem : Pem) where
  open pem use {load_pem_private_key, load_pem_public_key, is_rsa}

  -- Every exception becomes a ValueError.
  unfoldable pub load_rsa_public_key : String → Result String
  load_rsa_public_key pub_bytes = elim (load_pem_public_key pub_bytes) [
    | none ↦ raised value_error
    | some key ↦ if is_rsa key then ok key else raised value_error
  ]

  -- both files are read and parsed, the private key first
  unfoldable pub load_private_and_public_key : KeyFiles → Result (String × String)
  load_private_and_public_key files =
      bind_result (or_raise files.private_file os_error) λ private_data.
        bind_result (or_raise (load_pem_private_key private_data) value_error) λ private_key.
          bind_result (or_raise files.public_file os_error) λ public_data.
            bind_result (or_raise (load_pem_public_key public_data) value_error)
              λ public_key. ok (private_key, public_key)

  write_pair : Generated → KeyFiles
  write_pair made = record {
    private_file = some made.private_pem;
    public_file = some made.public_pem;
  }

  -- whether both files are there
  has_both : Option String → Option String → Bool
  has_both (some private) (some public) = true
  has_both _ _ = false

  -- Where a file is missing, both are written anew.
  unfoldable pub prepare_key_pair_generation : Generated → Exec KeyFiles (String × String)
  unfolding has_both write_pair
  prepare_key_pair_generation made files =
      let kept = if has_both files.private_file files.public_file then files else write_pair made in
      (load_private_and_public_key kept, kept)
