-- ===== src/Ca/Hybrid.antt =====
-- crypto/crypt_decrypt/hybrid.py: an AES-GCM envelope whose key is encrypted for an RSA key. All
-- binary values are their base64 texts.
use onyx_p2p_auction_system.Base.{String, Option, none, some}
use onyx_p2p_auction_system.Base.Exec.{Result, ok, bind_result}

-- The identity package.
pub record Identity : Type 0 where
  pub real_uid : Option String
  pub cert_pem_b64 : Option String
  pub token_id_bound : Option String

-- What the decrypted JSON text can be: one of the values that are false, another value that is no
-- object, or an object.
pub data Plain : Type 0 where
  falsy no_object : Plain
  identity_package : Identity → Plain

-- The keys of the wrapper.
pub record Wrapper : Type 0 where
  pub enc_aes_key : Option String
  pub nonce : Option String
  pub tag : Option String
  pub ciphertext : Option String

-- The cryptography package and `json`, for the public keys of `PEM` texts and one private key.
pub record Primitives : Type 0 where
  pub dumps : Wrapper → String
  pub loads : String → Option Wrapper
  pub rsa_seal : String → String → Result String
  pub rsa_open : String → Option String
  -- key, nonce and payload; ciphertext and tag
  pub gcm_seal : String → String → Plain → String × String
  -- key, nonce, tag and ciphertext
  pub gcm_open : String → String → String → String → Option Plain

abbrev ◌>>=◌ : {A B : Type 0} → Option A → (A → Option B) → Option B
none >>= f = none
some a >>= f = f a

infixl 5 ◌>>=◌
module _ (primitives : Primitives) where
  open primitives use {dumps, loads, rsa_seal, rsa_open, gcm_seal, gcm_open}

  -- with the key and the nonce that `os.urandom` gives
  unfoldable pub hybrid_encrypt : String → String → Plain → String → Result String
  hybrid_encrypt aes_key nonce data_dict public_key_pem =
      let (ciphertext, tag) = gcm_seal aes_key nonce data_dict in
      bind_result (rsa_seal public_key_pem aes_key) λ encrypted_aes_key. ok (
        dumps (record {
          enc_aes_key = some encrypted_aes_key;
          nonce = some nonce;
          tag = some tag;
          ciphertext = some ciphertext;
        }))

  unfoldable pub open_wrapper : Wrapper → Option Plain
  open_wrapper wrapper = do
    enc_aes_key ← wrapper.enc_aes_key
    aes_key ← rsa_open enc_aes_key
    nonce ← wrapper.nonce
    tag ← wrapper.tag
    ciphertext ← wrapper.ciphertext
    gcm_open aes_key nonce tag ciphertext

  -- every exception is answered with None
  unfoldable pub hybrid_decrypt : String → Option Plain
  unfolding open_wrapper
  hybrid_decrypt payload_json = do wrapper ← loads payload_json; open_wrapper wrapper
