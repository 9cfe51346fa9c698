-- ===== src/Ca/Toys.antt =====
-- Stand-ins for the cryptography package and `json` that are small enough to compute with: texts
-- are written behind each other with marks, and a private key is its public key.
use onyx_p2p_auction_system.Base.{
  String, Option, none, some, ◌≡◌, refl, ap, subst, arith, str_eq, str_eq_iff, if◌then◌else◌,
}
use Prim.Native.String.{[], ◌∷◌}
use Prim.Native.Char.{Char}
use onyx_p2p_auction_system.Base.Exec.{Result, ok}
use onyx_p2p_auction_system.Ca.Hybrid.{
  Primitives, Plain, Wrapper, Identity, falsy, no_object, identity_package,
}
use onyx_p2p_auction_system.Token.Letters.{letter_encoding}
use onyx_p2p_auction_system.Connection.{Secrets}
use onyx_p2p_auction_system.Connection.Enrols.{IsSealed}
use onyx_p2p_auction_system.Ca.{Authority}
use onyx_p2p_auction_system.Ca.Rotation.{IsOaep}
use onyx_p2p_auction_system.Ca.Reveals.{IsPair}

-- every letter of the first text behind an "a", and a "b" before the second text
pub pair : String → String → String
pair [] t = "b" ∷ t
pair (c ∷ s) t = "a" ∷ (c ∷ pair s t)

with_letter : Char → Option (String × String) → Option (String × String)
with_letter c none = none
with_letter c (some (s, t)) = some (c ∷ s, t)

unpair : String → Option (String × String)
unfolding with_letter
unpair [] = none
unpair (m ∷ []) = if str_eq (m ∷ []) "b" then some ([], []) else none
unpair (m ∷ (c ∷ rest)) =
    let deeper = unpair rest in
    if str_eq (m ∷ []) "b" then some ([], c ∷ rest) else with_letter c deeper

unpair-pair : (s t : String) → unpair (pair s t) ≡ some (s, t)
unfolding pair unpair with_letter
unpair-pair [] [] = refl
unpair-pair [] (c ∷ t) = refl
unpair-pair (c ∷ s) t = ap (with_letter c) (unpair-pair s t)

unsealed : String → Option (String × String) → Option String
unsealed sk none = none
unsealed sk (some (pem, key)) = if str_eq sk pem then some key else none

unfoldable pub toy_encrypt : String → String → Result String
unfolding pair
toy_encrypt pem key = ok (pair pem key)

unfoldable pub toy_decrypt : String → String → Option String
unfolding unsealed unpair
toy_decrypt sk ct = unsealed sk (unpair ct)

decrypted :
    (pem sk key ct : String)
    → toy_encrypt pem key ≡ ok ct
    → toy_decrypt sk ct ≡ (if str_eq sk pem then some key else none)
unfolding toy_encrypt toy_decrypt unsealed
decrypted pem sk key ct e =
    let same : pair pem key ≡ ct = cc e in
    subst (λ text. unsealed sk (unpair text) ≡ (if str_eq sk pem then some key else none)) same
      (ap (unsealed sk) (unpair-pair pem key))

pub toy-IsOaep : IsOaep toy_encrypt toy_decrypt λ sk. sk
unfolding toy_encrypt
toy-IsOaep = record {
  encrypts = λ sk key. (pair sk key, refl);
  opens = λ sk key ct e. ground (arith, decrypted sk sk key ct e, str_eq_iff sk sk);
  refuses =
      λ pem sk key ct e other. ground (arith, decrypted pem sk key ct e, str_eq_iff sk pem, other);
}

option_text : Option String → String
option_text none = []
option_text (some s) = "a" ∷ s

text_option : String → Option String
text_option [] = none
text_option (c ∷ s) = some s

text_option-option_text : (o : Option String) → text_option (option_text o) ≡ o
unfolding option_text text_option
text_option-option_text none = refl
text_option-option_text (some s) = refl

identity_text : Identity → String
unfolding pair option_text
identity_text identity =
    pair (option_text identity.real_uid)
      (pair (option_text identity.cert_pem_b64) (option_text identity.token_id_bound))

identity_of : Option (String × String) → Option (String × String) → Plain
unfolding text_option
identity_of (some (uid, _)) (some (cert, bound)) = identity_package (record {
  real_uid = text_option uid;
  cert_pem_b64 = text_option cert;
  token_id_bound = text_option bound;
})
identity_of _ _ = falsy

plain_text : Plain → String
unfolding identity_text
plain_text falsy = []
plain_text no_object = "b" ∷ []
plain_text (identity_package identity) = "a" ∷ identity_text identity

behind : Option (String × String) → String
behind none = []
behind (some (s, t)) = t

text_plain : String → Plain
unfolding identity_of behind unpair
text_plain [] = falsy
text_plain (m ∷ s) =
    if str_eq (m ∷ []) "b" then no_object else identity_of (unpair s) (unpair (behind (unpair s)))

text_plain-plain_text : (payload : Plain) → text_plain (plain_text payload) ≡ payload
unfolding text_plain plain_text identity_text identity_of behind
text_plain-plain_text falsy = refl
text_plain-plain_text no_object = refl
text_plain-plain_text (identity_package identity) =
    rw
      (
        unpair-pair (option_text identity.real_uid)
            (pair (option_text identity.cert_pem_b64) (option_text identity.token_id_bound)),
        unpair-pair (option_text identity.cert_pem_b64) (option_text identity.token_id_bound),
        text_option-option_text identity.real_uid,
        text_option-option_text identity.cert_pem_b64,
        text_option-option_text identity.token_id_bound,
      )
      refl

wrapper_text : Wrapper → String
unfolding pair option_text
wrapper_text w =
    pair (pair (option_text w.enc_aes_key) (option_text w.nonce))
      (pair (option_text w.tag) (option_text w.ciphertext))

wrapper_of : Option (String × String) → Option (String × String) → Option Wrapper
unfolding text_option
wrapper_of (some (k, n)) (some (t, c)) = some (record {
  enc_aes_key = text_option k;
  nonce = text_option n;
  tag = text_option t;
  ciphertext = text_option c;
})
wrapper_of _ _ = none

halves : Option (String × String) → Option Wrapper
unfolding wrapper_of unpair
halves none = none
halves (some (s, t)) = wrapper_of (unpair s) (unpair t)

pub toy_primitives : Primitives
unfolding wrapper_text halves unpair plain_text text_plain
toy_primitives = record {
  dumps = wrapper_text;
  loads = λ text. halves (unpair text);
  rsa_seal = λ pem key. ok key;
  rsa_open = λ ct. some ct;
  gcm_seal = λ key nonce payload. (plain_text payload, key);
  gcm_open = λ key nonce tag ct. if str_eq tag key then some (text_plain ct) else none;
}

pub toy-IsPair : IsPair toy_primitives "ca"
unfolding toy_primitives wrapper_text halves wrapper_of
toy-IsPair = record {
  parses = λ w.
      rw
        (
          unpair-pair (pair (option_text w.enc_aes_key) (option_text w.nonce))
              (pair (option_text w.tag) (option_text w.ciphertext)),
          unpair-pair (option_text w.enc_aes_key) (option_text w.nonce),
          unpair-pair (option_text w.tag) (option_text w.ciphertext),
          text_option-option_text w.enc_aes_key,
          text_option-option_text w.nonce,
          text_option-option_text w.tag,
          text_option-option_text w.ciphertext,
        )
        refl;
  seals = λ key. (key, refl, refl);
  deciphers =
      λ key nonce payload. rw ((str_eq_iff key key).1 refl, text_plain-plain_text payload) refl;
}

secrets_of : Option (String × String) → Option Secrets
secrets_of none = none
secrets_of (some (group, session)) = some (record { group_key = group; session_key = session })

unfoldable pub toy_seal : String → String → String → Result String
unfolding pair
toy_seal pem group session = ok (pair group session)

pub toy_secrets : String → String → Option Secrets
unfolding secrets_of unpair
toy_secrets sk blob = secrets_of (unpair blob)

pub toy-IsSealed : IsSealed toy_seal toy_secrets λ sk. sk
unfolding toy_seal toy_secrets secrets_of
toy-IsSealed = record {
  seals = λ sk group session. (pair group session, refl);
  opens = λ sk group session blob e.
      let same : pair group session ≡ blob = cc e in
      subst
        (λ text.
          secrets_of (unpair text) ≡ some (record { group_key = group; session_key = session }))
        same (ap secrets_of (unpair-pair group session));
}

unfoldable pub toy_authority : Authority
unfolding toy_seal toy_encrypt
toy_authority = record {
  encoding = letter_encoding;
  n = 15;
  d = 3;
  verify_csr = λ csr. some csr;
  make_x509_certificate = λ csr. csr;
  seal_secrets = toy_seal;
  rsa_encrypt = toy_encrypt;
  sign = λ text. "sig";
  iso_at = λ time. some "t5";
  receipt_text = λ receipt. receipt.token_id;
}
