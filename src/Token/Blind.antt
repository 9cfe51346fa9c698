-- ===== src/Token/Blind.antt =====
-- The blind signature protocol between `BlindRSACore` and the CA.
use onyx_p2p_auction_system.Base.{
  ℕ, ◌+◌, ◌*◌, ◌/◌, ◌%◌, ◌^◌, ◌≤◌, ◌<◌, String, true, Option, some, ◌≡◌, inl, inr, refl, arith, ap,
  sym, subst, ◌∙◌, nat_eq_iff,
}
use onyx_p2p_auction_system.Base.Bits.{bit_length}
use onyx_p2p_auction_system.Base.Exec.{Result, ok, bind_result}
use onyx_p2p_auction_system.Token.{
  Encoding, PublicKey, verify_peer_blinding_data, answers_true, modinv, token_id_to_int, width,
  ca_width, blind, unblind, verify, sign_blinded,
}
use onyx_p2p_auction_system.Token.Inverse.{modinv_lem}
use onyx_p2p_auction_system.Token.Modular.{
  mul_cong, pow_cong, mul_pow, pow_comm, mul-mod_left, mul-mod_right, width-bound,
}
use native.Mathlib.Nat
use Prim.Native.Nat.{◌∣◌}

-- Python's `pow(r, -1, n)` accepts r
abbrev pub IsUnit : ℕ → ℕ → Type 0
IsUnit n r = (y : ℕ) × (y * r % n ≡ 1 % n)

-- base64 text of a number that fits into the bytes is read back
abbrev pub IsCodec : Encoding → Type 0
IsCodec encoding = (w x : ℕ) → x < 2 ^ (8 * w) → encoding.decode (encoding.encode w x) ≡ some x

-- RSA key pairs: raising to e and then to d is the identity modulo n
abbrev pub IsKeyPair : PublicKey → ℕ → Type 0
IsKeyPair key d = (x : ℕ) → (x ^ key.e) ^ d % key.n ≡ x % key.n

no_common_factor : (n r g : ℕ) → 1 < g → g ∣ r → g ∣ n → ¬ IsUnit n r
no_common_factor n r g big on_r on_n (y, e) =
    let on_one_mod : g ∣ 1 % n =
      subst (λ x. g ∣ x) e ((Nat.dvd-mod_iff g on_n).1 (Nat.dvd-mul_left_of_dvd g on_r y)) in
    let on_one : g ∣ 1 = (Nat.dvd-mod_iff g on_n).0 on_one_mod in
    let small : g ≤ 1 = Nat.le_of_dvd (omega arith) on_one in omega arith

modinv-unit : (n r : ℕ) → 0 < n → IsUnit n r → (x : ℕ) × (modinv r n ≡ ok x) × (x * r % n ≡ 1 % n)
modinv-unit n r h unit = elim (modinv_lem r n h) [
  | inl (x, e, inverse, small) ↦ (x, e, inverse)
  | inr (e, common) ↦ absurd (no_common_factor n r common.0 common.1 common.2 common.3 unit)
]

module _ (encoding : Encoding) (key : PublicKey) (d : ℕ) (positive : 0 < key.n)
    (codec : IsCodec encoding) (key_pair : IsKeyPair key d) where
  open key use {n, e}
  open encoding use {sha256, decode, encode}

  fits : (x : ℕ) → x < n → decode (encode (width encoding key) x) ≡ some x
  unfolding width
  fits x h = codec ((bit_length n + 7) / 8) x (Nat.lt_trans h (width-bound n))

  -- the signature that unblinding gives, whatever r was
  signature : String → ℕ
  signature token_id = token_id_to_int encoding key token_id ^ d % n

  -- (m r^e)^d r^-1 = m^d modulo n
  cancel : (m r x : ℕ) → x * r % n ≡ 1 % n → (m * (r ^ e % n) % n) ^ d % n * x % n ≡ m ^ d % n
  cancel m r x inverse =
      mul-mod_left n ((m * (r ^ e % n) % n) ^ d) x
      ∙ mul_cong n ((m * (r ^ e % n) % n) ^ d) ((m * r ^ e) ^ d) x x
          (pow_cong n (m * (r ^ e % n) % n) (m * r ^ e) d
            (Nat.mod-mod (m * (r ^ e % n)) n ∙ mul-mod_right n m (r ^ e)))
          refl
      ∙ ap (λ (t : ℕ). t * x % n) (mul_pow m (r ^ e) d)
      ∙ ap (λ (t : ℕ). t % n) (Nat.mul_assoc (m ^ d) ((r ^ e) ^ d) x)
      ∙ mul_cong n (m ^ d) (m ^ d) ((r ^ e) ^ d * x) 1 refl (
          mul_cong n ((r ^ e) ^ d) r x x (key_pair r) refl
          ∙ ap (λ (t : ℕ). t % n) (Nat.mul_comm r x)
          ∙ inverse)
      ∙ ap (λ (t : ℕ). t % n) (Nat.mul-one (m ^ d))

  -- what the client gets: blind, have the CA sign, unblind
  unfoldable pub obtain : String → ℕ → Result String
  obtain token_id r =
      bind_result (sign_blinded encoding n d (blind encoding key token_id r).0)
        λ reply. unblind encoding key reply r

  -- For every invertible r the client gets one and the same signature of the token id, and
  -- `verify` accepts it.
  obtain_lem :
      (token_id : String) (r : ℕ)
      → IsUnit n r
      → obtain token_id r ≡ ok (encode (width encoding key) (signature token_id))
  unfolding obtain sign_blinded blind unblind signature ca_width
  obtain_lem token_id r unit =
      let (x, e_x, inverse) = modinv-unit n r positive unit in
      let m = token_id_to_int encoding key token_id in
      let blinded = m * (r ^ e % n) % n in
      let read_blinded = fits blinded (Nat.mod-lt (m * (r ^ e % n)) positive) in
      let read_signed = fits (blinded ^ d % n) (Nat.mod-lt (blinded ^ d) positive) in
      rw (read_blinded, read_signed, e_x, cancel m r x inverse)

  verify-signature :
      (token_id : String)
      → verify encoding key token_id (encode (width encoding key) (signature token_id)) ≡ ok true
  unfolding verify signature token_id_to_int
  verify-signature token_id =
      let m = sha256 token_id % n in
      let read = fits (m ^ d % n) (Nat.mod-lt (m ^ d) positive) in
      let back : (m ^ d % n) ^ e % n ≡ m =
        pow_cong n (m ^ d % n) (m ^ d) e (Nat.mod-mod (m ^ d) n)
        ∙ ap (λ (t : ℕ). t % n) (pow_comm m d e)
        ∙ key_pair m
        ∙ Nat.mod-mod (sha256 token_id) n in
      rw (read, (nat_eq_iff ((m ^ d % n) ^ e % n) m).1 back)

  -- With an invertible blinding factor the protocol does not fail: blinding a token id, having the
  -- CA sign the blinded value and unblinding the answer give a signature that `verify` accepts.
  pub obtain-verify :
      (token_id : String) (r : ℕ)
      → IsUnit n r
      → (sig : String) × (obtain token_id r ≡ ok sig) × (verify encoding key token_id sig ≡ ok true)
  obtain-verify token_id r unit = (
    encode (width encoding key) (signature token_id),
    obtain_lem token_id r unit,
    verify-signature token_id,
  )

  answer :
      (token_id : String) (r : ℕ) (sig : Option String)
      → IsUnit n r
      → verify_peer_blinding_data encoding key
          (sign_blinded encoding n d)
          (some token_id)
          (some r)
          sig
        ≡ answers_true encoding key
            (sign_blinded encoding n d)
            sig
            (ok (encode (width encoding key) (signature token_id)))
  unfolding verify_peer_blinding_data obtain
  answer token_id r sig unit =
      ap (answers_true encoding key (sign_blinded encoding n d) sig) (obtain_lem token_id r unit)

  -- The check of a revealed blinding factor against an honest CA does not depend on the factor:
  -- any two invertible numbers get the same answer for the same token id and signature.
  pub verify_peer_any_factor :
      (token_id : String) (r s : ℕ) (sig : Option String)
      → IsUnit n r
      → IsUnit n s
      → verify_peer_blinding_data encoding key
          (sign_blinded encoding n d)
          (some token_id)
          (some r)
          sig
        ≡ verify_peer_blinding_data encoding key
            (sign_blinded encoding n d)
            (some token_id)
            (some s)
            sig
  verify_peer_any_factor token_id r s sig unit_r unit_s =
      answer token_id r sig unit_r ∙ sym (answer token_id s sig unit_s)
