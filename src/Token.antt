-- ===== src/Token.antt =====
-- crypto/token/crypto_token.py (`BlindRSACore`) and the calculations of crypto/token/token_manager.py,
-- which repeat it: RSA blind signatures over the CA's public numbers.
pub mod Inverse
pub mod Modular
pub mod Blind
pub mod Letters
pub mod Factor
mod Tests
use onyx_p2p_auction_system.Base.{
  ℕ, zero, suc, ◌+◌, ◌-◌, ◌*◌, ◌/◌, ◌%◌, ◌^◌, ◌<◌, String, Bool, true, false, Option, none, some,
  arith, ltb, nat_eq, str_eq, if◌then◌else◌,
}
use onyx_p2p_auction_system.Base.Bits.{bit_length}
use onyx_p2p_auction_system.Base.Int.{ℤ, pos, negsuc, ◌+ℤ◌, ◌-ℤ◌, ◌*ℤ◌, ltb_ℤ, pos_part}
use onyx_p2p_auction_system.Base.Exec.{Result, ok, raised, value_error, bind_result, or_raise}
use mathlib.Core.WellFounded.{Acc}

-- What the calculations take from hashlib and base64: the SHA-256 of a text as a big-endian number,
-- the number that a base64 text stands for (`none`: it is no base64), and the base64 text of a
-- number in so many bytes.
pub record Encoding : Type 0 where
  pub sha256 : String → ℕ
  pub decode : String → Option ℕ
  pub encode : ℕ → ℕ → String

-- `self.n` and `self.e`, the CA's public numbers
pub record PublicKey : Type 0 where
  pub n : ℕ
  pub e : ℕ

Acc-below : (k m : ℕ) → m < k → Acc ◌<◌ m
Acc-below zero m h = absurd (omega arith)
Acc-below (suc k) m h = Acc.intro m λ i hi. Acc-below k i (omega arith)

acc : (m : ℕ) → Acc ◌<◌ m
unfolding Acc-below
acc m = Acc-below (suc m) m (omega arith)

pub remainder-lt : (r k : ℕ) → r - r / suc k * suc k < suc k
remainder-lt r k = omega arith

-- the `while new_r != 0` loop of `_modinv`, with the values of `t` and `r` behind it
modinv_loop : ℤ → ℤ → ℕ → (new_r : ℕ) → Acc ◌<◌ new_r → ℤ × ℕ
modinv_loop t new_t r new_r (Acc.intro zero _) = (t, r)
modinv_loop t new_t r new_r (Acc.intro (suc k) smaller) =
    let q = r / suc k in
    modinv_loop new_t (t -ℤ pos q *ℤ new_t) (suc k) (r - q * suc k)
      (smaller (r - q * suc k) (remainder-lt r k))

-- the tests behind the loop
modinv_result : ℕ → ℤ × ℕ → Result ℕ
modinv_result n (t, r) =
    if ltb 1 r
    then raised value_error
    else if ltb_ℤ t (pos 0)
    then ok (pos_part (t +ℤ pos n))
    else ok (pos_part t)

pub modinv : ℕ → ℕ → Result ℕ
unfolding modinv_loop acc modinv_result
modinv a n = modinv_result n (modinv_loop (pos 0) (pos 1) n a (acc a))

module _ (encoding : Encoding) (key : PublicKey) where
  open encoding use {sha256, decode, encode}
  open key use {n, e}

  pub token_id_to_int : String → ℕ
  token_id_to_int token_id = sha256 token_id % n

  width : ℕ
  unfolding bit_length
  width = (bit_length n + 7) / 8

  -- `blind` with a given r: `(blinded_b64, r)`
  unfoldable pub blind : String → ℕ → String × ℕ
  unfolding token_id_to_int width
  blind token_id r =
      let m = token_id_to_int token_id in let r_e = r ^ e % n in (encode width (m * r_e % n), r)

  unfoldable pub unblind : String → ℕ → Result String
  unfolding modinv width
  unblind blind_sig_b64 r =
      bind_result (or_raise (decode blind_sig_b64) value_error)
        λ s_blinded. bind_result (modinv r n) λ r_inv. ok (encode width (s_blinded * r_inv % n))

  unfoldable pub verify : String → String → Result Bool
  unfolding token_id_to_int
  verify token_id token_sig_b64 =
      let m = token_id_to_int token_id in
      bind_result (or_raise (decode token_sig_b64) value_error) λ s. ok (nat_eq (s ^ e % n) m)

-- The CA's side (ca/ca_api/ca_api.py, `blind_sign`): `signature = blinded^d mod n`.
module _ (encoding : Encoding) (n d : ℕ) where
  ca_width : ℕ
  unfolding bit_length
  ca_width = (bit_length n + 7) / 8

  pub sign_blinded : String → Result String
  unfolding ca_width
  sign_blinded blinded_token_b64 =
      bind_result (or_raise (encoding.decode blinded_token_b64) value_error)
        λ blinded_int. ok (encoding.encode ca_width (blinded_int ^ d % n))

-- `verify_peer_blinding_data`; `ask` is the POST to the CA's /blind_sign. A revealed None raises in
-- `blind` or in `unblind`, and every exception is answered with False.
module _ (encoding : Encoding) (key : PublicKey) (ask : String → Result String) where
  answers_true : Option String → Result String → Bool
  answers_true none r = false
  answers_true (some claimed) (raised error) = false
  answers_true (some claimed) (ok recalculated) = str_eq recalculated claimed

  unfoldable pub verify_peer_blinding_data : Option String → Option ℕ → Option String → Bool
  unfolding answers_true blind unblind
  verify_peer_blinding_data none peer_r peer_signature_b64 = false
  verify_peer_blinding_data (some token_id) none peer_signature_b64 = false
  verify_peer_blinding_data (some token_id) (some r) peer_signature_b64 =
      answers_true peer_signature_b64 (
        bind_result (ask (blind encoding key token_id r).0)
          λ ca_blind_sig_b64. unblind encoding key ca_blind_sig_b64 r)
