-- ===== src/Token/Factor/Manager.antt =====
-- The calculations that crypto/token/token_manager.py (`TokenManager`) has of its own, beside those of
-- `BlindRSACore`.
use onyx_p2p_auction_system.Base.{ℕ, ◌*◌, ◌%◌, ◌+◌, ◌/◌, ◌^◌, String, Option, none, some, ◌≡◌, refl}
use onyx_p2p_auction_system.Base.Bits.{bit_length}
use onyx_p2p_auction_system.Base.Exec.{Result, ok, raised, value_error, bind_result, or_raise}
use onyx_p2p_auction_system.Token.{
  Encoding, PublicKey, modinv, blind, unblind, width, token_id_to_int,
}
use onyx_p2p_auction_system.Token.Factor.{blind_fresh, with_factor, generate_blinding_factor}

-- `_token_id_to_int`, with the modulus as an argument
int_of_token_id : Encoding → String → ℕ → ℕ
int_of_token_id encoding token_id n = encoding.sha256 token_id % n

module _ (encoding : Encoding) (key : PublicKey) where
  open key use {n, e}

  blinded_text : String → ℕ → String
  unfolding int_of_token_id
  blinded_text token_id r =
      let m = int_of_token_id encoding token_id n in
      let r_e = r ^ e % n in encoding.encode ((bit_length n + 7) / 8) (m * r_e % n)

  blinded_pair : String → Option (Result ℕ) → Option (Result (String × ℕ))
  unfolding blinded_text
  blinded_pair token_id none = none
  blinded_pair token_id (some (raised error)) = some (raised error)
  blinded_pair token_id (some (ok r)) = some (ok (blinded_text token_id r, r))

  -- the loop is that of `generate_blinding_factor`
  blind_token : (ℕ → ℕ) → ℕ → String → Option (Result (String × ℕ))
  unfolding blinded_pair
  blind_token draw fuel token_id = blinded_pair token_id (generate_blinding_factor n draw fuel)

  unblind_signature : String → ℕ → Result String
  unblind_signature blind_sig_b64 r =
      bind_result (or_raise (encoding.decode blind_sig_b64) value_error) λ s_blinded.
        bind_result (modinv r n)
          λ r_inv. ok (encoding.encode ((bit_length n + 7) / 8) (s_blinded * r_inv % n))

  blinded_pair-with_factor :
      (draw : ℕ → ℕ) (token_id : String) (found : Option (Result ℕ))
      → blinded_pair token_id found ≡ with_factor encoding key draw token_id found
  unfolding blinded_pair blinded_text with_factor int_of_token_id blind width token_id_to_int
  blinded_pair-with_factor draw token_id none = refl
  blinded_pair-with_factor draw token_id (some (raised error)) = refl
  blinded_pair-with_factor draw token_id (some (ok r)) = refl

  -- `blind_token` and `unblind_signature` do what `blind` and `unblind` of `BlindRSACore` do.
  blind_token-blind_fresh :
      (draw : ℕ → ℕ) (fuel : ℕ) (token_id blind_sig_b64 : String) (r : ℕ)
      → (blind_token draw fuel token_id ≡ blind_fresh encoding key draw fuel token_id)
        × (unblind_signature blind_sig_b64 r ≡ unblind encoding key blind_sig_b64 r)
  unfolding blind_token blind_fresh unblind_signature unblind width
  blind_token-blind_fresh draw fuel token_id blind_sig_b64 r =
      (blinded_pair-with_factor draw token_id (generate_blinding_factor n draw fuel), refl)
