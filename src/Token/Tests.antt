-- ===== src/Token/Tests.antt =====
-- The blind signature protocol on a small key pair.
use onyx_p2p_auction_system.Base.{
  ℕ, zero, suc, ◌-◌, ◌*◌, ◌%◌, ◌<◌, ◌≤◌, String, true, some, ◌≡◌, ◌⊎◌, refl, arith,
}
use onyx_p2p_auction_system.Base.Exec.{ok, raised, value_error, bind_result}
use onyx_p2p_auction_system.Token.{modinv, unblind, verify, sign_blinded, verify_peer_blinding_data}
use onyx_p2p_auction_system.Token.Inverse.{modinv_lem}
use onyx_p2p_auction_system.Token.Blind.{verify_peer_any_factor}
use onyx_p2p_auction_system.Token.Factor.{blind_fresh, blind_fresh-verify}
use onyx_p2p_auction_system.Token.Letters.{
  letter-IsCodec, small-IsKeyPair, letter_encoding, small_key,
}
use Prim.Native.Nat.{◌∣◌}

modinv_lem_example :
    ((x : ℕ) × (modinv 7 15 ≡ ok x) × (x * 7 % 15 ≡ 1 % 15) × (x ≤ 15))
    ⊎ ((modinv 7 15 ≡ raised value_error) × ((g : ℕ) × (1 < g) × (g ∣ 7) × (g ∣ 15)))
modinv_lem_example = modinv_lem 7 15 (omega arith)

verify_peer_any_factor_example :
    verify_peer_blinding_data letter_encoding small_key
      (sign_blinded letter_encoding 15 3)
      (some "t")
      (some 7)
      (some "aaaaaaaaaaa")
    ≡ verify_peer_blinding_data letter_encoding small_key
        (sign_blinded letter_encoding 15 3)
        (some "t")
        (some 2)
        (some "aaaaaaaaaaa")
verify_peer_any_factor_example =
    verify_peer_any_factor letter_encoding small_key 3 (omega arith) letter-IsCodec small-IsKeyPair
      "t" 7 2 (some "aaaaaaaaaaa") (13, refl) (8, refl)

-- 3 has no inverse modulo 15, 7 has
abbrev two_draws : ℕ → ℕ
two_draws zero = 2
two_draws (suc i) = 6

two_draws-below : (i : ℕ) → two_draws i < 15 - 2
two_draws-below zero = omega arith
two_draws-below (suc i) = omega arith

blind_fresh-verify_example :
    (blinded : String) × (r : ℕ) × ((fuel : ℕ)
      → 1 < fuel
      → blind_fresh letter_encoding small_key two_draws fuel "t" ≡ some (ok (blinded, r)))
    × (1 ≤ r)
    × (r ≤ 15 - 2)
    × (sig : String) × (bind_result
          (sign_blinded letter_encoding 15 3 blinded)
          (λ reply. unblind letter_encoding small_key reply r)
        ≡ ok sig)
    × (verify letter_encoding small_key "t" sig ≡ ok true)
blind_fresh-verify_example =
    blind_fresh-verify letter_encoding small_key 3 (omega arith) letter-IsCodec small-IsKeyPair
      two_draws two_draws-below "t" 1 (13, refl)
