-- ===== src/Token/Letters.antt =====
-- A codec and a key pair that are small enough to compute with.
use onyx_p2p_auction_system.Base.{
  ℕ, zero, suc, ◌+◌, ◌*◌, ◌^◌, ◌%◌, ◌<◌, String, some, ◌≡◌, refl, arith, ap, ◌∙◌, sym,
}
use onyx_p2p_auction_system.Token.{Encoding, PublicKey}
use onyx_p2p_auction_system.Token.Modular.{pow_cong}
use onyx_p2p_auction_system.Token.Blind.{IsCodec, IsKeyPair}
use native.Mathlib.Nat
use Prim.Native.String.{[], ◌∷◌, count}
use Prim.Native.String.count

-- a codec that writes a number as so many letters
abbrev pub letters : ℕ → String
letters zero = []
letters (suc n) = "a" ∷ letters n

abbrev pub letter_encoding : Encoding
letter_encoding = record {
  sha256 = λ s. count s * 7 + 4;
  decode = λ s. some (count s);
  encode = λ w x. letters x;
}

-- n = 3 * 5, e = d = 3
abbrev pub small_key : PublicKey
small_key = record { n = 15; e = 3 }

count-letters : (x : ℕ) → count (letters x) ≡ x
count-letters zero = refl
count-letters (suc n) = count.cons _ (letters n) ∙ ap suc (count-letters n)

pub letter-IsCodec : IsCodec letter_encoding
letter-IsCodec w x h = ap some (count-letters x)

residue_pair : (x : ℕ) → x < 15 → (x ^ 3) ^ 3 % 15 ≡ x % 15
residue_pair zero h = refl
residue_pair (suc zero) h = refl
residue_pair (suc (suc zero)) h = refl
residue_pair (suc (suc (suc zero))) h = refl
residue_pair (suc (suc (suc (suc zero)))) h = refl
residue_pair (suc (suc (suc (suc (suc zero))))) h = refl
residue_pair (suc (suc (suc (suc (suc (suc zero)))))) h = refl
residue_pair (suc (suc (suc (suc (suc (suc (suc zero))))))) h = refl
residue_pair (suc (suc (suc (suc (suc (suc (suc (suc zero)))))))) h = refl
residue_pair (suc (suc (suc (suc (suc (suc (suc (suc (suc zero))))))))) h = refl
residue_pair (suc (suc (suc (suc (suc (suc (suc (suc (suc (suc zero)))))))))) h = refl
residue_pair (suc (suc (suc (suc (suc (suc (suc (suc (suc (suc (suc zero))))))))))) h = refl
residue_pair (suc (suc (suc (suc (suc (suc (suc (suc (suc (suc (suc (suc zero)))))))))))) h = refl
residue_pair (suc (suc (suc (suc (suc (suc (suc (suc (suc (suc (suc (suc (suc zero))))))))))))) h =
    refl
residue_pair
      (suc (suc (suc (suc (suc (suc (suc (suc (suc (suc (suc (suc (suc (suc zero)))))))))))))) h =
    refl
residue_pair
      (suc (suc (suc (suc (suc (suc (suc (suc (suc (suc (suc (suc (suc (suc (suc x)))))))))))))))
      h =
    absurd (omega arith)

pub small-IsKeyPair : IsKeyPair small_key 3
small-IsKeyPair x =
    let down : (x % 15) ^ 3 % 15 ≡ x ^ 3 % 15 = pow_cong 15 (x % 15) x 3 (Nat.mod-mod x 15) in
    sym (pow_cong 15 ((x % 15) ^ 3) (x ^ 3) 3 down)
    ∙ residue_pair (x % 15) (Nat.mod-lt x (omega arith))
    ∙ Nat.mod-mod x 15
