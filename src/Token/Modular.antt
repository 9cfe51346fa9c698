-- ===== src/Token/Modular.antt =====
-- Powers and products modulo n, and the width of a number in bytes.
use onyx_p2p_auction_system.Base.{
  ℕ, zero, suc, ◌+◌, ◌*◌, ◌/◌, ◌%◌, ◌^◌, ◌≤◌, ◌<◌, ◌≡◌, arith, ap, sym, ◌∙◌,
}
use onyx_p2p_auction_system.Base.Bits.{bit_length_on, bit_length}
use native.Mathlib.Nat

pub mul-mod_left : (n a b : ℕ) → (a % n) * b % n ≡ a * b % n
mul-mod_left n a b =
    sym (Nat.add-mul-mod_self_left (a % n * b) n (a / n * b))
    ∙ ap (λ (x : ℕ). x % n) (omega (arith, ap (λ (x : ℕ). x * b) (Nat.mod-add-div a n)))

pub mul-mod_right : (n a b : ℕ) → a * (b % n) % n ≡ a * b % n
mul-mod_right n a b = rw (Nat.mul_comm a (b % n), Nat.mul_comm a b) (mul-mod_left n b a)

-- products and powers respect equality modulo n
pub mul_cong : (n a b c d : ℕ) → a % n ≡ b % n → c % n ≡ d % n → a * c % n ≡ b * d % n
mul_cong n a b c d p q =
    sym (mul-mod_left n a c)
    ∙ ap (λ (x : ℕ). x * c % n) p
    ∙ mul-mod_left n b c
    ∙ sym (mul-mod_right n b c)
    ∙ ap (λ (x : ℕ). b * x % n) q
    ∙ mul-mod_right n b d

pub pow_cong : (n a b k : ℕ) → a % n ≡ b % n → a ^ k % n ≡ b ^ k % n
pow_cong n a b zero p = rw (Nat.pow-zero a, Nat.pow-zero b)
pow_cong n a b (suc k) p =
    rw (Nat.pow-suc a k, Nat.pow-suc b k) (mul_cong n (a ^ k) (b ^ k) a b (pow_cong n a b k p) p)

pub mul_pow : (a b k : ℕ) → (a * b) ^ k ≡ a ^ k * b ^ k
mul_pow a b zero = rw (Nat.pow-zero (a * b), Nat.pow-zero a, Nat.pow-zero b)
mul_pow a b (suc k) =
    rw (Nat.pow-suc (a * b) k, Nat.pow-suc a k, Nat.pow-suc b k, mul_pow a b k)
      (Nat.mul-mul-mul_comm (a ^ k) (b ^ k) a b)

pub one_pow : (k : ℕ) → 1 ^ k ≡ 1
one_pow zero = Nat.pow-zero 1
one_pow (suc k) = rw (Nat.pow-suc 1 k, one_pow k)

pub pow_add : (a j k : ℕ) → a ^ (j + k) ≡ a ^ j * a ^ k
pow_add a j zero = rw (Nat.add-zero j, Nat.pow-zero a, Nat.mul-one (a ^ j))
pow_add a j (suc k) =
    rw (Nat.add-suc j k, Nat.pow-suc a (j + k), Nat.pow-suc a k, pow_add a j k)
      (Nat.mul_assoc (a ^ j) (a ^ k) a)

pub pow_mul : (a j k : ℕ) → (a ^ j) ^ k ≡ a ^ (j * k)
pow_mul a j zero = rw (Nat.pow-zero (a ^ j), Nat.mul-zero j, Nat.pow-zero a)
pow_mul a j (suc k) =
    rw (Nat.pow-suc (a ^ j) k, Nat.mul-suc j k, pow_add a (j * k) j, pow_mul a j k)

pub pow_comm : (a j k : ℕ) → (a ^ j) ^ k ≡ (a ^ k) ^ j
pow_comm a j k = pow_mul a j k ∙ ap (λ (x : ℕ). a ^ x) (Nat.mul_comm j k) ∙ sym (pow_mul a k j)

bit_length_on-bound : (fuel m : ℕ) → m ≤ fuel → m < 2 ^ bit_length_on fuel m
unfolding bit_length_on
bit_length_on-bound zero m h = omega (arith, Nat.pow-zero 2)
bit_length_on-bound (suc fuel) zero h = omega (arith, Nat.pow-zero 2)
bit_length_on-bound (suc fuel) (suc m) h = omega (
  arith,
  bit_length_on-bound fuel (suc m / 2) (omega arith),
  Nat.pow-suc 2 (bit_length_on fuel (suc m / 2)),
)

bit_length-bound : (m : ℕ) → m < 2 ^ bit_length m
unfolding bit_length
bit_length-bound m = bit_length_on-bound m m (Nat.le_refl m)

-- `(m.bit_length() + 7) // 8` bytes hold m.
pub width-bound : (m : ℕ) → m < 2 ^ (8 * ((bit_length m + 7) / 8))
width-bound m =
    Nat.lt_of_lt_of_le (bit_length-bound m)
      (Nat.pow-le-pow_right (omega arith) {i = bit_length m} (omega arith))
