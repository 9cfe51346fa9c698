-- ===== src/Base/Bits.antt =====
-- Python's `int.bit_length`.
use Prim.Native.Nat.{ℕ, zero, suc, ◌/◌}

-- `bit_length`, on as much fuel as the number
unfoldable pub bit_length_on : ℕ → ℕ → ℕ
bit_length_on zero m = 0
bit_length_on (suc fuel) zero = 0
bit_length_on (suc fuel) (suc m) = suc (bit_length_on fuel (suc m / 2))

unfoldable pub bit_length : ℕ → ℕ
unfolding bit_length_on
bit_length m = bit_length_on m m
