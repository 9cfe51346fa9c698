-- ===== src/Number.antt =====
-- Python's numbers as bids use them. Every finite double is a whole multiple of 2^-1074, so a finite
-- value is an integer in that unit: `<` and `==` are then exact, and those of an int and a float too.
use onyx_p2p_auction_system.Base.{
  ℕ, zero, suc, ◌+◌, ◌-◌, ◌*◌, ◌/◌, ◌%◌, ◌^◌, Bool, true, false, ◌≡◌, refl, arith, nat_eq, ltb,
  if◌then◌else◌,
}
use onyx_p2p_auction_system.Base.Int.{ℤ, pos, negsuc, pos_part, neg_part, ltb_ℤ}
use onyx_p2p_auction_system.Base.Bits.{bit_length}
use onyx_p2p_auction_system.Base.Exec.{Result, ok, raised, bind_result, overflow_error}

pub data Number : Type 0 where
  nan : Number
  minus_infinity : Number
  finite : ℤ → Number
  infinity : Number

abbrev pub zero_value : Number
zero_value = finite (pos 0)

-- `a < b`: false as soon as one side is NaN
abbrev pub lt : Number → Number → Bool
lt nan b = false
lt minus_infinity nan = false
lt minus_infinity minus_infinity = false
lt minus_infinity (finite b) = true
lt minus_infinity infinity = true
lt (finite a) nan = false
lt (finite a) minus_infinity = false
lt (finite a) (finite b) = ltb_ℤ a b
lt (finite a) infinity = true
lt infinity b = false

-- `a == b`: NaN is not equal to itself
abbrev pub eq : Number → Number → Bool
eq nan b = false
eq minus_infinity minus_infinity = true
eq minus_infinity _ = false
eq (finite a) (finite b) = nat_eq (pos_part a + neg_part b) (pos_part b + neg_part a)
eq (finite a) _ = false
eq infinity infinity = true
eq infinity _ = false

-- `max(a, b)` keeps its first argument unless the second is larger.
abbrev pub max_of : Number → Number → Number
max_of a b = if lt a b then b else a

abbrev pub is_nan : Number → Bool
is_nan nan = true
is_nan _ = false

-- `b` is a number that is not below `a`
abbrev pub IsAtLeast : Number → Number → Type 0
IsAtLeast a b = (lt b a ≡ false) × (is_nan b ≡ false)

pub lt_irrefl : (a : Number) → lt a a ≡ false
lt_irrefl nan = refl
lt_irrefl minus_infinity = refl
lt_irrefl (finite a) = ground arith
lt_irrefl infinity = refl

-- the quotient by a power of two, rounded to the nearest number and between two to the even one
abbrev rounded_quotient : ℕ → ℕ → ℕ
rounded_quotient m unit =
    let q = m / unit in
    let rest = 2 * (m % unit) in
    if ltb rest unit then q else if ltb unit rest then q + 1 else q + q % 2

-- `float(x)` of a size: 53 bits are kept, and 2^1024 or more is out of range
unfoldable pub round_size : ℕ → Result ℕ
round_size m =
    let unit = 2 ^ (bit_length m - 53) in
    let size = rounded_quotient m unit * unit in
    if ltb size (2 ^ 2098) then ok size else raised overflow_error

abbrev negated : ℕ → ℤ
negated zero = pos 0
negated (suc k) = negsuc k

-- `float(x)`: the value of a float is kept, and that of an int is rounded to a double.
unfoldable pub to_float : Number → Result Number
unfolding round_size
to_float nan = ok nan
to_float minus_infinity = ok minus_infinity
to_float infinity = ok infinity
to_float (finite (pos m)) = bind_result (round_size m) λ size. ok (finite (pos size))
to_float (finite (negsuc k)) = bind_result (round_size (suc k)) λ size. ok (finite (negated size))
