-- ===== src/Token/Inverse.antt =====
-- `_modinv` finds inverses: the invariant of its extended Euclidean loop, and what it returns.
use onyx_p2p_auction_system.Base.{
  ℕ, zero, suc, ◌+◌, ◌-◌, ◌*◌, ◌/◌, ◌%◌, ◌≤◌, ◌<◌, Bool, true, false, ◌≡◌, ◌⊎◌, inl, inr, refl,
  arith, ap, sym, subst, ◌∙◌,
}
use onyx_p2p_auction_system.Base.Int.{
  ℤ, pos, negsuc, ◌+ℤ◌, ◌-ℤ◌, ◌*ℤ◌, int_laws, pos_part, neg_part,
}
use onyx_p2p_auction_system.Base.Exec.{ok, raised, value_error}
use onyx_p2p_auction_system.Token.{modinv_loop, modinv_result, modinv, acc, remainder-lt}
use mathlib.Core.WellFounded.{Acc}
use native.Mathlib.Nat
use Prim.Native.Nat.{◌∣◌}

-- `u` with the sign `s`
signed : Bool → ℕ → ℤ
signed true u = pos u
signed false zero = pos 0
signed false (suc u) = negsuc u

abbrev flip : Bool → Bool
flip true = false
flip false = true

-- `x * a` is `r`, or `- r`, modulo `n`
abbrev Meets : Bool → ℕ → ℕ → ℕ → ℕ → Type 0
Meets true n a x r = (i : ℕ) × (j : ℕ) × (x * a + n * i ≡ r + n * j)
Meets false n a x r = (i : ℕ) × (j : ℕ) × (x * a + r + n * i ≡ n * j)

signed_false_parts : (u : ℕ) → (pos_part (signed false u) ≡ 0) × (neg_part (signed false u) ≡ u)
unfolding signed
signed_false_parts zero = (refl, refl)
signed_false_parts (suc u) = (refl, refl)

signed_step :
    (s : Bool) (u v q : ℕ) → signed s u -ℤ pos q *ℤ signed (flip s) v ≡ signed s (u + q * v)
unfolding signed
signed_step true u zero q = omega int_laws
signed_step true u (suc v) q = omega int_laws
signed_step false zero v q =
    omega (int_laws, (signed_false_parts (0 + q * v)).0, (signed_false_parts (0 + q * v)).1)
signed_step false (suc u) v q =
    omega (int_laws, (signed_false_parts (suc u + q * v)).0, (signed_false_parts (suc u + q * v)).1)

area_step : (r r' q k u v n : ℕ) → r ≡ r' + q * k → r * v + k * u ≡ n → k * (u + q * v) + r' * v ≡ n
area_step r r' q k u v n e h = omega (arith, ap (λ (x : ℕ). x * v) e)

bound_step : (r k u v n : ℕ) → 0 < r → r * v + k * u ≡ n → v ≤ n
bound_step r k u v n h e = let step : 1 * v ≤ r * v = Nat.mul-le-mul_right v h in omega arith

Meets-step :
    (s : Bool) (n a u v r r' q k : ℕ)
    → r ≡ r' + q * k
    → Meets s n a u r
    → Meets (flip s) n a v k
    → Meets s n a (u + q * v) r'
Meets-step true n a u v r r' q k e (i, j, h) (l, g, h') =
    (i + q * l, j + q * g, omega (arith, ap (λ (x : ℕ). q * x) h'))
Meets-step false n a u v r r' q k e (i, j, h) (l, g, h') =
    (i + q * l, j + q * g, omega (arith, ap (λ (x : ℕ). q * x) h'))

step_flip :
    (s : Bool) (u v q : ℕ)
    → signed s u -ℤ pos q *ℤ signed (flip s) v ≡ signed (flip (flip s)) (u + q * v)
step_flip true u v q = signed_step true u v q
step_flip false u v q = signed_step false u v q

turn : (s : Bool) (n a x r : ℕ) → Meets s n a x r → Meets (flip (flip s)) n a x r
turn true n a x r m = m
turn false n a x r m = m

-- What holds of the loop's `(t, r)`, when `_modinv a n` runs it.
record IsBezout (n a : ℕ) (out : ℤ × ℕ) : Type 0 where
  sign : Bool
  size : ℕ
  is_signed : out.0 ≡ signed sign size
  bound : size ≤ n
  positive : 0 < out.1
  meets : Meets sign n a size out.1

modinv_loop-IsBezout :
    (n a : ℕ) (s : Bool) (u v r new_r : ℕ) (w : Acc ◌<◌ new_r)
    → 0 < r
    → r * v + new_r * u ≡ n
    → u ≤ n
    → Meets s n a u r
    → Meets (flip s) n a v new_r
    → IsBezout n a (modinv_loop (signed s u) (signed (flip s) v) r new_r w)
unfolding modinv_loop
modinv_loop-IsBezout n a s u v r zero (Acc.intro _ _) pos_r area bound meets next = record {
  sign = s;
  size = u;
  is_signed = refl;
  bound = bound;
  positive = pos_r;
  meets = meets;
}
modinv_loop-IsBezout n a s u v r (suc k) (Acc.intro _ smaller) pos_r area bound meets next =
    let q = r / suc k in
    let r' = r - q * suc k in
    let e : r ≡ r' + q * suc k = omega arith in
    subst
      (λ t.
        IsBezout n a (modinv_loop (signed (flip s) v) t (suc k) r' (smaller r' (remainder-lt r k))))
      (sym (step_flip s u v q))
      (modinv_loop-IsBezout n a (flip s) v (u + q * v) (suc k) r' (smaller r' (remainder-lt r k))
        (omega arith) (area_step r r' q (suc k) u v n e area)
        (bound_step r (suc k) u v n pos_r area) next
        (turn s n a (u + q * v) r' (Meets-step s n a u v r r' q (suc k) e meets next)))

modinv_loop-dvd :
    (t new_t : ℤ) (r new_r : ℕ) (w : Acc ◌<◌ new_r)
    → let g = (modinv_loop t new_t r new_r w).1 in (g ∣ r) × (g ∣ new_r)
unfolding modinv_loop
modinv_loop-dvd t new_t r zero (Acc.intro _ _) = (Nat.dvd_refl r, Nat.dvd-zero r)
modinv_loop-dvd t new_t r (suc k) (Acc.intro _ smaller) =
    let q = r / suc k in
    let r' = r - q * suc k in
    let e : r' + q * suc k ≡ r = omega arith in
    let (on_k, on_r') =
      modinv_loop-dvd new_t (t -ℤ pos q *ℤ new_t) (suc k) r' (smaller r' (remainder-lt r k)) in
    (
      subst
          (λ x.
            (modinv_loop new_t (t -ℤ pos q *ℤ new_t) (suc k) r' (smaller r' (remainder-lt r k))).1
            ∣ x)
          e (Nat.dvd-add _ on_r' (Nat.dvd-mul_left_of_dvd _ on_k q)),
      on_k,
    )

-- the loop as `_modinv` starts it
start : (n a : ℕ) → 0 < n → IsBezout n a (modinv_loop (pos 0) (pos 1) n a (acc a))
unfolding signed
start n a h =
    modinv_loop-IsBezout n a false 0 1 n a (acc a) h (omega arith) (omega arith) (0, 1, omega arith)
      (0, 0, omega arith)

mod_of_sum : (n x i y j : ℕ) → x + n * i ≡ y + n * j → x % n ≡ y % n
mod_of_sum n x i y j e =
    sym (Nat.add-mul-mod_self_left x n i)
    ∙ ap (λ (m : ℕ). m % n) e
    ∙ Nat.add-mul-mod_self_left y n j

-- the number that the tests behind the loop return
residue :
    (n a : ℕ) (s : Bool) (u : ℕ)
    → u ≤ n
    → Meets s n a u 1
    → (x : ℕ) × (modinv_result n (signed s u, 1) ≡ ok x) × (x * a % n ≡ 1 % n) × (x ≤ n)
unfolding modinv_result signed ◌+ℤ◌
residue n a true u h (i, j, e) = (u, ground arith, mod_of_sum n (u * a) i 1 j e, h)
residue n a false zero h (i, j, e) =
    (0, ground arith, mod_of_sum n (0 * a) j 1 i (omega arith), omega arith)
residue n a false (suc u) h (i, j, e) =
    let m = n - suc u in
    let split : m + suc u ≡ n = omega arith in
    (
      m,
      ground arith,
      mod_of_sum n (m * a) j 1 (a + i) (omega (arith, ap (λ (x : ℕ). x * a) split)),
      omega arith,
    )

outcome :
    (n a : ℕ) (t : ℤ) (r : ℕ)
    → IsBezout n a (t, r)
    → (r ∣ n) × (r ∣ a)
    → ((x : ℕ) × (modinv_result n (t, r) ≡ ok x) × (x * a % n ≡ 1 % n) × (x ≤ n))
      ⊎ ((modinv_result n (t, r) ≡ raised value_error) × ((g : ℕ) × (1 < g) × (g ∣ a) × (g ∣ n)))
unfolding modinv_result
outcome n a t zero b d = absurd (omega (arith, b.positive))
outcome n a t (suc zero) b d = inl (
    subst (λ s. (x : ℕ) × (modinv_result n (s, 1) ≡ ok x) × (x * a % n ≡ 1 % n) × (x ≤ n))
      (sym b.is_signed) (residue n a b.sign b.size b.bound b.meets))
outcome n a t (suc (suc k)) b d = inr (ground arith, (suc (suc k), omega arith, d.1, d.0))

-- With a positive modulus: either `_modinv` returns an inverse of `a`, or it raises ValueError and
-- some number above 1 divides both `a` and `n`.
pub modinv_lem :
    (a n : ℕ)
    → 0 < n
    → ((x : ℕ) × (modinv a n ≡ ok x) × (x * a % n ≡ 1 % n) × (x ≤ n))
      ⊎ ((modinv a n ≡ raised value_error) × ((g : ℕ) × (1 < g) × (g ∣ a) × (g ∣ n)))
modinv_lem a n h =
    unfold modinv in outcome n a _ _ (start n a h) (modinv_loop-dvd (pos 0) (pos 1) n a (acc a))
