-- ===== src/Token/Factor.antt =====
-- `generate_blinding_factor` of `BlindRSACore` and `blind` without a given r
-- (crypto/token/crypto_token.py).
mod Manager
use onyx_p2p_auction_system.Base.{
  ℕ, zero, suc, ◌+◌, ◌-◌, ◌*◌, ◌%◌, ◌≤◌, ◌<◌, String, Bool, true, false, ◌||◌, Option, none, some,
  ◌≡◌, ◌↔◌, refl, subst, arith, ap, ◌∙◌, inl, inr, leb, nat_eq, nat_eq_iff, if◌then◌else◌,
}
use onyx_p2p_auction_system.Base.Exec.{Result, ok, raised, value_error, bind_result}
use onyx_p2p_auction_system.Token.{Encoding, PublicKey, blind, unblind, verify, sign_blinded}
use onyx_p2p_auction_system.Token.Modular.{mul-mod_left}
use onyx_p2p_auction_system.Token.Blind.{IsUnit, IsCodec, IsKeyPair, obtain, obtain-verify}
use native.Mathlib.Nat

-- whether a number below the bound is an inverse of r
has_inverse_below : ℕ → ℕ → ℕ → Bool
has_inverse_below n r zero = false
has_inverse_below n r (suc y) = nat_eq (y * r % n) (1 % n) || has_inverse_below n r y

-- whether Python's `pow(r, -1, n)` returns
is_invertible : ℕ → ℕ → Bool
unfolding has_inverse_below
is_invertible n r = has_inverse_below n r n

-- the loop from the i-th draw on; `draw` are the values of `secrets.randbelow(n - 2)`
first_invertible : ℕ → (ℕ → ℕ) → ℕ → ℕ → Option ℕ
unfolding is_invertible
first_invertible n draw zero i = none
first_invertible n draw (suc fuel) i =
    let rest = first_invertible n draw fuel (suc i) in
    if is_invertible n (draw i + 1) then some (draw i + 1) else rest

-- `none` is a loop that still runs when the fuel is used up; `randbelow` raises below 1.
pub generate_blinding_factor : ℕ → (ℕ → ℕ) → ℕ → Option (Result ℕ)
unfolding first_invertible
generate_blinding_factor n draw fuel =
    if leb n 2
    then some (raised value_error)
    else elim (first_invertible n draw fuel 0) [ none ↦ none | some r ↦ some (ok r) ]

module _ (encoding : Encoding) (key : PublicKey) (draw : ℕ → ℕ) where
  pub with_factor : String → Option (Result ℕ) → Option (Result (String × ℕ))
  with_factor token_id none = none
  with_factor token_id (some (raised error)) = some (raised error)
  with_factor token_id (some (ok r)) = some (ok (blind encoding key token_id r))

  -- `blind` where r is None
  pub blind_fresh : ℕ → String → Option (Result (String × ℕ))
  unfolding with_factor
  blind_fresh fuel token_id = with_factor token_id (generate_blinding_factor key.n draw fuel)

has_inverse_below-true : (n r k y : ℕ) → y < k → y * r % n ≡ 1 % n → has_inverse_below n r k ≡ true
unfolding has_inverse_below
has_inverse_below-true n r zero y below e = absurd (omega arith)
has_inverse_below-true n r (suc k) y below e =
    elim (Nat.eq-or-lt_of_le {n = y} {m = k} (omega arith)) [
      | inl same ↦
          ap (λ found. found || has_inverse_below n r k)
            ((nat_eq_iff (k * r % n) (1 % n)).1 (subst (λ (x : ℕ). x * r % n ≡ 1 % n) same e))
      | inr less ↦ ground (arith, has_inverse_below-true n r k y less e)
    ]

has_inverse_below-IsUnit : (n r k : ℕ) → has_inverse_below n r k ≡ true → IsUnit n r
unfolding has_inverse_below
has_inverse_below-IsUnit n r zero e = ground arith
has_inverse_below-IsUnit n r (suc k) e =
    by_test (nat_eq (k * r % n) (1 % n)) refl e (has_inverse_below-IsUnit n r k)
  where
    by_test :
        (found : Bool)
        → nat_eq (k * r % n) (1 % n) ≡ found
        → (found || has_inverse_below n r k) ≡ true
        → (has_inverse_below n r k ≡ true → IsUnit n r)
        → IsUnit n r
    by_test true test known below = (k, (nat_eq_iff (k * r % n) (1 % n)).0 test)
    by_test false test known below = below known

-- `pow(r, -1, n)` returns exactly for the invertible numbers.
is_invertible_iff : (n r : ℕ) → 0 < n → is_invertible n r ≡ true ↔ IsUnit n r
unfolding is_invertible
is_invertible_iff n r positive = (
  has_inverse_below-IsUnit n r n,
  λ (y, e). has_inverse_below-true n r n (y % n) (Nat.mod-lt y positive) (mul-mod_left n y r ∙ e),
)

-- what the loop finds
abbrev Finds : ℕ → (ℕ → ℕ) → ℕ → ℕ → ℕ → Type 0
Finds n draw i k r =
    IsUnit n r
    × ((j : ℕ) × (r ≡ draw j + 1))
    × ((fuel : ℕ) → k < fuel → first_invertible n draw fuel i ≡ some r)

first_invertible-hit :
    (n : ℕ) (draw : ℕ → ℕ) (i fuel : ℕ)
    → is_invertible n (draw i + 1) ≡ true
    → 0 < fuel
    → first_invertible n draw fuel i ≡ some (draw i + 1)
unfolding first_invertible
first_invertible-hit n draw i zero test given = absurd (omega arith)
first_invertible-hit n draw i (suc fuel) test given = rw test refl

first_invertible-miss :
    (n : ℕ) (draw : ℕ → ℕ) (i fuel : ℕ) (found : Option ℕ)
    → is_invertible n (draw i + 1) ≡ false
    → first_invertible n draw fuel (suc i) ≡ found
    → first_invertible n draw (suc fuel) i ≡ found
unfolding first_invertible
first_invertible-miss n draw i fuel found test e = rw test e

Finds-now :
    (n : ℕ) (draw : ℕ → ℕ) (i k : ℕ)
    → 0 < n
    → is_invertible n (draw i + 1) ≡ true
    → (r : ℕ) × Finds n draw i k r
Finds-now n draw i k positive test = (
  draw i + 1,
  (
    (is_invertible_iff n (draw i + 1) positive).0 test,
    (i, refl),
    λ fuel below. first_invertible-hit n draw i fuel test (omega arith),
  ),
)

Finds-later :
    (n : ℕ) (draw : ℕ → ℕ) (i k : ℕ)
    → is_invertible n (draw i + 1) ≡ false
    → (r : ℕ) × Finds n draw (suc i) k r
    → (r : ℕ) × Finds n draw i (suc k) r
Finds-later n draw i k test (r, (unit, drawn, enough)) = (r, (unit, drawn, run))
  where
    run : (fuel : ℕ) → suc k < fuel → first_invertible n draw fuel i ≡ some r
    run zero below = absurd (omega arith)
    run (suc fuel) below =
        first_invertible-miss n draw i fuel (some r) test (enough fuel (omega arith))

-- With an invertible draw ahead the loop ends at it or before, on any larger fuel the same.
first_invertible-Finds :
    (n : ℕ) (draw : ℕ → ℕ) (i k : ℕ)
    → 0 < n
    → IsUnit n (draw (i + k) + 1)
    → (r : ℕ) × Finds n draw i k r
first_invertible-Finds n draw i zero positive unit = Finds-now n draw i zero positive (
    (is_invertible_iff n (draw i + 1) positive).1
      (subst (λ (j : ℕ). IsUnit n (draw j + 1)) (omega arith) unit))
first_invertible-Finds n draw i (suc k) positive unit =
    by_test (is_invertible n (draw i + 1)) refl (
      first_invertible-Finds n draw (suc i) k positive
        (subst (λ (j : ℕ). IsUnit n (draw j + 1)) (omega arith) unit))
  where
    by_test :
        (test : Bool)
        → is_invertible n (draw i + 1) ≡ test
        → (r : ℕ) × Finds n draw (suc i) k r
        → (r : ℕ) × Finds n draw i (suc k) r
    by_test true test later = Finds-now n draw i (suc k) positive test
    by_test false test later = Finds-later n draw i k test later

generate_blinding_factor-found :
    (n : ℕ) (draw : ℕ → ℕ) (fuel r : ℕ)
    → 2 < n
    → first_invertible n draw fuel 0 ≡ some r
    → generate_blinding_factor n draw fuel ≡ some (ok r)
unfolding generate_blinding_factor
generate_blinding_factor-found n draw fuel r large found = rw found (ground arith)

blind_fresh-found :
    (encoding : Encoding) (key : PublicKey) (draw : ℕ → ℕ) (fuel : ℕ) (token_id : String) (r : ℕ)
    → generate_blinding_factor key.n draw fuel ≡ some (ok r)
    → blind_fresh encoding key draw fuel token_id ≡ some (ok (blind encoding key token_id r))
unfolding blind_fresh with_factor
blind_fresh-found encoding key draw fuel token_id r found =
    ap (with_factor encoding key draw token_id) found

module _ (encoding : Encoding) (key : PublicKey) (d : ℕ) (large : 2 < key.n)
    (codec : IsCodec encoding) (key_pair : IsKeyPair key d) (draw : ℕ → ℕ)
    (below : (i : ℕ) → draw i < key.n - 2) where
  open key use {n}

  -- If one of the drawn numbers, the k-th, is invertible with 1 added, then `blind` without a given
  -- factor returns, on any fuel above k the same: a factor between 1 and n - 2, and the blinded token,
  -- such that unblinding the CA's signature of it gives a signature that `verify` accepts.
  pub blind_fresh-verify :
      (token_id : String) (k : ℕ)
      → IsUnit n (draw k + 1)
      → (blinded : String) × (r : ℕ) × ((fuel : ℕ)
          → k < fuel
          → blind_fresh encoding key draw fuel token_id ≡ some (ok (blinded, r)))
        × (1 ≤ r)
        × (r ≤ n - 2)
        × (sig : String) × (bind_result
              (sign_blinded encoding n d blinded)
              (λ reply. unblind encoding key reply r)
            ≡ ok sig)
        × (verify encoding key token_id sig ≡ ok true)
  unfolding obtain blind
  blind_fresh-verify token_id k unit =
      let (r, (invertible, (j, drawn), enough)) =
        first_invertible-Finds n draw 0 k (omega arith)
          (subst (λ (j : ℕ). IsUnit n (draw j + 1)) (omega arith) unit) in
      let (sig, obtained, verified) =
        obtain-verify encoding key d (omega arith) codec key_pair token_id r invertible in
      (
        (blind encoding key token_id r).0,
        r,
        λ fuel more.
            blind_fresh-found encoding key draw fuel token_id r
              (generate_blinding_factor-found n draw fuel r large (enough fuel more)),
        omega (arith, drawn),
        omega (arith, drawn, below j),
        sig,
        obtained,
        verified,
      )
