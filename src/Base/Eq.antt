-- ===== src/Base/Eq.antt =====
-- Python's `==` on the types that are dictionary keys.
use mathlib.Core.Path.{◌≡◌}
use mathlib.Core.Logic.{◌↔◌}
use mathlib.Core.Bool.{Bool, true}

pub record HasEq {ℓ} (K : Type ℓ) : Type ℓ where
  pub equals : K → K → Bool
  pub equals_iff : (j k : K) → (equals j k ≡ true) ↔ (j ≡ k)

-- `j == k`
abbrev pub ◌==◌ {ℓ} : {K : Type ℓ} ⦃same : HasEq K⦄ → K → K → Bool
◌==◌ ⦃same⦄ j k = same.equals j k

infix 50 ◌==◌
