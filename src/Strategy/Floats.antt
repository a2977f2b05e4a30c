-- ===== src/Strategy/Floats.antt =====
-- Python's floats as src/strategy.py uses them: a type with the operations that the code applies.
-- Nothing is assumed of them here.
use hft_trading_system.Prelude.{Bool, if◌then◌else◌, int_eq, nat_eq, pos, ℕ, ℤ}

pub record Float (W : Type 0) : Type 0 where
  pub of_int : ℤ → W
  pub plus : W → W → W
  pub minus : W → W → W
  pub times : W → W → W
  pub over : W → W → W
  pub less : W → W → Bool
  pub floor : W → ℤ
  pub ceil : W → ℤ
  pub round : W → ℤ
  pub sqrt : W → W

module _ {W : Type 0} ⦃f : Float W⦄ where
  infixl 65 ◌⊕◌ ◌⊖◌
  infixl 70 ◌⊗◌ ◌⊘◌
  abbrev pub ◌⊕◌ : W → W → W
  ◌⊕◌ = f.plus

  abbrev pub ◌⊖◌ : W → W → W
  ◌⊖◌ = f.minus

  abbrev pub ◌⊗◌ : W → W → W
  ◌⊗◌ = f.times

  abbrev pub ◌⊘◌ : W → W → W
  ◌⊘◌ = f.over

  abbrev pub float : ℤ → W
  float = f.of_int

  -- A literal such as 0.05, as 5 in 100
  abbrev pub literal : ℕ → ℕ → W
  literal n d = f.of_int (pos n) ⊘ f.of_int (pos d)

  -- `a < b`, and `a >= b` away from NaN
  abbrev pub less : W → W → Bool
  less = f.less

  -- `max(a, b)` and `min(a, b)`: the first, unless the second is beyond it
  abbrev pub larger : W → W → W
  larger a b = if f.less a b then b else a

  abbrev pub smaller : W → W → W
  smaller a b = if f.less b a then b else a
