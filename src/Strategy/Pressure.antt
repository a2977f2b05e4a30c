-- ===== src/Strategy/Pressure.antt =====
-- `decay` of `class SpoofDetector` of src/strategy.py, called again and again.

-- A measure of what a dictionary may hold for a symbol
use hft_trading_system.Prelude.{
  Bool-cases, Dict, Option, Option-cases, arith, false, if◌then◌else◌, inl, inr, int_eq, lookup,
  lookup-erase_self, lookup-insert_self, nat_eq, none, refl, some, suc, zero, ℕ, ◌-◌, ◌<◌, ◌≡◌, ◌≤◌,
}
use hft_trading_system.Strategy.Floats.{Float, less, literal, ◌⊗◌}
use hft_trading_system.Strategy.Spoofs.{SpoofDetector, decay, decay_pressure}

abbrev pub weigh : {W : Type 0} → (W → ℕ) → Option W → ℕ
weigh size none = 0
weigh size (some w) = suc (size w)

none_of_nothing : {W : Type 0} (size : W → ℕ) (o : Option W) → weigh size o ≤ 0 → o ≡ none
none_of_nothing size none h = refl
none_of_nothing size (some w) h = grind arith

module _ {W : Type 0} ⦃f : Float W⦄ where
  faded : Option W → Option W
  faded none = none
  faded (some w) =
      if less (w ⊗ literal 88 100) (literal 1 2) then none else some (w ⊗ literal 88 100)

  lookup-decay_pressure :
      (symbol : ℕ) (d : Dict ℕ W)
      → lookup symbol (decay_pressure symbol d) ≡ faded (lookup symbol d)
  unfolding decay_pressure faded
  lookup-decay_pressure symbol d = elim (Option-cases (lookup symbol d)) [
    | inl e ↦ rw (decay_pressure, e) e
    | inr (w, e) ↦ elim (Bool-cases (less (w ⊗ literal 88 100) (literal 1 2))) [
      | inl l ↦ rw (decay_pressure, e, l) (lookup-erase_self symbol d)
      | inr l ↦ rw (decay_pressure, e, l) (lookup-insert_self symbol (w ⊗ literal 88 100) d)
    ]
  ]

  -- 0.88 brings the measure down, except where it leads below 0.5.
  abbrev pub IsBroughtDown : (W → ℕ) → Type 0
  IsBroughtDown size =
      (w : W) → less (w ⊗ literal 88 100) (literal 1 2) ≡ false → size (w ⊗ literal 88 100) < size w

  faded-weigh :
      (size : W → ℕ) (o : Option W) → IsBroughtDown size → weigh size (faded o) ≤ weigh size o - 1
  unfolding faded
  faded-weigh size none h = omega arith
  faded-weigh size (some w) h = elim (Bool-cases (less (w ⊗ literal 88 100) (literal 1 2))) [
    | inl l ↦ rw (l) (omega arith)
    | inr l ↦ rw (l) (omega (arith, h w l))
  ]

  weight-decay_pressure :
      (size : W → ℕ) (n symbol : ℕ) (d : Dict ℕ W)
      → IsBroughtDown size
      → weigh size (lookup symbol d) ≤ suc n
      → weigh size (lookup symbol (decay_pressure symbol d)) ≤ n
  weight-decay_pressure size n symbol d h b =
      rw (lookup-decay_pressure symbol d) (omega (arith, faded-weigh size (lookup symbol d) h))

module _ {W : Type 0} ⦃f : Float W⦄ where
  abbrev pub decay_times : ℕ → ℕ → SpoofDetector W → SpoofDetector W
  decay_times zero symbol d = d
  decay_times (suc n) symbol d = decay_times n symbol (decay symbol d)

  -- Pressure wears off: once `decay` has been called for a symbol as often as the measure of what
  -- it holds for it, neither side has any entry for the symbol, if 0.88 brings the measure down
  -- wherever it does not lead below 0.5.
  pub decay_times-wears_off :
      (size : W → ℕ) (n symbol : ℕ) (d : SpoofDetector W)
      → IsBroughtDown size
      → weigh size (lookup symbol d.bid_pressure) ≤ n
      → weigh size (lookup symbol d.ask_pressure) ≤ n
      → (lookup symbol (decay_times n symbol d).bid_pressure ≡ none)
        × (lookup symbol (decay_times n symbol d).ask_pressure ≡ none)
  unfolding decay
  decay_times-wears_off size zero symbol d h b a = (
    none_of_nothing size (lookup symbol d.bid_pressure) b,
    none_of_nothing size (lookup symbol d.ask_pressure) a,
  )
  decay_times-wears_off size (suc n) symbol d h b a =
      decay_times-wears_off size n symbol (decay symbol d) h
        (weight-decay_pressure size n symbol d.bid_pressure h b)
        (weight-decay_pressure size n symbol d.ask_pressure h a)
