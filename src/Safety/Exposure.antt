-- ===== src/Safety/Exposure.antt =====
-- `class ExposureTracker` of src/safety.py, and `OeConfig`, the tuple that stands for an open order.
use hft_trading_system.Prelude.{
  Dict, eqb, if◌then◌else◌, int_eq, nat_eq, neg, pos, total, ℕ, ℤ, ◌&&◌, ◌+ℤ◌, ◌-ℤ◌,
}

pub record OeConfig : Type 0 where
  pub symbol : ℕ
  pub side : ℕ
  pub quantity : ℤ
  pub price : ℤ
  pub filled : ℤ

-- The values of `Side`
abbrev pub buy_side : ℕ
buy_side = 1

abbrev pub sell_side : ℕ
sell_side = 2

-- The loop over the open orders of a symbol and a side
unfoldable pub outstanding : ℕ → ℕ → Dict ℕ OeConfig → ℤ
outstanding symbol side =
    total (λ o. if eqb o.symbol symbol && eqb o.side side then o.quantity -ℤ o.filled else pos 0)

unfoldable pub buy_exposure : ℕ → Dict ℕ OeConfig → ℤ → ℤ
unfolding outstanding
buy_exposure symbol open_orders position = position +ℤ outstanding symbol buy_side open_orders

unfoldable pub sell_exposure : ℕ → Dict ℕ OeConfig → ℤ → ℤ
unfolding outstanding
sell_exposure symbol open_orders position = neg position +ℤ outstanding symbol sell_side open_orders
