-- ===== src/Safety/Position.antt =====
-- `class PositionTracker` of src/safety.py.
use hft_trading_system.Prelude.{
  Dict, [], eqb_ℤ, if◌then◌else◌, insert, int_eq, lookup, nat_eq, none, pos, some, total, ℕ, ℤ,
  ◌+ℤ◌, ◌-ℤ◌,
}

pub record PositionTracker : Type 0 where
  pub symbol_position : Dict ℕ ℤ
  pub total_bought : Dict ℕ ℤ
  pub total_sold : Dict ℕ ℤ

abbrev pub new_position_tracker : PositionTracker
new_position_tracker = record { symbol_position = []; total_bought = []; total_sold = [] }

-- `d.get(symbol, 0)`
unfoldable pub get_amount : ℕ → Dict ℕ ℤ → ℤ
get_amount symbol d = elim (lookup symbol d) [ none ↦ pos 0 | some n ↦ n ]

unfoldable pub update_position : ℕ → ℤ → ℤ → PositionTracker → PositionTracker
unfolding get_amount
update_position symbol buy_qty sell_qty t = record {
  symbol_position =
      insert symbol (get_amount symbol t.symbol_position +ℤ buy_qty -ℤ sell_qty) t.symbol_position;
  total_bought =
      if eqb_ℤ buy_qty (pos 0)
      then t.total_bought
      else insert symbol (get_amount symbol t.total_bought +ℤ buy_qty) t.total_bought;
  total_sold =
      if eqb_ℤ sell_qty (pos 0)
      then t.total_sold
      else insert symbol (get_amount symbol t.total_sold +ℤ sell_qty) t.total_sold;
}

unfoldable pub get_position : ℕ → PositionTracker → ℤ
unfolding get_amount
get_position symbol t = get_amount symbol t.symbol_position

unfoldable pub get_net_position : PositionTracker → ℤ
get_net_position t = total (λ n. n) t.symbol_position
