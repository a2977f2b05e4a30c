-- ===== src/Safety/Pnl.antt =====
-- `class PnLTracker` of src/safety.py. The cash is a double that holds an integer; each operation
-- on doubles rounds its exact result to 53 significant bits, a tie to the even one.
use hft_trading_system.Prelude.{
  eqb, if◌then◌else◌, int_eq, ltb, nat_eq, neg_part, pos, pos_part, sub_ℕ, suc, zero, ℕ, ℤ, ◌%◌,
  ◌&&◌, ◌*ℤ◌, ◌*◌, ◌+ℤ◌, ◌+◌, ◌-ℤ◌, ◌/◌, ◌||◌,
}

-- The step between the doubles around n: a power of two. 1024 doublings pass every double.
unfoldable pub spacing : ℕ → ℕ → ℕ → ℕ
spacing zero n p = p
spacing (suc fuel) n p =
    let rest = spacing fuel n (2 * p) in if ltb n (9007199254740992 * p) then p else rest

unfoldable pub round_to : ℕ → ℕ → ℕ
round_to p n =
    if ltb p (2 * (n % p)) || eqb p (2 * (n % p)) && eqb (n / p % 2) 1
    then (n / p + 1) * p
    else n / p * p

unfoldable pub round_magnitude : ℕ → ℕ
unfolding spacing round_to
round_magnitude n = round_to (spacing 1024 n 1) n

-- `float(n)`
unfoldable pub to_double : ℤ → ℤ
unfolding round_magnitude
to_double a = sub_ℕ (round_magnitude (pos_part a)) (round_magnitude (neg_part a))

pub record PnLTracker : Type 0 where
  pub cash : ℤ

abbrev pub new_pnl_tracker : PnLTracker
new_pnl_tracker = record { cash = pos 0 }

-- `float(price) * quantity`
unfoldable pub turnover : ℤ → ℤ → ℤ
unfolding to_double
turnover quantity price = to_double (to_double price *ℤ to_double quantity)

unfoldable pub on_fill_buy : ℕ → ℤ → ℤ → PnLTracker → PnLTracker
unfolding turnover
on_fill_buy symbol quantity price t = record {
  cash = to_double (t.cash -ℤ turnover quantity price);
}

unfoldable pub on_fill_sell : ℕ → ℤ → ℤ → PnLTracker → PnLTracker
unfolding turnover
on_fill_sell symbol quantity price t = record {
  cash = to_double (t.cash +ℤ turnover quantity price);
}

abbrev pub get_pnl : PnLTracker → ℤ
get_pnl t = t.cash
