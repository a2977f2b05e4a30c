-- ===== src/Safety/Cash.antt =====
-- The cash of src/safety.py over many fills, and the rounding of doubles.
use hft_trading_system.Prelude.{
  Done, List, [], abs, add_zero, ap, arith, int_eq, int_laws, nat_eq, neg, neg_part, pos, pos_part,
  refl, sub_ℕ, suc, sym, zero, ℕ, ℤ, ◌*ℤ◌, ◌+ℤ◌, ◌-ℤ◌, ◌<◌, ◌∙◌, ◌∷◌, ◌≡◌,
}
use hft_trading_system.Safety.Pnl.{
  PnLTracker, get_pnl, on_fill_buy, on_fill_sell, round_magnitude, round_to, spacing, to_double,
  turnover,
}

-- 2 ^ 53
abbrev pub exact_limit : ℕ
exact_limit = 9007199254740992

pub data Fill : Type 0 where
  bought sold : ℕ → ℤ → ℤ → Fill

unfoldable pub on_fill : Fill → PnLTracker → PnLTracker
unfolding on_fill_buy on_fill_sell
on_fill (bought symbol quantity price) t = on_fill_buy symbol quantity price t
on_fill (sold symbol quantity price) t = on_fill_sell symbol quantity price t

unfoldable pub on_fills : List Fill → PnLTracker → PnLTracker
unfolding on_fill
on_fills [] t = t
on_fills (x ∷ xs) t = on_fills xs (on_fill x t)

-- What a fill pays
abbrev pub cash_flow : Fill → ℤ
cash_flow (bought symbol quantity price) = neg (price *ℤ quantity)
cash_flow (sold symbol quantity price) = price *ℤ quantity

abbrev pub cash_flows : List Fill → ℤ
cash_flows [] = pos 0
cash_flows (x ∷ xs) = cash_flow x +ℤ cash_flows xs

abbrev pub IsExact : ℤ → Type 0
IsExact a = abs a < exact_limit

abbrev pub HasExactTerms : Fill → Type 0
HasExactTerms (bought symbol quantity price) =
    IsExact price × IsExact quantity × IsExact (price *ℤ quantity)
HasExactTerms (sold symbol quantity price) =
    IsExact price × IsExact quantity × IsExact (price *ℤ quantity)

-- Prices, quantities, amounts and every balance on the way are below 2^53.
abbrev pub StaysExact : ℤ → List Fill → Type 0
StaysExact cash [] = Done
StaysExact cash (x ∷ xs) =
    HasExactTerms x × IsExact (cash +ℤ cash_flow x) × StaysExact (cash +ℤ cash_flow x) xs

sub_parts : (a : ℤ) → sub_ℕ (pos_part a) (neg_part a) ≡ a
sub_parts a = ground arith

spacing-exact : (fuel n : ℕ) → n < exact_limit → spacing fuel n 1 ≡ 1
unfolding spacing
spacing-exact zero n h = refl
spacing-exact (suc fuel) n h = ground arith

round_to_one : (n : ℕ) → round_to 1 n ≡ n
unfolding round_to
round_to_one n = ground arith

round_magnitude-exact : (n : ℕ) → n < exact_limit → round_magnitude n ≡ n
unfolding round_magnitude
round_magnitude-exact n h = rw (spacing-exact 1024 n h) (round_to_one n)

to_double-exact : (a : ℤ) → IsExact a → to_double a ≡ a
unfolding to_double abs
to_double-exact a h =
    rw
      (
        round_magnitude-exact (pos_part a) (omega arith),
        round_magnitude-exact (neg_part a) (omega arith),
      )
      (sub_parts a)

turnover-exact :
    (quantity price : ℤ)
    → IsExact price
    → IsExact quantity
    → IsExact (price *ℤ quantity)
    → turnover quantity price ≡ price *ℤ quantity
unfolding turnover
turnover-exact quantity price p q v =
    ap (λ x. to_double (x *ℤ to_double quantity)) (to_double-exact price p)
    ∙ ap (λ x. to_double (price *ℤ x)) (to_double-exact quantity q)
    ∙ to_double-exact (price *ℤ quantity) v

sub_neg : (a b : ℤ) → a -ℤ b ≡ a +ℤ neg b
sub_neg a b = omega int_laws

on_fill-exact :
    (x : Fill) (t : PnLTracker)
    → HasExactTerms x
    → IsExact (t.cash +ℤ cash_flow x)
    → on_fill x t ≡ record { cash = t.cash +ℤ cash_flow x }
unfolding on_fill on_fill_buy on_fill_sell
on_fill-exact (bought symbol quantity price) t (p, q, v) e =
    ap (λ x. record { cash = to_double (t.cash -ℤ x) }) (turnover-exact quantity price p q v)
    ∙ ap (λ x. record { cash = to_double x }) (sub_neg t.cash (price *ℤ quantity))
    ∙ ap (λ x. record { cash = x }) (to_double-exact (t.cash +ℤ neg (price *ℤ quantity)) e)
on_fill-exact (sold symbol quantity price) t (p, q, v) e =
    ap (λ x. record { cash = to_double (t.cash +ℤ x) }) (turnover-exact quantity price p q v)
    ∙ ap (λ x. record { cash = x }) (to_double-exact (t.cash +ℤ price *ℤ quantity) e)

add_assoc : (a b c : ℤ) → a +ℤ b +ℤ c ≡ a +ℤ (b +ℤ c)
add_assoc a b c = omega int_laws

-- As long as prices, quantities, amounts and balances stay below 2^53, the profit that `get_pnl`
-- reports after any fills is the cash before them and what each sale paid less what each purchase
-- cost, without a rounding error.
pub get_pnl-on_fills :
    (fills : List Fill) (t : PnLTracker)
    → StaysExact t.cash fills
    → get_pnl (on_fills fills t) ≡ t.cash +ℤ cash_flows fills
unfolding on_fills
get_pnl-on_fills [] t h = sym (add_zero t.cash)
get_pnl-on_fills (x ∷ xs) t (terms, exact, others) =
    ap (λ r. get_pnl (on_fills xs r)) (on_fill-exact x t terms exact)
    ∙ get_pnl-on_fills xs (record { cash = t.cash +ℤ cash_flow x }) others
    ∙ add_assoc t.cash (cash_flow x) (cash_flows xs)
