-- ===== src/Safety/Scenarios.antt =====
-- The exposures of src/safety.py, and what may become of the open orders.
use hft_trading_system.Prelude.{
  Dict, Done, Every, [], arith, eqb, eqb_iff, if◌then◌else◌, int_eq, int_laws, nat_eq, neg,
  neg_parts, pos, total, ℕ, ℤ, ◌&&◌, ◌+ℤ◌, ◌-ℤ◌, ◌∷◌, ◌≡◌, ◌≤ℤ◌, ◌⊎◌,
}
use hft_trading_system.Safety.Exposure.{
  OeConfig, buy_exposure, buy_side, outstanding, sell_exposure, sell_side,
}

-- How much more of each open order is filled
abbrev pub Scenario : Type 0
Scenario = ℕ → OeConfig → ℤ

-- No order is filled beyond its quantity.
abbrev pub IsPossible : Scenario → Dict ℕ OeConfig → Type 0
IsPossible f [] = Done
IsPossible f ((oid, o) ∷ d) =
    (pos 0 ≤ℤ f oid o) × (f oid o ≤ℤ o.quantity -ℤ o.filled) × IsPossible f d

abbrev pub HasSide : OeConfig → Type 0
HasSide o = (o.side ≡ buy_side) ⊎ (o.side ≡ sell_side)

-- What the fills of an order change of the position in a symbol, as `_process_responses` books them
abbrev pub change : ℕ → OeConfig → ℤ → ℤ
change symbol o n = if eqb o.symbol symbol then if eqb o.side buy_side then n else neg n else pos 0

abbrev pub position_after : Scenario → ℕ → ℤ → Dict ℕ OeConfig → ℤ
position_after f symbol position [] = position
position_after f symbol position ((oid, o) ∷ d) =
    position_after f symbol position d +ℤ change symbol o (f oid o)

change-bounds :
    (symbol : ℕ) (o : OeConfig) (n : ℤ)
    → pos 0 ≤ℤ n
    → n ≤ℤ o.quantity -ℤ o.filled
    → HasSide o
    → (change symbol o n
        ≤ℤ (if eqb o.symbol symbol && eqb o.side buy_side then o.quantity -ℤ o.filled else pos 0))
      × (neg (if eqb o.symbol symbol && eqb o.side sell_side then o.quantity -ℤ o.filled else pos 0)
          ≤ℤ change symbol o n)
change-bounds symbol o n low high side = ground (
  arith,
  neg_parts n,
  neg_parts (o.quantity -ℤ o.filled),
  neg_parts (pos 0),
  eqb_iff o.side buy_side,
  eqb_iff o.side sell_side,
)

step_up : (p q t c w : ℤ) → p ≤ℤ q +ℤ t → c ≤ℤ w → p +ℤ c ≤ℤ q +ℤ (w +ℤ t)
step_up p q t c w h k = omega int_laws

step_down : (p q t c w : ℤ) → neg (neg q +ℤ t) ≤ℤ p → neg w ≤ℤ c → neg (neg q +ℤ (w +ℤ t)) ≤ℤ p +ℤ c
step_down p q t c w h k = omega int_laws

-- Where each open order is a buy or a sell, and however much of each is filled still, up to its
-- quantity, the position in a symbol ends at most at `buy_exposure` and at least at minus
-- `sell_exposure`.
pub exposure_bounds :
    (f : Scenario) (symbol : ℕ) (position : ℤ) (open_orders : Dict ℕ OeConfig)
    → IsPossible f open_orders
    → Every HasSide open_orders
    → (position_after f symbol position open_orders ≤ℤ buy_exposure symbol open_orders position)
      × (neg (sell_exposure symbol open_orders position)
          ≤ℤ position_after f symbol position open_orders)
unfolding buy_exposure sell_exposure outstanding total
exposure_bounds f symbol position [] h sides = (omega int_laws, omega int_laws)
exposure_bounds f symbol position ((oid, o) ∷ d) (low, high, h) (side, sides) =
    let ih = exposure_bounds f symbol position d h sides in
    let bounds = change-bounds symbol o (f oid o) low high side in
    (
      step_up (position_after f symbol position d) position (outstanding symbol buy_side d)
          (change symbol o (f oid o)) _ ih.0 bounds.0,
      step_down (position_after f symbol position d) position (outstanding symbol sell_side d)
          (change symbol o (f oid o)) _ ih.1 bounds.1,
    )
