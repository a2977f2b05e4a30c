-- ===== src/Safety/Limits.antt =====
-- `is_valid` of src/safety.py, and what may become of an order that it accepts.
use mathlib.Core.Path.{subst}
use hft_trading_system.Prelude.{
  Dict, Every, ap, arith, eqb, eqb_iff, if◌then◌else◌, inl, inr, insert, insert-Every, int_eq,
  int_laws, lookup, nat_eq, neg, none, pos, refl, total, total-insert_new, true, ℕ, ℤ, ◌&&◌, ◌+ℤ◌,
  ◌-ℤ◌, ◌<ℤ◌, ◌∙◌, ◌≡◌, ◌≤ℤ◌,
}
use hft_trading_system.Safety.Position.{PositionTracker, get_position}
use hft_trading_system.Safety.Exposure.{
  OeConfig, buy_exposure, buy_side, outstanding, sell_exposure, sell_side,
}
use hft_trading_system.Safety.Pnl.{PnLTracker}
use hft_trading_system.Safety.Risk.{RiskTracker, is_valid, screen}
use hft_trading_system.Safety.Scenarios.{
  HasSide, IsPossible, Scenario, exposure_bounds, position_after,
}

-- The entry of the order in the table of open orders
abbrev pub placed : ℕ → ℕ → ℤ → ℤ → OeConfig
placed symbol side quantity price = record {
  symbol = symbol;
  side = side;
  quantity = quantity;
  price = price;
  filled = pos 0;
}

-- The exposure on the side of an order
abbrev pub exposure : ℕ → ℕ → Dict ℕ OeConfig → ℤ → ℤ
exposure symbol side open_orders position =
    if eqb side buy_side
    then buy_exposure symbol open_orders position
    else sell_exposure symbol open_orders position

pub screen-none :
    (symbol side : ℕ) (quantity price : ℤ) (open_orders : Dict ℕ OeConfig)
    (positions : PositionTracker) (pnl : PnLTracker) (r : RiskTracker)
    → screen symbol side quantity price open_orders positions pnl r ≡ none
    → (exposure symbol side open_orders (get_position symbol positions) +ℤ quantity
        ≤ℤ r.max_exposure)
      × (pos 0 <ℤ quantity)
unfolding screen
screen-none symbol side quantity price open_orders positions pnl r h = ground arith

pub is_valid-screen :
    (symbol side : ℕ) (quantity price : ℤ) (open_orders : Dict ℕ OeConfig)
    (positions : PositionTracker) (pnl : PnLTracker) (seq now : ℕ) (r : RiskTracker)
    → (is_valid symbol side quantity price open_orders positions pnl seq now r).0.0 ≡ true
    → screen symbol side quantity price open_orders positions pnl r ≡ none
unfolding is_valid
is_valid-screen symbol side quantity price open_orders positions pnl seq now r h = ground arith

no_fill : (n : ℤ) → n -ℤ pos 0 ≡ n
no_fill n = omega int_laws

outstanding-insert :
    (symbol side oid : ℕ) (quantity price : ℤ) (d : Dict ℕ OeConfig)
    → lookup oid d ≡ none
    → outstanding symbol side (insert oid (placed symbol side quantity price) d)
      ≡ outstanding symbol side d +ℤ quantity
unfolding outstanding
outstanding-insert symbol side oid quantity price d new =
    let w : OeConfig → ℤ =
      λ o. if eqb o.symbol symbol && eqb o.side side then o.quantity -ℤ o.filled else pos 0 in
    let same : w (placed symbol side quantity price) ≡ quantity =
      ground (arith, no_fill quantity, eqb_iff symbol symbol, eqb_iff side side) in
    total-insert_new w oid (placed symbol side quantity price) d new ∙ ap (λ n. total w d +ℤ n) same

Possible-Sided :
    (symbol side oid : ℕ) (quantity price : ℤ) (d : Dict ℕ OeConfig)
    → HasSide (placed symbol side quantity price)
    → Every HasSide d
    → Every HasSide (insert oid (placed symbol side quantity price) d)
Possible-Sided symbol side oid quantity price d h hs =
    insert-Every HasSide oid (placed symbol side quantity price) d h hs

within : (p q t n m : ℤ) → p ≤ℤ q +ℤ (t +ℤ n) → q +ℤ t +ℤ n ≤ℤ m → p ≤ℤ m
within p q t n m h k = omega int_laws

within_down : (p q t n m : ℤ) → neg (neg q +ℤ (t +ℤ n)) ≤ℤ p → neg q +ℤ t +ℤ n ≤ℤ m → neg m ≤ℤ p
within_down p q t n m h k = omega int_laws

-- An accepted buy cannot take the position beyond the exposure that is allowed, where its number is
-- not in use and each open order is a buy or a sell: once it stands among the open orders, and
-- however much of each of these is filled, up to its quantity, the position in its symbol ends at
-- most at `max_exposure`.
pub is_valid-bounds_buy :
    (symbol oid : ℕ) (quantity price : ℤ) (open_orders : Dict ℕ OeConfig)
    (positions : PositionTracker) (pnl : PnLTracker) (seq now : ℕ) (r : RiskTracker) (f : Scenario)
    → (is_valid symbol buy_side quantity price open_orders positions pnl seq now r).0.0 ≡ true
    → lookup oid open_orders ≡ none
    → Every HasSide open_orders
    → IsPossible f (insert oid (placed symbol buy_side quantity price) open_orders)
    → position_after f symbol
        (get_position symbol positions)
        (insert oid (placed symbol buy_side quantity price) open_orders)
      ≤ℤ r.max_exposure
unfolding buy_exposure
is_valid-bounds_buy symbol oid quantity price d positions pnl seq now r f accepted new sides
      possible =
    let here = get_position symbol positions in
    let d' = insert oid (placed symbol buy_side quantity price) d in
    let shown =
      screen-none symbol buy_side quantity price d positions pnl r
        (is_valid-screen symbol buy_side quantity price d positions pnl seq now r accepted) in
    let bound =
      (exposure_bounds f symbol here d' possible
        (Possible-Sided symbol buy_side oid quantity price d (inl refl) sides)).0 in
    within (position_after f symbol here d') here (outstanding symbol buy_side d) quantity
      r.max_exposure
      (subst (λ n. position_after f symbol here d' ≤ℤ here +ℤ n)
        (outstanding-insert symbol buy_side oid quantity price d new) bound)
      shown.0

-- An accepted sell cannot take the position beyond the exposure that is allowed, where its number
-- is not in use and each open order is a buy or a sell: once it stands among the open orders, and
-- however much of each of these is filled, up to its quantity, the position in its symbol ends at
-- least at minus `max_exposure`.
pub is_valid-bounds_sell :
    (symbol oid : ℕ) (quantity price : ℤ) (open_orders : Dict ℕ OeConfig)
    (positions : PositionTracker) (pnl : PnLTracker) (seq now : ℕ) (r : RiskTracker) (f : Scenario)
    → (is_valid symbol sell_side quantity price open_orders positions pnl seq now r).0.0 ≡ true
    → lookup oid open_orders ≡ none
    → Every HasSide open_orders
    → IsPossible f (insert oid (placed symbol sell_side quantity price) open_orders)
    → neg r.max_exposure
      ≤ℤ position_after f symbol
          (get_position symbol positions)
          (insert oid (placed symbol sell_side quantity price) open_orders)
unfolding sell_exposure
is_valid-bounds_sell symbol oid quantity price d positions pnl seq now r f accepted new sides
      possible =
    let here = get_position symbol positions in
    let d' = insert oid (placed symbol sell_side quantity price) d in
    let shown =
      screen-none symbol sell_side quantity price d positions pnl r
        (is_valid-screen symbol sell_side quantity price d positions pnl seq now r accepted) in
    let bound =
      (exposure_bounds f symbol here d' possible
        (Possible-Sided symbol sell_side oid quantity price d (inr refl) sides)).1 in
    within_down (position_after f symbol here d') here (outstanding symbol sell_side d) quantity
      r.max_exposure
      (subst (λ n. neg (neg here +ℤ n) ≤ℤ position_after f symbol here d')
        (outstanding-insert symbol sell_side oid quantity price d new) bound)
      shown.0
