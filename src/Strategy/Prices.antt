-- ===== src/Strategy/Prices.antt =====
-- The numbers of src/strategy.py: `round_tick`, `_compute_fair_value`, `_compute_volatility`,
-- `_compute_half_spread_ticks`, `_detect_aggression`, and the prices and guards of `_step_symbol`.
-- A division by zero, which the defaults of the configuration rule out, raises nothing here.
use hft_trading_system.Prelude.{
  Bool, List, Option, [], abs, eqb, eqb_ℤ, false, if◌then◌else◌, int_eq, leb_ℤ, length, ltb, map,
  nat_eq, neg, none, pos, some, ℕ, ℤ, ◌*ℤ◌, ◌+ℤ◌, ◌-ℤ◌, ◌||◌, ◌∷◌,
}
use hft_trading_system.Safety.Exposure.{buy_side, sell_side}
use hft_trading_system.Strategy.Floats.{
  Float, float, larger, less, literal, smaller, ◌⊕◌, ◌⊖◌, ◌⊗◌, ◌⊘◌,
}
use hft_trading_system.Strategy.State.{RecentTrade, StrategyConfig}

-- The prices at which to quote, and whether to
pub record Plan : Type 0 where
  pub bid_price : ℤ
  pub ask_price : ℤ
  pub should_bid : Bool
  pub should_ask : Bool

-- The prices of `_step_symbol` that do not cross the book
unfoldable pub uncrossed : (bb ba : ℤ) → (tick : ℕ) → (bid ask : ℤ) → ℤ × ℤ
uncrossed bb ba tick bid ask =
    (if leb_ℤ ba bid then ba -ℤ pos tick else bid, if leb_ℤ ask bb then bb +ℤ pos tick else ask)

module _ {W : Type 0} ⦃f : Float W⦄ where
  -- A buy is rounded down, a sell up.
  unfoldable pub round_tick : W → (tick side : ℕ) → ℤ
  round_tick price tick side =
      if eqb side buy_side
      then f.floor (price ⊘ float (pos tick)) *ℤ pos tick
      else f.ceil (price ⊘ float (pos tick)) *ℤ pos tick

  unfoldable pub compute_fair_value : (bb bb_qty ba ba_qty : ℤ) → (tick : ℕ) → W
  compute_fair_value bb bb_qty ba ba_qty tick =
      let mid = float (bb +ℤ ba) ⊘ literal 2 1 in
      let total = bb_qty +ℤ ba_qty in
      let micro = float bb ⊕ float (ba -ℤ bb) ⊗ (float bb_qty ⊘ float total) in
      let max_dev = literal 1 2 ⊗ float (pos tick) in
      if eqb_ℤ total (pos 0) then mid else larger (mid ⊖ max_dev) (smaller (mid ⊕ max_dev) micro)

  -- The differences of neighbours, after the first value
  abbrev changes_from : W → List W → List W
  changes_from prev [] = []
  changes_from prev (m ∷ ms) = (m ⊖ prev) ∷ changes_from m ms

  -- `sum`
  abbrev sum_from : W → List W → W
  sum_from acc [] = acc
  sum_from acc (x ∷ xs) = sum_from (acc ⊕ x) xs

  abbrev average : List W → W
  average xs = sum_from (float (pos 0)) xs ⊘ float (pos (length xs))

  abbrev spread_of : List W → W
  spread_of changes =
      let mean = average changes in f.sqrt (average (map (λ c. (c ⊖ mean) ⊗ (c ⊖ mean)) changes))

  unfoldable pub compute_volatility : List W → W
  compute_volatility [] = float (pos 0)
  compute_volatility (m ∷ ms) =
      if ltb (length (m ∷ ms)) 10 then float (pos 0) else spread_of (changes_from m ms)

  unfoldable pub compute_half_spread_ticks :
      StrategyConfig W → (volatility : W) → (tick : ℕ) → (position : ℤ) → ℤ
  compute_half_spread_ticks cfg volatility tick position =
      let base = float cfg.base_spread_ticks in
      let moved = base ⊕ (volatility ⊘ float (pos tick)) ⊗ cfg.volatility_factor in
      let ratio = float (pos (abs position)) ⊘ float cfg.soft_position in
      let held = moved ⊕ ratio ⊗ literal 15 10 in
      let half = if cfg.day1_mode then held ⊕ literal 1 1 else held in
      f.round (smaller half (float cfg.max_spread_ticks))

  -- The loop over the recent trades: the volumes of the buyers and of the sellers
  unfoldable pub flows : (cutoff : W) → List RecentTrade → ℤ × ℤ → ℤ × ℤ
  flows cutoff [] (buy_vol, sell_vol) = (buy_vol, sell_vol)
  flows cutoff (t ∷ ts) (buy_vol, sell_vol) = flows cutoff ts (
      if less (float t.timestamp) cutoff
      then (buy_vol, sell_vol)
      else if eqb t.aggressor_side buy_side
      then (buy_vol +ℤ t.quantity, sell_vol)
      else (buy_vol, sell_vol +ℤ t.quantity))

  unfoldable pub detect_aggression :
      StrategyConfig W → (now : W) → List RecentTrade → (side : ℕ) → Bool
  unfolding flows
  detect_aggression cfg now trades side =
      let (buy_vol, sell_vol) = flows (now ⊖ cfg.trade_window) trades (pos 0, pos 0) in
      let total = buy_vol +ℤ sell_vol in
      if eqb_ℤ total (pos 0)
      then false
      else if eqb side buy_side
      then less cfg.aggression_threshold (float buy_vol ⊘ float total)
      else less cfg.aggression_threshold (float sell_vol ⊘ float total)

  -- The guards on the position, and the prices when the inventory is extreme
  unfoldable pub guarded : StrategyConfig W → W → (tick : ℕ) → (position bid ask : ℤ) → Plan
  unfolding round_tick
  guarded cfg fair tick position bid ask =
      let should_bid = leb_ℤ (position +ℤ cfg.order_qty) cfg.soft_position in
      let should_ask = leb_ℤ (neg cfg.soft_position) (position -ℤ cfg.order_qty) in
      if leb_ℤ cfg.panic_position position
      then record {
        bid_price = bid;
        ask_price = round_tick (fair ⊕ float (pos tick)) tick sell_side;
        should_bid = false;
        should_ask = should_ask;
      }
      else if leb_ℤ position (neg cfg.panic_position)
      then record {
        bid_price = round_tick (fair ⊖ float (pos tick)) tick buy_side;
        ask_price = ask;
        should_bid = should_bid;
        should_ask = false;
      }
      else record {
        bid_price = bid;
        ask_price = ask;
        should_bid = should_bid;
        should_ask = should_ask;
      }

  -- The two tests that make `_step_symbol` return, and then the guards
  unfoldable pub settled : StrategyConfig W → W → (tick : ℕ) → (position bid ask : ℤ) → Option Plan
  unfolding guarded
  settled cfg fair tick position bid ask =
      if leb_ℤ ask bid
      then none
      else if leb_ℤ bid (pos 0) || leb_ℤ ask (pos 0)
      then none
      else some (guarded cfg fair tick position bid ask)

  -- `raw_bid` and `raw_ask`, rounded
  abbrev pub rounded_bid : StrategyConfig W → W → (half_ticks : ℤ) → (tick : ℕ) → ℤ → ℤ
  rounded_bid cfg fair half_ticks tick position =
      let half_spread_px = float (half_ticks *ℤ pos tick) in
      let skew_px = float (neg position) ⊗ cfg.skew_per_unit ⊗ float (pos tick) in
      round_tick (fair ⊖ half_spread_px ⊕ skew_px) tick buy_side

  abbrev pub rounded_ask : StrategyConfig W → W → (half_ticks : ℤ) → (tick : ℕ) → ℤ → ℤ
  rounded_ask cfg fair half_ticks tick position =
      let half_spread_px = float (half_ticks *ℤ pos tick) in
      let skew_px = float (neg position) ⊗ cfg.skew_per_unit ⊗ float (pos tick) in
      round_tick (fair ⊕ half_spread_px ⊕ skew_px) tick sell_side

  -- The two prices of `_step_symbol` before its tests
  abbrev pub quote_prices :
      StrategyConfig W → W → (half_ticks : ℤ) → (tick : ℕ) → (position bb ba : ℤ) → ℤ × ℤ
  quote_prices cfg fair half_ticks tick position bb ba =
      uncrossed bb ba tick (rounded_bid cfg fair half_ticks tick position)
        (rounded_ask cfg fair half_ticks tick position)

  -- `_step_symbol` from the spread to the guards; `none` where it returns
  unfoldable pub plan_quotes :
      StrategyConfig W → W → (half_ticks : ℤ) → (tick : ℕ) → (position bb ba : ℤ) → Option Plan
  unfolding uncrossed settled round_tick
  plan_quotes cfg fair half_ticks tick position bb ba =
      let (bid, ask) = quote_prices cfg fair half_ticks tick position bb ba in
      settled cfg fair tick position bid ask
