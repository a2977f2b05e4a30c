-- ===== src/Strategy/Guards.antt =====
-- The plan of `_step_symbol` of src/strategy.py: its prices, and its limits on the position.

use hft_trading_system.Prelude.{
  arith, false, int_eq, int_laws, nat_eq, neg, pos, some, ℕ, ℤ, ◌+ℤ◌, ◌-ℤ◌, ◌<ℤ◌, ◌<◌, ◌≡◌, ◌≤ℤ◌,
  ◌⊎◌,
}
use hft_trading_system.Strategy.Floats.{Float}
use hft_trading_system.Strategy.State.{StrategyConfig}
use hft_trading_system.Strategy.Prices.{
  Plan, guarded, plan_quotes, quote_prices, rounded_ask, rounded_bid, settled, uncrossed,
}

step_down : (a : ℤ) (n : ℕ) → 0 < n → a -ℤ pos n <ℤ a
step_down a n h = omega int_laws

step_up : (a : ℤ) (n : ℕ) → 0 < n → a <ℤ a +ℤ pos n
step_up a n h = omega int_laws

neg_below : (c p : ℤ) → pos 0 <ℤ c → c ≤ℤ p → neg c <ℤ p
neg_below c p h k = omega int_laws

uncrossed-IsBelow :
    (bb ba : ℤ) (tick : ℕ) (bid ask : ℤ)
    → 0 < tick
    → ((uncrossed bb ba tick bid ask).0 <ℤ ba) × (bb <ℤ (uncrossed bb ba tick bid ask).1)
unfolding uncrossed
uncrossed-IsBelow bb ba tick bid ask h = ground (arith, step_down ba tick h, step_up bb tick h)

module _ {W : Type 0} ⦃f : Float W⦄ (cfg : StrategyConfig W) (fair : W) (tick : ℕ)
    (position : ℤ) where
  settled_calm :
      (bid ask : ℤ) (plan : Plan)
      → neg cfg.panic_position <ℤ position
      → position <ℤ cfg.panic_position
      → settled cfg fair tick position bid ask ≡ some plan
      → (plan.bid_price ≡ bid) × (plan.ask_price ≡ ask) × (pos 0 <ℤ bid) × (bid <ℤ ask)
  unfolding settled guarded
  settled_calm bid ask plan low high h = ground arith

  settled-IsGuarded :
      (bid ask : ℤ) (plan : Plan)
      → pos 0 <ℤ cfg.panic_position
      → settled cfg fair tick position bid ask ≡ some plan
      → ((plan.should_bid ≡ false)
          ⊎ (position +ℤ cfg.order_qty ≤ℤ cfg.soft_position) × (position <ℤ cfg.panic_position))
        × ((plan.should_ask ≡ false)
            ⊎ (neg cfg.soft_position ≤ℤ position -ℤ cfg.order_qty)
              × (neg cfg.panic_position <ℤ position))
  unfolding settled guarded
  settled-IsGuarded bid ask plan p h = ground (arith, neg_below cfg.panic_position position p)

module _ {W : Type 0} ⦃f : Float W⦄ (cfg : StrategyConfig W) (fair : W) (half_ticks : ℤ) (tick : ℕ)
    (position bb ba : ℤ) (plan : Plan) where
  -- Where the position is not extreme, the prices that `_step_symbol` plans, before it looks at the
  -- flow, are positive, the bid lies below the ask, the bid below the best ask of the book, and the
  -- ask above its best bid: whatever the floats are, if the tick is positive.
  pub plan_quotes-stays_inside :
      0 < tick
      → neg cfg.panic_position <ℤ position
      → position <ℤ cfg.panic_position
      → plan_quotes cfg fair half_ticks tick position bb ba ≡ some plan
      → (pos 0 <ℤ plan.bid_price)
        × (plan.bid_price <ℤ plan.ask_price)
        × (plan.bid_price <ℤ ba)
        × (bb <ℤ plan.ask_price)
  unfolding plan_quotes
  plan_quotes-stays_inside t low high h =
      let (bid, ask) = quote_prices cfg fair half_ticks tick position bb ba in
      let (bid_same, ask_same, above, below) =
        settled_calm cfg fair tick position bid ask plan low high h in
      let (under, over) =
        uncrossed-IsBelow bb ba tick (rounded_bid cfg fair half_ticks tick position)
          (rounded_ask cfg fair half_ticks tick position) t in
      rw (bid_same, ask_same) (above, below, under, over)

  -- `_step_symbol` plans to buy only where a fill of the whole quote leaves the position within
  -- `soft_position` and the position is below `panic_position`, and to sell only where the same
  -- holds downwards, if `panic_position` is positive.
  pub plan_quotes-IsGuarded :
      pos 0 <ℤ cfg.panic_position
      → plan_quotes cfg fair half_ticks tick position bb ba ≡ some plan
      → ((plan.should_bid ≡ false)
          ⊎ (position +ℤ cfg.order_qty ≤ℤ cfg.soft_position) × (position <ℤ cfg.panic_position))
        × ((plan.should_ask ≡ false)
            ⊎ (neg cfg.soft_position ≤ℤ position -ℤ cfg.order_qty)
              × (neg cfg.panic_position <ℤ position))
  unfolding plan_quotes
  plan_quotes-IsGuarded p h =
      let (bid, ask) = quote_prices cfg fair half_ticks tick position bb ba in
      settled-IsGuarded cfg fair tick position bid ask plan p h
