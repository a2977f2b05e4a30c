-- ===== src/Client/Bounds.antt =====
-- What the steps of the client of src/order_entry.py leave of the limits of src/safety.py.

use hft_trading_system.Prelude.{
  arith, int_eq, int_laws, lookup, nat_eq, neg, pos, refl, total, ℕ, ℤ, ◌+ℤ◌, ◌∙◌, ◌≤ℤ◌,
}
use hft_trading_system.Safety.Exposure.{
  buy_exposure, buy_side, outstanding, sell_exposure, sell_side,
}
use hft_trading_system.Client.{OrderEntryClient, new_client}
use hft_trading_system.Client.Fills.{buys, sells}
use hft_trading_system.Client.Steps.{Answer, Chain, Quiet, Step}
use hft_trading_system.Client.Manage.{forgotten}
use hft_trading_system.Client.Exposures.{
  IsFair, IsFairStep, IsSafe, filled-IsSafe, forget-IsSafe, outstanding_nonneg, rewritten-IsSafe,
}
use hft_trading_system.Client.Openings.{opened-IsSafe}
use hft_trading_system.Safety.Position.{get_amount, get_position}

emptied_within :
    (limit : ℤ) (s : ℕ) (c : OrderEntryClient)
    → IsSafe limit c
    → (buys s (forgotten c) ≤ℤ limit) × (sells s (forgotten c) ≤ℤ limit)
unfolding buy_exposure sell_exposure outstanding total
emptied_within limit s c h =
    let none_below = λ (r : ℕ). outstanding_nonneg s r c.open_orders h.sound in
    (
      omega (int_laws, (h.within s).0, none_below buy_side),
      omega (int_laws, (h.within s).1, none_below sell_side),
    )

quiet-IsSafe : (limit : ℤ) {c c' : OrderEntryClient} → Quiet c c' → IsSafe limit c → IsSafe limit c'
quiet-IsSafe limit (Quiet.numbered c) h = record {
  limit_same = h.limit_same;
  distinct = h.distinct;
  sound = h.sound;
  within = h.within;
}
quiet-IsSafe limit (Quiet.heard c n after) h = record {
  limit_same = h.limit_same;
  distinct = h.distinct;
  sound = h.sound;
  within = h.within;
}
quiet-IsSafe limit (Quiet.joined c n) h = record {
  limit_same = h.limit_same;
  distinct = h.distinct;
  sound = h.sound;
  within = h.within;
}

step-IsSafe :
    (limit : ℤ) {c c' : OrderEntryClient} (a : Step c c')
    → IsFairStep a
    → IsSafe limit c
    → IsSafe limit c'
step-IsSafe limit (Step.answered (Answer.quiet q)) fair h = quiet-IsSafe limit q h
step-IsSafe limit (Step.answered (Answer.filled c m o listed)) fair h =
    filled-IsSafe limit c m o listed fair h
step-IsSafe limit (Step.answered (Answer.closed c k)) fair h = forget-IsSafe limit k c h
step-IsSafe limit (Step.checked c r same) fair h = record {
  limit_same = same.exposure_same ∙ h.limit_same;
  distinct = h.distinct;
  sound = h.sound;
  within = h.within;
}
step-IsSafe limit (Step.opened c k symbol side quantity price new sided allowed) fair h =
    opened-IsSafe limit c k symbol side quantity price new sided allowed h
step-IsSafe limit (Step.rewritten c k side quantity price o listed sided) (same, less, above) h =
    rewritten-IsSafe limit c k side quantity price o listed sided same less above h
step-IsSafe limit (Step.reset c) fair h = record {
  limit_same = h.limit_same;
  distinct = tt;
  sound = tt;
  within = λ s. emptied_within limit s c h;
}

chain-IsSafe :
    (limit : ℤ) {c c' : OrderEntryClient} (p : Chain Step c c')
    → IsFair p
    → IsSafe limit c
    → IsSafe limit c'
chain-IsSafe limit Chain.here fair h = h
chain-IsSafe limit (Chain.next p a) (fair, last) h =
    step-IsSafe limit a last (chain-IsSafe limit p fair h)

position_within :
    (limit : ℤ) (s : ℕ) (c : OrderEntryClient)
    → IsSafe limit c
    → (get_position s c.position_tracker ≤ℤ limit)
      × (neg limit ≤ℤ get_position s c.position_tracker)
unfolding buy_exposure sell_exposure
position_within limit s c h =
    let none_below = λ (r : ℕ). outstanding_nonneg s r c.open_orders h.sound in
    (
      omega (int_laws, (h.within s).0, none_below buy_side),
      omega (int_laws, (h.within s).1, none_below sell_side),
    )

-- However the client trades, its position in every symbol stays between minus `max_exposure` and
-- `max_exposure`, and so do the positions that its open orders may still lead to: on every chain of
-- steps from a state where that holds, if the exchange fills no more of an order than is open, and
-- a modification keeps the side, does not raise the quantity and does not put it below what is
-- filled.
pub trading_bounds :
    (limit : ℤ) (s : ℕ) {c c' : OrderEntryClient} (p : Chain Step c c')
    → IsFair p
    → IsSafe limit c
    → (get_position s c'.position_tracker ≤ℤ limit)
      × (neg limit ≤ℤ get_position s c'.position_tracker)
      × (buys s c' ≤ℤ limit)
      × (sells s c' ≤ℤ limit)
trading_bounds limit s {c'} p fair h =
    let safe = chain-IsSafe limit p fair h in
    let (high, low) = position_within limit s c' safe in
    (high, low, (safe.within s).0, (safe.within s).1)

-- The client starts out safe.
pub new_client-IsSafe : IsSafe (pos 8) new_client
unfolding buy_exposure sell_exposure outstanding total get_position get_amount lookup ◌+ℤ◌ neg
new_client-IsSafe = record {
  limit_same = refl;
  distinct = tt;
  sound = tt;
  within = λ s. (omega arith, omega arith);
}
