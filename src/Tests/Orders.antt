-- ===== src/Tests/Orders.antt =====
-- Runs of the trackers of src/safety.py.
use hft_trading_system.Prelude.{
  Dict, Every, List, [], abs, arith, inl, inr, insert, int_eq, lookup, nat_eq, neg, none, pos, refl,
  some, total, true, ℕ, ◌*ℤ◌, ◌+ℤ◌, ◌-ℤ◌, ◌∷◌, ◌≡◌, ◌≤ℤ◌, ◌≤◌,
}
use hft_trading_system.Safety.Position.{
  get_amount, get_net_position, get_position, new_position_tracker, update_position,
}
use hft_trading_system.Safety.Exposure.{OeConfig, buy_exposure, outstanding, sell_exposure}
use hft_trading_system.Safety.Pnl.{get_pnl, new_pnl_tracker}
use hft_trading_system.Safety.Risk.{
  RiskTracker, is_valid, meter, new_risk_tracker, roll_second, roll_sequence, screen,
}
use hft_trading_system.Safety.Ledger.{Update, only, sum_of, update_all, update_all_lem}
use hft_trading_system.Safety.Scenarios.{HasSide, IsPossible, Scenario, position_after}
use hft_trading_system.Safety.Cash.{Fill, StaysExact, cash_flows, get_pnl-on_fills, on_fills}
use hft_trading_system.Safety.Limits.{is_valid-bounds_buy, placed}
use hft_trading_system.Safety.Rate.{Attempt, accepted_count, accepted_count-bound, attempt}

abbrev updates : List Update
updates =
    record { symbol = 1; bought = pos 4; sold = pos 0 }
    ∷ record { symbol = 2; bought = pos 0; sold = pos 3 }
    ∷ record { symbol = 1; bought = pos 0; sold = pos 1 }
    ∷ []

update_all_lem_example :
    (get_position 1 (update_all updates new_position_tracker)
      ≡ get_position 1 new_position_tracker +ℤ sum_of (only 1 (λ v. v.bought -ℤ v.sold)) updates)
    × (get_amount 1 (update_all updates new_position_tracker).total_bought
        ≡ get_amount 1 [] +ℤ sum_of (only 1 (λ v. v.bought)) updates)
    × (get_amount 1 (update_all updates new_position_tracker).total_sold
        ≡ get_amount 1 [] +ℤ sum_of (only 1 (λ v. v.sold)) updates)
    × (get_net_position (update_all updates new_position_tracker)
        ≡ get_net_position new_position_tracker +ℤ sum_of (λ v. v.bought -ℤ v.sold) updates)
update_all_lem_example = update_all_lem updates new_position_tracker 1

updates_position : get_position 1 (update_all updates new_position_tracker) ≡ pos 3
unfolding get_position update_all update_position get_amount lookup insert ◌+ℤ◌ ◌-ℤ◌
updates_position = refl

-- Two more to buy of symbol 1, one of them filled, and three to sell
abbrev resting : Dict ℕ OeConfig
resting =
    (7, record { symbol = 1; side = 1; quantity = pos 2; price = pos 50; filled = pos 1 })
    ∷ (8, record { symbol = 1; side = 2; quantity = pos 3; price = pos 60; filled = pos 0 })
    ∷ []

abbrev all_filled : Scenario
all_filled oid o = o.quantity -ℤ o.filled

all_filled-IsPossible : IsPossible all_filled resting
unfolding ◌-ℤ◌
all_filled-IsPossible = (omega arith, omega arith, (omega arith, omega arith, tt))

resting_sides : Every HasSide resting
resting_sides = (inl refl, (inr refl, tt))

-- A check at time 1000, with nothing traded yet
buy_accepted :
    (is_valid 1 1
      (pos 4)
      (pos 50)
      resting
      new_position_tracker
      new_pnl_tracker
      1
      1000
      new_risk_tracker).0.0
    ≡ true
unfolding is_valid screen meter roll_second roll_sequence get_position get_amount lookup
    buy_exposure sell_exposure outstanding total ◌+ℤ◌ ◌-ℤ◌ neg abs
buy_accepted = refl

buy-IsPossible : IsPossible all_filled (insert 9 (placed 1 1 (pos 4) (pos 50)) resting)
unfolding insert ◌-ℤ◌
buy-IsPossible =
    (omega arith, omega arith, (omega arith, omega arith, (omega arith, omega arith, tt)))

new_number : lookup 9 resting ≡ none
unfolding lookup
new_number = refl

is_valid-bounds_buy_example :
    position_after all_filled 1
      (get_position 1 new_position_tracker)
      (insert 9 (placed 1 1 (pos 4) (pos 50)) resting)
    ≤ℤ pos 8
is_valid-bounds_buy_example =
    is_valid-bounds_buy 1 9 (pos 4) (pos 50) resting new_position_tracker new_pnl_tracker 1 1000
      new_risk_tracker all_filled buy_accepted new_number resting_sides buy-IsPossible

sell_accepted :
    (is_valid 1 2
      (pos 4)
      (pos 50)
      resting
      new_position_tracker
      new_pnl_tracker
      1
      1000
      new_risk_tracker).0.0
    ≡ true
unfolding is_valid screen meter roll_second roll_sequence get_position get_amount lookup
    buy_exposure sell_exposure outstanding total ◌+ℤ◌ ◌-ℤ◌ neg abs
sell_accepted = refl

sell-IsPossible : IsPossible all_filled (insert 9 (placed 1 2 (pos 4) (pos 50)) resting)
unfolding insert ◌-ℤ◌
sell-IsPossible =
    (omega arith, omega arith, (omega arith, omega arith, (omega arith, omega arith, tt)))

abbrev buy_at : ℕ → Attempt
buy_at now = record {
  symbol = 1;
  side = 1;
  quantity = pos 4;
  price = pos 50;
  open_orders = resting;
  positions = new_position_tracker;
  pnl = new_pnl_tracker;
  current_seq_num = 1;
  now = now;
}

accepted_count-bound_example : accepted_count (buy_at 1000 ∷ buy_at 2000 ∷ []) new_risk_tracker ≤ 60
accepted_count-bound_example =
    accepted_count-bound (buy_at 1000 ∷ buy_at 2000 ∷ []) new_risk_tracker 1000
      ((omega arith, omega arith), ((omega arith, omega arith), tt)) (omega arith)

-- A tracker that has accepted a thousand orders at the sequence number 1
abbrev worn : RiskTracker
worn = record new_risk_tracker { orders_this_seq_num = 1000; last_seq_num = some 1 }

worn_fresh : (attempt (buy_at 1000) (record worn { orders_this_seq_num = 0 })).0.0 ≡ true
unfolding is_valid screen meter roll_second roll_sequence get_position get_amount lookup
    buy_exposure sell_exposure outstanding total ◌+ℤ◌ ◌-ℤ◌ neg abs
worn_fresh = refl

abbrev fills : List Fill
fills = Fill.bought 1 (pos 2) (pos 50) ∷ Fill.sold 1 (pos 2) (pos 60) ∷ []

fills_exact : StaysExact (pos 0) fills
unfolding abs neg ◌+ℤ◌ ◌*ℤ◌
fills_exact = (
  (omega arith, omega arith, omega arith),
  omega arith,
  ((omega arith, omega arith, omega arith), omega arith, tt),
)

get_pnl-on_fills_example : get_pnl (on_fills fills new_pnl_tracker) ≡ pos 0 +ℤ cash_flows fills
get_pnl-on_fills_example = get_pnl-on_fills fills new_pnl_tracker fills_exact
