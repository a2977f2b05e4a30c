-- ===== src/Safety/Risk.antt =====
-- `class RiskTracker` of src/safety.py. The clock that `is_valid` reads is an argument, in
-- nanoseconds.
use hft_trading_system.Prelude.{
  Bool, Dict, Option, abs, eqb, false, if◌then◌else◌, int_eq, leb, leb_ℤ, length, ltb, ltb_ℤ,
  nat_eq, negsuc, none, pos, some, true, ℕ, ℤ, ◌+ℤ◌, ◌+◌, ◌-ℤ◌,
}
use hft_trading_system.Safety.Position.{PositionTracker, get_position}
use hft_trading_system.Safety.Exposure.{OeConfig, buy_exposure, buy_side, sell_exposure}
use hft_trading_system.Safety.Pnl.{PnLTracker, get_pnl}

pub record RiskTracker : Type 0 where
  pub max_qty_per_order : ℤ
  pub max_qty_per_side : ℤ
  pub position_limit : ℤ
  pub max_exposure : ℤ
  pub max_orders_per_second : ℕ
  pub max_per_sequence : ℕ
  pub max_unacked_orders : ℕ
  pub orders_this_second : ℕ
  pub last_second_time : Option ℕ
  pub orders_this_seq_num : ℕ
  pub last_seq_num : Option ℕ
  pub min_pnl : ℤ

abbrev pub new_risk_tracker : RiskTracker
new_risk_tracker = record {
  max_qty_per_order = pos 1000;
  max_qty_per_side = pos 500;
  position_limit = pos 8;
  max_exposure = pos 8;
  max_orders_per_second = 30;
  max_per_sequence = 1000;
  max_unacked_orders = 50;
  orders_this_second = 0;
  last_second_time = none;
  orders_this_seq_num = 0;
  last_seq_num = none;
  min_pnl = negsuc 17999;
}

-- The text that comes back, by its kind
pub data Reason : Type 0 where
  no_reason min_pnl_reached non_positive_quantity non_positive_price over_order_quantity : Reason
  over_side_quantity over_exposure over_position_limit over_orders_per_second : Reason
  over_sequence over_unacked_orders : Reason

-- One second of the clock
abbrev pub second : ℕ
second = 1000000000

-- The tests of `is_valid` before it reads the clock, in their order
unfoldable pub screen :
    ℕ → ℕ → ℤ → ℤ → Dict ℕ OeConfig → PositionTracker → PnLTracker → RiskTracker → Option Reason
unfolding buy_exposure sell_exposure get_position
screen symbol side quantity price open_orders positions pnl r =
    let position = get_position symbol positions in
    let exposure : ℤ =
      if eqb side buy_side
      then buy_exposure symbol open_orders position
      else sell_exposure symbol open_orders position in
    let new_position : ℤ =
      if eqb side buy_side then position +ℤ quantity else position -ℤ quantity in
    if leb_ℤ (get_pnl pnl) r.min_pnl
    then some Reason.min_pnl_reached
    else if leb_ℤ quantity (pos 0)
    then some Reason.non_positive_quantity
    else if leb_ℤ price (pos 0)
    then some Reason.non_positive_price
    else if ltb_ℤ r.max_qty_per_order quantity
    then some Reason.over_order_quantity
    else if ltb_ℤ r.max_qty_per_side quantity
    then some Reason.over_side_quantity
    else if ltb_ℤ r.max_exposure (exposure +ℤ quantity)
    then some Reason.over_exposure
    else if leb_ℤ price (pos 0)
    then some Reason.non_positive_price
    else if ltb_ℤ r.position_limit (pos (abs new_position))
    then some Reason.over_position_limit
    else none

-- The reset of the count of the second
unfoldable pub roll_second : ℕ → RiskTracker → RiskTracker
roll_second now r = elim r.last_second_time [
  | none ↦ record r { orders_this_second = 0; last_second_time = some now }
  | some t ↦
      if leb (t + second) now
      then record r { orders_this_second = 0; last_second_time = some now }
      else r
]

-- The reset of the count of the sequence number
unfoldable pub roll_sequence : ℕ → RiskTracker → RiskTracker
roll_sequence current_seq_num r = elim r.last_seq_num [
  | none ↦ record r { orders_this_seq_num = 0; last_seq_num = some current_seq_num }
  | some n ↦
      if eqb current_seq_num n
      then r
      else record r { orders_this_seq_num = 0; last_seq_num = some current_seq_num }
]

-- The tests of `is_valid` from the clock on
unfoldable pub meter : ℕ → ℕ → ℕ → RiskTracker → (Bool × Reason) × RiskTracker
unfolding roll_second roll_sequence
meter open_count current_seq_num now r =
    let r1 = roll_second now r in
    let r2 = roll_sequence current_seq_num r1 in
    if leb r1.max_orders_per_second r1.orders_this_second
    then ((false, Reason.over_orders_per_second), r1)
    else if ltb r2.max_per_sequence r2.orders_this_seq_num
    then ((false, Reason.over_sequence), r2)
    else if leb r2.max_unacked_orders open_count
    then ((false, Reason.over_unacked_orders), r2)
    else (
      (true, Reason.no_reason),
      record r2 {
        orders_this_second = r2.orders_this_second + 1;
        orders_this_seq_num = r2.orders_this_seq_num + 1;
      },
    )

unfoldable pub is_valid :
    ℕ
    → ℕ
    → ℤ
    → ℤ
    → Dict ℕ OeConfig
    → PositionTracker
    → PnLTracker
    → ℕ
    → ℕ
    → RiskTracker
    → (Bool × Reason) × RiskTracker
unfolding screen meter
is_valid symbol side quantity price open_orders positions pnl current_seq_num now r =
    elim (screen symbol side quantity price open_orders positions pnl r) [
      | some reason ↦ ((false, reason), r)
      | none ↦ meter (length open_orders) current_seq_num now r
    ]
