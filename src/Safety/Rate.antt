-- ===== src/Safety/Rate.antt =====
-- The counters of `is_valid` of src/safety.py over many calls.
use hft_trading_system.Prelude.{
  All, Bool, Dict, List, [], arith, eqb_iff, if◌then◌else◌, inl, inr, int_eq, nat_eq, refl, some,
  true, ℕ, ℤ, ◌*◌, ◌+◌, ◌<◌, ◌∙◌, ◌∷◌, ◌≡◌, ◌≤◌, ◌⊎◌,
}
use hft_trading_system.Safety.Position.{PositionTracker}
use hft_trading_system.Safety.Exposure.{OeConfig}
use hft_trading_system.Safety.Pnl.{PnLTracker}
use hft_trading_system.Safety.Risk.{
  Reason, RiskTracker, is_valid, meter, roll_second, roll_sequence, screen, second,
}

-- The arguments of a call of `is_valid`, and the time that it reads
pub record Attempt : Type 0 where
  pub symbol : ℕ
  pub side : ℕ
  pub quantity : ℤ
  pub price : ℤ
  pub open_orders : Dict ℕ OeConfig
  pub positions : PositionTracker
  pub pnl : PnLTracker
  pub current_seq_num : ℕ
  pub now : ℕ

abbrev pub attempt : Attempt → RiskTracker → (Bool × Reason) × RiskTracker
attempt a =
    is_valid a.symbol a.side a.quantity a.price a.open_orders a.positions a.pnl a.current_seq_num
      a.now

-- How many of the calls accept their order
unfoldable pub accepted_count : List Attempt → RiskTracker → ℕ
unfolding is_valid
accepted_count [] r = 0
accepted_count (a ∷ rest) r =
    (if (attempt a r).0.0 then 1 else 0) + accepted_count rest (attempt a r).1

abbrev pub IsWithin : ℕ → Attempt → Type 0
IsWithin start a = (start ≤ a.now) × (a.now < start + second)

roll_sequence-keeps :
    (n : ℕ) (r : RiskTracker)
    → ((roll_sequence n r).orders_this_second ≡ r.orders_this_second)
      × ((roll_sequence n r).last_second_time ≡ r.last_second_time)
      × ((roll_sequence n r).max_orders_per_second ≡ r.max_orders_per_second)
unfolding roll_sequence
roll_sequence-keeps n r = ground arith

attempt-limit :
    (a : Attempt) (r : RiskTracker)
    → r.orders_this_second ≤ r.max_orders_per_second
    → ((attempt a r).1.max_orders_per_second ≡ r.max_orders_per_second)
      × ((attempt a r).1.orders_this_second ≤ r.max_orders_per_second)
unfolding is_valid meter roll_second
attempt-limit a r h = ground (arith, roll_sequence-keeps a.current_seq_num (roll_second a.now r))

attempt-counts :
    (a : Attempt) (r : RiskTracker) (t : ℕ)
    → r.last_second_time ≡ some t
    → a.now < t + second
    → ((attempt a r).1.orders_this_second
        ≡ r.orders_this_second + (if (attempt a r).0.0 then 1 else 0))
      × ((attempt a r).1.last_second_time ≡ r.last_second_time)
unfolding is_valid meter roll_second
attempt-counts a r t e h =
    ground (arith, roll_sequence-keeps a.current_seq_num (roll_second a.now r))

attempt-cases :
    (a : Attempt) (r : RiskTracker)
    → (((attempt a r).1.orders_this_second
          ≡ r.orders_this_second + (if (attempt a r).0.0 then 1 else 0))
        × ((attempt a r).1.last_second_time ≡ r.last_second_time))
      ⊎ (((attempt a r).1.orders_this_second ≡ (if (attempt a r).0.0 then 1 else 0))
          × ((attempt a r).1.last_second_time ≡ some a.now))
unfolding is_valid meter roll_second
attempt-cases a r = ground (arith, roll_sequence-keeps a.current_seq_num (roll_second a.now r))

one_window :
    (calls : List Attempt) (r : RiskTracker) (start t : ℕ)
    → All (IsWithin start) calls
    → r.last_second_time ≡ some t
    → start ≤ t
    → r.orders_this_second ≤ r.max_orders_per_second
    → accepted_count calls r + r.orders_this_second ≤ r.max_orders_per_second
unfolding accepted_count
one_window [] r start t times e late h = omega arith
one_window (a ∷ rest) r start t (time, times) e late h =
    let counts = attempt-counts a r t e (omega arith) in
    let limit = attempt-limit a r h in
    let ih = one_window rest (attempt a r).1 start t times (counts.1 ∙ e) late (omega arith) in
    omega arith

two_windows :
    (calls : List Attempt) (r : RiskTracker) (start : ℕ)
    → All (IsWithin start) calls
    → r.orders_this_second ≤ r.max_orders_per_second
    → accepted_count calls r + r.orders_this_second ≤ 2 * r.max_orders_per_second
unfolding accepted_count
two_windows [] r start times h = omega arith
two_windows (a ∷ rest) r start (time, times) h =
    let limit = attempt-limit a r h in
    elim (attempt-cases a r) [
      | inl counts ↦
          let ih = two_windows rest (attempt a r).1 start times (omega arith) in omega arith
      | inr restarts ↦
          let ih =
            one_window rest (attempt a r).1 start a.now times restarts.1 time.0 (omega arith) in
          omega arith
    ]

-- Of calls of `is_valid` that all fall within one second, to a tracker whose count is within its
-- maximum, at most twice `max_orders_per_second` are accepted.
pub accepted_count-bound :
    (calls : List Attempt) (r : RiskTracker) (start : ℕ)
    → All (IsWithin start) calls
    → r.orders_this_second ≤ r.max_orders_per_second
    → accepted_count calls r ≤ 2 * r.max_orders_per_second
accepted_count-bound calls r start times h = omega (arith, two_windows calls r start times h)

screen-sequence :
    (a : Attempt) (n : ℕ) (r : RiskTracker)
    → screen a.symbol a.side a.quantity a.price a.open_orders a.positions a.pnl
        (record r { orders_this_seq_num = n })
      ≡ screen a.symbol a.side a.quantity a.price a.open_orders a.positions a.pnl r
unfolding screen
screen-sequence a n r = refl

-- A tracker that has accepted `max_per_sequence` orders at the current sequence number accepts one
-- more of any order that it would accept at the first, so that its count passes the maximum.
pub is_valid-over_sequence :
    (a : Attempt) (r : RiskTracker)
    → r.last_seq_num ≡ some a.current_seq_num
    → (attempt a (record r { orders_this_seq_num = 0 })).0.0 ≡ true
    → r.orders_this_seq_num ≡ r.max_per_sequence
    → ((attempt a r).0.0 ≡ true) × ((attempt a r).1.orders_this_seq_num ≡ r.max_per_sequence + 1)
unfolding is_valid meter roll_second roll_sequence
is_valid-over_sequence a r same accepted full =
    ground (arith, screen-sequence a 0 r, eqb_iff a.current_seq_num a.current_seq_num)
