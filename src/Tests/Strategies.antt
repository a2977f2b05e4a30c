-- ===== src/Tests/Strategies.antt =====
-- Runs of src/strategy.py and src/etf_arb.py with floats in thousandths.
use hft_trading_system.Prelude.{
  All, List, [], arith, false, int_eq, lookup, ltb, ltb_ℤ, nat_eq, neg, negsuc, none, not, ok, pos,
  pos_part, refl, some, true, ℕ, ◌*ℤ◌, ◌*◌, ◌+ℤ◌, ◌+◌, ◌-ℤ◌, ◌-◌, ◌/◌, ◌<ℤ◌, ◌||◌, ◌∷◌, ◌≡◌, ◌≤ℤ◌,
  ◌⊎◌,
}
use hft_trading_system.BookManager.{OrderBookManager, empty_manager}
use hft_trading_system.Strategy.Floats.{Float}
use hft_trading_system.Strategy.Spoofs.{SpoofDetector}
use hft_trading_system.Strategy.State.{OrderStrategy, StrategyConfig, default_config, new_strategy}
use hft_trading_system.Strategy.Prices.{Plan, guarded, plan_quotes, round_tick, settled, uncrossed}
use hft_trading_system.Strategy.Flat.{on_market_data_update}
use hft_trading_system.Strategy.Pressure.{IsBroughtDown, decay_times, decay_times-wears_off}
use hft_trading_system.Strategy.Guards.{plan_quotes-IsGuarded, plan_quotes-stays_inside}
use hft_trading_system.Strategy.Turns.{on_market_data_update-killed}
use hft_trading_system.EtfArb.{
  EtfArbEngine, Service, arb_order_id_base, book_created, book_redeemed, etf_sym, underlying_syms,
}
use hft_trading_system.EtfArb.Booking.{book_redeemed-created, position_of}
use hft_trading_system.Tests.Sessions.{connected, filling}
use hft_trading_system.Tests.Mids.{both_sides}
use hft_trading_system.Safety.Pnl.{get_pnl}
use hft_trading_system.Strategy.Spoofing.{cancel_spoofs, check_active_spoofs}

-- Rounding down, and nothing below zero
abbrev whole : ℕ → ℕ
whole w = w / 1000

instance abbrev pub thousandths : Float ℕ
thousandths = record {
  of_int = λ a. pos_part a * 1000;
  plus = λ a b. a + b;
  minus = λ a b. a - b;
  times = λ a b. a * b / 1000;
  over = λ a b. a * 1000 / b;
  less = ltb;
  floor = λ w. pos (w / 1000);
  ceil = λ w. pos ((w + 999) / 1000);
  round = λ w. pos ((w + 500) / 1000);
  sqrt = λ w. w;
}

-- Two to buy and three to sell under pressure, in thousandths
abbrev pressed : SpoofDetector ℕ
pressed = record {
  tracked = [];
  avg_qty = [];
  bid_pressure = (1, 700) ∷ [];
  ask_pressure = (2, 5000) ∷ (1, 600) ∷ [];
}

brought_down : IsBroughtDown (λ (w : ℕ). w)
brought_down w h = ground arith

decay_times-wears_off_example :
    (lookup 1 (decay_times 701 1 pressed).bid_pressure ≡ none)
    × (lookup 1 (decay_times 701 1 pressed).ask_pressure ≡ none)
decay_times-wears_off_example =
    decay_times-wears_off (λ w. w) 701 1 pressed brought_down (unfold lookup in omega arith)
      (unfold lookup in omega arith)

-- A flat book from 95 to 105, with a fair value of 100
abbrev calm : StrategyConfig ℕ
calm = default_config

abbrev quoted : Plan
quoted = record { bid_price = pos 95; ask_price = pos 105; should_bid = true; should_ask = true }

planned : plan_quotes calm 100000 (pos 1) 5 (pos 0) (pos 95) (pos 105) ≡ some quoted
unfolding plan_quotes uncrossed settled guarded round_tick ◌+ℤ◌ ◌-ℤ◌ ◌*ℤ◌ neg
planned = refl

plan_quotes-stays_inside_example :
    (pos 0 <ℤ pos 95) × (pos 95 <ℤ pos 105) × (pos 95 <ℤ pos 105) × (pos 95 <ℤ pos 105)
plan_quotes-stays_inside_example =
    plan_quotes-stays_inside calm 100000 (pos 1) 5 (pos 0) (pos 95) (pos 105) quoted (omega arith)
      (unfold neg in omega arith) (omega arith) planned

plan_quotes-IsGuarded_example :
    ((true ≡ false) ⊎ (pos 0 +ℤ pos 2 ≤ℤ pos 6) × (pos 0 <ℤ pos 5))
    × ((true ≡ false) ⊎ (neg (pos 6) ≤ℤ pos 0 -ℤ pos 2) × (neg (pos 5) <ℤ pos 0))
plan_quotes-IsGuarded_example =
    plan_quotes-IsGuarded calm 100000 (pos 1) 5 (pos 0) (pos 95) (pos 105) quoted (omega arith)
      planned

abbrev floor_of_one : StrategyConfig ℕ
floor_of_one = record default_config {
  etf_arb_enabled = false;
  pnl_kill_floor = pos 1;
  symbols = 1 ∷ [];
}

abbrev one_book : OrderBookManager
one_book = record empty_manager { books = (1, both_sides) ∷ [] }

abbrev pub making : OrderStrategy ℕ ℕ
making = new_strategy connected one_book floor_of_one

abbrev pub refusing : Service ℕ
refusing create n = (ok false, n)

abbrev pub now : ℕ → ℕ
now n = n * 1000

quiet_spoofs : (check_active_spoofs filling now 2 making).0 ≡ ok tt
unfolding check_active_spoofs cancel_spoofs new_strategy
quiet_spoofs = refl

below_floor :
    ltb_ℤ
      (get_pnl (check_active_spoofs filling now 2 making).1.session.client.pnl_tracker)
      (check_active_spoofs filling now 2 making).1.config.pnl_kill_floor
    ≡ true
unfolding check_active_spoofs cancel_spoofs new_strategy
below_floor = refl

is_on : not making.enabled || making.killed ≡ false
unfolding new_strategy
is_on = refl

is_calm : making.pending_flatten ≡ false
unfolding new_strategy
is_calm = refl

on_market_data_update-killed_example :
    ((on_market_data_update filling refusing now 2 1 making).1.killed ≡ true)
    × (on_market_data_update filling refusing now 2 1
          (on_market_data_update filling refusing now 2 1 making).1
        ≡ (ok tt, (on_market_data_update filling refusing now 2 1 making).1))
on_market_data_update-killed_example =
    on_market_data_update-killed filling now 2 refusing 1 making is_on is_calm quiet_spoofs
      below_floor

abbrev one_bought : List ℕ
one_bought = 3 ∷ []

abbrev two_wanted : List ℕ
two_wanted = 3 ∷ 4 ∷ []

-- One underlying has a book, the next has none.
abbrev arbitrage : EtfArbEngine ℕ ℕ
arbitrage = record {
  manager = record empty_manager { books = (3, both_sides) ∷ [] };
  client = connected;
  threshold = pos 100;
  cooldown_until = 0;
  next_oid = arb_order_id_base;
}

book_redeemed-created_example :
    (position_of etf_sym (book_created arbitrage) ≡ position_of etf_sym arbitrage +ℤ pos 1)
    × All
        (λ u. position_of u (book_created arbitrage) ≡ position_of u arbitrage +ℤ negsuc 0)
        underlying_syms
    × (position_of 7 (book_redeemed (book_created arbitrage)) ≡ position_of 7 arbitrage)
book_redeemed-created_example = book_redeemed-created 7 arbitrage
