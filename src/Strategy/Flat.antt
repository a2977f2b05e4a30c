-- ===== src/Strategy/Flat.antt =====
-- `go_flat`, `stop` and `on_market_data_update` of src/strategy.py.
use hft_trading_system.Prelude.{
  Action, Dict, Done, List, [], abs, eqb_ℤ, false, gets, if◌then◌else◌, int_eq, is_some, lookup,
  ltb_ℤ, modify, nat_eq, none, not, ok, only_if, pos, pure, some, suc, true, zero, ℕ, ℤ, ◌*◌, ◌+ℤ◌,
  ◌+◌, ◌-ℤ◌, ◌||◌, ◌∷◌,
}
use hft_trading_system.Safety.Exposure.{buy_side, sell_side}
use hft_trading_system.Safety.Pnl.{get_pnl}
use hft_trading_system.Client.Session.{Venue}
use hft_trading_system.Client.Orders.{immediate_or_cancel}
use hft_trading_system.Strategy.Floats.{Float}
use hft_trading_system.Strategy.State.{OrderStrategy, best, get_tick, on_session}
use hft_trading_system.Strategy.Quotes.{cancel_all_quotes}
use hft_trading_system.Strategy.Steps.{step_symbol}
use hft_trading_system.EtfArb.{Service}
use hft_trading_system.Strategy.Spoofing.{cancel_active_spoofs, check_active_spoofs}
use hft_trading_system.MarketData.{Side}
use hft_trading_system.EtfArb
use hft_trading_system.Client.Blocks.{◌>>=◌, ◌>>◌}

-- `max(a, b)` of two integers
abbrev pub max_ℤ : ℤ → ℤ → ℤ
max_ℤ a b = if ltb_ℤ a b then b else a

-- The positions that are not zero
abbrev pub open_positions : Dict ℕ ℤ → Dict ℕ ℤ
open_positions [] = []
open_positions ((symbol, position) ∷ d) =
    if eqb_ℤ position (pos 0) then open_positions d else (symbol, position) ∷ open_positions d

module _ {X W : Type 0} ⦃f : Float W⦄ (v : Venue X) (service : Service X) (monotonic : X → W)
    (depth : ℕ) where
  -- `try: … except Exception`, which logs what was raised
  abbrev pub attempted :
      {A : Type 0} → Action (OrderStrategy X W) A → Action (OrderStrategy X W) Done
  attempted m s = (ok tt, (m s).1)

  unfoldable pub next_flatten_oid : Action (OrderStrategy X W) ℕ
  next_flatten_oid s =
      (ok s.flatten_oid_counter, record s { flatten_oid_counter = s.flatten_oid_counter + 1 })

  -- The order that closes a position, with what it raises left to the log
  unfoldable pub close_position :
      (symbol side : ℕ) → (quantity price : ℤ) → Action (OrderStrategy X W) Done
  unfolding next_flatten_oid immediate_or_cancel
  close_position symbol side quantity price = do
    oid ← next_flatten_oid
    attempted (on_session (immediate_or_cancel v depth oid symbol side quantity price))

  -- A long position is sold below the best bid, further below with each attempt.
  unfoldable pub flatten_long :
      (symbol : ℕ) → (position aggression : ℤ) → Action (OrderStrategy X W) Done
  unfolding best close_position get_tick
  flatten_long symbol position aggression = do
    bb ← best Side.buy symbol
    only_if (ltb_ℤ (pos 0) bb.0) (
        close_position symbol sell_side position
          (max_ℤ (pos (get_tick symbol)) (bb.0 -ℤ aggression)))

  -- A short one is bought back above the best ask.
  unfoldable pub flatten_short :
      (symbol : ℕ) → (position aggression : ℤ) → Action (OrderStrategy X W) Done
  unfolding best close_position
  flatten_short symbol position aggression = do
    ba ← best Side.sell symbol
    only_if (ltb_ℤ (pos 0) ba.0)
        (close_position symbol buy_side (pos (abs position)) (ba.0 +ℤ aggression))

  -- One symbol in the loop of `go_flat`
  unfoldable pub flatten :
      (attempt : ℕ) → (symbol : ℕ) → (position : ℤ) → Action (OrderStrategy X W) Done
  unfolding flatten_long flatten_short get_tick
  flatten attempt symbol position = do
    books ← gets (λ s. s.manager.books)
    let aggression = pos (attempt * 2 * get_tick symbol)
    if not (is_some (lookup symbol books))
        then pure tt
        else if ltb_ℤ (pos 0) position
        then flatten_long symbol position aggression
        else flatten_short symbol position aggression

  unfoldable pub flatten_each : ℕ → Dict ℕ ℤ → Action (OrderStrategy X W) Done
  unfolding flatten
  flatten_each attempt [] = pure tt
  flatten_each attempt ((symbol, position) ∷ d) = do
    flatten attempt symbol position
    flatten_each attempt d

  abbrev pub rest_a_while : OrderStrategy X W → OrderStrategy X W
  rest_a_while s = record s {
    session = record s.session { outside = v.sleep 100 s.session.outside };
  }

  -- The loop of `go_flat`. `rounds` is how often the clock is found before the deadline.
  unfoldable pub flatten_rounds : (rounds attempt : ℕ) → Action (OrderStrategy X W) Done
  unfolding flatten_each
  flatten_rounds zero attempt = pure tt
  flatten_rounds (suc rounds) attempt = do
    positions ← gets (λ s. open_positions s.session.client.position_tracker.symbol_position)
    elim positions [
      | [] ↦ pure tt
      | p ∷ ps ↦ do
        flatten_each attempt (p ∷ ps)
        modify rest_a_while
        flatten_rounds rounds (attempt + 1)
    ]

  unfoldable pub go_flat : (rounds : ℕ) → Action (OrderStrategy X W) Done
  unfolding cancel_active_spoofs cancel_all_quotes flatten_rounds
  go_flat rounds = do
    cancel_active_spoofs v monotonic depth
    cancel_all_quotes v depth
    flatten_rounds rounds 0
    modify (λ s. record s { pending_flatten = false })

  unfoldable pub stop : Action (OrderStrategy X W) Done
  unfolding cancel_active_spoofs cancel_all_quotes
  stop = do
    modify (λ s. record s { enabled = false })
    cancel_active_spoofs v monotonic depth
    cancel_all_quotes v depth

  unfoldable pub step_all : List ℕ → Action (OrderStrategy X W) Done
  unfolding step_symbol
  step_all [] = pure tt
  step_all (symbol ∷ symbols) = do step_symbol v monotonic depth symbol; step_all symbols

  -- `self.etf_arb.step()`, on the engine's own fields and what it shares with the strategy
  unfoldable pub step_arb : Action (OrderStrategy X W) Done
  unfolding EtfArb.step
  step_arb s = elim s.etf_arb [
    | none ↦ (ok tt, s)
    | some a ↦
        let (r, e) = EtfArb.step v service monotonic depth (record {
          manager = s.manager;
          client = s.session;
          threshold = a.threshold;
          cooldown_until = a.cooldown_until;
          next_oid = a.next_oid;
        }) in
        (
          r,
          record s {
            session = e.client;
            manager = e.manager;
            etf_arb = some (record a { cooldown_until = e.cooldown_until; next_oid = e.next_oid });
          },
        )
  ]

  -- What is done for the symbols and the fund when nothing is wrong
  unfoldable pub trade_all : Action (OrderStrategy X W) Done
  unfolding step_all step_arb
  trade_all = do symbols ← gets (λ s. s.config.symbols); step_all symbols; step_arb

  unfoldable pub kill : Action (OrderStrategy X W) Done
  unfolding stop
  kill = do modify (λ s. record s { killed = true }); stop

  -- The loss limit, and what is done within it
  unfoldable pub trade_or_kill : Action (OrderStrategy X W) Done
  unfolding kill trade_all
  trade_or_kill = do
    total_pnl ← gets (λ s. get_pnl s.session.client.pnl_tracker)
    floor ← gets (λ s. s.config.pnl_kill_floor)
    if ltb_ℤ total_pnl floor then kill else trade_all

  -- The part of `on_market_data_update` below the test on `_pending_flatten`
  unfoldable pub watch_and_trade : Action (OrderStrategy X W) Done
  unfolding check_active_spoofs trade_or_kill
  watch_and_trade = do check_active_spoofs v monotonic depth; trade_or_kill

  unfoldable pub on_market_data_update : (rounds : ℕ) → Action (OrderStrategy X W) Done
  unfolding go_flat watch_and_trade
  on_market_data_update rounds s =
      if not s.enabled || s.killed
      then (ok tt, s)
      else if s.pending_flatten
      then go_flat rounds s
      else watch_and_trade s
