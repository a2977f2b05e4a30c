-- ===== src/Strategy/Turns.antt =====
-- The loss limit in `on_market_data_update` of src/strategy.py.
use hft_trading_system.Prelude.{
  ap, arith, false, if◌then◌else◌, int_eq, ltb_ℤ, nat_eq, not, ok, refl, true, ℕ, ◌||◌, ◌∙◌, ◌≡◌,
}
use hft_trading_system.Client.Session.{Venue}
use hft_trading_system.EtfArb.{Service}
use hft_trading_system.Strategy.Floats.{Float}
use hft_trading_system.Strategy.State.{OrderStrategy}
use hft_trading_system.Strategy.Flat.{
  kill, on_market_data_update, trade_all, trade_or_kill, watch_and_trade,
}
use hft_trading_system.Strategy.Stopping.{stop-Stays}
use hft_trading_system.Safety.Pnl.{get_pnl}
use hft_trading_system.Strategy.Spoofing.{check_active_spoofs}
use hft_trading_system.Client.Blocks.{bind_ok, ◌>>=◌}

module _ {X W : Type 0} ⦃f : Float W⦄ (v : Venue X) (monotonic : X → W) (depth : ℕ)
    (service : Service X) where
  killed-kill : (s : OrderStrategy X W) → (kill v service monotonic depth s).1.killed ≡ true
  unfolding kill ◌>>=◌
  killed-kill s = (stop-Stays v monotonic depth service).at (record s { killed = true }) refl

  trade_or_kill-kill :
      (s : OrderStrategy X W)
      → ltb_ℤ (get_pnl s.session.client.pnl_tracker) s.config.pnl_kill_floor ≡ true
      → trade_or_kill v service monotonic depth s ≡ kill v service monotonic depth s
  unfolding trade_or_kill ◌>>=◌
  trade_or_kill-kill s low =
      ap
        (λ b. (if b then kill v service monotonic depth else trade_all v service monotonic depth) s)
        low

  watch_and_trade-kill :
      (s : OrderStrategy X W)
      → (check_active_spoofs v monotonic depth s).0 ≡ ok tt
      → let s1 = (check_active_spoofs v monotonic depth s).1 in
        ltb_ℤ (get_pnl s1.session.client.pnl_tracker) s1.config.pnl_kill_floor ≡ true
        → watch_and_trade v service monotonic depth s ≡ kill v service monotonic depth s1
  unfolding watch_and_trade
  watch_and_trade-kill s checked low =
      bind_ok (check_active_spoofs v monotonic depth) (λ _. trade_or_kill v service monotonic depth)
        s tt checked
      ∙ trade_or_kill-kill (check_active_spoofs v monotonic depth s).1 low

  update-killed :
      (rounds : ℕ) (s : OrderStrategy X W)
      → s.killed ≡ true
      → on_market_data_update v service monotonic depth rounds s ≡ (ok tt, s)
  unfolding on_market_data_update
  update-killed rounds s k = ground arith

  update-watch :
      (rounds : ℕ) (s : OrderStrategy X W)
      → not s.enabled || s.killed ≡ false
      → s.pending_flatten ≡ false
      → on_market_data_update v service monotonic depth rounds s
        ≡ watch_and_trade v service monotonic depth s
  unfolding on_market_data_update
  update-watch rounds s on flat = ground arith

  -- The loss limit is final. Where the strategy is enabled, not killed, and not about to flatten,
  -- its check of the spoof orders returns, and the profit is then below `pnl_kill_floor`, an update
  -- leaves it killed, even if an order that it cancels raises, and the next update does nothing.
  pub on_market_data_update-killed :
      (rounds : ℕ) (s : OrderStrategy X W)
      → not s.enabled || s.killed ≡ false
      → s.pending_flatten ≡ false
      → (check_active_spoofs v monotonic depth s).0 ≡ ok tt
      → ltb_ℤ
          (get_pnl (check_active_spoofs v monotonic depth s).1.session.client.pnl_tracker)
          (check_active_spoofs v monotonic depth s).1.config.pnl_kill_floor
        ≡ true
      → ((on_market_data_update v service monotonic depth rounds s).1.killed ≡ true)
        × (on_market_data_update v service monotonic depth rounds
              (on_market_data_update v service monotonic depth rounds s).1
            ≡ (ok tt, (on_market_data_update v service monotonic depth rounds s).1))
  on_market_data_update-killed rounds s on flat checked low =
      let s1 = (check_active_spoofs v monotonic depth s).1 in
      let same = update-watch rounds s on flat ∙ watch_and_trade-kill s checked low in
      let dead = ap (λ r. r.1.killed) same ∙ killed-kill s1 in
      (dead, update-killed rounds (on_market_data_update v service monotonic depth rounds s).1 dead)
