-- ===== src/Strategy/State.antt =====
-- The state of src/strategy.py: `StrategyConfig`, `SymbolState`, `ActiveSpoof`, `RecentTrade` and the
-- fields of `OrderStrategy`. The trackers are those of the client.
use hft_trading_system.Prelude.{
  Action, Bool, Dict, Done, Error, List, Option, [], err, false, if◌then◌else◌, insert, int_eq,
  lookup, nat_eq, negsuc, none, ok, pos, some, true, ℕ, ℤ, ◌*◌, ◌∷◌,
}
use hft_trading_system.BookManager.{OrderBookManager}
use hft_trading_system.Client.Session.{Session}
use hft_trading_system.Strategy.Floats.{Float, float, literal}
use hft_trading_system.Strategy.Spoofs.{SpoofDetector, new_spoof_detector}
use hft_trading_system.OrderBook.{get_best}
use hft_trading_system.MarketData.{Side}

-- `TICK_SIZE`
abbrev pub tick_size : Dict ℕ ℕ
tick_size =
    (1, 10)
    ∷ (2, 5)
    ∷ (3, 5)
    ∷ (4, 5)
    ∷ (5, 5)
    ∷ (6, 5)
    ∷ (7, 5)
    ∷ (8, 5)
    ∷ (9, 5)
    ∷ (10, 5)
    ∷ (11, 5)
    ∷ (12, 5)
    ∷ (13, 10)
    ∷ []

unfoldable pub get_tick : ℕ → ℕ
get_tick symbol = elim (lookup symbol tick_size) [ none ↦ 5 | some t ↦ t ]

pub record StrategyConfig (W : Type 0) : Type 0 where
  pub base_spread_ticks : ℤ
  pub max_spread_ticks : ℤ
  pub volatility_factor : W
  pub soft_position : ℤ
  pub panic_position : ℤ
  pub skew_per_unit : W
  pub order_qty : ℤ
  pub pnl_kill_floor : ℤ
  pub trade_window : W
  pub aggression_threshold : W
  pub requote_threshold_ticks : ℕ
  pub symbols : List ℕ
  pub day1_mode : Bool
  pub etf_arb_enabled : Bool
  pub etf_arb_threshold : ℤ
  pub spoof_enabled : Bool
  pub spoof_qty : ℤ
  pub spoof_offset_ticks : ℕ
  pub spoof_lifetime_s : W

pub record ActiveSpoof (W : Type 0) : Type 0 where
  pub order_id : ℕ
  pub symbol : ℕ
  pub side : ℕ
  pub cancel_at : W

pub record RecentTrade : Type 0 where
  pub timestamp : ℤ
  pub symbol : ℕ
  pub aggressor_side : ℕ
  pub quantity : ℤ
  pub price : ℤ

pub record SymbolState (W : Type 0) : Type 0 where
  pub symbol : ℕ
  pub tick : ℕ
  pub bid_order_id : Option ℕ
  pub ask_order_id : Option ℕ
  pub bid_price : ℤ
  pub ask_price : ℤ
  pub last_mid : W
  pub recent_mids : List W
  pub recent_trades : List RecentTrade
  pub volatility : W
  pub next_order_id : ℕ

-- The fields of `ETFArbEngine` besides the client and the books, which the strategy has too
pub record ArbState (W : Type 0) : Type 0 where
  pub threshold : ℤ
  pub cooldown_until : W
  pub next_oid : ℕ

pub record OrderStrategy (X W : Type 0) : Type 0 where
  pub session : Session X
  pub manager : OrderBookManager
  pub config : StrategyConfig W
  pub enabled : Bool
  pub killed : Bool
  pub total_volume : ℤ
  pub pending_flatten : Bool
  pub flatten_oid_counter : ℕ
  pub state : Dict ℕ (SymbolState W)
  pub spoof_detector : SpoofDetector W
  pub active_spoofs : Dict ℕ (ActiveSpoof W)
  pub etf_arb : Option (ArbState W)

module _ {W : Type 0} ⦃f : Float W⦄ where
  -- The values that the class gives its fields
  abbrev pub default_config : StrategyConfig W
  default_config = record {
    base_spread_ticks = pos 1;
    max_spread_ticks = pos 4;
    volatility_factor = literal 15 10;
    soft_position = pos 6;
    panic_position = pos 5;
    skew_per_unit = literal 5 10;
    order_qty = pos 2;
    pnl_kill_floor = negsuc 17999;
    trade_window = literal 5 1;
    aggression_threshold = literal 7 10;
    requote_threshold_ticks = 2;
    symbols = 1 ∷ 2 ∷ 3 ∷ 4 ∷ 5 ∷ 6 ∷ 7 ∷ 8 ∷ 9 ∷ 10 ∷ 11 ∷ 12 ∷ [];
    day1_mode = false;
    etf_arb_enabled = true;
    etf_arb_threshold = pos 100;
    spoof_enabled = true;
    spoof_qty = pos 5;
    spoof_offset_ticks = 2;
    spoof_lifetime_s = literal 4 10;
  }

  unfoldable pub new_symbol_state : (symbol start_order_id : ℕ) → SymbolState W
  unfolding get_tick
  new_symbol_state symbol start_order_id = record {
    symbol = symbol;
    tick = get_tick symbol;
    bid_order_id = none;
    ask_order_id = none;
    bid_price = pos 0;
    ask_price = pos 0;
    last_mid = float (pos 0);
    recent_mids = [];
    recent_trades = [];
    volatility = float (pos 0);
    next_order_id = start_order_id;
  }

  -- The loop of `__init__` over the symbols
  unfoldable pub new_states : List ℕ → Dict ℕ (SymbolState W) → Dict ℕ (SymbolState W)
  unfolding new_symbol_state
  new_states [] d = d
  new_states (s ∷ ss) d = new_states ss (insert s (new_symbol_state s (s * 100000)) d)

  unfoldable pub new_strategy :
      {X : Type 0} → Session X → OrderBookManager → StrategyConfig W → OrderStrategy X W
  unfolding new_states
  new_strategy session manager config = record {
    session = session;
    manager = manager;
    config = config;
    enabled = true;
    killed = false;
    total_volume = pos 0;
    pending_flatten = false;
    flatten_oid_counter = 15000000;
    state = new_states config.symbols [];
    spoof_detector = new_spoof_detector W;
    active_spoofs = [];
    etf_arb =
        if config.etf_arb_enabled
        then some (record {
          threshold = config.etf_arb_threshold;
          cooldown_until = float (pos 0);
          next_oid = 5000000;
        })
        else none;
  }

module _ {X W : Type 0} where
  -- A call of a method of the client
  abbrev pub on_session : {A : Type 0} → Action (Session X) A → Action (OrderStrategy X W) A
  on_session m s = let (r, c) = m s.session in (r, record s { session = c })

  -- The object that the strategy keeps for a symbol
  abbrev pub state_of : ℕ → Action (OrderStrategy X W) (SymbolState W)
  state_of symbol s = elim (lookup symbol s.state) [
    | none ↦ (err Error.key_error, s)
    | some st ↦ (ok st, s)
  ]

  abbrev pub set_state : ℕ → SymbolState W → Action (OrderStrategy X W) Done
  set_state symbol st s = (ok tt, record s { state = insert symbol st s.state })

  -- `get_best_bid` or `get_best_ask` of `manager.books[symbol]`
  unfoldable pub best : Side → ℕ → Action (OrderStrategy X W) (ℤ × ℤ)
  unfolding get_best
  best side symbol s = elim (lookup symbol s.manager.books) [
    | none ↦ (err Error.key_error, s)
    | some b ↦
        let (r, b') = get_best side b in
        (r, record s { manager = record s.manager { books = insert symbol b' s.manager.books } })
  ]
