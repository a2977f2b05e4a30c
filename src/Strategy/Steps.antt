-- ===== src/Strategy/Steps.antt =====
-- What src/strategy.py does on an update: `_step_symbol`, `on_raw_message`, `on_trade_summary`,
-- `on_own_fill`.
use hft_trading_system.Prelude.{
  Action, Bool, Done, List, [], drop, eqb, false, gets, if◌then◌else◌, insert, int_eq, is_some,
  leb_ℤ, length, lookup, ltb, modify, nat_eq, none, not, only_if, pos, pure, some, ℕ, ℤ, ◌&&◌, ◌++◌,
  ◌+ℤ◌, ◌-ℤ◌, ◌∷◌,
}
use hft_trading_system.Safety.Exposure.{buy_side, sell_side}
use hft_trading_system.Safety.Position.{get_position}
use hft_trading_system.Client.Session.{Venue}
use hft_trading_system.Strategy.Floats.{Float, float, literal, ◌⊕◌, ◌⊖◌, ◌⊗◌, ◌⊘◌}
use hft_trading_system.Strategy.Spoofs.{
  SpoofDetector, ask_spoof_qty, bid_spoof_qty, decay, on_cancel, on_new_order, on_trade,
}
use hft_trading_system.Strategy.State.{OrderStrategy, SymbolState, best, set_state, state_of}
use hft_trading_system.Strategy.Prices.{
  Plan, compute_fair_value, compute_half_spread_ticks, compute_volatility, detect_aggression,
  plan_quotes,
}
use hft_trading_system.Strategy.Quotes.{manage_quote}
use hft_trading_system.Strategy.Spoofing.{maybe_send_spoof, now_of}
use hft_trading_system.MarketData.{Side, Message}
use hft_trading_system.Client.Blocks.{◌>>=◌, ◌>>◌}

-- `deque(maxlen=n)`: what is appended to a full one pushes the oldest out.
abbrev pub append_bounded : {A : Type 0} → ℕ → A → List A → List A
append_bounded n x xs = if ltb (length xs) n then xs ++ x ∷ [] else drop 1 xs ++ x ∷ []

-- `int(side)` of a side of the feed
abbrev pub side_value : Side → ℕ
side_value Side.buy = 1
side_value Side.sell = 2

module _ {X W : Type 0} ⦃f : Float W⦄ (v : Venue X) (monotonic : X → W) (depth : ℕ) where
  -- One side of the detection of aggressive flow, with what it does to the plan
  unfoldable pub lean_against :
      (aggressor : ℕ) → (symbol : ℕ) → (bb ba : ℤ) → Bool → Plan → Action (OrderStrategy X W) Plan
  unfolding maybe_send_spoof
  lean_against aggressor symbol bb ba aggressive plan = do
    st ← state_of symbol
    spoofing ← gets (λ s. s.config.spoof_enabled)
    if not aggressive
        then pure plan
        else if eqb aggressor buy_side
        then (do
          only_if spoofing (maybe_send_spoof v monotonic depth symbol sell_side bb ba)
          pure (record plan { ask_price = plan.ask_price +ℤ pos st.tick; should_bid = false }))
        else (do
          only_if spoofing (maybe_send_spoof v monotonic depth symbol buy_side bb ba)
          pure (record plan { bid_price = plan.bid_price -ℤ pos st.tick; should_ask = false }))

  abbrev note_mid : W → SymbolState W → SymbolState W
  note_mid mid st = record st {
    recent_mids = append_bounded 100 mid st.recent_mids;
    last_mid = mid;
  }

  abbrev note_volatility : SymbolState W → SymbolState W
  note_volatility st = record st { volatility = compute_volatility st.recent_mids }

  -- The fair value with the pressure of the spoofs of others
  abbrev shifted : W → (tick : ℕ) → (symbol : ℕ) → SpoofDetector W → W
  shifted fair tick symbol d =
      fair ⊕ (ask_spoof_qty symbol d ⊖ bid_spoof_qty symbol d) ⊗ literal 5 100 ⊗ float (pos tick)

  -- The end of `_step_symbol`: the flow, and the two quotes
  unfoldable pub quote_plan : (symbol : ℕ) → (bb ba : ℤ) → Plan → Action (OrderStrategy X W) Done
  unfolding detect_aggression lean_against manage_quote
  quote_plan symbol bb ba plan = do
    st ← state_of symbol
    cfg ← gets (λ s. s.config)
    buying ← gets (λ s. detect_aggression cfg (now_of monotonic s) st.recent_trades buy_side)
    selling ← gets (λ s. detect_aggression cfg (now_of monotonic s) st.recent_trades sell_side)
    plan1 ← lean_against buy_side symbol bb ba buying plan
    plan2 ← lean_against sell_side symbol bb ba selling plan1
    manage_quote v depth symbol buy_side plan2.bid_price plan2.should_bid
    manage_quote v depth symbol sell_side plan2.ask_price plan2.should_ask

  -- `_step_symbol` once the book is seen to have two sides
  unfoldable pub quote_symbol :
      (symbol : ℕ) → (bb bb_qty ba ba_qty : ℤ) → Action (OrderStrategy X W) Done
  unfolding compute_fair_value decay compute_volatility compute_half_spread_ticks plan_quotes
      quote_plan
  quote_symbol symbol bb bb_qty ba ba_qty = do
    st ← state_of symbol
    cfg ← gets (λ s. s.config)
    detector ← gets (λ s. s.spoof_detector)
    let fair = shifted (compute_fair_value bb bb_qty ba ba_qty st.tick) st.tick symbol detector
    let st1 = note_volatility (note_mid (float (bb +ℤ ba) ⊘ literal 2 1) st)
    set_state symbol st1
    modify (λ s. record s { spoof_detector = decay symbol detector })
    position ← gets (λ s. get_position symbol s.session.client.position_tracker)
    let half_ticks = compute_half_spread_ticks cfg st1.volatility st.tick position
    elim (plan_quotes cfg fair half_ticks st.tick position bb ba) [
      | none ↦ pure tt
      | some plan ↦ quote_plan symbol bb ba plan
    ]

  -- A book with two sides that do not cross
  abbrev pub is_two_sided : ℤ × ℤ → ℤ × ℤ → Bool
  is_two_sided (bb, bb_qty) (ba, ba_qty) =
      not (leb_ℤ bb (pos 0))
      && not (leb_ℤ ba (pos 0))
      && leb_ℤ bb ba
      && not (leb_ℤ bb_qty (pos 0))
      && not (leb_ℤ ba_qty (pos 0))

  unfoldable pub step_symbol : (symbol : ℕ) → Action (OrderStrategy X W) Done
  unfolding best quote_symbol
  step_symbol symbol = do
    books ← gets (λ s. s.manager.books)
    if not (is_some (lookup symbol books)) then pure tt else (do
      bid ← best Side.buy symbol
      ask ← best Side.sell symbol
      if is_two_sided bid ask then quote_symbol symbol bid.0 bid.1 ask.0 ask.1 else pure tt)

  -- `on_raw_message`, on the message of the feed before the books take it
  unfoldable pub on_raw_message : Message → OrderStrategy X W → OrderStrategy X W
  unfolding on_new_order on_cancel on_trade
  on_raw_message (Message.new_order m) s =
      if is_some (lookup m.symbol s.state)
      then record s {
        spoof_detector =
            on_new_order (now_of monotonic s) m.order_id m.symbol (side_value m.side)
              (pos m.quantity) s.spoof_detector;
      }
      else s
  on_raw_message (Message.delete_order m) s =
      elim (lookup m.order_id s.manager.order_id_to_symbol) [
        | none ↦ s
        | some symbol ↦
            if is_some (lookup symbol s.state)
            then record s {
              spoof_detector = on_cancel (now_of monotonic s) m.order_id symbol s.spoof_detector;
            }
            else s
      ]
  on_raw_message (Message.trade m) s = record s {
    spoof_detector = on_trade m.order_id s.spoof_detector;
  }
  on_raw_message _ s = s

  unfoldable pub on_trade_summary :
      (symbol aggressor_side : ℕ)
      → (quantity price timestamp : ℤ) → OrderStrategy X W
      → OrderStrategy X W
  on_trade_summary symbol aggressor_side quantity price timestamp s = elim (lookup symbol s.state) [
    | none ↦ s
    | some st ↦ record s {
      state =
          insert symbol
            (record st {
              recent_trades =
                  append_bounded 200
                    (record {
                      timestamp = timestamp;
                      symbol = symbol;
                      aggressor_side = aggressor_side;
                      quantity = quantity;
                      price = price;
                    })
                    st.recent_trades;
            })
            s.state;
    }
  ]

  unfoldable pub on_own_fill : (symbol : ℕ) → (quantity : ℤ) → OrderStrategy X W → OrderStrategy X W
  on_own_fill symbol quantity s = record s { total_volume = s.total_volume +ℤ quantity }
