-- ===== src/Strategy/Quotes.antt =====
-- The quotes of src/strategy.py: `_place_quote`, `_modify_quote`, `_cancel_quote`, `_manage_quote`,
-- `_cancel_all_quotes`. A side is the number that the orders carry.
use hft_trading_system.Prelude.{
  Action, Bool, Done, List, Option, [], abs, eqb, false, gets, if◌then◌else◌, int_eq, leb, map,
  nat_eq, none, not, pos, pure, some, ℕ, ℤ, ◌%◌, ◌*◌, ◌+◌, ◌-ℤ◌, ◌∷◌,
}
use hft_trading_system.Client.Session.{OeResponse, Venue, ends_exchange}
use hft_trading_system.Client.Orders.{delete_order, new_order}
use hft_trading_system.Client.Manage.{modify_order}
use hft_trading_system.Strategy.State.{OrderStrategy, SymbolState, on_session, set_state, state_of}
use hft_trading_system.Safety.Exposure.{buy_side, sell_side}
use hft_trading_system.Client.Blocks.{◌>>=◌, ◌>>◌}

-- `responses and not self._is_reject(responses[0])`
abbrev pub is_accepted : List OeResponse → Bool
is_accepted [] = false
is_accepted (m ∷ ms) = not (ends_exchange m)

-- `price % tick == 0`
abbrev pub is_aligned : ℕ → ℤ → Bool
is_aligned tick price = eqb (abs price % tick) 0

module _ {W : Type 0} where
  abbrev pub quote_id : (side : ℕ) → SymbolState W → Option ℕ
  quote_id side st = if eqb side buy_side then st.bid_order_id else st.ask_order_id

  abbrev pub quote_price : (side : ℕ) → SymbolState W → ℤ
  quote_price side st = if eqb side buy_side then st.bid_price else st.ask_price

  abbrev pub with_quote : (side : ℕ) → Option ℕ → ℤ → SymbolState W → SymbolState W
  with_quote side order_id price st =
      if eqb side buy_side
      then record st { bid_order_id = order_id; bid_price = price }
      else record st { ask_order_id = order_id; ask_price = price }

  abbrev pub with_price : (side : ℕ) → ℤ → SymbolState W → SymbolState W
  with_price side price st =
      if eqb side buy_side then record st { bid_price = price } else record st { ask_price = price }

module _ {X W : Type 0} (v : Venue X) (depth : ℕ) where
  -- `state.alloc_order_id()`
  unfoldable pub alloc_order_id : ℕ → Action (OrderStrategy X W) ℕ
  alloc_order_id symbol = do
    st ← state_of symbol
    set_state symbol (record st { next_order_id = st.next_order_id + 1 })
    pure st.next_order_id

  unfoldable pub update_state :
      ℕ → (SymbolState W → SymbolState W) → Action (OrderStrategy X W) Done
  update_state symbol change = do st ← state_of symbol; set_state symbol (change st)

  unfoldable pub place_quote : (symbol side : ℕ) → (price : ℤ) → Action (OrderStrategy X W) Done
  unfolding alloc_order_id update_state new_order
  place_quote symbol side price = do
    oid ← alloc_order_id symbol
    st ← state_of symbol
    if is_aligned st.tick price
        then (do
          qty ← gets (λ s. s.config.order_qty)
          responses ← on_session (new_order v depth oid st.symbol side qty price 0)
          if is_accepted responses
              then update_state symbol (with_quote side (some oid) price)
              else pure tt)
        else pure tt

  unfoldable pub modify_quote : (symbol side : ℕ) → (price : ℤ) → Action (OrderStrategy X W) Done
  unfolding update_state modify_order
  modify_quote symbol side price = do
    st ← state_of symbol
    if is_aligned st.tick price
        then elim (quote_id side st) [
          | none ↦ pure tt
          | some oid ↦ do
            qty ← gets (λ s. s.config.order_qty)
            responses ← on_session (modify_order v depth oid side qty price)
            update_state symbol (
                if is_accepted responses
                then with_price side price
                else with_quote side none (pos 0))
        ]
        else pure tt

  unfoldable pub cancel_quote : (symbol side : ℕ) → Action (OrderStrategy X W) Done
  unfolding update_state delete_order
  cancel_quote symbol side = do
    st ← state_of symbol
    elim (quote_id side st) [
      | none ↦ pure tt
      | some oid ↦ do
        on_session (delete_order v depth oid)
        update_state symbol (with_quote side none (pos 0))
    ]

  -- The test `abs(target_price - current_px) >= threshold_px`
  abbrev pub is_far : ℕ → SymbolState W → ℤ → ℤ → Bool
  is_far ticks st target current = leb (ticks * st.tick) (abs (target -ℤ current))

  unfoldable pub manage_quote :
      (symbol side : ℕ) → (target : ℤ) → (should_quote : Bool) → Action (OrderStrategy X W) Done
  unfolding place_quote modify_quote cancel_quote
  manage_quote symbol side target should_quote = do
    st ← state_of symbol
    ticks ← gets (λ s. s.config.requote_threshold_ticks)
    if not should_quote then cancel_quote symbol side else elim (quote_id side st) [
      | none ↦ place_quote symbol side target
      | some oid ↦
          if is_far ticks st target (quote_price side st)
          then modify_quote symbol side target
          else pure tt
    ]

  -- `_cancel_all_quotes`, over the symbols of `self.state`
  unfoldable pub cancel_quotes : List ℕ → Action (OrderStrategy X W) Done
  unfolding cancel_quote
  cancel_quotes [] = pure tt
  cancel_quotes (symbol ∷ symbols) = do
    cancel_quote symbol buy_side
    cancel_quote symbol sell_side
    cancel_quotes symbols

  unfoldable pub cancel_all_quotes : Action (OrderStrategy X W) Done
  unfolding cancel_quotes
  cancel_all_quotes s = cancel_quotes (map (λ p. p.0) s.state) s
