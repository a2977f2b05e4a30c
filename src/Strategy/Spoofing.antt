-- ===== src/Strategy/Spoofing.antt =====
-- The spoof orders of src/strategy.py: `_maybe_send_spoof`, `_check_active_spoofs`,
-- `_cancel_active_spoofs`. `time.monotonic()` reads the outside.
use hft_trading_system.Prelude.{
  Action, Bool, Dict, Done, List, [], eqb, erase, false, gets, if◌then◌else◌, insert, int_eq, leb_ℤ,
  map, modify, nat_eq, not, pos, pure, ℕ, ℤ, ◌*◌, ◌+ℤ◌, ◌-ℤ◌, ◌||◌, ◌∷◌,
}
use hft_trading_system.Safety.Exposure.{buy_side, sell_side}
use hft_trading_system.Client.Session.{Venue}
use hft_trading_system.Client.Orders.{delete_order, new_order}
use hft_trading_system.Strategy.Floats.{Float, float, less, ◌⊕◌}
use hft_trading_system.Strategy.State.{
  ActiveSpoof, OrderStrategy, StrategyConfig, on_session, state_of,
}
use hft_trading_system.Strategy.Prices.{round_tick}
use hft_trading_system.Strategy.Quotes.{alloc_order_id, is_accepted}
use hft_trading_system.Client.Blocks.{◌>>=◌, ◌>>◌}

-- A test on the values of a dictionary, as `any` makes it
abbrev pub any_value : {V : Type 0} → (V → Bool) → Dict ℕ V → Bool
any_value p [] = false
any_value p ((k, x) ∷ d) = p x || any_value p d

-- The keys of the entries that pass a test
abbrev pub keys_where : {V : Type 0} → (V → Bool) → Dict ℕ V → List ℕ
keys_where p [] = []
keys_where p ((k, x) ∷ d) = if p x then k ∷ keys_where p d else keys_where p d

module _ {X W : Type 0} (monotonic : X → W) where
  abbrev pub now_of : OrderStrategy X W → W
  now_of s = monotonic s.session.outside

module _ {X W : Type 0} ⦃f : Float W⦄ (v : Venue X) (monotonic : X → W) (depth : ℕ) where
  -- The price of a spoof order, beyond the best price of its side
  abbrev spoof_price : StrategyConfig W → (tick side : ℕ) → (bb ba : ℤ) → ℤ
  spoof_price cfg tick side bb ba =
      let offset = pos (cfg.spoof_offset_ticks * tick) in
      if eqb side buy_side
      then round_tick {W = W} (float (bb -ℤ offset)) tick buy_side
      else round_tick {W = W} (float (ba +ℤ offset)) tick sell_side

  abbrev pub remember_spoof : (order_id symbol side : ℕ) → Action (OrderStrategy X W) Done
  remember_spoof order_id symbol side = modify (λ s. record s {
    active_spoofs =
        insert order_id
          (record {
            order_id = order_id;
            symbol = symbol;
            side = side;
            cancel_at = now_of monotonic s ⊕ s.config.spoof_lifetime_s;
          })
          s.active_spoofs;
  })

  -- The order of `_maybe_send_spoof`
  unfoldable pub send_spoof :
      (symbol order_symbol side : ℕ) → (qty price : ℤ) → Action (OrderStrategy X W) Done
  unfolding alloc_order_id new_order
  send_spoof symbol order_symbol side qty price = do
    oid ← alloc_order_id v depth symbol
    responses ← on_session (new_order v depth oid order_symbol side qty price 0)
    if is_accepted responses then remember_spoof oid order_symbol side else pure tt

  unfoldable pub maybe_send_spoof :
      (symbol side : ℕ) → (bb ba : ℤ) → Action (OrderStrategy X W) Done
  unfolding round_tick
  maybe_send_spoof symbol side bb ba = do
    st ← state_of symbol
    spoofs ← gets (λ s. s.active_spoofs)
    cfg ← gets (λ s. s.config)
    let price = spoof_price cfg st.tick side bb ba
    if any_value (λ (a : ActiveSpoof W). eqb a.symbol st.symbol) spoofs
        then pure tt
        else if leb_ℤ price (pos 0)
        then pure tt
        else send_spoof symbol st.symbol side cfg.spoof_qty price

  -- The loop of `_check_active_spoofs` over those whose time is up
  unfoldable pub cancel_spoofs : List ℕ → Action (OrderStrategy X W) Done
  unfolding delete_order
  cancel_spoofs [] = pure tt
  cancel_spoofs (oid ∷ oids) = do
    on_session (delete_order v depth oid)
    modify (λ s. record s { active_spoofs = erase oid s.active_spoofs })
    cancel_spoofs oids

  unfoldable pub check_active_spoofs : Action (OrderStrategy X W) Done
  unfolding cancel_spoofs
  check_active_spoofs s =
      cancel_spoofs
        (keys_where (λ (a : ActiveSpoof W). not (less (now_of monotonic s) a.cancel_at))
          s.active_spoofs)
        s

  unfoldable pub delete_each : List ℕ → Action (OrderStrategy X W) Done
  unfolding delete_order
  delete_each [] = pure tt
  delete_each (oid ∷ oids) = do on_session (delete_order v depth oid); delete_each oids

  unfoldable pub cancel_active_spoofs : Action (OrderStrategy X W) Done
  unfolding delete_each
  cancel_active_spoofs s =
      (do
        delete_each (map (λ p. p.0) s.active_spoofs)
        modify (λ (t : OrderStrategy X W). record t { active_spoofs = [] }))
        s
