-- ===== src/Strategy/Stopping.antt =====
-- `stop` of src/strategy.py: what is killed stays killed, whatever its cancelling does.
use hft_trading_system.Prelude.{
  Action, List, Option, Result-cases, [], arith, inl, inr, int_eq, map, nat_eq, none, refl, some,
  true, ℕ, ◌∙◌, ◌∷◌, ◌≡◌,
}
use hft_trading_system.Safety.Exposure.{buy_side, sell_side}
use hft_trading_system.Client.Session.{Venue}
use hft_trading_system.Strategy.Floats.{Float}
use hft_trading_system.Strategy.State.{OrderStrategy, SymbolState, state_of}
use hft_trading_system.Strategy.Quotes.{
  cancel_all_quotes, cancel_quote, cancel_quotes, quote_id, update_state,
}
use hft_trading_system.Strategy.Spoofing.{cancel_active_spoofs, delete_each}
use hft_trading_system.Strategy.Flat.{stop}
use hft_trading_system.EtfArb.{Service}
use hft_trading_system.Client.Blocks.{◌>>=◌}

module _ {X W : Type 0} where
  -- Whatever an action does, errors included, a killed strategy stays killed.
  pub record Stays {A : Type 0} (m : Action (OrderStrategy X W) A) : Type 0 where
    pub at : (s : OrderStrategy X W) → s.killed ≡ true → (m s).1.killed ≡ true

  Stays-bind :
      {A B : Type 0} (m : Action (OrderStrategy X W) A) (k : A → Action (OrderStrategy X W) B)
      → Stays m
      → ((a : A) → Stays (k a))
      → Stays (m >>= k)
  unfolding ◌>>=◌
  Stays-bind m k h g = record {
    at = λ s e. elim (Result-cases (m s).0) [
      | inl (a, r) ↦ rw (r, ◌>>=◌) ((g a).at (m s).1 (h.at s e))
      | inr (c, r) ↦ rw (r, ◌>>=◌) (h.at s e)
    ];
  }

  Stays-same :
      {A : Type 0} (m : Action (OrderStrategy X W) A)
      → ((s : OrderStrategy X W) → (m s).1.killed ≡ s.killed)
      → Stays m
  Stays-same m h = record { at = λ s e. h s ∙ e }

  Stays-elim :
      {A B : Type 0} (o : Option A) (m : Action (OrderStrategy X W) B)
      (k : A → Action (OrderStrategy X W) B)
      → Stays m
      → ((a : A) → Stays (k a))
      → Stays (elim o [ none ↦ m | some a ↦ k a ])
  Stays-elim none m k h g = h
  Stays-elim (some a) m k h g = g a

  state_of_same : (symbol : ℕ) (s : OrderStrategy X W) → (state_of symbol s).1.killed ≡ s.killed
  state_of_same symbol s = ground arith

module _ {X W : Type 0} (v : Venue X) (depth : ℕ) where
  update_state-Stays :
      (symbol : ℕ) (change : SymbolState W → SymbolState W)
      → Stays (update_state v depth symbol change)
  unfolding update_state
  update_state-Stays symbol change =
      Stays-bind _ _ (Stays-same _ (state_of_same symbol)) λ st. Stays-same _ (λ s. refl)

  cancel_quote-Stays : (symbol side : ℕ) → Stays {W = W} (cancel_quote v depth symbol side)
  unfolding cancel_quote
  cancel_quote-Stays symbol side = Stays-bind _ _ (Stays-same _ (state_of_same symbol)) λ st.
      Stays-elim (quote_id side st) _ _ (Stays-same _ (λ s. refl))
        λ oid. Stays-bind _ _ (Stays-same _ (λ s. refl)) λ responses. update_state-Stays symbol _

  cancel_quotes-Stays : (symbols : List ℕ) → Stays {W = W} (cancel_quotes v depth symbols)
  unfolding cancel_quotes
  cancel_quotes-Stays [] = Stays-same _ (λ s. refl)
  cancel_quotes-Stays (symbol ∷ symbols) =
      Stays-bind _ _ (cancel_quote-Stays symbol buy_side)
        λ _. Stays-bind _ _ (cancel_quote-Stays symbol sell_side) λ _. cancel_quotes-Stays symbols

  cancel_all_quotes-Stays : Stays {W = W} (cancel_all_quotes v depth)
  unfolding cancel_all_quotes
  cancel_all_quotes-Stays = record { at = λ s. (cancel_quotes-Stays (map (λ p. p.0) s.state)).at s }

module _ {X W : Type 0} ⦃f : Float W⦄ (v : Venue X) (monotonic : X → W) (depth : ℕ)
    (service : Service X) where
  delete_each-Stays : (oids : List ℕ) → Stays (delete_each v monotonic depth oids)
  unfolding delete_each
  delete_each-Stays [] = Stays-same _ (λ s. refl)
  delete_each-Stays (oid ∷ oids) =
      Stays-bind _ _ (Stays-same _ (λ s. refl)) λ _. delete_each-Stays oids

  cancel_active_spoofs-Stays : Stays (cancel_active_spoofs v monotonic depth)
  unfolding cancel_active_spoofs
  cancel_active_spoofs-Stays = record {
    at = λ s. (Stays-bind _ _ (delete_each-Stays _) λ _. Stays-same _ (λ t. refl)).at s;
  }

  pub stop-Stays : Stays (stop v service monotonic depth)
  unfolding stop
  stop-Stays =
      Stays-bind _ _ (Stays-same _ (λ s. refl))
        λ _. Stays-bind _ _ cancel_active_spoofs-Stays λ _. cancel_all_quotes-Stays v depth
