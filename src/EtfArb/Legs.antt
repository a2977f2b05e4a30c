-- ===== src/EtfArb/Legs.antt =====
-- The legs that src/etf_arb.py takes for bought.
use hft_trading_system.Prelude.{
  Action, All, Bool, List, Option, Result, err, false, int_eq, nat_eq, ok, pos, some, true, ℕ, ℤ,
  ◌++◌, ◌<ℤ◌, ◌∷◌, ◌≡◌, ◌⊎◌,
}
use hft_trading_system.EtfArb.{EtfArbEngine, best_price, is_price}
use hft_trading_system.Client.Session.{OeResponse, Session, Venue}
use hft_trading_system.Client.Orders.{immediate_or_cancel}
use hft_trading_system.Strategy.Quotes.{is_accepted}
use hft_trading_system.Safety.Exposure.{buy_side}
use hft_trading_system.MarketData.{Side}

-- Where an action returns, what it returns has a property.
record Gives {S A : Type 0} (P : A → Type 0) (m : Action S A) : Type 0 where
  gives : (s : S) (a : A) → (m s).0 ≡ ok a → P a

abbrev ok_or : {A : Type 0} → A → Result A → A
ok_or a (ok b) = b
ok_or a (err e) = a

module _ {X : Type 0} (W : Type 0) (v : Venue X) (depth : ℕ) where
  -- The best ask of a symbol, as the engine finds it in some state
  abbrev pub Asks : ℕ → Option ℤ → Type 0
  Asks symbol ask = (s : EtfArbEngine X W) × ((best_price Side.sell symbol s).0 ≡ ok ask)

  -- An order to buy one share at a price, sent in some state, with what is made of its responses
  abbrev pub Orders : ℕ → ℤ → Bool → Type 0
  Orders symbol price accepted =
      (order_id : ℕ) × (t : Session X) × (responses : List OeResponse) × ((immediate_or_cancel v
          depth order_id symbol buy_side (pos 1) price t).0
        ≡ ok responses)
      × (is_accepted responses ≡ accepted)

  -- There was a price, and the order at this price was not refused.
  abbrev pub IsBought : ℕ → Type 0
  IsBought symbol = (ask : ℤ) × Asks symbol (some ask) × (pos 0 <ℤ ask) × Orders symbol ask true

  -- There was no price, or the order at it was refused.
  abbrev pub IsMissed : ℕ → Type 0
  IsMissed symbol =
      ((o : Option ℤ) × Asks symbol o × (is_price o ≡ false))
      ⊎ ((ask : ℤ) × Asks symbol (some ask) × (pos 0 <ℤ ask) × Orders symbol ask false)

  -- What the loop took for bought, of a list of symbols
  abbrev pub AreBought : List ℕ → List ℕ → Type 0
  AreBought syms filled =
      All IsBought filled
      × ((filled ≡ syms)
          ⊎ ((missed : ℕ) × (rest : List ℕ) × (filled ++ missed ∷ rest ≡ syms) × IsMissed missed))
