-- ===== src/EtfArb.antt =====
-- `class ETFArbEngine` of src/etf_arb.py. The engine shares the client and the books; the REST service
-- that creates and redeems shares of the fund is a parameter, as is the clock.
use hft_trading_system.Prelude.{
  Action, Bool, Done, List, Option, [], eqb, err, false, gets, if◌then◌else◌, insert, int_eq, leb_ℤ,
  length, lookup, modify, nat_eq, none, not, ok, pos, pure, some, sym, true, ℕ, ℤ, ◌&&◌, ◌+ℤ◌, ◌+◌,
  ◌-ℤ◌, ◌∷◌,
}
use hft_trading_system.OrderBook.{get_best}
use hft_trading_system.BookManager.{OrderBookManager}
use hft_trading_system.Safety.Position.{update_position}
use hft_trading_system.Safety.Exposure.{buy_side, sell_side}
use hft_trading_system.Client.Session.{Session, Venue}
use hft_trading_system.Client.Orders.{immediate_or_cancel}
use hft_trading_system.Strategy.Floats.{Float, less, literal, ◌⊕◌}
use hft_trading_system.Strategy.Quotes.{is_accepted}
use hft_trading_system.MarketData.{Side}
use hft_trading_system.Client.Blocks.{◌>>=◌, ◌>>◌}
pub mod Booking
pub mod Legs

abbrev pub etf_sym : ℕ
etf_sym = 13

abbrev pub underlying_syms : List ℕ
underlying_syms = 3 ∷ 4 ∷ 5 ∷ 6 ∷ 7 ∷ 8 ∷ 9 ∷ 10 ∷ 11 ∷ 12 ∷ []

abbrev pub arb_order_id_base : ℕ
arb_order_id_base = 5000000

pub record EtfArbEngine (X W : Type 0) : Type 0 where
  pub manager : OrderBookManager
  pub client : Session X
  pub threshold : ℤ
  pub cooldown_until : W
  pub next_oid : ℕ

-- What `session.post` answers to create (true) and to redeem: whether the status is 200 and the
-- body says success. An error is a `RequestException`.
abbrev pub Service : Type 0 → Type 0
Service X = Bool → Action X Bool

-- A price above zero, where there is a book
abbrev pub is_price : Option ℤ → Bool
is_price none = false
is_price (some p) = not (leb_ℤ p (pos 0))

abbrev pub price_of : Option ℤ → ℤ
price_of none = pos 0
price_of (some p) = p

module _ {X W : Type 0} where
  abbrev on_client : {A : Type 0} → Action (Session X) A → Action (EtfArbEngine X W) A
  on_client m s = let (r, c) = m s.client in (r, record s { client = c })

  -- The best price of a book, and no price where there is no book
  unfoldable pub best_price : Side → ℕ → Action (EtfArbEngine X W) (Option ℤ)
  unfolding get_best
  best_price side symbol s = elim (lookup symbol s.manager.books) [
    | none ↦ (ok none, s)
    | some b ↦
        let (r, b') = get_best side b in
        let s' : EtfArbEngine X W = record s {
          manager = record s.manager { books = insert symbol b' s.manager.books };
        } in
        elim r [ ok top ↦ (ok (some top.0), s') | err e ↦ (err e, s') ]
  ]

  unfoldable pub alloc_oid : Action (EtfArbEngine X W) ℕ
  alloc_oid s = (ok s.next_oid, record s { next_oid = s.next_oid + 1 })

  -- `client.position_tracker.update_position`
  abbrev pub book_position : (symbol : ℕ) → (bought sold : ℤ) → EtfArbEngine X W → EtfArbEngine X W
  book_position symbol bought sold s = record s {
    client = record s.client {
      client = record s.client.client {
        position_tracker = update_position symbol bought sold s.client.client.position_tracker;
      };
    };
  }

  -- The loop over the underlyings, with what the service took or gave of each
  unfoldable pub book_each : (bought sold : ℤ) → List ℕ → EtfArbEngine X W → EtfArbEngine X W
  unfolding update_position
  book_each bought sold [] s = s
  book_each bought sold (sym ∷ syms) s =
      book_each bought sold syms (book_position sym bought sold s)

  -- The bookkeeping of a share of the fund that the service made of the underlyings
  unfoldable pub book_created : EtfArbEngine X W → EtfArbEngine X W
  unfolding book_each
  book_created s =
      book_position etf_sym (pos 1) (pos 0) (book_each (pos 0) (pos 1) underlying_syms s)

  -- And of one that it took apart
  unfoldable pub book_redeemed : EtfArbEngine X W → EtfArbEngine X W
  unfolding book_each
  book_redeemed s =
      book_each (pos 1) (pos 0) underlying_syms (book_position etf_sym (pos 0) (pos 1) s)

  -- `_basket_prices`, with the sums so far: the asks and the bids
  unfoldable pub basket_prices :
      List ℕ → (ask_sum bid_sum : ℤ) → Action (EtfArbEngine X W) (Option (ℤ × ℤ))
  unfolding best_price
  basket_prices [] ask_sum bid_sum = pure (some (ask_sum, bid_sum))
  basket_prices (sym ∷ syms) ask_sum bid_sum = do
    bid ← best_price Side.buy sym
    ask ← best_price Side.sell sym
    if is_price bid && is_price ask
        then basket_prices syms (ask_sum +ℤ price_of ask) (bid_sum +ℤ price_of bid)
        else pure none

module _ {X W : Type 0} ⦃f : Float W⦄ (v : Venue X) (service : Service X) (monotonic : X → W)
    (depth : ℕ) where
  -- One immediate-or-cancel order of one share: whether it was not rejected
  unfoldable pub leg : (symbol side : ℕ) → (price : ℤ) → Action (EtfArbEngine X W) Bool
  unfolding alloc_oid immediate_or_cancel
  leg symbol side price = do
    oid ← alloc_oid
    resp ← on_client (immediate_or_cancel v depth oid symbol side (pos 1) price)
    pure (is_accepted resp)

  -- The loop of `_execute_create_arb`, which breaks off at the first leg that fails: the symbols that
  -- it takes for bought
  unfoldable pub buy_legs : List ℕ → Action (EtfArbEngine X W) (List ℕ)
  unfolding best_price leg
  buy_legs [] = pure []
  buy_legs (sym ∷ syms) = do
    ask ← best_price Side.sell sym
    if is_price ask
        then (do
          bought ← leg sym buy_side (price_of ask)
          if bought then (do filled ← buy_legs syms; pure (sym ∷ filled)) else pure [])
        else pure []

  -- `_unwind`: the side on which the symbols are given back
  unfoldable pub unwind : List ℕ → (side : ℕ) → Action (EtfArbEngine X W) Done
  unfolding best_price leg
  unwind [] side = pure tt
  unwind (sym ∷ syms) side = do
    price ← best_price (if eqb side sell_side then Side.buy else Side.sell) sym
    if is_price price
        then (do leg sym side (price_of price); unwind syms side)
        else unwind syms side

  -- The same for the legs that sell the underlyings after a redemption, with what was sold
  unfoldable pub sell_legs : List ℕ → Action (EtfArbEngine X W) (List ℕ)
  unfolding best_price leg
  sell_legs [] = pure []
  sell_legs (sym ∷ syms) = do
    bid ← best_price Side.buy sym
    sold ← if is_price bid then leg sym sell_side (price_of bid) else pure false
    rest ← sell_legs syms
    pure (if sold then sym ∷ rest else rest)

  -- `self.session.post(…)`: an exception of the service is handed to the `except` clause as `none`.
  unfoldable pub post : Bool → Action (EtfArbEngine X W) (Option Bool)
  post create s =
      let (r, x) = service create s.client.outside in
      let s' : EtfArbEngine X W = record s { client = record s.client { outside = x } } in
      elim r [ ok done ↦ (ok (some done), s') | err e ↦ (ok none, s') ]

  abbrev is_done : Option Bool → Bool
  is_done none = false
  is_done (some b) = b

  abbrev cool_down : ℕ → EtfArbEngine X W → EtfArbEngine X W
  cool_down seconds s = record s { cooldown_until = monotonic s.client.outside ⊕ literal seconds 1 }

  -- The shares that the service made of the underlyings, and their sale
  unfoldable pub sell_created : (undy_bid : ℤ) → Action (EtfArbEngine X W) Done
  unfolding book_created leg
  sell_created undy_bid = do modify book_created; leg etf_sym sell_side undy_bid; pure tt

  unfoldable pub execute_create_arb : (undy_bid : ℤ) → Action (EtfArbEngine X W) Done
  unfolding buy_legs unwind post sell_created
  execute_create_arb undy_bid = do
    filled ← buy_legs underlying_syms
    if eqb (length filled) (length underlying_syms)
        then (do
          created ← post true
          if is_done created then sell_created undy_bid else unwind filled sell_side)
        else unwind filled sell_side
    modify (cool_down 2)

  unfoldable pub execute_redeem_arb : (undy_ask : ℤ) → Action (EtfArbEngine X W) Done
  unfolding book_redeemed leg post sell_legs
  execute_redeem_arb undy_ask = do
    bought ← leg etf_sym buy_side undy_ask
    if not bought then modify (cool_down 1) else (do
      redeemed ← post false
      if is_done redeemed
          then (do modify book_redeemed; sell_legs underlying_syms; pure tt)
          else pure tt
      modify (cool_down 2))

  -- `step` once the prices of the fund and of the basket are known
  unfoldable pub trade_spread :
      (undy_bid undy_ask basket_ask basket_bid : ℤ) → Action (EtfArbEngine X W) Done
  unfolding execute_create_arb execute_redeem_arb
  trade_spread undy_bid undy_ask basket_ask basket_bid = do
    threshold ← gets (λ s. s.threshold)
    if leb_ℤ threshold (undy_bid -ℤ basket_ask)
        then execute_create_arb undy_bid
        else if leb_ℤ threshold (basket_bid -ℤ undy_ask)
        then execute_redeem_arb undy_ask
        else pure tt

  unfoldable pub step : Action (EtfArbEngine X W) Done
  unfolding best_price basket_prices trade_spread
  step = do
    cooling ← gets (λ s. less (monotonic s.client.outside) s.cooldown_until)
    if cooling then pure tt else (do
      undy_bid ← best_price Side.buy etf_sym
      undy_ask ← best_price Side.sell etf_sym
      if is_price undy_bid && is_price undy_ask
          then (do
            basket ← basket_prices underlying_syms (pos 0) (pos 0)
            elim basket [
              | none ↦ pure tt
              | some sums ↦ trade_spread (price_of undy_bid) (price_of undy_ask) sums.0 sums.1
            ])
          else pure tt)
