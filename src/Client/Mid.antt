-- ===== src/Client/Mid.antt =====
-- `get_mid_price` of src/order_entry.py on the books of src/order_book.py.
use hft_trading_system.Prelude.{
  Dict, Every, [], ap, arith, inl, inr, int_eq, int_laws, nat_eq, neg_part, negsuc, ok, pos,
  pos_part, refl, total, ℕ, ℤ, ◌+ℤ◌, ◌∙◌, ◌∷◌, ◌≡◌, ◌≤ℤ◌,
}
use hft_trading_system.OrderBook.Invariant.{IsValid}
use hft_trading_system.OrderBook.Best.{Shows, get_best-Shows}
use hft_trading_system.OrderBook.Summary.{count_at, count_weight}
use hft_trading_system.Client.Manage.{half, mid_price}
use hft_trading_system.MarketData.{Order, Side}
use hft_trading_system.OrderBook.{OrderBook, get_best}
use hft_trading_system.Client.Blocks.{◌>>=◌}

plus_nothing : (n : ℤ) → n +ℤ pos 0 ≡ n
plus_nothing n = omega int_laws

half_bounds : (n : ℤ) → (half n +ℤ half n ≤ℤ n) × (n ≤ℤ half n +ℤ half n +ℤ pos 1)
half_bounds (pos n) = omega int_laws
half_bounds (negsuc n) = omega int_laws

half_between : (a b : ℤ) → a ≤ℤ b → (a ≤ℤ half (a +ℤ b)) × (half (a +ℤ b) ≤ℤ b)
half_between a b h = omega (int_laws, half_bounds (a +ℤ b))

-- The top of the asks does not depend on the heap of the bids.
mid_of_tops :
    (b : OrderBook) (bid ask : ℤ × ℤ)
    → (get_best Side.buy b).0 ≡ ok bid
    → (get_best Side.sell b).0 ≡ ok ask
    → (mid_price b).0 ≡ ok (half (bid.0 +ℤ ask.0))
unfolding mid_price get_best ◌>>=◌
mid_of_tops b bid ask e f = rw (e, f, ◌>>=◌) refl

-- Where the best bid is no higher than the best ask, `get_mid_price` lies between them.
pub mid_price_between :
    (b : OrderBook) (bid ask : ℤ × ℤ)
    → (get_best Side.buy b).0 ≡ ok bid
    → (get_best Side.sell b).0 ≡ ok ask
    → bid.0 ≤ℤ ask.0
    → (m : ℤ) × ((mid_price b).0 ≡ ok m) × (bid.0 ≤ℤ m) × (m ≤ℤ ask.0)
mid_price_between b bid ask e f h =
    let (low, high) = half_between bid.0 ask.0 h in
    (half (bid.0 +ℤ ask.0), mid_of_tops b bid ask e f, low, high)

abbrev pub IsBid : Order → Type 0
IsBid o = o.side ≡ Side.buy

no_asks : (price : ℤ) (d : Dict ℕ Order) → Every IsBid d → count_at Side.sell price d ≡ pos 0
unfolding total count_weight
no_asks price [] h = refl
no_asks price ((k, o) ∷ d) (bid, h) = rw (bid, no_asks price d h, total) (omega int_laws)

-- On a well-formed book whose orders are all bids, `get_mid_price` is not the best bid but half of
-- it, rounded down.
pub mid_price_one_side :
    (b : OrderBook)
    → IsValid b
    → Every IsBid b.orders
    → (bid : ℤ × ℤ) × ((get_best Side.buy b).0 ≡ ok bid)
      × Shows Side.buy b.orders bid
      × ((mid_price b).0 ≡ ok (half bid.0))
mid_price_one_side b v all_bids =
    let (bid, e, bids, same, v1, rest) = get_best-Shows Side.buy b v in
    let (ask, f, asks, same', v2, rest') = get_best-Shows Side.sell b v in
    let nothing : ask.0 ≡ pos 0 = elim asks [
      | inl bare ↦ bare.0
      | inr some_there ↦
          let counted : pos 1 ≤ℤ count_at Side.sell ask.0 b.orders = some_there.0 in
          absurd (
            omega (
              arith,
              ap pos_part (no_asks ask.0 b.orders all_bids),
              ap neg_part (no_asks ask.0 b.orders all_bids),
            ))
    ] in
    let sum : bid.0 +ℤ ask.0 ≡ bid.0 = ap (λ n. bid.0 +ℤ n) nothing ∙ plus_nothing bid.0 in
    (bid, e, bids, mid_of_tops b bid ask e f ∙ ap (λ n. ok (half n)) sum)
