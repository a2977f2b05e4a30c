-- ===== src/Tests/Mids.antt =====
-- Mid prices of src/order_entry.py on small books.
use hft_trading_system.Prelude.{
  Every, insert, int_eq, lookup, nat_eq, neg, ok, pos, refl, ℤ, ◌+ℤ◌, ◌≡◌,
}
use hft_trading_system.OrderBook.Best.{Shows}
use hft_trading_system.Client.Manage.{half, mid_price}
use hft_trading_system.Client.Mid.{IsBid, mid_price_one_side}
use hft_trading_system.Tests.Books.{one_bid, one_bid-IsValid}
use hft_trading_system.HeapQueue.{heappush}
use hft_trading_system.MarketData.{Side}
use hft_trading_system.OrderBook.{OrderBook, add_order, add_to_level, best_of, clear_top, get_best}

one-IsBid-Every : Every IsBid one_bid.orders
unfolding add_order insert add_to_level lookup
one-IsBid-Every = (refl, tt)

mid_price_one_side_example :
    (bid : ℤ × ℤ) × ((get_best Side.buy one_bid).0 ≡ ok bid)
    × Shows Side.buy one_bid.orders bid
    × ((mid_price one_bid).0 ≡ ok (half bid.0))
mid_price_one_side_example = mid_price_one_side one_bid one_bid-IsValid one-IsBid-Every

-- Three to sell at 107
abbrev pub both_sides : OrderBook
both_sides = (add_order 2 1 Side.sell (pos 3) (pos 107) 8 one_bid).1

best_bid : (get_best Side.buy both_sides).0 ≡ ok (pos 100, pos 5)
unfolding add_order add_to_level insert lookup heappush get_best clear_top best_of neg ◌+ℤ◌
best_bid = refl

best_ask : (get_best Side.sell both_sides).0 ≡ ok (pos 107, pos 3)
unfolding add_order add_to_level insert lookup heappush get_best clear_top best_of neg ◌+ℤ◌
best_ask = refl
