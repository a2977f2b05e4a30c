-- ===== src/Tests/Books.antt =====
-- Runs of the book of src/order_book.py.
use hft_trading_system.Prelude.{
  Error, Option, [], arith, drop, erase, err, if◌then◌else◌, insert, int_eq, lookup, nat_eq, neg,
  none, ok, pos, refl, some, sym, take, total, ℕ, ℤ, ◌+ℤ◌, ◌-ℤ◌, ◌∙◌, ◌∷◌, ◌≡◌, ◌≤ℤ◌,
}
use hft_trading_system.HeapQueue.{heappush}
use hft_trading_system.OrderBook.Summary.{qty_at, qty_weight}
use hft_trading_system.OrderBook.Invariant.{IsValid, empty_book-IsValid}
use hft_trading_system.OrderBook.Add.{add_order-IsValid, make_order}
use hft_trading_system.OrderBook.Settle.{delete_order_lem}
use hft_trading_system.OrderBook.Trade.{overfill_lem, trade_order_lem, traded}
use hft_trading_system.OrderBook.Spec.{call, delete_call, run, run-refines-spec, spec, trade_call}
use hft_trading_system.OrderBook.Best.{Shows, Stale, get_best-Shows}
use hft_trading_system.OrderBook.Validate.{is_crossed, validate_lem}
use mathlib.Core.Path.{subst}
use hft_trading_system.MarketData.{Order, Side, side_eq}
use hft_trading_system.OrderBook.{
  OrderBook, add_order, add_to_level, best_of, clear_top, delete_order, empty_book, get_best, heap,
  levels, levels_are_positive, orders_have_levels, set_heap, trade_order, validate,
}

-- Five to buy at 100
abbrev bid : Order
bid = make_order 1 1 Side.buy (pos 5) (pos 100) 7

abbrev pub one_bid : OrderBook
one_bid = (add_order 1 1 Side.buy (pos 5) (pos 100) 7 (empty_book 1)).1

pub one_bid-IsValid : IsValid one_bid
one_bid-IsValid =
    add_order-IsValid 1 1 Side.buy (pos 5) (pos 100) 7 (empty_book 1) (empty_book-IsValid 1)

one_bid_order : lookup 1 one_bid.orders ≡ some bid
unfolding add_order add_to_level insert lookup
one_bid_order = refl

-- The quantity of an order that was found
abbrev quantity_of : Option Order → ℤ
quantity_of none = pos 0
quantity_of (some o) = o.quantity

-- Six more at the same price
abbrev two_bids : OrderBook
two_bids = (add_order 2 1 Side.buy (pos 6) (pos 100) 8 one_bid).1

two_bids-IsValid : IsValid two_bids
two_bids-IsValid = add_order-IsValid 2 1 Side.buy (pos 6) (pos 100) 8 one_bid one_bid-IsValid

two_bids_order : lookup 1 two_bids.orders ≡ some bid
unfolding add_order add_to_level insert lookup ◌+ℤ◌
two_bids_order = refl

best_of_two_bids : (get_best Side.buy two_bids).0 ≡ ok (pos 100, pos 11)
unfolding add_order add_to_level insert lookup heappush get_best clear_top best_of neg ◌+ℤ◌
best_of_two_bids = refl

empty_validate : (validate (empty_book 1)).0 ≡ ok tt
unfolding validate get_best clear_top best_of lookup levels_are_positive orders_have_levels
empty_validate = refl

two_fits : (o : Order) → lookup 1 one_bid.orders ≡ some o → pos 2 ≤ℤ o.quantity
two_fits o found = subst (λ x. pos 2 ≤ℤ quantity_of x) (sym one_bid_order ∙ found) (omega arith)

two_bids_enough : pos 8 ≤ℤ qty_at Side.buy (pos 100) two_bids.orders
unfolding add_order add_to_level insert lookup total ◌+ℤ◌ qty_weight
two_bids_enough = omega arith

run-refines-spec_example :
    let (rs, b') =
      run call (trade_call 1 (pos 2) (pos 100) ∷ delete_call 1 ∷ delete_call 3 ∷ []) one_bid in
    let (rs', d) =
      run spec
        (trade_call 1 (pos 2) (pos 100) ∷ delete_call 1 ∷ delete_call 3 ∷ [])
        one_bid.orders in
    (rs ≡ rs') × (b'.orders ≡ d) × IsValid b'
run-refines-spec_example =
    run-refines-spec (trade_call 1 (pos 2) (pos 100) ∷ delete_call 1 ∷ delete_call 3 ∷ []) one_bid
      one_bid-IsValid ((λ o found. two_fits o found), (tt, (tt, tt)))

get_best-Shows_example :
    (r : ℤ × ℤ) × ((get_best Side.buy two_bids).0 ≡ ok r)
    × Shows Side.buy two_bids.orders r
    × ((get_best Side.buy two_bids).1.orders ≡ two_bids.orders)
    × IsValid (get_best Side.buy two_bids).1
    × ((n : ℕ) × ((get_best Side.buy two_bids).1
          ≡ set_heap Side.buy (drop n (heap Side.buy two_bids)) two_bids)
        × Stale Side.buy (levels Side.buy two_bids) (take n (heap Side.buy two_bids)))
get_best-Shows_example = get_best-Shows Side.buy two_bids two_bids-IsValid

validate_lem_example :
    (bb : ℤ × ℤ) × (ba : ℤ × ℤ) × Shows Side.buy two_bids.orders bb
    × Shows Side.sell two_bids.orders ba
    × ((validate two_bids).0 ≡ (if is_crossed bb ba then err Error.value_error else ok tt))
    × ((validate two_bids).1.orders ≡ two_bids.orders)
    × IsValid (validate two_bids).1
validate_lem_example = validate_lem two_bids two_bids-IsValid

trade_order_lem_example :
    let (r, b') = trade_order 1 (pos 5) (pos 100) two_bids in
    (r ≡ ok tt)
    × (b'.orders ≡ traded 1 bid (pos 5) two_bids.orders)
    × (b'.total_volume ≡ two_bids.total_volume +ℤ pos 5)
    × IsValid b'
trade_order_lem_example =
    trade_order_lem two_bids 1 bid (pos 5) (pos 100) two_bids-IsValid two_bids_order (omega arith)

overfill_lem_example :
    let (r, b') = trade_order 1 (pos 8) (pos 100) two_bids in
    (r ≡ ok tt)
    × (lookup 1 b'.orders ≡ some (record bid { quantity = pos 5 -ℤ pos 8 }))
    × ¬ IsValid b'
overfill_lem_example =
    overfill_lem two_bids 1 bid (pos 8) (pos 100) two_bids-IsValid two_bids_order (omega arith)
      two_bids_enough

delete_order_lem_example :
    let (r, b') = delete_order 2 two_bids in
    (r ≡ ok tt) × (b'.orders ≡ erase 2 two_bids.orders) × IsValid b'
delete_order_lem_example = delete_order_lem 2 two_bids two_bids-IsValid
