-- ===== src/OrderBook.antt =====
-- `class OrderBook` of src/order_book.py. A method is an action on the book: it gives the changed
-- book back beside its result, also where it raises. What the source writes twice, for bids and for
-- asks, is one definition over the side.
pub mod Summary
pub mod Changes
pub mod Invariant
pub mod Add
pub mod Settle
pub mod Trade
pub mod Spec
pub mod Best
pub mod Validate
use hft_trading_system.Prelude.{
  ℕ, ℤ, pos, ◌+ℤ◌, ◌-ℤ◌, neg, ltb_ℤ, leb_ℤ, eqb_ℤ, Bool, true, not, ◌&&◌, none, some, [], ◌∷◌, Dict,
  lookup, insert, erase, is_some, Result, ok, err, Error, Action, Done, gets, or_raise, ◌>>=◌, ◌>>◌,
  modify, raise_if, only_if, if◌then◌else◌, int_eq, nat_eq,
}
use hft_trading_system.HeapQueue.{Heap, heappush}
use hft_trading_system.MarketData.{Side, PriceLevel, Order}

pub record OrderBook : Type 0 where
  pub symbol : ℕ
  pub bid_heap : Heap
  pub bid_levels : Dict ℤ PriceLevel
  pub ask_heap : Heap
  pub ask_levels : Dict ℤ PriceLevel
  pub orders : Dict ℕ Order
  pub total_volume : ℤ

-- `__init__`
abbrev pub empty_book : ℕ → OrderBook
empty_book symbol = record {
  symbol = symbol;
  bid_heap = [];
  bid_levels = [];
  ask_heap = [];
  ask_levels = [];
  orders = [];
  total_volume = pos 0;
}

-- The references that a method takes by `if side == SIDE.BUY`.
abbrev pub levels : Side → OrderBook → Dict ℤ PriceLevel
levels Side.buy b = b.bid_levels
levels Side.sell b = b.ask_levels

abbrev pub set_levels : Side → Dict ℤ PriceLevel → OrderBook → OrderBook
set_levels Side.buy l b = record b { bid_levels = l }
set_levels Side.sell l b = record b { ask_levels = l }

abbrev pub heap : Side → OrderBook → Heap
heap Side.buy b = b.bid_heap
heap Side.sell b = b.ask_heap

abbrev pub set_heap : Side → Heap → OrderBook → OrderBook
set_heap Side.buy h b = record b { bid_heap = h }
set_heap Side.sell h b = record b { ask_heap = h }

-- `heap_price`: bids stand in the heap with their sign turned. It is its own inverse.
abbrev pub heap_price : Side → ℤ → ℤ
heap_price Side.buy price = neg price
heap_price Side.sell price = price

-- The last step of `add_order`.
unfoldable pub add_to_level : Side → ℤ → ℤ → OrderBook → OrderBook
add_to_level side price qty b = elim (lookup price (levels side b)) [
  | some level ↦
      set_levels side
        (insert price
          (record level {
            total_qty = level.total_qty +ℤ qty;
            order_count = level.order_count +ℤ pos 1;
          })
          (levels side b))
        b
  | none ↦ set_heap side (heappush (heap_price side price) (heap side b)) (
      set_levels side
        (insert price (record { price = price; total_qty = qty; order_count = pos 1 })
          (levels side b))
        b)
]

unfoldable pub add_order : ℕ → ℕ → Side → ℤ → ℤ → ℕ → Action OrderBook Done
unfolding add_to_level
add_order order_id symbol side qty price timestamp = do
  orders ← gets (λ b. b.orders)
  raise_if (is_some (lookup order_id orders)) Error.value_error
  raise_if (leb_ℤ qty (pos 0)) Error.value_error
  modify (λ b. record b {
    orders =
        insert order_id
          (record {
            order_id = order_id;
            symbol = symbol;
            side = side;
            quantity = qty;
            price = price;
            timestamp = timestamp;
          })
          b.orders;
  })
  modify (add_to_level side price qty)

-- The checks that `delete_order` and `trade_order` end with, on a level that lost an order.
unfoldable pub close_level : Side → ℤ → PriceLevel → Action OrderBook Done
close_level side price level = do
  raise_if (ltb_ℤ level.order_count (pos 0)) Error.value_error
  only_if (eqb_ℤ level.order_count (pos 0)) do
    raise_if (not (eqb_ℤ level.total_qty (pos 0))) Error.value_error
    modify (λ b. set_levels side (erase price (levels side b)) b)

-- `delete_order` once the order is popped
unfoldable pub remove_from_level : Order → Action OrderBook Done
unfolding close_level
remove_from_level order = do
  side_levels ← gets (levels order.side)
  level ← or_raise (lookup order.price side_levels) Error.key_error
  let left : PriceLevel = record level {
    total_qty = level.total_qty -ℤ order.quantity;
    order_count = level.order_count -ℤ pos 1;
  }
  modify (set_levels order.side (insert order.price left side_levels))
  raise_if (ltb_ℤ left.total_qty (pos 0)) Error.value_error
  close_level order.side order.price left

unfoldable pub delete_order : ℕ → Action OrderBook Done
unfolding remove_from_level
delete_order order_id b = elim (lookup order_id b.orders) [
  | none ↦ (ok tt, b)
  | some order ↦ remove_from_level order (record b { orders = erase order_id b.orders })
]

-- `trade_order` from the lookup of the level on
unfoldable pub trade_at_level : ℕ → ℤ → Order → Action OrderBook Done
unfolding close_level
trade_at_level order_id qty order = do
  side_levels ← gets (levels order.side)
  level ← or_raise (lookup order.price side_levels) Error.key_error
  let rest : Order = record order { quantity = order.quantity -ℤ qty }
  let left : PriceLevel = record level { total_qty = level.total_qty -ℤ qty }
  modify (λ b. record b { orders = insert order_id rest b.orders })
  modify (set_levels order.side (insert order.price left side_levels))
  modify (λ b. record b { total_volume = b.total_volume +ℤ qty })
  raise_if (ltb_ℤ left.total_qty (pos 0)) Error.value_error
  only_if (eqb_ℤ rest.quantity (pos 0)) do
    let fewer : PriceLevel = record left { order_count = left.order_count -ℤ pos 1 }
    modify (λ b. record b { orders = erase order_id b.orders })
    modify (λ b. set_levels order.side (insert order.price fewer (levels order.side b)) b)
    close_level order.side order.price fewer

-- The price of the trade is not read.
unfoldable pub trade_order : ℕ → ℤ → ℤ → Action OrderBook Done
unfolding trade_at_level
trade_order order_id qty price b = elim (lookup order_id b.orders) [
  | none ↦ (err Error.key_error, b)
  | some order ↦ trade_at_level order_id qty order b
]

unfoldable pub modify_order : ℕ → Side → ℤ → ℤ → Action OrderBook Done
modify_order order_id side qty price = do
  orders ← gets (λ b. b.orders)
  order ← or_raise (lookup order_id orders) Error.key_error
  delete_order order_id
  add_order order_id order.symbol side qty price order.timestamp

-- `clear`: the volume stays.
unfoldable pub clear : OrderBook → OrderBook
clear b = record b { bid_heap = []; bid_levels = []; ask_heap = []; ask_levels = []; orders = [] }

-- `_clear_top_of_bid`, `_clear_top_of_ask`: the loop is over the heap, which each round shortens.
unfoldable pub clear_top : Side → Dict ℤ PriceLevel → Heap → Heap
clear_top side l [] = []
clear_top side l (x ∷ h) =
    let rest = clear_top side l h in if is_some (lookup (heap_price side x) l) then x ∷ h else rest

-- `get_best_bid` and `get_best_ask` after the stale tops are gone
unfoldable pub best_of : Side → Heap → Dict ℤ PriceLevel → Result (ℤ × ℤ)
best_of side [] l = ok (pos 0, pos 0)
best_of side (x ∷ h) l = elim (lookup (heap_price side x) l) [
  | none ↦ err Error.key_error
  | some level ↦ ok (heap_price side x, level.total_qty)
]

unfoldable pub get_best : Side → Action OrderBook (ℤ × ℤ)
unfolding clear_top best_of
get_best side b =
    let h = clear_top side (levels side b) (heap side b) in
    (best_of side h (levels side b), set_heap side h b)

-- The loops of `validate`
unfoldable pub levels_are_positive : Dict ℤ PriceLevel → Bool
levels_are_positive [] = true
levels_are_positive ((px, l) ∷ d) =
    not (leb_ℤ l.total_qty (pos 0)) && not (leb_ℤ l.order_count (pos 0)) && levels_are_positive d

unfoldable pub orders_have_levels : OrderBook → Dict ℕ Order → Bool
orders_have_levels b [] = true
orders_have_levels b ((oid, o) ∷ d) =
    is_some (lookup o.price (levels o.side b)) && orders_have_levels b d

unfoldable pub validate : Action OrderBook Done
validate = do
  bb ← get_best Side.buy
  ba ← get_best Side.sell
  raise_if (ltb_ℤ (pos 0) bb.0 && ltb_ℤ (pos 0) ba.0 && leb_ℤ ba.0 bb.0) Error.value_error
  b ← gets (λ b. b)
  raise_if (not (levels_are_positive b.ask_levels)) Error.value_error
  raise_if (not (levels_are_positive b.bid_levels)) Error.value_error
  raise_if (not (orders_have_levels b b.orders)) Error.value_error
