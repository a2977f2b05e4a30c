-- ===== src/OrderBook/Add.antt =====
-- `add_to_level` and `add_order` of src/order_book.py on a well-formed book.
use hft_trading_system.Prelude.{
  Bool-cases, Dict, Error, Option-cases, arith, err, false, if◌then◌else◌, inl, inr, insert,
  insert-Distinct, insert-Every, int_eq, int_laws, is_some, leb_ℤ, lookup, nat_eq, none, ok, pos,
  some, sym, ℕ, ℤ, ◌+ℤ◌, ◌||◌, ◌∙◌, ◌≡◌, ◌≤ℤ◌,
}
use hft_trading_system.HeapQueue.{heappush}
use hft_trading_system.MarketData.{Order, PriceLevel, Side, eq_side, eq_side_iff, side_eq}
use hft_trading_system.OrderBook.{OrderBook, add_order, add_to_level, heap, heap_price, levels}
use hft_trading_system.OrderBook.Summary.{
  IsPositive, count_at, qty_at, summary, summary-eq-none, summary-eq-some, summary-some,
}
use hft_trading_system.OrderBook.Changes.{insert_new_away, insert_new_here}
use hft_trading_system.OrderBook.Invariant.{
  IsValid, IsValid-of, Moved, Moved-Elsewhere, Moved-Untouched, Tracks, Tracks-insert, Tracks-push,
  Tracks-Untouched, levels_of_orders,
}

module _ (side : Side) (price qty : ℤ) (b : OrderBook) where
  add_to_level_other :
      (s : Side)
      → eq_side side s ≡ false
      → (levels s (add_to_level side price qty b) ≡ levels s b)
        × (heap s (add_to_level side price qty b) ≡ heap s b)
  unfolding add_to_level
  add_to_level_other s h = ground arith

  abbrev first : PriceLevel
  first = record { price = price; total_qty = qty; order_count = pos 1 }

  add_to_level_new :
      lookup price (levels side b) ≡ none
      → (levels side (add_to_level side price qty b) ≡ insert price first (levels side b))
        × (heap side (add_to_level side price qty b)
            ≡ heappush (heap_price side price) (heap side b))
  unfolding add_to_level
  add_to_level_new h = ground arith

  abbrev grown : PriceLevel → PriceLevel
  grown level = record level {
    total_qty = level.total_qty +ℤ qty;
    order_count = level.order_count +ℤ pos 1;
  }

  add_to_level_old :
      (level : PriceLevel)
      → lookup price (levels side b) ≡ some level
      → (levels side (add_to_level side price qty b) ≡ insert price (grown level) (levels side b))
        × (heap side (add_to_level side price qty b) ≡ heap side b)
  unfolding add_to_level
  add_to_level_old level h = ground arith

  module _ (d d' : Dict ℕ Order) (t : Tracks side d (levels side b) (heap side b))
      (moved : Moved side price d d')
      (count : count_at side price d' ≡ count_at side price d +ℤ pos 1)
      (quantity : qty_at side price d' ≡ qty_at side price d +ℤ qty) where
    grown_level :
        (level : PriceLevel)
        → lookup price (levels side b) ≡ some level
        → summary side price d' ≡ some (grown level)
    grown_level level e =
        let (p, q, c, more) = summary-eq-some side price d level (sym (t.agree price) ∙ e) in
        grind (
          int_laws,
          summary-some side price d' (level.order_count +ℤ pos 1) (level.total_qty +ℤ qty),
        )

    first_level : lookup price (levels side b) ≡ none → summary side price d' ≡ some first
    first_level e =
        let (c, q) = summary-eq-none side price d (sym (t.agree price) ∙ e) in
        summary-some side price d' (pos 1) qty (grind int_laws) (grind int_laws) (omega arith)

    add_to_level-Tracks :
        Tracks side d'
          (levels side (add_to_level side price qty b))
          (heap side (add_to_level side price qty b))
    add_to_level-Tracks = elim (Option-cases (lookup price (levels side b))) [
      | inl e ↦
          rw ((add_to_level_new e).0, (add_to_level_new e).1)
            (Tracks-push d' t price first (Moved-Elsewhere side price d d' moved) (first_level e))
      | inr (level, e) ↦
          rw ((add_to_level_old level e).0, (add_to_level_old level e).1)
            (Tracks-insert d' t price (grown level) (Moved-Elsewhere side price d d' moved)
              (grown_level level e) (rw e))
    ]

  -- All sides after a change of the orders that one call of `add_to_level` follows.
  pub add_to_level-sides :
      (d d' : Dict ℕ Order)
      → ((s : Side) → Tracks s d (levels s b) (heap s b))
      → Moved side price d d'
      → count_at side price d' ≡ count_at side price d +ℤ pos 1
      → qty_at side price d' ≡ qty_at side price d +ℤ qty
      → (s : Side)
      → Tracks s d'
          (levels s (add_to_level side price qty b))
          (heap s (add_to_level side price qty b))
  add_to_level-sides d d' t moved c q s = elim (Bool-cases (eq_side side s)) [
    | inl same ↦ rw (← (eq_side_iff side s).0 same) (add_to_level-Tracks d d' (t side) moved c q)
    | inr other ↦
        rw ((add_to_level_other s other).0, (add_to_level_other s other).1)
          (Tracks-Untouched d' (t s) (Moved-Untouched side price d d' moved s other))
  ]

pub add_to_level_orders :
    (side : Side) (price qty : ℤ) (b : OrderBook)
    → (add_to_level side price qty b).orders ≡ b.orders
unfolding add_to_level
add_to_level_orders side price qty b = ground arith

abbrev pub make_order : ℕ → ℕ → Side → ℤ → ℤ → ℕ → Order
make_order order_id symbol side qty price timestamp = record {
  order_id = order_id;
  symbol = symbol;
  side = side;
  quantity = qty;
  price = price;
  timestamp = timestamp;
}

module _ (order_id symbol : ℕ) (side : Side) (qty price : ℤ) (timestamp : ℕ) (b : OrderBook) where
  abbrev new_order : Order
  new_order = make_order order_id symbol side qty price timestamp

  abbrev added : Dict ℕ Order
  added = insert order_id new_order b.orders

  added_book-IsValid :
      IsValid b
      → lookup order_id b.orders ≡ none
      → pos 1 ≤ℤ qty
      → IsValid (add_to_level side price qty (record b { orders = added }))
  added_book-IsValid v new positive =
      let b' = record b { orders = added } in
      let here = insert_new_here order_id new_order b.orders new in
      let sides =
        add_to_level-sides side price qty b' b.orders added
          (λ s.
            rw
              (
                (levels_of_orders s b added b.total_volume).0,
                (levels_of_orders s b added b.total_volume).1,
              )
              (v.sides s))
          (λ s q h. insert_new_away order_id new_order b.orders new s q h) here.0 here.1 in
      let same = add_to_level_orders side price qty b' in
      IsValid-of (add_to_level side price qty b') added same
        (insert-Distinct order_id new_order b.orders v.distinct)
        (insert-Every IsPositive order_id new_order b.orders positive v.positive) sides

  -- An order is taken exactly if its number is new and its quantity is positive. An order that is
  -- refused changes nothing.
  pub add_order_lem : add_order order_id symbol side qty price timestamp b ≡ (
      if is_some (lookup order_id b.orders) || leb_ℤ qty (pos 0)
      then (err Error.value_error, b)
      else (ok tt, add_to_level side price qty (record b { orders = added })))
  unfolding add_order
  add_order_lem = ground arith

  pub add_order-IsValid :
      IsValid b → IsValid (add_order order_id symbol side qty price timestamp b).1
  add_order-IsValid v =
      elim (Bool-cases (is_some (lookup order_id b.orders) || leb_ℤ qty (pos 0))) [
        | inl refused ↦ rw (add_order_lem, refused) v
        | inr taken ↦ rw (add_order_lem, taken) (added_book-IsValid v (ground arith) (ground arith))
      ]
