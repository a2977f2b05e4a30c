-- ===== src/OrderBook/Settle.antt =====
-- `delete_order` of src/order_book.py on a well-formed book, and the write of a level that it
-- shares with `trade_order`.
use hft_trading_system.Prelude.{
  Bool-cases, Dict, Distinct, Every, Option-cases, arith, eqb_ℤ, erase, erase-Distinct, erase-Every,
  erase-eq_of_none, erase-insert, false, if◌then◌else◌, inl, inr, insert, int_eq, is_some, lookup,
  nat_eq, none, ok, pos, refl, some, sym, true, ℕ, ℤ, ◌-ℤ◌, ◌∙◌, ◌≡◌, ◌≤ℤ◌,
}
use hft_trading_system.MarketData.{Order, PriceLevel, Side, eq_side, eq_side_iff, side_eq}
use hft_trading_system.OrderBook.{
  OrderBook, delete_order, heap, levels, remove_from_level, set_levels,
}
use hft_trading_system.OrderBook.Summary.{
  IsPositive, count_at, count_nonneg, count_pos, qty-eq-zero, qty-ge-count, qty_at, summary-none,
  summary-some,
}
use hft_trading_system.OrderBook.Changes.{erase_away, erase_here}
use hft_trading_system.OrderBook.Invariant.{
  IsValid, IsValid-of, Moved, Moved-Elsewhere, Moved-Untouched, Tracks, Tracks-erase, Tracks-insert,
  Tracks-Untouched, levels_of_orders,
}

-- The write of a level that lost quantity or an order, with `close_level`.
abbrev pub settled : Side → ℤ → PriceLevel → OrderBook → OrderBook
settled side price left b =
    set_levels side
      (if eqb_ℤ left.order_count (pos 0)
        then erase price (levels side b)
        else insert price left (levels side b))
      b

settled_same :
    (side : Side) (price : ℤ) (left : PriceLevel) (b : OrderBook)
    → (levels side (settled side price left b) ≡ (
        if eqb_ℤ left.order_count (pos 0)
        then erase price (levels side b)
        else insert price left (levels side b)))
      × (heap side (settled side price left b) ≡ heap side b)
settled_same Side.buy price left b = (refl, refl)
settled_same Side.sell price left b = (refl, refl)

settled_other :
    (side s : Side) (price : ℤ) (left : PriceLevel) (b : OrderBook)
    → eq_side side s ≡ false
    → (levels s (settled side price left b) ≡ levels s b)
      × (heap s (settled side price left b) ≡ heap s b)
settled_other side s price left b h = ground arith

module _ (side : Side) (price : ℤ) (b : OrderBook) (d d' : Dict ℕ Order) (left : PriceLevel)
    (t : (s : Side) → Tracks s d (levels s b) (heap s b)) (moved : Moved side price d d')
    (old : is_some (lookup price (levels side b)) ≡ true)
    (agrees : (left.price ≡ price)
      × (left.total_qty ≡ qty_at side price d')
      × (left.order_count ≡ count_at side price d')) where
  settled-Tracks :
      Tracks side d'
        (levels side (settled side price left b))
        (heap side (settled side price left b))
  settled-Tracks =
      rw ((settled_same side price left b).0, (settled_same side price left b).1)
        (elim (Bool-cases (eqb_ℤ left.order_count (pos 0))) [
          | inl gone ↦ rw gone (
              Tracks-erase d' (t side) price (Moved-Elsewhere side price d d' moved)
                (summary-none side price d' (ground arith)))
          | inr kept ↦ rw kept (
              Tracks-insert d' (t side) price left (Moved-Elsewhere side price d d' moved)
                (ground (arith, count_nonneg side price d')) old)
        ])

  pub settled-sides :
      (s : Side)
      → Tracks s d' (levels s (settled side price left b)) (heap s (settled side price left b))
  settled-sides s = elim (Bool-cases (eq_side side s)) [
    | inl same ↦ rw (← (eq_side_iff side s).0 same) settled-Tracks
    | inr other ↦
        rw
          ((settled_other side s price left b other).0, (settled_other side s price left b other).1)
          (Tracks-Untouched d' (t s) (Moved-Untouched side price d d' moved s other))
  ]

-- `remove_from_level` with all its checks passed
remove_from_level_lem :
    (o : Order) (b : OrderBook) (level : PriceLevel)
    → lookup o.price (levels o.side b) ≡ some level
    → pos 0 ≤ℤ level.total_qty -ℤ o.quantity
    → pos 0 ≤ℤ level.order_count -ℤ pos 1
    → (level.order_count -ℤ pos 1 ≡ pos 0 → level.total_qty -ℤ o.quantity ≡ pos 0)
    → remove_from_level o b ≡ (
      ok tt,
      settled o.side o.price
          (record level {
            total_qty = level.total_qty -ℤ o.quantity;
            order_count = level.order_count -ℤ pos 1;
          })
          b,
    )
unfolding remove_from_level
remove_from_level_lem o b level e q c z =
    let left : PriceLevel = record level {
      total_qty = level.total_qty -ℤ o.quantity;
      order_count = level.order_count -ℤ pos 1;
    } in
    ground (arith, erase-insert o.price left b.bid_levels, erase-insert o.price left b.ask_levels)

pub settled_orders :
    (side : Side) (price : ℤ) (left : PriceLevel) (b : OrderBook)
    → (settled side price left b).orders ≡ b.orders
settled_orders Side.buy price left b = refl
settled_orders Side.sell price left b = refl

-- The level at the place of an order that the book holds
abbrev pub level_at : Side → ℤ → Dict ℕ Order → PriceLevel
level_at side price d = record {
  price = price;
  total_qty = qty_at side price d;
  order_count = count_at side price d;
}

module _ (b : OrderBook) (v : IsValid b) (k : ℕ) (o : Order)
    (found : lookup k b.orders ≡ some o) where
  pub level_found : lookup o.price (levels o.side b) ≡ some (level_at o.side o.price b.orders)
  level_found =
      (v.sides o.side).agree o.price
      ∙ summary-some o.side o.price b.orders (count_at o.side o.price b.orders)
          (qty_at o.side o.price b.orders) refl refl (count_pos k o b.orders found)

  -- The book after the orders became `d'`, and the level of `o` became `left`.
  pub settled-IsValid :
      (d' : Dict ℕ Order) (left : PriceLevel) (volume : ℤ)
      → Moved o.side o.price b.orders d'
      → (left.price ≡ o.price)
        × (left.total_qty ≡ qty_at o.side o.price d')
        × (left.order_count ≡ count_at o.side o.price d')
      → Distinct d'
      → Every IsPositive d'
      → IsValid (settled o.side o.price left (record b { orders = d'; total_volume = volume }))
  settled-IsValid d' left volume moved agrees distinct positive =
      let b' : OrderBook = record b { orders = d'; total_volume = volume } in
      IsValid-of (settled o.side o.price left b') d' (settled_orders o.side o.price left b')
        distinct positive
        (settled-sides o.side o.price b' b.orders d' left
          (λ s.
            rw ((levels_of_orders s b d' volume).0, (levels_of_orders s b d' volume).1) (v.sides s))
          moved (rw ((levels_of_orders o.side b d' volume).0, level_found)) agrees)

  -- The level once the order is gone
  abbrev level_without : PriceLevel
  level_without = record {
    price = o.price;
    total_qty = qty_at o.side o.price b.orders -ℤ o.quantity;
    order_count = count_at o.side o.price b.orders -ℤ pos 1;
  }

  abbrev after_delete : OrderBook
  after_delete = settled o.side o.price level_without (record b { orders = erase k b.orders })

  after_delete_orders : after_delete.orders ≡ erase k b.orders
  after_delete_orders =
      settled_orders o.side o.price level_without (record b { orders = erase k b.orders })

  delete_order_runs : delete_order k b ≡ (ok tt, after_delete)
  unfolding delete_order
  delete_order_runs =
      let here = erase_here k o b.orders v.distinct found in
      let d' : Dict ℕ Order = erase k b.orders in
      let positive : Every IsPositive d' = erase-Every IsPositive k b.orders v.positive in
      let more = qty-ge-count o.side o.price d' positive in
      let some_left = count_nonneg o.side o.price d' in
      rw (found, delete_order)
        (remove_from_level_lem o (record b { orders = erase k b.orders })
          (level_at o.side o.price b.orders)
          (rw ((levels_of_orders o.side b d' b.total_volume).0) level_found)
          (rw (← here.1) (omega arith)) (rw (← here.0) some_left)
          (λ z. sym here.1 ∙ qty-eq-zero o.side o.price d' (here.0 ∙ z)))

  after_delete-IsValid : IsValid after_delete
  after_delete-IsValid =
      let here = erase_here k o b.orders v.distinct found in
      settled-IsValid (erase k b.orders) level_without b.total_volume
        (λ s q h. erase_away k o b.orders v.distinct found s q h) (refl, sym here.1, sym here.0)
        (erase-Distinct k b.orders v.distinct) (erase-Every IsPositive k b.orders v.positive)

delete_order_missing :
    (k : ℕ) (b : OrderBook)
    → IsValid b
    → lookup k b.orders ≡ none
    → let (r, b') = delete_order k b in (r ≡ ok tt) × (b'.orders ≡ erase k b.orders) × IsValid b'
unfolding delete_order
delete_order_missing k b v missing =
    rw (missing, delete_order) (refl, sym (erase-eq_of_none k b.orders missing), v)

-- On a well-formed book a deletion never raises; it takes the order out, if it is there, and leaves
-- a well-formed book.
pub delete_order_lem :
    (k : ℕ) (b : OrderBook)
    → IsValid b
    → let (r, b') = delete_order k b in (r ≡ ok tt) × (b'.orders ≡ erase k b.orders) × IsValid b'
delete_order_lem k b v = elim (Option-cases (lookup k b.orders)) [
  | inl missing ↦ delete_order_missing k b v missing
  | inr (o, found) ↦
      rw (delete_order_runs b v k o found)
        (refl, after_delete_orders b v k o found, after_delete-IsValid b v k o found)
]
