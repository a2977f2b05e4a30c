-- ===== src/OrderBook/Trade.antt =====
-- `trade_order` of src/order_book.py on a well-formed book.
use hft_trading_system.Prelude.{
  Bool-cases, Dict, Done, Result, ap, arith, eqb_ℤ, erase, erase-Distinct, erase-Every,
  erase-insert, false, if◌then◌else◌, inl, inr, insert, insert-Distinct, insert-Every,
  insert-insert, int_eq, int_laws, lookup, lookup-Every, lookup-insert_self, nat_eq, ok, pos, refl,
  some, sym, true, ℕ, ℤ, ◌+ℤ◌, ◌-ℤ◌, ◌<ℤ◌, ◌∙◌, ◌≡◌, ◌≤ℤ◌,
}
use hft_trading_system.MarketData.{Order, PriceLevel, side_eq}
use hft_trading_system.OrderBook.{OrderBook, levels, trade_at_level, trade_order}
use hft_trading_system.OrderBook.Summary.{
  IsPositive, count_at, count_nonneg, count_pos, qty-eq-zero, qty_at, quantity_le,
}
use hft_trading_system.OrderBook.Changes.{erase_away, erase_here, reduce_away, reduce_here}
use hft_trading_system.OrderBook.Invariant.{IsValid}
use hft_trading_system.OrderBook.Settle.{level_at, level_found, settled, settled-IsValid}

-- What a trade leaves of the orders
abbrev pub traded : ℕ → Order → ℤ → Dict ℕ Order → Dict ℕ Order
traded k o qty d =
    if eqb_ℤ (o.quantity -ℤ qty) (pos 0)
    then erase k d
    else insert k (record o { quantity = o.quantity -ℤ qty }) d

-- The checks of a trade that leaves a part of its order pass.
trade_at_level_part :
    (k : ℕ) (qty : ℤ) (o : Order) (b : OrderBook) (level : PriceLevel)
    → lookup o.price (levels o.side b) ≡ some level
    → pos 0 ≤ℤ level.total_qty -ℤ qty
    → pos 1 ≤ℤ level.order_count
    → eqb_ℤ (o.quantity -ℤ qty) (pos 0) ≡ false
    → trade_at_level k qty o b ≡ (
      ok tt,
      settled o.side o.price
          (record level { total_qty = level.total_qty -ℤ qty })
          (record b {
            orders = insert k (record o { quantity = o.quantity -ℤ qty }) b.orders;
            total_volume = b.total_volume +ℤ qty;
          }),
    )
unfolding trade_at_level
trade_at_level_part k qty o b level e q c rest = ground arith

-- So do those of a trade that uses its order up.
trade_at_level_whole :
    (k : ℕ) (qty : ℤ) (o : Order) (b : OrderBook) (level : PriceLevel)
    → lookup o.price (levels o.side b) ≡ some level
    → pos 0 ≤ℤ level.total_qty -ℤ qty
    → pos 0 ≤ℤ level.order_count -ℤ pos 1
    → (level.order_count -ℤ pos 1 ≡ pos 0 → level.total_qty -ℤ qty ≡ pos 0)
    → eqb_ℤ (o.quantity -ℤ qty) (pos 0) ≡ true
    → trade_at_level k qty o b ≡ (
      ok tt,
      settled o.side o.price
          (record level {
            total_qty = level.total_qty -ℤ qty;
            order_count = level.order_count -ℤ pos 1;
          })
          (record b { orders = erase k b.orders; total_volume = b.total_volume +ℤ qty }),
    )
unfolding trade_at_level
trade_at_level_whole k qty o b level e q c z rest =
    let left : PriceLevel = record level { total_qty = level.total_qty -ℤ qty } in
    let fewer : PriceLevel = record left { order_count = level.order_count -ℤ pos 1 } in
    ground (
      arith,
      erase-insert k (record o { quantity = o.quantity -ℤ qty }) b.orders,
      insert-insert o.price fewer left b.bid_levels,
      insert-insert o.price fewer left b.ask_levels,
      erase-insert o.price left b.bid_levels,
      erase-insert o.price left b.ask_levels,
      erase-insert o.price fewer b.bid_levels,
      erase-insert o.price fewer b.ask_levels,
    )

module _ (b : OrderBook) (v : IsValid b) (k : ℕ) (o : Order) (found : lookup k b.orders ≡ some o)
    (qty : ℤ) (fits : qty ≤ℤ o.quantity) where
  enough : pos 0 ≤ℤ qty_at o.side o.price b.orders -ℤ qty
  enough = omega (int_laws, quantity_le k o b.orders v.positive found)

  after_part-IsValid :
      pos 1 ≤ℤ o.quantity -ℤ qty
      → IsValid (
          settled o.side o.price
            (record {
              price = o.price;
              total_qty = qty_at o.side o.price b.orders -ℤ qty;
              order_count = count_at o.side o.price b.orders;
            })
            (record b {
              orders = insert k (record o { quantity = o.quantity -ℤ qty }) b.orders;
              total_volume = b.total_volume +ℤ qty;
            }))
  after_part-IsValid left =
      let here = reduce_here k o b.orders qty found in
      settled-IsValid b v k o found (insert k (record o { quantity = o.quantity -ℤ qty }) b.orders)
        (record {
          price = o.price;
          total_qty = qty_at o.side o.price b.orders -ℤ qty;
          order_count = count_at o.side o.price b.orders;
        })
        (b.total_volume +ℤ qty) (λ s q h. reduce_away k o b.orders qty found s q h)
        (refl, sym here.1, sym here.0)
        (insert-Distinct k (record o { quantity = o.quantity -ℤ qty }) b.orders v.distinct)
        (insert-Every IsPositive k (record o { quantity = o.quantity -ℤ qty }) b.orders left
          v.positive)

  after_whole-IsValid :
      o.quantity ≡ qty
      → IsValid (
          settled o.side o.price
            (record {
              price = o.price;
              total_qty = qty_at o.side o.price b.orders -ℤ qty;
              order_count = count_at o.side o.price b.orders -ℤ pos 1;
            })
            (record b { orders = erase k b.orders; total_volume = b.total_volume +ℤ qty }))
  after_whole-IsValid all =
      let here = erase_here k o b.orders v.distinct found in
      settled-IsValid b v k o found (erase k b.orders)
        (record {
          price = o.price;
          total_qty = qty_at o.side o.price b.orders -ℤ qty;
          order_count = count_at o.side o.price b.orders -ℤ pos 1;
        })
        (b.total_volume +ℤ qty) (λ s q h. erase_away k o b.orders v.distinct found s q h)
        (refl, ap (λ x. qty_at o.side o.price b.orders -ℤ x) (sym all) ∙ sym here.1, sym here.0)
        (erase-Distinct k b.orders v.distinct) (erase-Every IsPositive k b.orders v.positive)

  -- The outcome of a trade, given by the two equations above.
  abbrev Outcome : Result Done × OrderBook → Type 0
  Outcome (r, b') =
      (r ≡ ok tt)
      × (b'.orders ≡ traded k o qty b.orders)
      × (b'.total_volume ≡ b.total_volume +ℤ qty)
      × IsValid b'

  trade_part : eqb_ℤ (o.quantity -ℤ qty) (pos 0) ≡ false → Outcome (trade_at_level k qty o b)
  trade_part rest =
      rw
        (trade_at_level_part k qty o b (level_at o.side o.price b.orders)
          (level_found b v k o found) enough (count_pos k o b.orders found) rest)
        (refl, ground arith, ground arith, after_part-IsValid (grind int_laws))

  trade_whole : eqb_ℤ (o.quantity -ℤ qty) (pos 0) ≡ true → Outcome (trade_at_level k qty o b)
  trade_whole rest =
      let here = erase_here k o b.orders v.distinct found in
      let all : o.quantity ≡ qty = grind int_laws in
      rw
        (trade_at_level_whole k qty o b (level_at o.side o.price b.orders)
          (level_found b v k o found) enough
          (rw (← here.0) (count_nonneg o.side o.price (erase k b.orders)))
          (λ z.
            ap (λ x. qty_at o.side o.price b.orders -ℤ x) (sym all)
            ∙ sym here.1
            ∙ qty-eq-zero o.side o.price (erase k b.orders) (here.0 ∙ z))
          rest)
        (refl, ground arith, ground arith, after_whole-IsValid all)

-- Filling an order of a well-formed book by no more than it holds never raises: the order keeps the
-- rest, or is gone if nothing is left; the volume grows by the trade, and the book stays well-formed.
pub trade_order_lem :
    (b : OrderBook) (k : ℕ) (o : Order) (qty price : ℤ)
    → IsValid b
    → lookup k b.orders ≡ some o
    → qty ≤ℤ o.quantity
    → let (r, b') = trade_order k qty price b in
      (r ≡ ok tt)
      × (b'.orders ≡ traded k o qty b.orders)
      × (b'.total_volume ≡ b.total_volume +ℤ qty)
      × IsValid b'
unfolding trade_order
trade_order_lem b k o qty price v found fits =
    rw (found, trade_order)
      (elim (Bool-cases (eqb_ℤ (o.quantity -ℤ qty) (pos 0))) [
        | inl rest ↦ trade_whole b v k o found qty fits rest
        | inr rest ↦ trade_part b v k o found qty fits rest
      ])

not_negative :
    (b : OrderBook) (k : ℕ) (o : Order)
    → lookup k b.orders ≡ some o
    → o.quantity <ℤ pos 1
    → ¬ IsValid b
not_negative b k o found low v =
    absurd (omega (arith, lookup-Every IsPositive k b.orders v.positive found))

-- A trade of more than its order holds is not noticed while the level holds enough: the order stays
-- with a negative quantity, so that the book is not well-formed, and no error is raised.
pub overfill_lem :
    (b : OrderBook) (k : ℕ) (o : Order) (qty price : ℤ)
    → IsValid b
    → lookup k b.orders ≡ some o
    → o.quantity <ℤ qty
    → qty ≤ℤ qty_at o.side o.price b.orders
    → let (r, b') = trade_order k qty price b in
      (r ≡ ok tt)
      × (lookup k b'.orders ≡ some (record o { quantity = o.quantity -ℤ qty }))
      × ¬ IsValid b'
unfolding trade_order
overfill_lem b k o qty price v found over enough =
    let rest : Order = record o { quantity = o.quantity -ℤ qty } in
    let after : OrderBook =
      settled o.side o.price
        (record {
          price = o.price;
          total_qty = qty_at o.side o.price b.orders -ℤ qty;
          order_count = count_at o.side o.price b.orders;
        })
        (record b { orders = insert k rest b.orders; total_volume = b.total_volume +ℤ qty }) in
    let kept : lookup k after.orders ≡ some rest =
      ground (arith, lookup-insert_self k rest b.orders) in
    rw (found, trade_order)
      (rw
        (trade_at_level_part k qty o b (level_at o.side o.price b.orders)
          (level_found b v k o found) (omega int_laws) (count_pos k o b.orders found)
          (grind int_laws))
        (refl, kept, not_negative after k rest kept (omega int_laws)))
