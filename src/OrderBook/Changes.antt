-- ===== src/OrderBook/Changes.antt =====
-- How the summaries of src/order_book.py's orders move when one order comes, changes or goes.
use hft_trading_system.Prelude.{
  nat_eq, total-insert_old, total-erase, Distinct, erase, some, refl, ◌-ℤ◌, ℕ, ℤ, pos, ◌+ℤ◌, ◌≡◌,
  eqb_ℤ_iff, false, none, some, Dict, lookup, insert, erase, Distinct, total-insert_new,
  total-insert_old, total-erase, arith, int_laws,
}
use hft_trading_system.MarketData.{Side, eq_side_iff, Order}
use hft_trading_system.OrderBook.Summary.{
  at, qty_weight, count_weight, qty_at, count_at, summary, summary-congr,
}

-- What one order weighs at its own place, and away from it.
pub weights_here :
    (o : Order)
    → (count_weight o.side o.price o ≡ pos 1) × (qty_weight o.side o.price o ≡ o.quantity)
unfolding count_weight qty_weight
weights_here o = ground (arith, eq_side_iff o.side o.side, eqb_ℤ_iff o.price o.price)

pub weights_away :
    (s : Side) (q : ℤ) (o : Order)
    → at s q o ≡ false
    → (count_weight s q o ≡ pos 0) × (qty_weight s q o ≡ pos 0)
unfolding count_weight qty_weight
weights_away s q o h = ground arith

module _ (k : ℕ) (o : Order) (d : Dict ℕ Order) where
  -- A new order.
  module _ (new : lookup k d ≡ none) where
    pub insert_new_away :
        (s : Side) (q : ℤ) → at s q o ≡ false → summary s q (insert k o d) ≡ summary s q d
    insert_new_away s q h =
        summary-congr s q d (insert k o d)
          (grind (int_laws, total-insert_new (count_weight s q) k o d new, weights_away s q o h))
          (grind (int_laws, total-insert_new (qty_weight s q) k o d new, weights_away s q o h))

    pub insert_new_here :
        (count_at o.side o.price (insert k o d) ≡ count_at o.side o.price d +ℤ pos 1)
        × (qty_at o.side o.price (insert k o d) ≡ qty_at o.side o.price d +ℤ o.quantity)
    insert_new_here = (
      rw (total-insert_new (count_weight o.side o.price) k o d new, (weights_here o).0) refl,
      rw (total-insert_new (qty_weight o.side o.price) k o d new, (weights_here o).1) refl,
    )

  module _ (dist : Distinct d) (old : lookup k d ≡ some o) where
    -- The order goes.
    pub erase_away : (s : Side) (q : ℤ) → at s q o ≡ false → summary s q (erase k d) ≡ summary s q d
    erase_away s q h =
        summary-congr s q d (erase k d)
          (grind (int_laws, total-erase (count_weight s q) k o d dist old, weights_away s q o h))
          (grind (int_laws, total-erase (qty_weight s q) k o d dist old, weights_away s q o h))

    pub erase_here :
        (count_at o.side o.price (erase k d) ≡ count_at o.side o.price d -ℤ pos 1)
        × (qty_at o.side o.price (erase k d) ≡ qty_at o.side o.price d -ℤ o.quantity)
    erase_here = (
      grind (int_laws, total-erase (count_weight o.side o.price) k o d dist old, weights_here o),
      grind (int_laws, total-erase (qty_weight o.side o.price) k o d dist old, weights_here o),
    )

  -- The order loses quantity.
  module _ (qty : ℤ) (old : lookup k d ≡ some o) where
    abbrev pub reduced : Order
    reduced = record o { quantity = o.quantity -ℤ qty }

    pub reduce_away :
        (s : Side) (q : ℤ) → at s q o ≡ false → summary s q (insert k reduced d) ≡ summary s q d
    reduce_away s q h =
        summary-congr s q d (insert k reduced d)
          (grind (
            int_laws,
            total-insert_old (count_weight s q) k reduced o d old,
            weights_away s q o h,
            weights_away s q reduced h,
          ))
          (grind (
            int_laws,
            total-insert_old (qty_weight s q) k reduced o d old,
            weights_away s q o h,
            weights_away s q reduced h,
          ))

    pub reduce_here :
        (count_at o.side o.price (insert k reduced d) ≡ count_at o.side o.price d)
        × (qty_at o.side o.price (insert k reduced d) ≡ qty_at o.side o.price d -ℤ qty)
    reduce_here = (
      grind (
        int_laws,
        total-insert_old (count_weight o.side o.price) k reduced o d old,
        weights_here o,
        weights_here reduced,
      ),
      grind (
        int_laws,
        total-insert_old (qty_weight o.side o.price) k reduced o d old,
        weights_here o,
        weights_here reduced,
      ),
    )
