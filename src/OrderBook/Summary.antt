-- ===== src/OrderBook/Summary.antt =====
-- What the levels of a book should hold, computed from its orders: the specification that
-- `bid_levels` and `ask_levels` of src/order_book.py cache.
use hft_trading_system.Prelude.{
  lookup, nat_eq, refl, ℕ, ℤ, pos, ◌≤ℤ◌, ◌≡◌, eqb_ℤ, Bool, ◌&&◌, Option, none, some, [], ◌∷◌, Dict,
  total, Every, if◌then◌else◌, arith, int_laws,
}
use hft_trading_system.MarketData.{eq_side_iff, Side, eq_side, PriceLevel, Order}

abbrev pub at : Side → ℤ → Order → Bool
at side price o = eq_side o.side side && eqb_ℤ o.price price

unfoldable pub qty_weight : Side → ℤ → Order → ℤ
qty_weight side price o = if at side price o then o.quantity else pos 0

unfoldable pub count_weight : Side → ℤ → Order → ℤ
count_weight side price o = if at side price o then pos 1 else pos 0

-- The quantity, and the number, of the orders of one side at one price.
abbrev pub qty_at : Side → ℤ → Dict ℕ Order → ℤ
qty_at side price orders = total (qty_weight side price) orders

abbrev pub count_at : Side → ℤ → Dict ℕ Order → ℤ
count_at side price orders = total (count_weight side price) orders

-- The level that the orders call for, if any.
abbrev pub summary : Side → ℤ → Dict ℕ Order → Option PriceLevel
summary side price orders =
    if eqb_ℤ (count_at side price orders) (pos 0)
    then none
    else some (record {
      price = price;
      total_qty = qty_at side price orders;
      order_count = count_at side price orders;
    })

abbrev pub IsPositive : Order → Type 0
IsPositive o = pos 1 ≤ℤ o.quantity

module _ (side : Side) (price : ℤ) where
  pub count_nonneg : (d : Dict ℕ Order) → pos 0 ≤ℤ count_at side price d
  unfolding total count_weight
  count_nonneg [] = omega arith
  count_nonneg ((k, o) ∷ d) = grind (int_laws, count_nonneg d)

  -- Where there are orders there is quantity, and the other way round.
  pub qty-ge-count :
      (d : Dict ℕ Order) → Every IsPositive d → count_at side price d ≤ℤ qty_at side price d
  unfolding total count_weight qty_weight
  qty-ge-count [] h = omega arith
  qty-ge-count ((k, o) ∷ d) h = grind (int_laws, qty-ge-count d h.1)

  pub qty-eq-zero : (d : Dict ℕ Order) → count_at side price d ≡ pos 0 → qty_at side price d ≡ pos 0
  unfolding total count_weight qty_weight
  qty-eq-zero [] h = refl
  qty-eq-zero ((k, o) ∷ d) h = grind (int_laws, qty-eq-zero d, count_nonneg d)

  -- The summary reads the orders through the two sums only.
  pub summary-congr :
      (d d' : Dict ℕ Order)
      → count_at side price d' ≡ count_at side price d
      → qty_at side price d' ≡ qty_at side price d
      → summary side price d' ≡ summary side price d
  summary-congr d d' c q = rw (c, q)

  pub summary-some :
      (d : Dict ℕ Order) (n m : ℤ)
      → count_at side price d ≡ n
      → qty_at side price d ≡ m
      → pos 1 ≤ℤ n
      → summary side price d ≡ some (record { price = price; total_qty = m; order_count = n })
  summary-some d n m c q h = ground arith

  pub summary-none :
      (d : Dict ℕ Order) → count_at side price d ≡ pos 0 → summary side price d ≡ none
  summary-none d c = ground arith

  -- Where the orders call for a level, it is this one.
  pub summary-eq-some :
      (d : Dict ℕ Order) (l : PriceLevel)
      → summary side price d ≡ some l
      → (l.price ≡ price)
        × (l.total_qty ≡ qty_at side price d)
        × (l.order_count ≡ count_at side price d)
        × (pos 1 ≤ℤ count_at side price d)
  summary-eq-some d l h = ground (arith, count_nonneg d)

  pub summary-eq-none :
      (d : Dict ℕ Order)
      → summary side price d ≡ none
      → (count_at side price d ≡ pos 0) × (qty_at side price d ≡ pos 0)
  summary-eq-none d h = ground (arith, qty-eq-zero d)

-- An order is counted, and its quantity is part of the quantity, at its own place.
pub count_pos :
    (k : ℕ) (o : Order) (d : Dict ℕ Order)
    → lookup k d ≡ some o
    → pos 1 ≤ℤ count_at o.side o.price d
unfolding total lookup count_weight
count_pos k o [] h = cc
count_pos k o ((i, x) ∷ d) h =
    grind (int_laws, count_pos k o d, count_nonneg o.side o.price d, eq_side_iff o.side o.side)

pub quantity_le :
    (k : ℕ) (o : Order) (d : Dict ℕ Order)
    → Every IsPositive d
    → lookup k d ≡ some o
    → o.quantity ≤ℤ qty_at o.side o.price d
unfolding total lookup qty_weight
quantity_le k o [] v h = cc
quantity_le k o ((i, x) ∷ d) v h = grind (
  int_laws,
  quantity_le k o d v.1,
  qty-ge-count o.side o.price d v.1,
  count_nonneg o.side o.price d,
  eq_side_iff o.side o.side,
)
