-- ===== src/OrderBook/Best.antt =====
-- `get_best_bid`, `get_best_ask` and `validate` of src/order_book.py: the top of the book.
use hft_trading_system.Prelude.{
  All, Bool-cases, Dict, Option-cases, [], ap, arith, drop, false, inl, inr, int_eq, int_laws,
  is_some, lookup, nat_eq, neg-neg, none, ok, pos, refl, some, suc, sym, take, true, ℕ, ℤ, ◌∙◌, ◌∷◌,
  ◌≡◌, ◌≢◌, ◌≤ℤ◌, ◌⊎◌,
}
use hft_trading_system.HeapQueue.{Heap, head-le}
use hft_trading_system.OrderBook.Summary.{
  count_at, count_pos, qty_at, summary-eq-some, summary-some,
}
use hft_trading_system.OrderBook.Invariant.{IsValid, IsValid-of, Tracks}
use mathlib.Core.Path.{subst}
use hft_trading_system.MarketData.{Order, PriceLevel, Side, eq_side, eq_side_iff, side_eq}
use hft_trading_system.OrderBook.{
  OrderBook, best_of, clear_top, get_best, heap, heap_price, levels, set_heap,
}

-- Of two prices of a side, the first is as good as the second or better.
abbrev pub AsGood : Side → ℤ → ℤ → Type 0
AsGood Side.buy p q = q ≤ℤ p
AsGood Side.sell p q = p ≤ℤ q

-- What the top of a side shows: nothing, if the side has no orders; or a price at which there are
-- orders, as good as that of any order of the side, with all the quantity at that price.
abbrev pub Shows : Side → Dict ℕ Order → ℤ × ℤ → Type 0
Shows side d (price, qty) =
    ((price ≡ pos 0) × (qty ≡ pos 0) × ((k : ℕ) (o : Order) → lookup k d ≡ some o → o.side ≢ side))
    ⊎ ((pos 1 ≤ℤ count_at side price d)
        × (qty ≡ qty_at side price d)
        × ((k : ℕ) (o : Order) → lookup k d ≡ some o → o.side ≡ side → AsGood side price o.price))

heap_price_twice : (s : Side) (x : ℤ) → heap_price s (heap_price s x) ≡ x
heap_price_twice Side.buy x = neg-neg x
heap_price_twice Side.sell x = refl

top_is_good : (s : Side) (x p : ℤ) → x ≤ℤ heap_price s p → AsGood s (heap_price s x) p
top_is_good Side.buy x p h = omega int_laws
top_is_good Side.sell x p h = h

module _ (s : Side) (d : Dict ℕ Order) (l : Dict ℤ PriceLevel) where
  -- A stale top is no price of a level.
  drop_stale :
      (x : ℤ) (h : Heap)
      → is_some (lookup (heap_price s x) l) ≡ false
      → Tracks s d l (x ∷ h)
      → Tracks s d l h
  drop_stale x h stale t = record {
    distinct_levels = t.distinct_levels;
    agree = t.agree;
    covered = λ p live. elim (t.covered p live) [
      | inl top ↦
          let e = sym (heap_price_twice s p) ∙ ap (heap_price s) top in
          let again = subst (λ y. is_some (lookup y l) ≡ true) e live in cc (again, stale)
      | inr below ↦ below
    ];
    ordered = t.ordered.1;
  }

  clear_top-Tracks : (h : Heap) → Tracks s d l h → Tracks s d l (clear_top s l h)
  unfolding clear_top
  clear_top-Tracks [] t = t
  clear_top-Tracks (x ∷ h) t = elim (Bool-cases (is_some (lookup (heap_price s x) l))) [
    | inl live ↦ rw live t
    | inr stale ↦ rw stale (clear_top-Tracks h (drop_stale x h stale t))
  ]

  -- After `clear_top` the top, if any, is live.
  TopIsLive : Heap → Type 0
  TopIsLive [] = Unit
  TopIsLive (x ∷ h) = is_some (lookup (heap_price s x) l) ≡ true

  clear_top-TopIsLive : (h : Heap) → TopIsLive (clear_top s l h)
  unfolding clear_top TopIsLive
  clear_top-TopIsLive [] = tt
  clear_top-TopIsLive (x ∷ h) = elim (Bool-cases (is_some (lookup (heap_price s x) l))) [
    | inl live ↦ rw (live, TopIsLive) live
    | inr stale ↦ rw stale (clear_top-TopIsLive h)
  ]

  pub order_has_level :
      (h : Heap)
      → Tracks s d l h
      → (k : ℕ) (o : Order) → lookup k d ≡ some o
      → o.side ≡ s
      → is_some (lookup o.price l) ≡ true
  order_has_level h t k o found side = rw (
    t.agree o.price,
    summary-some s o.price d (count_at s o.price d) (qty_at s o.price d) refl refl
        (rw side at (count_pos k o d found)),
  )

  best_of-Shows :
      (h : Heap) → Tracks s d l h → TopIsLive h → (r : ℤ × ℤ) × (best_of s h l ≡ ok r) × Shows s d r
  unfolding best_of TopIsLive
  best_of-Shows [] t live = (
    (pos 0, pos 0),
    refl,
    inl (refl, refl, λ k o found side. t.covered o.price (order_has_level [] t k o found side)),
  )
  best_of-Shows (x ∷ h) t live = elim (Option-cases (lookup (heap_price s x) l)) [
    | inl gone ↦ cc (gone, live)
    | inr (level, found) ↦
        let (p, q, c, more) =
          summary-eq-some s (heap_price s x) d level (sym (t.agree (heap_price s x)) ∙ found) in
        (
          (heap_price s x, level.total_qty),
          rw (found, best_of),
          inr (
            more,
            q,
            λ k o here side. top_is_good s x o.price (
                head-le x (heap_price s o.price) h t.ordered
                  (t.covered o.price (order_has_level (x ∷ h) t k o here side))),
          ),
        )
  ]

heap_of_set :
    (s : Side) (h : Heap) (b : OrderBook)
    → (levels s (set_heap s h b) ≡ levels s b) × (heap s (set_heap s h b) ≡ h)
heap_of_set Side.buy h b = (refl, refl)
heap_of_set Side.sell h b = (refl, refl)

heap_of_set_other :
    (s r : Side) (h : Heap) (b : OrderBook)
    → eq_side s r ≡ false
    → (levels r (set_heap s h b) ≡ levels r b) × (heap r (set_heap s h b) ≡ heap r b)
heap_of_set_other s r h b n = ground arith

set_heap_orders : (s : Side) (h : Heap) (b : OrderBook) → (set_heap s h b).orders ≡ b.orders
set_heap_orders Side.buy h b = refl
set_heap_orders Side.sell h b = refl

set_heap-IsValid :
    (s : Side) (h : Heap) (b : OrderBook)
    → Tracks s b.orders (levels s b) h
    → IsValid b
    → IsValid (set_heap s h b)
set_heap-IsValid s h b t v =
    IsValid-of (set_heap s h b) b.orders (set_heap_orders s h b) v.distinct v.positive λ r.
      elim (Bool-cases (eq_side s r)) [
        | inl same ↦
            rw (← (eq_side_iff s r).0 same) (rw ((heap_of_set s h b).0, (heap_of_set s h b).1) t)
        | inr other ↦
            rw ((heap_of_set_other s r h b other).0, (heap_of_set_other s r h b other).1)
              (v.sides r)
      ]

-- Entries of the heap at whose price there is no level any more
abbrev pub Stale : Side → Dict ℤ PriceLevel → Heap → Type 0
Stale s l h = All (λ x. lookup (heap_price s x) l ≡ none) h

clear_top-drops :
    (s : Side) (l : Dict ℤ PriceLevel) (h : Heap)
    → (n : ℕ) × (clear_top s l h ≡ drop n h) × Stale s l (take n h)
unfolding clear_top
clear_top-drops s l [] = (0, refl, tt)
clear_top-drops s l (x ∷ h) = elim (Option-cases (lookup (heap_price s x) l)) [
  | inl gone ↦ let (n, e, stale) = clear_top-drops s l h in (suc n, rw gone e, (gone, stale))
  | inr (level, here) ↦ (0, rw here refl, tt)
]

-- On a well-formed book the top of either side never raises. It shows the best price of the orders
-- of the side, with all the quantity at that price, or (0, 0) if there are none. All that it changes
-- is the heap of the side, of which it drops first entries whose price has no level; the book stays
-- well-formed.
pub get_best-Shows :
    (s : Side) (b : OrderBook)
    → IsValid b
    → (r : ℤ × ℤ) × ((get_best s b).0 ≡ ok r)
      × Shows s b.orders r
      × ((get_best s b).1.orders ≡ b.orders)
      × IsValid (get_best s b).1
      × ((n : ℕ) × ((get_best s b).1 ≡ set_heap s (drop n (heap s b)) b)
          × Stale s (levels s b) (take n (heap s b)))
unfolding get_best
get_best-Shows s b v =
    let t = clear_top-Tracks s b.orders (levels s b) (heap s b) (v.sides s) in
    let h = clear_top s (levels s b) (heap s b) in
    let (r, e, shows) =
      best_of-Shows s b.orders (levels s b) h t
        (clear_top-TopIsLive s b.orders (levels s b) (heap s b)) in
    let (n, dropped, stale) = clear_top-drops s (levels s b) (heap s b) in
    (
      r,
      e,
      shows,
      set_heap_orders s h b,
      set_heap-IsValid s h b t v,
      (n, ap (λ k. set_heap s k b) dropped, stale),
    )
