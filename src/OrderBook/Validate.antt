-- ===== src/OrderBook/Validate.antt =====
-- `validate` of src/order_book.py on a well-formed book.
use mathlib.Core.Path.{subst}
use hft_trading_system.Prelude.{
  Bool, Dict, Distinct, Eq, Error, [], ap, arith, err, if◌then◌else◌, int_eq, is_some, leb_ℤ,
  lookup, ltb_ℤ, nat_eq, none, ok, pos, refl, some, sym, true, ℕ, ℤ, ◌&&◌, ◌∙◌, ◌∷◌, ◌≡◌, ◌≤ℤ◌,
}
use hft_trading_system.MarketData.{Order, PriceLevel, Side, side_eq}
use hft_trading_system.OrderBook.{
  OrderBook, get_best, heap, levels, levels_are_positive, orders_have_levels, validate,
}
use hft_trading_system.OrderBook.Summary.{qty-ge-count, summary-eq-some}
use hft_trading_system.OrderBook.Invariant.{IsValid}
use hft_trading_system.OrderBook.Best.{Shows, get_best-Shows, order_has_level}

-- Every level found is positive.
abbrev LevelsPositive : Dict ℤ PriceLevel → Type 0
LevelsPositive l =
    (p : ℤ) (level : PriceLevel)
    → lookup p l ≡ some level
    → (pos 1 ≤ℤ level.total_qty) × (pos 1 ≤ℤ level.order_count)

lookup_head {ℓ κ} :
    {K : Type ℓ} {V : Type κ} ⦃e : Eq K⦄ (k : K) (v : V) (d : Dict K V)
    → lookup k ((k, v) ∷ d) ≡ some v
unfolding lookup
lookup_head ⦃e⦄ k v d = rw ((e.beq_iff k k).1 refl)

-- What is found past the head is found with it, where no key stands twice.
lookup_tail {ℓ κ} :
    {K : Type ℓ} {V : Type κ} ⦃e : Eq K⦄ (k j : K) (v w : V) (d : Dict K V)
    → lookup k d ≡ none
    → lookup j d ≡ some w
    → lookup j ((k, v) ∷ d) ≡ some w
unfolding lookup
lookup_tail ⦃e⦄ k j v w d new found = ground (arith, e.beq_iff k j)

levels_are_positive_lem :
    (l : Dict ℤ PriceLevel) → Distinct l → LevelsPositive l → levels_are_positive l ≡ true
unfolding levels_are_positive
levels_are_positive_lem [] dist h = refl
levels_are_positive_lem ((px, level) ∷ l) dist h =
    let here = h px level (lookup_head px level l) in
    let rest =
      levels_are_positive_lem l dist.1
        (λ p x found. h p x (lookup_tail px p level x l dist.0 found)) in
    ground arith

orders_have_levels_lem :
    (b : OrderBook) (d : Dict ℕ Order)
    → Distinct d
    → ((k : ℕ) (o : Order)
        → lookup k d ≡ some o
        → is_some (lookup o.price (levels o.side b)) ≡ true)
    → orders_have_levels b d ≡ true
unfolding orders_have_levels
orders_have_levels_lem b [] dist h = refl
orders_have_levels_lem b ((k, o) ∷ d) dist h =
    let here = h k o (lookup_head k o d) in
    let rest =
      orders_have_levels_lem b d dist.1 (λ j x found. h j x (lookup_tail k j o x d dist.0 found)) in
    ground arith

module _ (b : OrderBook) (v : IsValid b) where
  valid-LevelsPositive : (s : Side) → LevelsPositive (levels s b)
  valid-LevelsPositive s p level found =
      let (e, q, c, more) =
        summary-eq-some s p b.orders level (sym ((v.sides s).agree p) ∙ found) in
      let enough = qty-ge-count s p b.orders v.positive in (rw q (omega arith), rw c more)

  loops_pass :
      (levels_are_positive b.ask_levels ≡ true)
      × (levels_are_positive b.bid_levels ≡ true)
      × (orders_have_levels b b.orders ≡ true)
  loops_pass = (
    levels_are_positive_lem b.ask_levels (v.sides Side.sell).distinct_levels
        (valid-LevelsPositive Side.sell),
    levels_are_positive_lem b.bid_levels (v.sides Side.buy).distinct_levels
        (valid-LevelsPositive Side.buy),
    orders_have_levels_lem b b.orders v.distinct (λ k o found.
        order_has_level o.side b.orders (levels o.side b) (heap o.side b) (v.sides o.side) k o found
          refl),
  )

-- Both sides have positive prices, and the bid is not below the ask.
abbrev pub is_crossed : ℤ × ℤ → ℤ × ℤ → Bool
is_crossed bb ba = ltb_ℤ (pos 0) bb.0 && ltb_ℤ (pos 0) ba.0 && leb_ℤ ba.0 bb.0

validate_runs :
    (b : OrderBook) (bb ba : ℤ × ℤ)
    → let b1 = (get_best Side.buy b).1 in
      let b2 = (get_best Side.sell b1).1 in
      (get_best Side.buy b).0 ≡ ok bb
      → (get_best Side.sell b1).0 ≡ ok ba
      → levels_are_positive b2.ask_levels ≡ true
      → levels_are_positive b2.bid_levels ≡ true
      → orders_have_levels b2 b2.orders ≡ true
      → validate b ≡ (if is_crossed bb ba then err Error.value_error else ok tt, b2)
unfolding validate
validate_runs b bb ba eb ea l1 l2 l3 = ground arith

-- `validate` of a well-formed book raises exactly if its best prices are crossed: the checks of
-- levels and orders never fail. The orders stay, and the book stays well-formed.
pub validate_lem :
    (b : OrderBook)
    → IsValid b
    → (bb : ℤ × ℤ) × (ba : ℤ × ℤ) × Shows Side.buy b.orders bb
      × Shows Side.sell b.orders ba
      × ((validate b).0 ≡ (if is_crossed bb ba then err Error.value_error else ok tt))
      × ((validate b).1.orders ≡ b.orders)
      × IsValid (validate b).1
unfolding validate
validate_lem b v =
    let (bb, eb, sb, ob, vb, restb) = get_best-Shows Side.buy b v in
    let b1 : OrderBook = (get_best Side.buy b).1 in
    let (ba, ea, sa, oa, va, resta) = get_best-Shows Side.sell b1 vb in
    let b2 : OrderBook = (get_best Side.sell b1).1 in
    let (l1, l2, l3) = loops_pass b2 va in
    let runs = validate_runs b bb ba eb ea l1 l2 l3 in
    (
      bb,
      ba,
      sb,
      subst (λ d. Shows Side.sell d ba) ob sa,
      ap (λ x. x.0) runs,
      ap (λ x. x.1.orders) runs ∙ oa ∙ ob,
      subst (λ x. IsValid x.1) (sym runs) va,
    )
