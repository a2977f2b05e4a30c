-- ===== src/OrderBook/Invariant.antt =====
-- The well-formedness of a book of src/order_book.py, and how the levels and the heap of one side
-- follow a change of the orders.
use mathlib.Core.Path.{subst}
use hft_trading_system.Prelude.{
  arith, ◌&&◌, is_some-insert, is_some-erase, ◌∙◌, sym, Bool-cases, inl, inr, ℕ, ℤ, ◌≡◌, true,
  false, refl, none, some, Dict, [], lookup, insert, erase, is_some, Every, Distinct, eqb_ℤ,
  eqb_ℤ_iff, lookup-insert, lookup-erase, insert-Distinct, erase-Distinct, int_eq, nat_eq, total,
}
use hft_trading_system.HeapQueue.{
  Heap, heappush, IsOrdered, In, In-heappush, In-heappush_self, heappush-IsOrdered,
}
use hft_trading_system.MarketData.{Side, eq_side, Order, PriceLevel}
use hft_trading_system.OrderBook.{OrderBook, empty_book, levels, heap, heap_price, clear}
use hft_trading_system.OrderBook.Summary.{summary, IsPositive}

-- The levels of a side are the summaries of its orders, and the heap knows the price of every
-- level. It may also hold prices of levels that are gone, and a price twice.
pub record Tracks (s : Side) (orders : Dict ℕ Order) (l : Dict ℤ PriceLevel) (h : Heap)
    : Type 0 where
  pub distinct_levels : Distinct l
  pub agree : (p : ℤ) → lookup p l ≡ summary s p orders
  pub covered : (p : ℤ) → is_some (lookup p l) ≡ true → In (heap_price s p) h
  pub ordered : IsOrdered h

pub record IsValid (b : OrderBook) : Type 0 where
  pub distinct : Distinct b.orders
  pub positive : Every IsPositive b.orders
  pub sides : (s : Side) → Tracks s b.orders (levels s b) (heap s b)

-- What a change of the orders leaves alone.
abbrev pub Untouched : Side → Dict ℕ Order → Dict ℕ Order → Type 0
Untouched s orders orders' = (q : ℤ) → summary s q orders' ≡ summary s q orders

abbrev pub Elsewhere : Side → ℤ → Dict ℕ Order → Dict ℕ Order → Type 0
Elsewhere s p orders orders' =
    (q : ℤ) → eqb_ℤ p q ≡ false → summary s q orders' ≡ summary s q orders

-- A change of the orders that concerns one side at one price.
abbrev pub Moved : Side → ℤ → Dict ℕ Order → Dict ℕ Order → Type 0
Moved side price d d' =
    (s : Side) (q : ℤ) → (eq_side side s && eqb_ℤ price q) ≡ false → summary s q d' ≡ summary s q d

module _ (side : Side) (price : ℤ) (d d' : Dict ℕ Order) (moved : Moved side price d d') where
  pub Moved-Elsewhere : Elsewhere side price d d'
  Moved-Elsewhere q h = moved side q (ground arith)

  pub Moved-Untouched : (s : Side) → eq_side side s ≡ false → Untouched s d d'
  Moved-Untouched s h q = moved s q (ground arith)

module _ {s : Side} {orders : Dict ℕ Order} (orders' : Dict ℕ Order) {l : Dict ℤ PriceLevel}
    {h : Heap} (t : Tracks s orders l h) where
  pub Tracks-Untouched : Untouched s orders orders' → Tracks s orders' l h
  Tracks-Untouched u = record {
    distinct_levels = t.distinct_levels;
    agree = λ p. t.agree p ∙ sym (u p);
    covered = t.covered;
    ordered = t.ordered;
  }

  module _ (p : ℤ) (level : PriceLevel) (away : Elsewhere s p orders orders')
      (here : summary s p orders' ≡ some level) where
    agree-insert : (q : ℤ) → lookup q (insert p level l) ≡ summary s q orders'
    agree-insert q = rw (lookup-insert p q level l) (elim (Bool-cases (eqb_ℤ p q)) [
      | inl same ↦ rw (same, ← (eqb_ℤ_iff p q).0 same) (sym here)
      | inr other ↦ rw (other, t.agree q) (sym (away q other))
    ])

    -- The level was there.
    pub Tracks-insert : is_some (lookup p l) ≡ true → Tracks s orders' (insert p level l) h
    Tracks-insert old = record {
      distinct_levels = insert-Distinct p level l t.distinct_levels;
      agree = agree-insert;
      covered = λ q e. elim (is_some-insert p q level l e) [
        | inl same ↦ t.covered q (subst (λ x. is_some (lookup x l) ≡ true) same old)
        | inr kept ↦ t.covered q kept
      ];
      ordered = t.ordered;
    }

    -- The level is new, and its price is pushed.
    pub Tracks-push : Tracks s orders' (insert p level l) (heappush (heap_price s p) h)
    Tracks-push = record {
      distinct_levels = insert-Distinct p level l t.distinct_levels;
      agree = agree-insert;
      covered = λ q e. elim (is_some-insert p q level l e) [
        | inl same ↦ rw (← same) (In-heappush_self (heap_price s p) h)
        | inr kept ↦ In-heappush (heap_price s p) (heap_price s q) h (t.covered q kept)
      ];
      ordered = heappush-IsOrdered (heap_price s p) h t.ordered;
    }

  pub Tracks-erase :
      (p : ℤ)
      → Elsewhere s p orders orders'
      → summary s p orders' ≡ none
      → Tracks s orders' (erase p l) h
  Tracks-erase p away here = record {
    distinct_levels = erase-Distinct p l t.distinct_levels;
    agree = λ q. rw (lookup-erase p q l) (elim (Bool-cases (eqb_ℤ p q)) [
      | inl same ↦ rw (same, ← (eqb_ℤ_iff p q).0 same) (sym here)
      | inr other ↦ rw (other, t.agree q) (sym (away q other))
    ]);
    covered = λ q e. t.covered q (is_some-erase p q l e);
    ordered = t.ordered;
  }

pub IsValid-of :
    (b : OrderBook) (d : Dict ℕ Order)
    → b.orders ≡ d
    → Distinct d
    → Every IsPositive d
    → ((s : Side) → Tracks s d (levels s b) (heap s b))
    → IsValid b
IsValid-of b d e distinct positive sides = record {
  distinct = subst Distinct (sym e) distinct;
  positive = subst (Every IsPositive) (sym e) positive;
  sides = λ s. subst (λ (x : Dict ℕ Order). Tracks s x (levels s b) (heap s b)) (sym e) (sides s);
}

-- The sides do not read the orders of the book.
pub levels_of_orders :
    (s : Side) (b : OrderBook) (d : Dict ℕ Order) (volume : ℤ)
    → (levels s (record b { orders = d; total_volume = volume }) ≡ levels s b)
      × (heap s (record b { orders = d; total_volume = volume }) ≡ heap s b)
levels_of_orders Side.buy b d volume = (refl, refl)
levels_of_orders Side.sell b d volume = (refl, refl)

pub empty-Tracks : (s : Side) → Tracks s [] [] []
unfolding lookup total
empty-Tracks s = record {
  distinct_levels = tt;
  agree = λ p. refl;
  covered = λ p e. cc;
  ordered = tt;
}

pub empty_book-IsValid : (symbol : ℕ) → IsValid (empty_book symbol)
empty_book-IsValid symbol = record {
  distinct = tt;
  positive = tt;
  sides = elim [ Side.buy ↦ empty-Tracks Side.buy | Side.sell ↦ empty-Tracks Side.sell ];
}

-- Clearing any book, also one that an error left inconsistent, gives a well-formed one.
pub clear-IsValid : (b : OrderBook) → IsValid (clear b)
unfolding clear
clear-IsValid b = record {
  distinct = tt;
  positive = tt;
  sides = elim [ Side.buy ↦ empty-Tracks Side.buy | Side.sell ↦ empty-Tracks Side.sell ];
}
