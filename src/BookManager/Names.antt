-- ===== src/BookManager/Names.antt =====
-- `order_id_to_symbol` of src/order_book.py: numbers that are entered and forgotten.
use mathlib.Core.Path.{subst}
use hft_trading_system.Prelude.{
  Bool-cases, Option-cases, ap, arith, eqb, eqb_iff, erase, false, if◌then◌else◌, inl, inr, insert,
  int_eq, is_some, lookup, lookup-erase, lookup-insert, lookup-insert_self, nat_eq, none, refl,
  some, sym, true, ℕ, ◌∙◌, ◌≡◌, ◌⊎◌,
}
use hft_trading_system.MarketData.{Order, side_eq}
use hft_trading_system.OrderBook.{OrderBook, empty_book}
use hft_trading_system.OrderBook.Invariant.{IsValid, empty_book-IsValid}
use hft_trading_system.BookManager.{OrderBookManager, create_book}
use hft_trading_system.BookManager.Books.{IsSound, find_order}

pub find_mapped :
    (k s : ℕ) (b : OrderBook) (o : Order) (m : OrderBookManager)
    → IsSound m
    → lookup s m.books ≡ some b
    → lookup k b.orders ≡ some o
    → find_order k m ≡ some o
unfolding find_order
find_mapped k s b o m sound there found = rw (sound.mapped s b k o there found, there) found

module _ (k : ℕ) (m : OrderBookManager) (sound : IsSound m) (absent : find_order k m ≡ none) where
  -- No book holds the order.
  not_in_book : (s : ℕ) (b : OrderBook) → lookup s m.books ≡ some b → lookup k b.orders ≡ none
  not_in_book s b there = elim (Option-cases (lookup k b.orders)) [
    | inl out ↦ out
    | inr (o, found) ↦ cc (find_mapped k s b o m sound there found, absent)
  ]

  abbrev pub forget : OrderBookManager
  forget = record m { order_id_to_symbol = erase k m.order_id_to_symbol }

  pub forget-IsSound : IsSound forget
  forget-IsSound = record {
    valid = sound.valid;
    mapped = λ r x j o e f.
        ground (
          arith,
          sound.mapped r x j o e f,
          not_in_book r x e,
          lookup-erase k j m.order_id_to_symbol,
        );
    has_book = λ j r e. sound.has_book j r (ground (arith, lookup-erase k j m.order_id_to_symbol));
  }

  pub forget_find : (j : ℕ) → find_order j forget ≡ find_order j m
  unfolding find_order
  forget_find j = elim (Bool-cases (eqb k j)) [
    | inl same ↦
        rw (lookup-erase k j m.order_id_to_symbol, same)
          (sym absent ∙ ap (λ i. find_order i m) ((eqb_iff k j).0 same))
    | inr other ↦ ground (arith, lookup-erase k j m.order_id_to_symbol)
  ]

  module _ (s : ℕ) where
    abbrev pub enter : OrderBookManager
    enter = create_book s (record m { order_id_to_symbol = insert k s m.order_id_to_symbol })

    -- A book that is there after `create_book` was there, or is new and empty.
    entered :
        (r : ℕ) (x : OrderBook)
        → lookup r enter.books ≡ some x
        → (lookup r m.books ≡ some x) ⊎ (x ≡ empty_book s)
    unfolding create_book
    entered r x e = ground (arith, lookup-insert s r (empty_book s) m.books)

    kept : (r : ℕ) → is_some (lookup r m.books) ≡ true → lookup r enter.books ≡ lookup r m.books
    unfolding create_book
    kept r e = ground (arith, lookup-insert s r (empty_book s) m.books)

    pub entered_here : is_some (lookup s enter.books) ≡ true
    unfolding create_book
    entered_here = ground (arith, lookup-insert_self s (empty_book s) m.books)

    enter_ids :
        (j : ℕ)
        → lookup j enter.order_id_to_symbol
          ≡ (if eqb k j then some s else lookup j m.order_id_to_symbol)
    unfolding create_book
    enter_ids j = ground (arith, lookup-insert k j s m.order_id_to_symbol)

    enter-mapped :
        (r : ℕ) (x : OrderBook) (j : ℕ) (o : Order)
        → lookup r enter.books ≡ some x
        → lookup j x.orders ≡ some o
        → lookup j enter.order_id_to_symbol ≡ some r
    unfolding lookup
    enter-mapped r x j o e f = elim (entered r x e) [
      | inl old ↦ ground (arith, enter_ids j, sound.mapped r x j o old f, not_in_book r x old)
      | inr new ↦ let g : none ≡ some o = rw new at f in cc
    ]

    pub enter-IsSound : IsSound enter
    enter-IsSound = record {
      valid = λ r x e. elim (entered r x e) [
        | inl old ↦ sound.valid r x old
        | inr new ↦ subst IsValid (sym new) (empty_book-IsValid s)
      ];
      mapped = enter-mapped;
      has_book = λ j r e. ground (arith, enter_ids j, entered_here, sound.has_book j r, kept r);
    }

    pub enter_named : lookup k enter.order_id_to_symbol ≡ some s
    enter_named = ground (arith, enter_ids k)

    empty_at : (x : OrderBook) → lookup s enter.books ≡ some x → lookup k x.orders ≡ none
    unfolding lookup
    empty_at x there = elim (entered s x there) [
      | inl old ↦ not_in_book s x old
      | inr new ↦ rw new refl
    ]

    enter_find_here : find_order k enter ≡ none
    unfolding find_order
    enter_find_here = elim (Option-cases (lookup s enter.books)) [
      | inl missing ↦ cc (entered_here, missing)
      | inr (x, there) ↦ rw (enter_named, there) (empty_at x there)
    ]

    enter_find_other : (j : ℕ) → eqb k j ≡ false → find_order j enter ≡ find_order j m
    unfolding find_order
    enter_find_other j n = elim (Option-cases (lookup j m.order_id_to_symbol)) [
      | inl unknown ↦ ground (arith, enter_ids j)
      | inr (r, named) ↦ ground (arith, enter_ids j, kept r, sound.has_book j r)
    ]

    pub enter_find : (j : ℕ) → find_order j enter ≡ find_order j m
    enter_find j = elim (Bool-cases (eqb k j)) [
      | inl same ↦ rw (← (eqb_iff k j).0 same) (enter_find_here ∙ sym absent)
      | inr other ↦ enter_find_other j other
    ]
