-- ===== src/BookManager/Step.antt =====
-- A call on the book of a known order, in an `OrderBookManager` of src/order_book.py.
use mathlib.Core.Path.{subst}
use hft_trading_system.Prelude.{
  Bool-cases, Option-cases, ap, arith, eqb, eqb_iff, false, if◌then◌else◌, inl, inr, insert, int_eq,
  lookup, lookup-insert, lookup-insert_self, nat_eq, refl, some, sym, ℕ, ◌∙◌, ◌≡◌,
}
use hft_trading_system.MarketData.{Order, side_eq}
use hft_trading_system.OrderBook.{OrderBook}
use hft_trading_system.OrderBook.Invariant.{IsValid}
use hft_trading_system.OrderBook.Spec.{Call, Fits, Refines, call, call-Refines-spec, spec}
use hft_trading_system.BookManager.{OrderBookManager, in_book}
use hft_trading_system.BookManager.Books.{IsSound, find_order}
use hft_trading_system.BookManager.Keys.{key, spec_at_key, spec_elsewhere, spec_one}

-- The manager after a call on one of its books
abbrev pub with_book : ℕ → Call → OrderBook → OrderBookManager → OrderBookManager
with_book s c b m = record m { books = insert s (call c b).1 m.books }

pub in_book_runs :
    (s : ℕ) (c : Call) (b : OrderBook) (m : OrderBookManager)
    → lookup s m.books ≡ some b
    → in_book s (call c) m ≡ ((call c b).0, with_book s c b m)
unfolding in_book
in_book_runs s c b m there = rw (there, in_book)

find_named :
    (k s : ℕ) (b : OrderBook) (m : OrderBookManager)
    → lookup k m.order_id_to_symbol ≡ some s
    → lookup s m.books ≡ some b
    → find_order k m ≡ lookup k b.orders
unfolding find_order
find_named k s b m named there = rw (named, there) refl

module _ (s : ℕ) (c : Call) (b : OrderBook) (m : OrderBookManager) (sound : IsSound m)
    (there : lookup s m.books ≡ some b) (named : lookup (key c) m.order_id_to_symbol ≡ some s)
    (fits : Fits c b.orders) where
  b' : OrderBook
  b' = (call c b).1

  refined : Refines (call c b) (spec c b.orders)
  refined = call-Refines-spec c b (sound.valid s b there) fits

  -- Another order of the book is there as before.
  other_order : (j : ℕ) → eqb (key c) j ≡ false → lookup j (call c b).1.orders ≡ lookup j b.orders
  other_order j n = rw refined.1 (spec_elsewhere c b.orders j n)

  with_book-IsValid :
      (r : ℕ) (x : OrderBook) → lookup r (with_book s c b m).books ≡ some x → IsValid x
  with_book-IsValid r x e =
      let look = lookup-insert s r (call c b).1 m.books in
      elim (Bool-cases (eqb s r)) [
        | inl same ↦
            let e' : some (call c b).1 ≡ some x = ground arith in subst IsValid (cc) refined.2
        | inr other ↦ sound.valid r x (ground arith)
      ]

  with_book-mapped :
      (r : ℕ) (x : OrderBook) (k : ℕ) (o : Order)
      → lookup r (with_book s c b m).books ≡ some x
      → lookup k x.orders ≡ some o
      → lookup k m.order_id_to_symbol ≡ some r
  with_book-mapped r x k o e f =
      let look = lookup-insert s r (call c b).1 m.books in
      elim (Bool-cases (eqb s r)) [
        | inl same ↦ elim (Bool-cases (eqb (key c) k)) [
          | inl this ↦ ground arith
          | inr another ↦
              let before : lookup k b.orders ≡ some o = ground (arith, other_order k another) in
              ground (arith, sound.mapped s b k o there before)
        ]
        | inr other ↦ sound.mapped r x k o (ground arith) f
      ]

  pub with_book-IsSound : IsSound (with_book s c b m)
  with_book-IsSound = record {
    valid = with_book-IsValid;
    mapped = with_book-mapped;
    has_book = λ k r e. ground (arith, sound.has_book k r, lookup-insert s r (call c b).1 m.books);
  }

  find_before : find_order (key c) m ≡ lookup (key c) b.orders
  unfolding find_order
  find_before = rw (named, there) refl

  find_after : find_order (key c) (with_book s c b m) ≡ (spec_one c (find_order (key c) m)).1
  find_after =
      find_named (key c) s (call c b).1 (with_book s c b m) named
        (lookup-insert_self s (call c b).1 m.books)
      ∙ ap (λ d. lookup (key c) d) refined.1
      ∙ (spec_at_key c b.orders).1
      ∙ ap (λ x. (spec_one c x).1) (sym find_before)

  find_other : (j : ℕ) → eqb (key c) j ≡ false → find_order j (with_book s c b m) ≡ find_order j m
  unfolding find_order
  find_other j n = elim (Option-cases (lookup j m.order_id_to_symbol)) [
    | inl unknown ↦ rw unknown refl
    | inr (r, known_at) ↦ ground (arith, other_order j n, lookup-insert s r (call c b).1 m.books)
  ]

  -- The order that the call names is what the call makes of it, and every other is as before.
  pub with_book_find :
      (j : ℕ)
      → find_order j (with_book s c b m)
        ≡ (if eqb (key c) j then (spec_one c (find_order (key c) m)).1 else find_order j m)
  with_book_find j = elim (Bool-cases (eqb (key c) j)) [
    | inl same ↦ rw (same, ← (eqb_iff (key c) j).0 same) find_after
    | inr other ↦ rw other (find_other j other)
  ]

  pub with_book_result : (call c b).0 ≡ (spec_one c (find_order (key c) m)).0
  with_book_result =
      refined.0 ∙ (spec_at_key c b.orders).0 ∙ ap (λ x. (spec_one c x).0) (sym find_before)
