-- ===== src/BookManager/Books.antt =====
-- The books that an `OrderBookManager` of src/order_book.py holds, and the order that it knows by a
-- number.
use hft_trading_system.Prelude.{Option, int_eq, is_some, lookup, nat_eq, none, some, true, ℕ, ◌≡◌}
use hft_trading_system.MarketData.{Order, side_eq}
use hft_trading_system.OrderBook.{OrderBook}
use hft_trading_system.OrderBook.Invariant.{IsValid}
use hft_trading_system.BookManager.{OrderBookManager, empty_manager}

-- Every book is well-formed, an order that stands in a book is mapped to the book's symbol, and a
-- symbol that a number is mapped to has a book.
pub record IsSound (m : OrderBookManager) : Type 0 where
  pub valid : (s : ℕ) (b : OrderBook) → lookup s m.books ≡ some b → IsValid b
  pub mapped :
      (s : ℕ) (b : OrderBook) (k : ℕ) (o : Order)
      → lookup s m.books ≡ some b
      → lookup k b.orders ≡ some o
      → lookup k m.order_id_to_symbol ≡ some s
  pub has_book :
      (k s : ℕ) → lookup k m.order_id_to_symbol ≡ some s → is_some (lookup s m.books) ≡ true

pub empty_manager-IsSound : IsSound empty_manager
unfolding lookup
empty_manager-IsSound = record {
  valid = λ s b e. cc;
  mapped = λ s b k o e f. cc;
  has_book = λ k s e. cc;
}

-- The orders of all books, by number
abbrev pub order_in : ℕ → Option OrderBook → Option Order
order_in k none = none
order_in k (some b) = lookup k b.orders

abbrev pub order_of : ℕ → Option ℕ → OrderBookManager → Option Order
order_of k none m = none
order_of k (some s) m = order_in k (lookup s m.books)

unfoldable pub find_order : ℕ → OrderBookManager → Option Order
find_order k m = order_of k (lookup k m.order_id_to_symbol) m
