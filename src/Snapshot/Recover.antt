-- ===== src/Snapshot/Recover.antt =====
-- The books after `_reset_for_resnap` of src/order_book.py.
use mathlib.Core.Path.{subst}
use hft_trading_system.Prelude.{
  Bool-cases, Dict, [], eqb, inl, inr, int_eq, lookup, nat_eq, none, refl, some, sym, ℕ, ◌∷◌, ◌≡◌,
}
use hft_trading_system.MarketData.{side_eq}
use hft_trading_system.OrderBook.{OrderBook, clear}
use hft_trading_system.OrderBook.Invariant.{IsValid, clear-IsValid}
use hft_trading_system.BookManager.Books.{IsSound, find_order}
use hft_trading_system.Snapshot.{SnapShotSynchronizer, clear_books, reset_for_resnap}

cleared :
    (s : ℕ) (b : OrderBook) (d : Dict ℕ OrderBook)
    → lookup s (clear_books d) ≡ some b
    → (before : OrderBook) × (b ≡ clear before)
unfolding lookup clear_books
cleared s b [] e = cc
cleared s b ((r, x) ∷ d) e = elim (Bool-cases (eqb r s)) [
  | inl same ↦ (x, (let h : some (clear x) ≡ some b = rw same at e in cc))
  | inr other ↦ cleared s b d (rw other at e)
]

no_orders : (k : ℕ) (b : OrderBook) → lookup k (clear b).orders ≡ none
unfolding lookup clear
no_orders k b = refl

unmapped :
    (k : ℕ) (s : SnapShotSynchronizer)
    → lookup k (reset_for_resnap s).book_manager.order_id_to_symbol ≡ none
unfolding lookup reset_for_resnap
unmapped k s = refl

books_cleared :
    (s : SnapShotSynchronizer)
    → (reset_for_resnap s).book_manager.books ≡ clear_books s.book_manager.books
unfolding reset_for_resnap
books_cleared s = refl

-- A reset recovers the manager from any state, also one that an exception left inconsistent: the books
-- are well-formed, and no order is known.
pub reset_for_resnap-IsSound :
    (s : SnapShotSynchronizer)
    → IsSound (reset_for_resnap s).book_manager
      × ((k : ℕ) → find_order k (reset_for_resnap s).book_manager ≡ none)
unfolding find_order
reset_for_resnap-IsSound s = (
  record {
    valid = λ r b there.
        let (before, e) = cleared r b s.book_manager.books (rw (books_cleared s) at there) in
        subst IsValid (sym e) (clear-IsValid before);
    mapped = λ r b k o there found.
        let (before, e) = cleared r b s.book_manager.books (rw (books_cleared s) at there) in
        let gone = no_orders k before in cc;
    has_book = λ k r named. let gone = unmapped k s in cc;
  },
  λ k. rw (unmapped k s) refl,
)
