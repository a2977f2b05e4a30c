-- ===== src/BookManager/Feed.antt =====
-- `dispatch_live_message` of src/order_book.py, by what a message does to the order it names.
use hft_trading_system.Prelude.{
  >>-ok, Bool-cases, Done, Error, Option-cases, Result, ap, arith, eqb, eqb_iff, erase, err,
  if◌then◌else◌, inl, inr, int_eq, lookup, modify, nat_eq, none, ok, refl, some, ℕ, ℤ, ◌+◌, ◌>>◌,
  ◌∙◌, ◌≡◌, ◌≤ℤ◌,
}
use hft_trading_system.MarketData.{Order, Side, side_eq}
use hft_trading_system.OrderBook.{OrderBook}
use hft_trading_system.OrderBook.Spec.{
  Call, Fits, add_call, call, delete_call, modify_call, trade_call,
}
use hft_trading_system.BookManager.{
  OrderBookManager, in_book, known, process_delete_order, process_modify_order, process_new_order,
  process_trade,
}
use hft_trading_system.BookManager.Books.{IsSound, find_order}
use hft_trading_system.BookManager.Keys.{key, spec_one}
use hft_trading_system.BookManager.Step.{
  in_book_runs, with_book-IsSound, with_book_find, with_book_result,
}
use hft_trading_system.BookManager.Names.{
  enter, enter-IsSound, enter_find, enter_named, forget-IsSound, forget_find,
}

-- A handler did to the order that `c` names what `c` does to it, with that result; every other order
-- is as it was, and the manager is sound.
abbrev pub Follows : OrderBookManager → Call → Result Done × OrderBookManager → Type 0
Follows m c (r, m') =
    (r ≡ (spec_one c (find_order (key c) m)).0)
    × ((j : ℕ)
        → find_order j m'
          ≡ (if eqb (key c) j then (spec_one c (find_order (key c) m)).1 else find_order j m))
    × IsSound m'

-- The same, of a handler that changes no order.
abbrev pub Keeps : OrderBookManager → OrderBookManager → Type 0
Keeps m m' = ((j : ℕ) → find_order j m' ≡ find_order j m) × IsSound m'

-- No trade is larger than the order that the manager knows by its number.
abbrev pub FitsIn : Call → OrderBookManager → Type 0
FitsIn (trade_call k qty price) m = (o : Order) → find_order k m ≡ some o → qty ≤ℤ o.quantity
FitsIn _ m = Unit {0}

Fits-in_book :
    (c : Call) (m : OrderBookManager) (s : ℕ) (b : OrderBook)
    → lookup (key c) m.order_id_to_symbol ≡ some s
    → lookup s m.books ≡ some b
    → FitsIn c m
    → Fits c b.orders
unfolding find_order
Fits-in_book (add_call _ _ _ _ _ _) m s b named there fits = tt
Fits-in_book (delete_call _) m s b named there fits = tt
Fits-in_book (trade_call k qty price) m s b named there fits =
    λ o found. fits o (rw (named, there) found)
Fits-in_book (modify_call _ _ _ _) m s b named there fits = tt

Follows-of_same :
    (m m1 : OrderBookManager) (c : Call) {x : Result Done × OrderBookManager}
    → ((j : ℕ) → find_order j m1 ≡ find_order j m)
    → Follows m1 c x
    → Follows m c x
Follows-of_same m m1 c same (r, find, s) =
    (cc (r, same (key c)), (λ j. cc (find j, same j, same (key c))), s)

-- A call on the book that the number is mapped to
in_book-Follows :
    (c : Call) (m : OrderBookManager) (s : ℕ)
    → IsSound m
    → lookup (key c) m.order_id_to_symbol ≡ some s
    → FitsIn c m
    → Follows m c (in_book s (call c) m)
in_book-Follows c m s sound named fits = elim (Option-cases (lookup s m.books)) [
  | inl missing ↦ let book = sound.has_book (key c) s named in cc
  | inr (b, there) ↦
      let fits' = Fits-in_book c m s b named there fits in
      rw (in_book_runs s c b m there) (
        with_book_result s c b m sound there named fits',
        with_book_find s c b m sound there named fits',
        with_book-IsSound s c b m sound there named fits',
      )
]

-- A number that is not mapped names no order.
unnamed :
    (k : ℕ) (m : OrderBookManager) → lookup k m.order_id_to_symbol ≡ none → find_order k m ≡ none
unfolding find_order
unnamed k m e = rw e refl

-- A call that finds no order raises, and leaves none.
absent-Follows :
    (c : Call) (m : OrderBookManager)
    → IsSound m
    → find_order (key c) m ≡ none
    → spec_one c none ≡ (err Error.key_error, none)
    → Follows m c (err Error.key_error, m)
absent-Follows c m sound absent e = (
  rw (absent, e) refl,
  (λ j. elim (Bool-cases (eqb (key c) j)) [
    | inl same ↦ rw (same, ← (eqb_iff (key c) j).0 same, absent, e) refl
    | inr other ↦ rw other refl
  ]),
  sound,
)

known-Follows :
    (c : Call) (m : OrderBookManager)
    → IsSound m
    → FitsIn c m
    → spec_one c none ≡ (err Error.key_error, none)
    → Follows m c (known (key c) (call c) m)
known-Follows c m sound fits e = elim (Option-cases (lookup (key c) m.order_id_to_symbol)) [
  | inl unknown ↦ rw (unknown, known) (absent-Follows c m sound (unnamed (key c) m unknown) e)
  | inr (s, named) ↦ rw (named, known) (in_book-Follows c m s sound named fits)
]

pub process_trade-Follows :
    (seq k : ℕ) (qty price : ℤ) (m : OrderBookManager)
    → IsSound m
    → FitsIn (trade_call k qty price) m
    → Follows m (trade_call k qty price) (process_trade seq k qty price m)
unfolding process_trade call
process_trade-Follows seq k qty price m sound fits =
    known-Follows (trade_call k qty price) m sound fits refl

pub process_modify_order-Follows :
    (seq k : ℕ) (side : Side) (qty price : ℤ) (m : OrderBookManager)
    → IsSound m
    → Follows m (modify_call k side qty price) (process_modify_order seq k side qty price m)
unfolding process_modify_order call
process_modify_order-Follows seq k side qty price m sound =
    known-Follows (modify_call k side qty price) m sound tt refl

pub process_new_order-Follows :
    (seq timestamp k symbol : ℕ) (side : Side) (qty price : ℤ) (flags : ℕ) (m : OrderBookManager)
    → IsSound m
    → find_order k m ≡ none
    → Follows m
        (add_call k symbol side qty price timestamp)
        (process_new_order seq timestamp k symbol side qty price flags m)
unfolding process_new_order call
process_new_order-Follows seq timestamp k symbol side qty price flags m sound absent =
    let c = add_call k symbol side qty price timestamp in
    let m1 = enter k m sound absent symbol in
    let f = enter_find k m sound absent symbol in
    Follows-of_same m m1 c f (
      in_book-Follows c m1 symbol (enter-IsSound k m sound absent symbol)
        (enter_named k m sound absent symbol) tt)

-- Only the counter of unknown deletions moves.
abbrev counted : OrderBookManager → OrderBookManager
counted m = record m { unknown_delete_count = m.unknown_delete_count + 1 }

counted-IsSound : (m : OrderBookManager) → IsSound m → IsSound (counted m)
counted-IsSound m sound = record {
  valid = sound.valid;
  mapped = sound.mapped;
  has_book = sound.has_book;
}

counted_find : (m : OrderBookManager) (j : ℕ) → find_order j (counted m) ≡ find_order j m
unfolding find_order
counted_find m j = elim (Option-cases (lookup j m.order_id_to_symbol)) [
  | inl unknown ↦ rw unknown refl
  | inr (s, named) ↦ rw named refl
]

unknown_delete :
    (k : ℕ) (m : OrderBookManager)
    → IsSound m
    → find_order k m ≡ none
    → Follows m (delete_call k) (ok tt, counted m)
unknown_delete k m sound absent = (
  refl,
  (λ j. ground (arith, counted_find m j, eqb_iff k j, ap (λ i. find_order i m) {x = k} {y = j})),
  counted-IsSound m sound,
)

known_delete :
    (k s : ℕ) (m : OrderBookManager)
    → IsSound m
    → lookup k m.order_id_to_symbol ≡ some s
    → Follows m (delete_call k) (
        (in_book s (call (delete_call k))
            >> modify (λ n. record n { order_id_to_symbol = erase k n.order_id_to_symbol }))
          m)
known_delete k s m sound named =
    let run = in_book s (call (delete_call k)) in
    let after =
      modify (λ (n : OrderBookManager). record n {
        order_id_to_symbol = erase k n.order_id_to_symbol;
      }) in
    let (r, find, sound') = in_book-Follows (delete_call k) m s sound named tt in
    let gone : find_order k (run m).1 ≡ none = ground (arith, find k) in
    rw (>>-ok run after m tt r) (
      refl,
      (λ j. forget_find k (run m).1 sound' gone j ∙ find j),
      forget-IsSound k (run m).1 sound' gone,
    )

pub process_delete_order-Follows :
    (seq k : ℕ) (m : OrderBookManager)
    → IsSound m
    → Follows m (delete_call k) (process_delete_order seq k m)
unfolding process_delete_order call
process_delete_order-Follows seq k m sound = elim (Option-cases (lookup k m.order_id_to_symbol)) [
  | inl unknown ↦
      rw (unknown, process_delete_order) (unknown_delete k m sound (unnamed k m unknown))
  | inr (s, named) ↦ rw (named, process_delete_order) (known_delete k s m sound named)
]
