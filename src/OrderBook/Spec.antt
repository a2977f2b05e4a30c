-- ===== src/OrderBook/Spec.antt =====
-- `class OrderBook` of src/order_book.py against a plain dictionary of orders.
use hft_trading_system.Prelude.{
  >>-ok, Action, Dict, Done, Error, List, Option-cases, Result, [], arith, erase, err,
  if◌then◌else◌, inl, inr, insert, int_eq, is_some, leb_ℤ, lookup, nat_eq, none, ok, pos, refl,
  some, ℕ, ℤ, ◌||◌, ◌∷◌, ◌≡◌, ◌≤ℤ◌,
}
use hft_trading_system.MarketData.{Order, Side, side_eq}
use hft_trading_system.OrderBook.{OrderBook, add_order, delete_order, modify_order, trade_order}
use hft_trading_system.OrderBook.Invariant.{IsValid}
use hft_trading_system.OrderBook.Add.{
  add_order-IsValid, add_order_lem, add_to_level_orders, make_order,
}
use hft_trading_system.OrderBook.Settle.{delete_order_lem}
use hft_trading_system.OrderBook.Trade.{trade_order_lem, traded}

-- The calls that change a book
pub data Call : Type 0 where
  add_call : (order_id symbol : ℕ) → Side → (qty price : ℤ) → (timestamp : ℕ) → Call
  delete_call : (order_id : ℕ) → Call
  trade_call : (order_id : ℕ) → (qty price : ℤ) → Call
  modify_call : (order_id : ℕ) → Side → (qty price : ℤ) → Call

unfoldable pub call : Call → Action OrderBook Done
call (add_call order_id symbol side qty price timestamp) =
    add_order order_id symbol side qty price timestamp
call (delete_call order_id) = delete_order order_id
call (trade_call order_id qty price) = trade_order order_id qty price
call (modify_call order_id side qty price) = modify_order order_id side qty price

-- The same calls on a dictionary of orders
abbrev pub Orders : Type 0
Orders = Dict ℕ Order

unfoldable pub spec_add : ℕ → ℕ → Side → ℤ → ℤ → ℕ → Action Orders Done
spec_add order_id symbol side qty price timestamp d =
    if is_some (lookup order_id d) || leb_ℤ qty (pos 0)
    then (err Error.value_error, d)
    else (ok tt, insert order_id (make_order order_id symbol side qty price timestamp) d)

unfoldable pub spec : Call → Action Orders Done
unfolding spec_add
spec (add_call order_id symbol side qty price timestamp) d =
    spec_add order_id symbol side qty price timestamp d
spec (delete_call order_id) d = (ok tt, erase order_id d)
spec (trade_call order_id qty price) d = elim (lookup order_id d) [
  | none ↦ (err Error.key_error, d)
  | some o ↦ (ok tt, traded order_id o qty d)
]
spec (modify_call order_id side qty price) d = elim (lookup order_id d) [
  | none ↦ (err Error.key_error, d)
  | some o ↦ spec_add order_id o.symbol side qty price o.timestamp (erase order_id d)
]

-- No trade is larger than its order.
abbrev pub Fits : Call → Orders → Type 0
Fits (trade_call order_id qty price) d =
    (o : Order) → lookup order_id d ≡ some o → qty ≤ℤ o.quantity
Fits _ d = Unit {0}

-- A call on a book has the result of the call on its orders, leaves those orders, and leaves the
-- book well-formed.
abbrev pub Refines : Result Done × OrderBook → Result Done × Orders → Type 0
Refines (r, b) (r', d) = (r ≡ r') × (b.orders ≡ d) × IsValid b

add-Refines :
    (order_id symbol : ℕ) (side : Side) (qty price : ℤ) (timestamp : ℕ) (b : OrderBook)
    → IsValid b
    → Refines
        (add_order order_id symbol side qty price timestamp b)
        (spec_add order_id symbol side qty price timestamp b.orders)
unfolding spec_add
add-Refines order_id symbol side qty price timestamp b v =
    let d : Orders =
      insert order_id (make_order order_id symbol side qty price timestamp) b.orders in
    let e = add_order_lem order_id symbol side qty price timestamp b in
    let same = add_to_level_orders side price qty (record b { orders = d }) in
    (ground arith, ground arith, add_order-IsValid order_id symbol side qty price timestamp b v)

trade-Refines :
    (order_id : ℕ) (qty price : ℤ) (b : OrderBook)
    → IsValid b
    → Fits (trade_call order_id qty price) b.orders
    → Refines (trade_order order_id qty price b) (spec (trade_call order_id qty price) b.orders)
unfolding spec trade_order
trade-Refines order_id qty price b v fits = elim (Option-cases (lookup order_id b.orders)) [
  | inl missing ↦ rw (missing, spec, trade_order) (refl, refl, v)
  | inr (o, found) ↦
      let out = trade_order_lem b order_id o qty price v found (fits o found) in
      rw (found, spec) (out.0, out.1, out.3)
]

modify-Refines :
    (order_id : ℕ) (side : Side) (qty price : ℤ) (b : OrderBook)
    → IsValid b
    → Refines
        (modify_order order_id side qty price b)
        (spec (modify_call order_id side qty price) b.orders)
unfolding spec modify_order
modify-Refines order_id side qty price b v = elim (Option-cases (lookup order_id b.orders)) [
  | inl missing ↦ rw (missing, spec, modify_order) (refl, refl, v)
  | inr (o, found) ↦
      let out = delete_order_lem order_id b v in
      let b' : OrderBook = (delete_order order_id b).1 in
      rw (found, spec, modify_order)
        (rw
          (>>-ok (delete_order order_id) (add_order order_id o.symbol side qty price o.timestamp) b
            tt out.0)
          (rw out.1 at (add-Refines order_id o.symbol side qty price o.timestamp b' out.2)))
]

-- Every call on a well-formed book does to the orders, and returns or raises, what the same call on
-- the plain dictionary does, and it leaves the book well-formed; for a trade that is so if it is no
-- larger than its order.
pub call-Refines-spec :
    (c : Call) (b : OrderBook) → IsValid b → Fits c b.orders → Refines (call c b) (spec c b.orders)
unfolding call spec
call-Refines-spec (add_call order_id symbol side qty price timestamp) b v fits =
    add-Refines order_id symbol side qty price timestamp b v
call-Refines-spec (delete_call order_id) b v fits = delete_order_lem order_id b v
call-Refines-spec (trade_call order_id qty price) b v fits =
    trade-Refines order_id qty price b v fits
call-Refines-spec (modify_call order_id side qty price) b v fits =
    modify-Refines order_id side qty price b v

-- A run of calls whose errors are caught: the results, in order, and the last state.
unfoldable pub run {ℓ} :
    {S C : Type ℓ} → (C → S → Result Done × S) → List C → S → List (Result Done) × S
run step [] s = ([], s)
run step (c ∷ cs) s = let (r, s') = step c s in let (rs, s'') = run step cs s' in (r ∷ rs, s'')

-- All trades of a run fit when they come.
abbrev pub AllFit : List Call → Orders → Type 0
AllFit [] d = Unit
AllFit (c ∷ cs) d = Fits c d × AllFit cs (spec c d).1

-- Whatever calls come to a well-formed book, of which each trade is no larger than its order, their
-- results and the orders after them are those of the same calls on a plain dictionary of orders,
-- and the book stays well-formed.
pub run-refines-spec :
    (cs : List Call) (b : OrderBook)
    → IsValid b
    → AllFit cs b.orders
    → let (rs, b') = run call cs b in
      let (rs', d) = run spec cs b.orders in (rs ≡ rs') × (b'.orders ≡ d) × IsValid b'
unfolding run
run-refines-spec [] b v fits = (refl, refl, v)
run-refines-spec (c ∷ cs) b v fits =
    let (r, same, v') = call-Refines-spec c b v fits.0 in
    let (rs, d, v'') = run-refines-spec cs (call c b).1 v' (rw same fits.1) in
    (cc (r, rs, same), cc (d, same), v'')
