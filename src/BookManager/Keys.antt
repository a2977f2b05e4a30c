-- ===== src/BookManager/Keys.antt =====
-- The order that a call on a book of src/order_book.py names.
use hft_trading_system.Prelude.{
  Done, Error, Option, Option-cases, Result, arith, eqb, eqb_ℤ, erase, err, false, if◌then◌else◌,
  inl, inr, int_eq, leb_ℤ, lookup, lookup-erase, lookup-erase_self, lookup-insert,
  lookup-insert_self, nat_eq, none, ok, pos, some, ℕ, ◌-ℤ◌, ◌≡◌,
}
use hft_trading_system.MarketData.{Order, side_eq}
use hft_trading_system.OrderBook.Add.{make_order}
use hft_trading_system.OrderBook.Spec.{
  Call, Orders, add_call, delete_call, modify_call, spec, trade_call,
}

abbrev pub key : Call → ℕ
key (add_call order_id symbol side qty price timestamp) = order_id
key (delete_call order_id) = order_id
key (trade_call order_id qty price) = order_id
key (modify_call order_id side qty price) = order_id

-- What a call does to the order that it names
abbrev pub spec_one : Call → Option Order → Result Done × Option Order
spec_one (add_call k symbol side qty price timestamp) none =
    if leb_ℤ qty (pos 0)
    then (err Error.value_error, none)
    else (ok tt, some (make_order k symbol side qty price timestamp))
spec_one (add_call k symbol side qty price timestamp) (some o) = (err Error.value_error, some o)
spec_one (delete_call k) o = (ok tt, none)
spec_one (trade_call k qty price) none = (err Error.key_error, none)
spec_one (trade_call k qty price) (some o) = (
  ok tt,
  if eqb_ℤ (o.quantity -ℤ qty) (pos 0)
      then none
      else some (record o { quantity = o.quantity -ℤ qty }),
)
spec_one (modify_call k side qty price) none = (err Error.key_error, none)
spec_one (modify_call k side qty price) (some o) =
    if leb_ℤ qty (pos 0)
    then (err Error.value_error, none)
    else (ok tt, some (make_order k o.symbol side qty price o.timestamp))

-- The call does that to its order, and nothing to any other.
pub spec_at_key :
    (c : Call) (d : Orders)
    → ((spec c d).0 ≡ (spec_one c (lookup (key c) d)).0)
      × (lookup (key c) (spec c d).1 ≡ (spec_one c (lookup (key c) d)).1)
unfolding spec
spec_at_key (add_call k symbol side qty price timestamp) d =
    ground (arith, lookup-insert_self k (make_order k symbol side qty price timestamp) d)
spec_at_key (delete_call k) d = ground (arith, lookup-erase_self k d)
spec_at_key (trade_call k qty price) d = elim (Option-cases (lookup k d)) [
  | inl none_there ↦ ground arith
  | inr (o, there) ↦ ground (
    arith,
    lookup-erase_self k d,
    lookup-insert_self k (record o { quantity = o.quantity -ℤ qty }) d,
  )
]
spec_at_key (modify_call k side qty price) d = elim (Option-cases (lookup k d)) [
  | inl none_there ↦ ground arith
  | inr (o, there) ↦ ground (
    arith,
    lookup-erase_self k d,
    lookup-insert_self k (make_order k o.symbol side qty price o.timestamp) (erase k d),
  )
]

pub spec_elsewhere :
    (c : Call) (d : Orders) (j : ℕ) → eqb (key c) j ≡ false → lookup j (spec c d).1 ≡ lookup j d
unfolding spec
spec_elsewhere (add_call k symbol side qty price timestamp) d j n =
    ground (arith, lookup-insert k j (make_order k symbol side qty price timestamp) d)
spec_elsewhere (delete_call k) d j n = ground (arith, lookup-erase k j d)
spec_elsewhere (trade_call k qty price) d j n = elim (Option-cases (lookup k d)) [
  | inl none_there ↦ ground arith
  | inr (o, there) ↦
      ground
        (arith, lookup-erase k j d, lookup-insert k j (record o { quantity = o.quantity -ℤ qty }) d)
]
spec_elsewhere (modify_call k side qty price) d j n = elim (Option-cases (lookup k d)) [
  | inl none_there ↦ ground arith
  | inr (o, there) ↦ ground (
    arith,
    lookup-erase k j d,
    lookup-insert k j (make_order k o.symbol side qty price o.timestamp) (erase k d),
  )
]
