-- ===== src/BookManager.antt =====
-- `class OrderBookManager` and `dispatch_live_message` of src/order_book.py. Logging is left out:
-- it changes nothing.
pub mod Books
pub mod Keys
pub mod Step
pub mod Names
pub mod Feed
pub mod Dispatch
use hft_trading_system.Prelude.{
  Action, Dict, Done, Error, [], arith, erase, err, if◌then◌else◌, insert, int_eq, is_some, lookup,
  modify, nat_eq, none, ok, pos, pure, raise, some, ℕ, ℤ, ◌+◌, ◌>>=◌, ◌>>◌, ◌≡◌,
}
use hft_trading_system.MarketData.{MdHeader, Message, MsgType, Side, eq_msg_type, side_eq}
use hft_trading_system.OrderBook.{
  OrderBook, add_order, delete_order, empty_book, modify_order, trade_order,
}

pub record OrderBookManager : Type 0 where
  pub books : Dict ℕ OrderBook
  pub order_id_to_symbol : Dict ℕ ℕ
  pub unknown_delete_count : ℕ

abbrev pub empty_manager : OrderBookManager
empty_manager = record { books = []; order_id_to_symbol = []; unknown_delete_count = 0 }

-- `get_or_create_book`, for its effect on the dictionary
unfoldable pub create_book : ℕ → OrderBookManager → OrderBookManager
create_book symbol m =
    if is_some (lookup symbol m.books)
    then m
    else record m { books = insert symbol (empty_book symbol) m.books }

-- A call of a method of `self.books[symbol]`, an object that the dictionary refers to
unfoldable pub in_book : ℕ → Action OrderBook Done → Action OrderBookManager Done
in_book symbol method m = elim (lookup symbol m.books) [
  | none ↦ (err Error.key_error, m)
  | some b ↦ let (r, b') = method b in (r, record m { books = insert symbol b' m.books })
]

unfoldable pub process_new_order :
    (seq_num timestamp order_id symbol : ℕ)
    → Side
    → (qty price : ℤ) → (flags : ℕ) → Action OrderBookManager Done
process_new_order seq_num timestamp order_id symbol side qty price flags = do
  modify (λ m. record m { order_id_to_symbol = insert order_id symbol m.order_id_to_symbol })
  modify (create_book symbol)
  in_book symbol (add_order order_id symbol side qty price timestamp)

unfoldable pub process_delete_order : (seq_num order_id : ℕ) → Action OrderBookManager Done
process_delete_order seq_num order_id m = elim (lookup order_id m.order_id_to_symbol) [
  | none ↦ (ok tt, record m { unknown_delete_count = m.unknown_delete_count + 1 })
  | some symbol ↦
      (in_book symbol (delete_order order_id)
          >> modify (λ n. record n { order_id_to_symbol = erase order_id n.order_id_to_symbol }))
        m
]

-- A message about an order that the manager must know
abbrev pub known : ℕ → Action OrderBook Done → Action OrderBookManager Done
known order_id method m = elim (lookup order_id m.order_id_to_symbol) [
  | none ↦ (err Error.key_error, m)
  | some symbol ↦ in_book symbol method m
]

unfoldable pub process_trade :
    (seq_num order_id : ℕ) → (qty price : ℤ) → Action OrderBookManager Done
process_trade seq_num order_id qty price = known order_id (trade_order order_id qty price)

unfoldable pub process_modify_order :
    (seq_num order_id : ℕ) → Side → (qty price : ℤ) → Action OrderBookManager Done
process_modify_order seq_num order_id side qty price =
    known order_id (modify_order order_id side qty price)

-- `process_trade_summary` only writes to the log.
unfoldable pub process_trade_summary :
    (seq_num symbol : ℕ) → Side → (total_qty : ℕ) → (last_price : ℤ) → Action OrderBookManager Done
process_trade_summary seq_num symbol aggressor total_qty last_price = pure tt

-- The tests on the message type and on the class of the body stand together: each branch needs both,
-- and what fits no branch is logged.
unfoldable pub dispatch_live_message : MdHeader → Message → Action OrderBookManager Done
dispatch_live_message header (Message.new_order body) =
    if eq_msg_type header.msg_type MsgType.new_order
    then process_new_order header.seq_num header.timestamp body.order_id body.symbol body.side
        (pos body.quantity) body.price body.flags
    else pure tt
dispatch_live_message header (Message.delete_order body) =
    if eq_msg_type header.msg_type MsgType.delete_order
    then process_delete_order header.seq_num body.order_id
    else pure tt
dispatch_live_message header (Message.modify_order body) =
    if eq_msg_type header.msg_type MsgType.modify_order
    then process_modify_order header.seq_num body.order_id body.side (pos body.quantity) body.price
    else pure tt
dispatch_live_message header (Message.trade body) =
    if eq_msg_type header.msg_type MsgType.trade
    then process_trade header.seq_num body.order_id (pos body.quantity) body.price
    else pure tt
dispatch_live_message header (Message.trade_summary body) =
    if eq_msg_type header.msg_type MsgType.trade_summary
    then process_trade_summary header.seq_num body.symbol body.aggressor_side body.total_quantity
        body.last_price
    else pure tt
dispatch_live_message header (Message.snapshot_info body) =
    if eq_msg_type header.msg_type MsgType.snapshot_info then raise Error.key_error else pure tt
dispatch_live_message header (Message.header_only body) = pure tt
