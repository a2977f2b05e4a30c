-- ===== src/BookManager/Dispatch.antt =====
-- `dispatch_live_message` of src/order_book.py: what a message of the live feed does to the orders.
use hft_trading_system.Prelude.{
  Done, Error, Option, Result, ap, arith, err, if◌then◌else◌, int_eq, nat_eq, none, ok, pos, some,
  ◌≡◌, ◌≤ℤ◌,
}
use hft_trading_system.MarketData.{MdHeader, Message, MsgType, Order, eq_msg_type, side_eq}
use hft_trading_system.OrderBook.Spec.{Call, add_call, delete_call, modify_call, trade_call}
use hft_trading_system.BookManager.{OrderBookManager, dispatch_live_message, process_trade_summary}
use hft_trading_system.BookManager.Books.{IsSound, find_order}
use hft_trading_system.BookManager.Feed.{
  Follows, process_delete_order-Follows, process_modify_order-Follows, process_new_order-Follows,
  process_trade-Follows,
}

-- The message type that a parsed body carries
abbrev pub kind : Message → MsgType
kind (Message.new_order body) = MsgType.new_order
kind (Message.delete_order body) = MsgType.delete_order
kind (Message.modify_order body) = MsgType.modify_order
kind (Message.trade body) = MsgType.trade
kind (Message.trade_summary body) = MsgType.trade_summary
kind (Message.snapshot_info body) = MsgType.snapshot_info
kind (Message.header_only body) = MsgType.heartbeat

-- The call that a message stands for, if it is about an order
abbrev pub message_call : MdHeader → Message → Option Call
message_call header (Message.new_order body) =
    some
      (add_call body.order_id body.symbol body.side (pos body.quantity) body.price header.timestamp)
message_call header (Message.delete_order body) = some (delete_call body.order_id)
message_call header (Message.modify_order body) =
    some (modify_call body.order_id body.side (pos body.quantity) body.price)
message_call header (Message.trade body) =
    some (trade_call body.order_id (pos body.quantity) body.price)
message_call header _ = none

-- What the exchange is taken to send: a number of an order that is there is not given to a new one,
-- and a trade is no larger than its order.
abbrev pub IsFair : Message → OrderBookManager → Type 0
IsFair (Message.new_order body) m = find_order body.order_id m ≡ none
IsFair (Message.trade body) m =
    (o : Order) → find_order body.order_id m ≡ some o → pos body.quantity ≤ℤ o.quantity
IsFair _ m = Unit {0}

-- What a dispatched message has done: the call that it stands for; or nothing, where an
-- announcement of a snapshot is an error on this channel.
abbrev pub Dispatched :
    OrderBookManager → Option Call → MsgType → Result Done × OrderBookManager → Type 0
Dispatched m (some c) t x = Follows m c x
Dispatched m none t x =
    x ≡ (if eq_msg_type t MsgType.snapshot_info then err Error.key_error else ok tt, m)

-- Of a manager whose books are well-formed, and a live message whose header names its class and
-- that is fair (a new order has a number that no order has, and a trade is no larger than its
-- order): the message does to the order that it names, in whichever book it stands, what the same
-- call does to a plain dictionary of orders; it touches no other order, and the books stay
-- well-formed. It raises exactly where the dictionary would, or for an announcement of a snapshot.
pub dispatch_live_message_lem :
    (header : MdHeader) (body : Message) (m : OrderBookManager)
    → IsSound m
    → header.msg_type ≡ kind body
    → IsFair body m
    → Dispatched m (message_call header body) header.msg_type (dispatch_live_message header body m)
unfolding dispatch_live_message
dispatch_live_message_lem header (Message.new_order body) m sound typed fair =
    rw (ap (λ t. eq_msg_type t MsgType.new_order) typed) (
      process_new_order-Follows header.seq_num header.timestamp body.order_id body.symbol body.side
        (pos body.quantity) body.price body.flags m sound fair)
dispatch_live_message_lem header (Message.delete_order body) m sound typed fair =
    rw (ap (λ t. eq_msg_type t MsgType.delete_order) typed)
      (process_delete_order-Follows header.seq_num body.order_id m sound)
dispatch_live_message_lem header (Message.modify_order body) m sound typed fair =
    rw (ap (λ t. eq_msg_type t MsgType.modify_order) typed) (
      process_modify_order-Follows header.seq_num body.order_id body.side (pos body.quantity)
        body.price m sound)
dispatch_live_message_lem header (Message.trade body) m sound typed fair =
    rw (ap (λ t. eq_msg_type t MsgType.trade) typed) (
      process_trade-Follows header.seq_num body.order_id (pos body.quantity) body.price m sound
        fair)
dispatch_live_message_lem header (Message.trade_summary body) m sound typed fair =
    unfold process_trade_summary in ground arith
dispatch_live_message_lem header (Message.snapshot_info body) m sound typed fair = ground arith
dispatch_live_message_lem header (Message.header_only body) m sound typed fair = ground arith
