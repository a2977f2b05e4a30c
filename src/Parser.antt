-- ===== src/Parser.antt =====
-- The constructors of the message classes of src/market_data_struct.py, and `parse_message` of
-- src/parser.py. Struct stands for the bytes of the datagram.
pub mod Feed
pub mod Tagged
use hft_trading_system.Prelude.{
  Error, List, Result, [], arith, drop, err, get_or, if◌then◌else◌, int_eq, length, ltb, nat_eq, ok,
  take, ◌>>◌, ◌∷◌, ◌≡◌,
}
use hft_trading_system.MarketData.{
  DeleteOrder, MdHeader, Message, ModifyOrder, MsgType, NewOrder, SnapshotInfo, Trade, TradeSummary,
  side_eq, to_msg_type, to_side,
}
use hft_trading_system.Struct.{Bytes, Code, Fields, calcsize, signed, unpack, unsigned}

infixl 5 ◌>>=◌
abbrev ◌>>=◌ : {A B : Type 0} → Result A → (A → Result B) → Result B
r >>= f = elim r [ ok a ↦ f a | err e ↦ err e ]

abbrev pub header_format : List Code
header_format = unsigned 8 ∷ unsigned 2 ∷ unsigned 4 ∷ unsigned 8 ∷ unsigned 1 ∷ []

abbrev pub new_order_format : List Code
new_order_format = unsigned 8 ∷ unsigned 4 ∷ unsigned 1 ∷ unsigned 4 ∷ signed ∷ unsigned 1 ∷ []

abbrev pub delete_order_format : List Code
delete_order_format = unsigned 8 ∷ []

abbrev pub modify_order_format : List Code
modify_order_format = unsigned 8 ∷ unsigned 1 ∷ unsigned 4 ∷ signed ∷ []

abbrev pub trade_format : List Code
trade_format = unsigned 8 ∷ unsigned 4 ∷ signed ∷ []

abbrev pub trade_summary_format : List Code
trade_summary_format = unsigned 4 ∷ unsigned 1 ∷ unsigned 4 ∷ signed ∷ []

abbrev pub snapshot_info_format : List Code
snapshot_info_format = unsigned 4 ∷ unsigned 4 ∷ unsigned 4 ∷ unsigned 4 ∷ []

-- `MDHeader(data)`
unfoldable pub read_header : Bytes → Result MdHeader
unfolding unpack
read_header bytes = do
  v ← unpack header_format (take (calcsize header_format) bytes)
  msg_type ← to_msg_type v.1.1.1.1.0
  ok (record {
    magic_number = v.0;
    length = v.1.0;
    seq_num = v.1.1.0;
    timestamp = v.1.1.1.0;
    msg_type = msg_type;
  })

-- `struct.unpack` of the slice behind the header
unfoldable pub read_body : (cs : List Code) → Bytes → Result (Fields cs)
unfolding unpack
read_body cs bytes = unpack cs (take (calcsize cs) (drop (calcsize header_format) bytes))

unfoldable pub read_new_order : Bytes → Result NewOrder
unfolding read_header read_body
read_new_order bytes = do
  header ← read_header bytes
  v ← read_body new_order_format bytes
  side ← to_side v.1.1.0
  ok (record {
    header = header;
    order_id = v.0;
    symbol = v.1.0;
    side = side;
    quantity = v.1.1.1.0;
    price = v.1.1.1.1.0;
    flags = v.1.1.1.1.1.0;
  })

unfoldable pub read_delete_order : Bytes → Result DeleteOrder
unfolding read_header read_body
read_delete_order bytes = do
  header ← read_header bytes
  v ← read_body delete_order_format bytes
  ok (record { header = header; order_id = v.0 })

unfoldable pub read_modify_order : Bytes → Result ModifyOrder
unfolding read_header read_body
read_modify_order bytes = do
  header ← read_header bytes
  v ← read_body modify_order_format bytes
  side ← to_side v.1.0
  ok (record {
    header = header;
    order_id = v.0;
    side = side;
    quantity = v.1.1.0;
    price = v.1.1.1.0;
  })

unfoldable pub read_trade : Bytes → Result Trade
unfolding read_header read_body
read_trade bytes = do
  header ← read_header bytes
  v ← read_body trade_format bytes
  ok (record { header = header; order_id = v.0; quantity = v.1.0; price = v.1.1.0 })

unfoldable pub read_trade_summary : Bytes → Result TradeSummary
unfolding read_header read_body
read_trade_summary bytes = do
  header ← read_header bytes
  v ← read_body trade_summary_format bytes
  side ← to_side v.1.0
  ok (record {
    header = header;
    symbol = v.0;
    aggressor_side = side;
    total_quantity = v.1.1.0;
    last_price = v.1.1.1.0;
  })

unfoldable pub read_snapshot_info : Bytes → Result SnapshotInfo
unfolding read_header read_body
read_snapshot_info bytes = do
  header ← read_header bytes
  v ← read_body snapshot_info_format bytes
  ok (record {
    header = header;
    symbol = v.0;
    bid_count = v.1.0;
    ask_count = v.1.1.0;
    last_md_seq_num = v.1.1.1.0;
  })

-- The look-up in `_MSG_CONSTRUCTORS` and the constructor's call, behind the test for a heartbeat
unfoldable pub construct : MsgType → Bytes → Result Message
unfolding read_header read_new_order read_delete_order read_modify_order read_trade
    read_trade_summary read_snapshot_info
construct MsgType.heartbeat bytes = read_header bytes >>= λ m. ok (Message.header_only m)
construct MsgType.new_order bytes = read_new_order bytes >>= λ m. ok (Message.new_order m)
construct MsgType.delete_order bytes = read_delete_order bytes >>= λ m. ok (Message.delete_order m)
construct MsgType.modify_order bytes = read_modify_order bytes >>= λ m. ok (Message.modify_order m)
construct MsgType.trade bytes = read_trade bytes >>= λ m. ok (Message.trade m)
construct MsgType.trade_summary bytes =
    read_trade_summary bytes >>= λ m. ok (Message.trade_summary m)
construct MsgType.snapshot_info bytes =
    read_snapshot_info bytes >>= λ m. ok (Message.snapshot_info m)

unfoldable pub parse_message : Bytes → Result Message
unfolding construct
parse_message bytes =
    if ltb (length bytes) (calcsize header_format)
    then err Error.value_error
    else to_msg_type (get_or bytes 22 0) >>= λ msg_type. construct msg_type bytes
