-- ===== src/MarketData.antt =====
-- The data of src/market_data_struct.py: the enumerations, the messages of the feed as parsed
-- objects, and the two records of a book. Fields that the wire holds unsigned are naturals; a
-- price is signed. The quantities of a book are Python integers, since the code subtracts them.
use hft_trading_system.Prelude.{
  ℕ, ℤ, ◌≡◌, ◌↔◌, Bool, true, false, Eq, Result, ok, err, Error, arith, if◌then◌else◌, eqb,
}

pub data MsgType : Type 0 where
  heartbeat new_order delete_order modify_order trade trade_summary snapshot_info : MsgType

pub data Side : Type 0 where
  buy sell : Side

abbrev pub eq_side : Side → Side → Bool
eq_side Side.buy Side.buy = true
eq_side Side.sell Side.sell = true
eq_side _ _ = false

pub eq_side_iff : (a b : Side) → (eq_side a b ≡ true) ↔ (a ≡ b)
eq_side_iff a b = ground arith

instance abbrev pub side_eq : Eq Side
side_eq = record { beq = eq_side; beq_iff = eq_side_iff }

abbrev pub eq_msg_type : MsgType → MsgType → Bool
eq_msg_type MsgType.heartbeat MsgType.heartbeat = true
eq_msg_type MsgType.new_order MsgType.new_order = true
eq_msg_type MsgType.delete_order MsgType.delete_order = true
eq_msg_type MsgType.modify_order MsgType.modify_order = true
eq_msg_type MsgType.trade MsgType.trade = true
eq_msg_type MsgType.trade_summary MsgType.trade_summary = true
eq_msg_type MsgType.snapshot_info MsgType.snapshot_info = true
eq_msg_type _ _ = false

-- `MSG_TYPE(n)`, which raises on a number that is no member
abbrev pub to_msg_type : ℕ → Result MsgType
to_msg_type n =
    if eqb n 0
    then ok MsgType.heartbeat
    else if eqb n 1
    then ok MsgType.new_order
    else if eqb n 2
    then ok MsgType.delete_order
    else if eqb n 3
    then ok MsgType.modify_order
    else if eqb n 4
    then ok MsgType.trade
    else if eqb n 5
    then ok MsgType.trade_summary
    else if eqb n 6
    then ok MsgType.snapshot_info
    else err Error.value_error

abbrev pub msg_type_value : MsgType → ℕ
msg_type_value MsgType.heartbeat = 0
msg_type_value MsgType.new_order = 1
msg_type_value MsgType.delete_order = 2
msg_type_value MsgType.modify_order = 3
msg_type_value MsgType.trade = 4
msg_type_value MsgType.trade_summary = 5
msg_type_value MsgType.snapshot_info = 6

-- `SIDE(n)`
abbrev pub to_side : ℕ → Result Side
to_side n = if eqb n 1 then ok Side.buy else if eqb n 2 then ok Side.sell else err Error.value_error

abbrev pub side_value : Side → ℕ
side_value Side.buy = 1
side_value Side.sell = 2

pub record MdHeader : Type 0 where
  pub magic_number : ℕ
  pub length : ℕ
  pub seq_num : ℕ
  pub timestamp : ℕ
  pub msg_type : MsgType

pub record NewOrder : Type 0 where
  pub header : MdHeader
  pub order_id : ℕ
  pub symbol : ℕ
  pub side : Side
  pub quantity : ℕ
  pub price : ℤ
  pub flags : ℕ

pub record DeleteOrder : Type 0 where
  pub header : MdHeader
  pub order_id : ℕ

pub record ModifyOrder : Type 0 where
  pub header : MdHeader
  pub order_id : ℕ
  pub side : Side
  pub quantity : ℕ
  pub price : ℤ

pub record Trade : Type 0 where
  pub header : MdHeader
  pub order_id : ℕ
  pub quantity : ℕ
  pub price : ℤ

pub record TradeSummary : Type 0 where
  pub header : MdHeader
  pub symbol : ℕ
  pub aggressor_side : Side
  pub total_quantity : ℕ
  pub last_price : ℤ

pub record SnapshotInfo : Type 0 where
  pub header : MdHeader
  pub symbol : ℕ
  pub bid_count : ℕ
  pub ask_count : ℕ
  pub last_md_seq_num : ℕ

-- `MarketDataMessage`: a heartbeat is its header alone.
pub data Message : Type 0 where
  new_order : NewOrder → Message
  delete_order : DeleteOrder → Message
  modify_order : ModifyOrder → Message
  trade : Trade → Message
  trade_summary : TradeSummary → Message
  snapshot_info : SnapshotInfo → Message
  header_only : MdHeader → Message

pub record PriceLevel : Type 0 where
  pub price : ℤ
  pub total_qty : ℤ
  pub order_count : ℤ

pub record Order : Type 0 where
  pub order_id : ℕ
  pub symbol : ℕ
  pub side : Side
  pub quantity : ℤ
  pub price : ℤ
  pub timestamp : ℕ
