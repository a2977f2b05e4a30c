-- ===== src/Parser/Feed.antt =====
-- The datagrams that the feed sends, as the layouts in src/market_data_struct.py describe them, and
-- their reading by src/parser.py.
use mathlib.Core.Path.{subst}
use mathlib.Core.List.{append_assoc}
use hft_trading_system.Prelude.{
  List, [], arith, drop, drop-append, false, get_or, int_eq, length, length-append, ltb, nat_eq, ok,
  refl, sym, true, ◌%◌, ◌++◌, ◌≡◌,
}
use hft_trading_system.MarketData.{
  MdHeader, Message, MsgType, Side, msg_type_value, side_eq, side_value, to_msg_type, to_side,
}
use hft_trading_system.Struct.{Bytes, Code, Fields, encode, encode_all, fits_all, to_bytes}
use hft_trading_system.Struct.RoundTrip.{length-encode_all, on_wire_all, unpack-encode_all}
use hft_trading_system.Parser.{
  construct, delete_order_format, header_format, modify_order_format, new_order_format,
  parse_message, read_body, read_delete_order, read_header, read_modify_order, read_new_order,
  read_snapshot_info, read_trade, read_trade_summary, snapshot_info_format, trade_format,
  trade_summary_format,
}

abbrev pub header_of : Message → MdHeader
header_of (Message.new_order m) = m.header
header_of (Message.delete_order m) = m.header
header_of (Message.modify_order m) = m.header
header_of (Message.trade m) = m.header
header_of (Message.trade_summary m) = m.header
header_of (Message.snapshot_info m) = m.header
header_of (Message.header_only header) = header

abbrev pub kind_of : Message → MsgType
kind_of (Message.new_order m) = MsgType.new_order
kind_of (Message.delete_order m) = MsgType.delete_order
kind_of (Message.modify_order m) = MsgType.modify_order
kind_of (Message.trade m) = MsgType.trade
kind_of (Message.trade_summary m) = MsgType.trade_summary
kind_of (Message.snapshot_info m) = MsgType.snapshot_info
kind_of (Message.header_only header) = MsgType.heartbeat

abbrev pub header_values : MdHeader → Fields header_format
header_values h =
    (h.magic_number, (h.length, (h.seq_num, (h.timestamp, (msg_type_value h.msg_type, tt)))))

abbrev pub body_format : MsgType → List Code
body_format MsgType.heartbeat = []
body_format MsgType.new_order = new_order_format
body_format MsgType.delete_order = delete_order_format
body_format MsgType.modify_order = modify_order_format
body_format MsgType.trade = trade_format
body_format MsgType.trade_summary = trade_summary_format
body_format MsgType.snapshot_info = snapshot_info_format

abbrev pub body_values : (m : Message) → Fields (body_format (kind_of m))
body_values (Message.new_order m) =
    (m.order_id, (m.symbol, (side_value m.side, (m.quantity, (m.price, (m.flags, tt))))))
body_values (Message.delete_order m) = (m.order_id, tt)
body_values (Message.modify_order m) =
    (m.order_id, (side_value m.side, (m.quantity, (m.price, tt))))
body_values (Message.trade m) = (m.order_id, (m.quantity, (m.price, tt)))
body_values (Message.trade_summary m) =
    (m.symbol, (side_value m.aggressor_side, (m.total_quantity, (m.last_price, tt))))
body_values (Message.snapshot_info m) =
    (m.symbol, (m.bid_count, (m.ask_count, (m.last_md_seq_num, tt))))
body_values (Message.header_only header) = tt

-- The bytes of a message on the wire
unfoldable pub datagram : Message → Bytes
datagram m =
    encode_all header_format (header_values (header_of m))
    ++ encode_all (body_format (kind_of m)) (body_values m)

-- A message whose header names its class and whose fields are in the range of their wire types
pub record IsSendable (m : Message) : Type 0 where
  pub tagged : (header_of m).msg_type ≡ kind_of m
  pub header_fits : fits_all header_format (header_values (header_of m)) ≡ true
  pub body_fits : fits_all (body_format (kind_of m)) (body_values m) ≡ true

to_msg_type-value : (t : MsgType) → to_msg_type (msg_type_value t) ≡ ok t
to_msg_type-value t = ground arith

to_side-value : (s : Side) → to_side (side_value s) ≡ ok s
to_side-value s = ground arith

pub read_header-datagram :
    (h : MdHeader) (rest : Bytes)
    → fits_all header_format (header_values h) ≡ true
    → read_header (encode_all header_format (header_values h) ++ rest) ≡ ok h
unfolding read_header
read_header-datagram h rest fit =
    rw (unpack-encode_all header_format (header_values h) rest fit, read_header)
      (rw (to_msg_type-value h.msg_type) refl)

read_body-datagram :
    (h : MdHeader) (cs : List Code) (vs : Fields cs) (rest : Bytes)
    → fits_all cs vs ≡ true
    → read_body cs (encode_all header_format (header_values h) ++ (encode_all cs vs ++ rest))
      ≡ ok (on_wire_all cs vs)
unfolding read_body
read_body-datagram h cs vs rest fit =
    let head = encode_all header_format (header_values h) in
    let behind : drop 23 (head ++ (encode_all cs vs ++ rest)) ≡ encode_all cs vs ++ rest =
      subst (λ n. drop n (head ++ (encode_all cs vs ++ rest)) ≡ encode_all cs vs ++ rest)
        (length-encode_all header_format (header_values h))
        (drop-append head (encode_all cs vs ++ rest)) in
    rw behind (unpack-encode_all cs vs rest fit)

byte_22 :
    (h : MdHeader) (rest : Bytes)
    → get_or (encode_all header_format (header_values h) ++ rest) 22 0
      ≡ msg_type_value h.msg_type % 256
unfolding encode_all encode to_bytes
byte_22 h rest = refl

small_value : (t : MsgType) → msg_type_value t % 256 ≡ msg_type_value t
small_value t = ground arith

construct-datagram :
    (m : Message) (rest : Bytes)
    → IsSendable m
    → construct (kind_of m) (
        encode_all header_format (header_values (header_of m))
        ++ (encode_all (body_format (kind_of m)) (body_values m) ++ rest))
      ≡ ok m
unfolding construct read_new_order read_delete_order read_modify_order read_trade read_trade_summary
    read_snapshot_info
construct-datagram (Message.new_order m) rest s =
    let body = body_values (Message.new_order m) in
    rw
      (
        read_header-datagram m.header (encode_all new_order_format body ++ rest) s.header_fits,
        read_body-datagram m.header new_order_format body rest s.body_fits,
        to_side-value m.side,
      )
      refl
construct-datagram (Message.delete_order m) rest s =
    let body = body_values (Message.delete_order m) in
    rw
      (
        read_header-datagram m.header (encode_all delete_order_format body ++ rest) s.header_fits,
        read_body-datagram m.header delete_order_format body rest s.body_fits,
      )
      refl
construct-datagram (Message.modify_order m) rest s =
    let body = body_values (Message.modify_order m) in
    rw
      (
        read_header-datagram m.header (encode_all modify_order_format body ++ rest) s.header_fits,
        read_body-datagram m.header modify_order_format body rest s.body_fits,
        to_side-value m.side,
      )
      refl
construct-datagram (Message.trade m) rest s =
    let body = body_values (Message.trade m) in
    rw
      (
        read_header-datagram m.header (encode_all trade_format body ++ rest) s.header_fits,
        read_body-datagram m.header trade_format body rest s.body_fits,
      )
      refl
construct-datagram (Message.trade_summary m) rest s =
    let body = body_values (Message.trade_summary m) in
    rw
      (
        read_header-datagram m.header (encode_all trade_summary_format body ++ rest) s.header_fits,
        read_body-datagram m.header trade_summary_format body rest s.body_fits,
        to_side-value m.aggressor_side,
      )
      refl
construct-datagram (Message.snapshot_info m) rest s =
    let body = body_values (Message.snapshot_info m) in
    rw
      (
        read_header-datagram m.header (encode_all snapshot_info_format body ++ rest) s.header_fits,
        read_body-datagram m.header snapshot_info_format body rest s.body_fits,
      )
      refl
construct-datagram (Message.header_only h) rest s =
    rw (read_header-datagram h (encode_all [] tt ++ rest) s.header_fits) refl

-- A datagram that begins with a message of the feed, whatever stands behind it, is parsed as that
-- message, if its header names its class and its fields are in the range of their wire types.
pub parse_message-datagram :
    (m : Message) (rest : Bytes) → IsSendable m → parse_message (datagram m ++ rest) ≡ ok m
unfolding parse_message datagram
parse_message-datagram m rest s =
    let h = header_of m in
    let head = encode_all header_format (header_values h) in
    let body = encode_all (body_format (kind_of m)) (body_values m) in
    let long : ltb (length (head ++ (body ++ rest))) 23 ≡ false = ground (
      arith,
      length-append head (body ++ rest),
      length-encode_all header_format (header_values h),
    ) in
    rw
      (
        append_assoc head body rest,
        long,
        byte_22 h (body ++ rest),
        small_value h.msg_type,
        to_msg_type-value h.msg_type,
      )
      (subst (λ t. construct t (head ++ (body ++ rest)) ≡ ok m) (sym s.tagged)
        (construct-datagram m rest s))
