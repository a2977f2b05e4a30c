-- ===== src/Parser/Tagged.antt =====
-- What src/parser.py gives for any bytes.
use hft_trading_system.Prelude.{
  Result, Result-cases, [], ap, arith, bound_ok, drop, err, get_or, inl, inr, int_eq, nat_eq, ok,
  refl, suc, take, zero, ℕ, ◌+◌, ◌<◌, ◌∙◌, ◌∷◌, ◌≡◌,
}
use hft_trading_system.MarketData.{
  MdHeader, Message, ModifyOrder, MsgType, NewOrder, TradeSummary, side_eq, to_msg_type, to_side,
}
use hft_trading_system.Struct.{Bytes, decode, decode_all, from_bytes, unpack}
use hft_trading_system.Parser.{
  construct, header_format, modify_order_format, new_order_format, parse_message, read_body,
  read_delete_order, read_header, read_modify_order, read_new_order, read_snapshot_info, read_trade,
  read_trade_summary, trade_summary_format,
}
use hft_trading_system.Parser.Feed.{header_of, kind_of}

get_or-take : (n i : ℕ) (bs : Bytes) → i < n → get_or (take n bs) i 0 ≡ get_or bs i 0
get_or-take zero i bs h = ground arith
get_or-take (suc n) i [] h = refl
get_or-take (suc n) zero (b ∷ bs) h = refl
get_or-take (suc n) (suc i) (b ∷ bs) h = get_or-take n i bs (omega arith)

get_or-drop : (n i : ℕ) (bs : Bytes) → get_or (drop n bs) i 0 ≡ get_or bs (n + i) 0
get_or-drop zero i bs = ground arith
get_or-drop (suc n) i [] = refl
get_or-drop (suc n) i (b ∷ bs) = ground (arith, get_or-drop n i bs)

from_bytes-take : (bs : Bytes) → from_bytes (take 1 bs) ≡ get_or bs 0 0
unfolding from_bytes
from_bytes-take [] = refl
from_bytes-take (b ∷ bs) = omega arith

type_byte : (bs : Bytes) → (decode_all header_format (take 23 bs)).1.1.1.1.0 ≡ get_or bs 22 0
unfolding decode_all decode
type_byte bs =
    let a = take 23 bs in
    let b = drop 8 a in
    let c = drop 2 b in
    let d = drop 4 c in
    from_bytes-take (drop 8 d)
    ∙ get_or-drop 8 0 d
    ∙ get_or-drop 4 8 c
    ∙ get_or-drop 2 12 b
    ∙ get_or-drop 8 14 a
    ∙ get_or-take 23 22 bs (omega arith)

read_header-type :
    (bs : Bytes) (h : MdHeader)
    → read_header bs ≡ ok h
    → to_msg_type (get_or bs 22 0) ≡ ok h.msg_type
unfolding read_header unpack
read_header-type bs h e = ground (arith, type_byte bs)

-- The header inside a message that was read
abbrev header_in : {M : Type 0} → (M → MdHeader) → Result M → Result MdHeader
header_in header (ok m) = ok (header m)
header_in header (err e) = err e

read_new_order-header :
    (bs : Bytes) (m : NewOrder) → read_new_order bs ≡ ok m → read_header bs ≡ ok m.header
unfolding read_new_order
read_new_order-header bs m e =
    let (h, header, e1) = bound_ok (read_header bs) _ m e in
    let (v, body, e2) = bound_ok (read_body new_order_format bs) _ m e1 in
    let (side, sided, e3) = bound_ok (to_side v.1.1.0) _ m e2 in
    header ∙ ap (header_in (λ (o : NewOrder). o.header)) e3

read_modify_order-header :
    (bs : Bytes) (m : ModifyOrder) → read_modify_order bs ≡ ok m → read_header bs ≡ ok m.header
unfolding read_modify_order
read_modify_order-header bs m e =
    let (h, header, e1) = bound_ok (read_header bs) _ m e in
    let (v, body, e2) = bound_ok (read_body modify_order_format bs) _ m e1 in
    let (side, sided, e3) = bound_ok (to_side v.1.0) _ m e2 in
    header ∙ ap (header_in (λ (o : ModifyOrder). o.header)) e3

read_trade_summary-header :
    (bs : Bytes) (m : TradeSummary) → read_trade_summary bs ≡ ok m → read_header bs ≡ ok m.header
unfolding read_trade_summary
read_trade_summary-header bs m e =
    let (h, header, e1) = bound_ok (read_header bs) _ m e in
    let (v, body, e2) = bound_ok (read_body trade_summary_format bs) _ m e1 in
    let (side, sided, e3) = bound_ok (to_side v.1.0) _ m e2 in
    header ∙ ap (header_in (λ (o : TradeSummary). o.header)) e3

construct-kind :
    (t : MsgType) (bs : Bytes) (m : Message)
    → construct t bs ≡ ok m
    → (kind_of m ≡ t) × (read_header bs ≡ ok (header_of m))
unfolding construct read_delete_order read_trade read_snapshot_info
construct-kind MsgType.heartbeat bs m e = ground arith
construct-kind MsgType.new_order bs m e = elim (Result-cases (read_new_order bs)) [
  | inl (a, e') ↦ ground (arith, read_new_order-header bs a e')
  | inr (c, e') ↦ ground arith
]
construct-kind MsgType.delete_order bs m e = ground arith
construct-kind MsgType.modify_order bs m e = elim (Result-cases (read_modify_order bs)) [
  | inl (a, e') ↦ ground (arith, read_modify_order-header bs a e')
  | inr (c, e') ↦ ground arith
]
construct-kind MsgType.trade bs m e = ground arith
construct-kind MsgType.trade_summary bs m e = elim (Result-cases (read_trade_summary bs)) [
  | inl (a, e') ↦ ground (arith, read_trade_summary-header bs a e')
  | inr (c, e') ↦ ground arith
]
construct-kind MsgType.snapshot_info bs m e = ground arith

-- Of whatever bytes, a message that `parse_message` returns is of the class that its header names.
pub parse_message-IsTagged :
    (bs : Bytes) (m : Message) → parse_message bs ≡ ok m → (header_of m).msg_type ≡ kind_of m
unfolding parse_message
parse_message-IsTagged bs m e = elim (Result-cases (to_msg_type (get_or bs 22 0))) [
  | inl (t, typed) ↦
      let built : construct t bs ≡ ok m = ground arith in
      let there = construct-kind t bs m built in
      let same = read_header-type bs (header_of m) there.1 in ground (arith, there.0, same)
  | inr (c, wrong) ↦ ground arith
]
