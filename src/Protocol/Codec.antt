-- ===== src/Protocol/Codec.antt =====
-- `pack` and `unpack` of the classes of src/order_entry_protocol.py, which differ in their layout
-- alone.
use hft_trading_system.Prelude.{Result, err, int_eq, nat_eq, ok, take}
use hft_trading_system.Struct.{Bytes, calcsize, pack, unpack}
use hft_trading_system.Protocol.Layouts.{Layout}
use hft_trading_system.Protocol.Requests.{
  DeleteOrder, Login, ModifyOrder, NewOrder, OeRequestHeader, delete_order_layout, login_layout,
  modify_order_layout, new_order_layout, oe_request_header_layout,
}
use hft_trading_system.Protocol.Responses.{
  ErrorMessage, LoginResponse, OeResponseHeader, OrderAck, OrderClosed, OrderFill, OrderReject,
  error_message_layout, login_response_layout, oe_response_header_layout, order_ack_layout,
  order_closed_layout, order_fill_layout, order_reject_layout,
}

-- The classes
pub data Kind : Type 0 where
  oe_request_header login new_order delete_order modify_order oe_response_header login_response
        order_ack order_reject order_fill order_closed error_message :
      Kind

abbrev pub Content : Kind → Type 0
Content oe_request_header = OeRequestHeader
Content login = Login
Content new_order = NewOrder
Content delete_order = DeleteOrder
Content modify_order = ModifyOrder
Content oe_response_header = OeResponseHeader
Content login_response = LoginResponse
Content order_ack = OrderAck
Content order_reject = OrderReject
Content order_fill = OrderFill
Content order_closed = OrderClosed
Content error_message = ErrorMessage

abbrev pub layout : (k : Kind) → Layout (Content k)
layout oe_request_header = oe_request_header_layout
layout login = login_layout
layout new_order = new_order_layout
layout delete_order = delete_order_layout
layout modify_order = modify_order_layout
layout oe_response_header = oe_response_header_layout
layout login_response = login_response_layout
layout order_ack = order_ack_layout
layout order_reject = order_reject_layout
layout order_fill = order_fill_layout
layout order_closed = order_closed_layout
layout error_message = error_message_layout

-- The object's `pack`
unfoldable pub pack_message : (k : Kind) → Content k → Result Bytes
unfolding pack
pack_message k m = pack (layout k).format ((layout k).fields m)

-- The class's `unpack`
unfoldable pub unpack_message : (k : Kind) → Bytes → Result (Content k)
unfolding unpack
unpack_message k bytes = elim (unpack (layout k).format (take (calcsize (layout k).format) bytes)) [
  | ok v ↦ ok ((layout k).build v)
  | err e ↦ err e
]
