-- ===== src/Client/Orders.antt =====
-- The orders of src/order_entry.py: `_process_responses`, `_check_limits`, `cancel_all_orders`,
-- `delete_order`, `new_order`, `modify_order`, `immediate_or_cancel`. These call one another: a fill
-- that breaks a limit cancels the open orders, whose responses may be fills. `depth` is what is left
-- of the interpreter's stack, and at its end a call raises `RecursionError`.
use hft_trading_system.Protocol.Requests.{NewOrder, DeleteOrder}
use hft_trading_system.Prelude.{
  Action, Bool, Done, Error, List, Option, Result, [], abs, eqb, erase, err, if◌then◌else◌, insert,
  int_eq, is_some, lift, lookup, ltb_ℤ, map, modify, nat_eq, negsuc, none, ok, only_if, pos, pure,
  raise, some, suc, zero, ℕ, ℤ, ◌+◌, ◌-◌, ◌∷◌,
}
use hft_trading_system.Client.Blocks.{◌>>=◌, ◌>>◌}
use hft_trading_system.Struct.{Bytes, calcsize}
use hft_trading_system.Protocol.Enums.{
  member_of, oe_protocol_version, order_flags, reject_reasons, sides,
}
use hft_trading_system.Protocol.Codec.{Kind, layout, pack_message}
use hft_trading_system.Protocol.Responses.{order_reject_layout}
use hft_trading_system.Safety.Exposure.{OeConfig}
use hft_trading_system.Safety.Position.{get_position}
use hft_trading_system.Safety.Pnl.{get_pnl}
use hft_trading_system.Safety.Risk.{is_valid}
use hft_trading_system.Client.{OrderEntryClient, apply_fill, make_header}
use hft_trading_system.Client.Session.{
  OeResponse, Session, Venue, of_order_closed, of_order_fill, of_order_reject, on_client,
  send_and_recv,
}

abbrev unknown_order_id : ℕ
unknown_order_id = 4

abbrev duplicate_order_id : ℕ
duplicate_order_id = 3

abbrev risk_reject : ℕ
risk_reject = 10

-- `self.open_orders.pop(order_id, None)`
abbrev pub forget : ℕ → OrderEntryClient → OrderEntryClient
forget order_id c = record c { open_orders = erase order_id c.open_orders }

-- A reject that the client makes itself
abbrev pub local_reject : (seq_num last_seq_num reason order_id : ℕ) → OrderEntryClient → OeResponse
local_reject seq_num last_seq_num reason order_id c = of_order_reject (record {
  header = record {
    length = calcsize order_reject_layout.format;
    msg_type = 102;
    version = oe_protocol_version;
    seq_num = seq_num;
    last_seq_num = last_seq_num;
    client_id = c.client_id;
  };
  order_id = order_id;
  reject_reason = reason;
})

-- The quantity as `struct.pack` takes it
abbrev pub unsigned_of : ℤ → Result ℕ
unsigned_of (pos n) = ok n
unsigned_of (negsuc n) = err Error.struct_error

module _ {X : Type 0} where
  -- `_check_limits`, with `cancel_all_orders` given
  unfoldable pub check_limits : Action (Session X) Done → ℕ → Action (Session X) Done
  unfolding get_position
  check_limits cancel symbol s =
      let position = get_position symbol s.client.position_tracker in
      let total_pnl = get_pnl s.client.pnl_tracker in
      (do
        only_if (ltb_ℤ total_pnl s.client.pnl_min_val) cancel
        only_if (ltb_ℤ s.client.position_limit (pos (abs position))) cancel)
        s

  abbrev pub check_symbol : Action (Session X) Done → Option ℕ → Action (Session X) Done
  check_symbol cancel none = pure tt
  check_symbol cancel (some symbol) = check_limits cancel symbol

  -- The branches of `_process_responses`
  unfoldable pub process_response : Action (Session X) Done → OeResponse → Action (Session X) Done
  unfolding check_limits apply_fill
  process_response cancel (of_order_reject m) = do
    reason ← lift (member_of reject_reasons m.reject_reason)
    if eqb reason unknown_order_id
        then on_client (modify (forget m.order_id))
        else raise Error.key_error
  process_response cancel (of_order_fill m) = do
    filled ← on_client (apply_fill m)
    check_symbol cancel filled
  process_response cancel (of_order_closed m) = on_client (modify (forget m.order_id))
  process_response cancel _ = pure tt

  unfoldable pub process_responses :
      Action (Session X) Done → List OeResponse → Action (Session X) Done
  unfolding process_response
  process_responses cancel [] = pure tt
  process_responses cancel (m ∷ ms) = process_response cancel m >> process_responses cancel ms

  -- The loop of `cancel_all_orders` over the keys as they were; whatever goes wrong is logged.
  unfoldable pub cancel_each :
      (ℕ → Action (Session X) (List OeResponse)) → List ℕ → Action (Session X) Done
  cancel_each delete [] s = (ok tt, s)
  cancel_each delete (order_id ∷ ids) s =
      cancel_each delete ids
        (if is_some (lookup order_id s.client.open_orders) then (delete order_id s).1 else s)

module _ {X : Type 0} (v : Venue X) where
  -- A request with its responses, and what they change
  unfoldable pub exchange_messages :
      Action (Session X) Done → Bytes → Action (Session X) (List OeResponse)
  unfolding send_and_recv process_responses
  exchange_messages cancel bytes = do
    responses ← send_and_recv v bytes
    process_responses cancel responses
    pure responses

  -- `delete_order`, with `cancel_all_orders` given
  unfoldable pub delete_with : Action (Session X) Done → ℕ → Action (Session X) (List OeResponse)
  unfolding make_header pack_message exchange_messages
  delete_with cancel order_id = do
    header ← on_client (make_header 2 (calcsize (layout Kind.delete_order).format))
    let msg : DeleteOrder = record { header = header; order_id = order_id }
    bytes ← lift (pack_message Kind.delete_order msg)
    exchange_messages cancel bytes

  unfoldable pub cancel_all_orders : (depth : ℕ) → Action (Session X) Done
  unfolding delete_with cancel_each
  cancel_all_orders zero s = (err Error.recursion_error, s)
  cancel_all_orders (suc depth) s =
      cancel_each (delete_with (cancel_all_orders depth)) (map (λ p. p.0) s.client.open_orders) s

  unfoldable pub delete_order : (depth : ℕ) → ℕ → Action (Session X) (List OeResponse)
  unfolding cancel_all_orders delete_with
  delete_order depth = delete_with (cancel_all_orders depth)

  -- `is_valid` on the client's own trackers
  abbrev pub risk_check : (symbol side : ℕ) → (quantity price : ℤ) → Action (Session X) Bool
  risk_check symbol side quantity price s =
      let c = s.client in
      let (verdict, risk) =
        is_valid symbol side quantity price c.open_orders c.position_tracker c.pnl_tracker
          c.resp_seq (v.clock s.outside) c.risk_tracker in
      (ok verdict.0, record s { client = record c { risk_tracker = risk } })

  abbrev place : (order_id : ℕ) → OeConfig → OrderEntryClient → OrderEntryClient
  place order_id o c = record c { open_orders = insert order_id o c.open_orders }

  -- `new_order` from the header on
  unfoldable pub submit :
      (depth order_id symbol side : ℕ)
      → (quantity price : ℤ) → (flags : ℕ) → Action (Session X) (List OeResponse)
  unfolding make_header pack_message exchange_messages cancel_all_orders
  submit depth order_id symbol side quantity price flags = do
    header ← on_client (make_header 1 (calcsize (layout Kind.new_order).format))
    lift (member_of sides side)
    lift (member_of order_flags flags)
    on_client (
        modify (
          place order_id (record {
            symbol = symbol;
            side = side;
            quantity = quantity;
            price = price;
            filled = pos 0;
          })))
    amount ← lift (unsigned_of quantity)
    let msg : NewOrder = record {
      header = header;
      order_id = order_id;
      symbol = symbol;
      side = side;
      quantity = amount;
      price = price;
      flags = flags;
    }
    bytes ← lift (pack_message Kind.new_order msg)
    exchange_messages (cancel_all_orders depth) bytes

  -- The reject of an order that the risk check refused takes a sequence number.
  abbrev pub refuse : ℕ → Action (Session X) (List OeResponse)
  refuse order_id s =
      let seq_num = s.client.seq_num + 1 in
      (
        ok (local_reject seq_num (seq_num - 1) risk_reject order_id s.client ∷ []),
        record s { client = record s.client { seq_num = seq_num } },
      )

  unfoldable pub new_order :
      (depth order_id symbol side : ℕ)
      → (quantity price : ℤ) → (flags : ℕ) → Action (Session X) (List OeResponse)
  unfolding submit is_valid
  new_order depth order_id symbol side quantity price flags s =
      if is_some (lookup order_id s.client.open_orders)
      then (ok (local_reject 0 s.client.seq_num duplicate_order_id order_id s.client ∷ []), s)
      else (do
        valid ← risk_check symbol side quantity price
        if valid then submit depth order_id symbol side quantity price flags else refuse order_id)
          s

  unfoldable pub immediate_or_cancel :
      (depth order_id symbol side : ℕ) → (quantity price : ℤ) → Action (Session X) (List OeResponse)
  unfolding new_order
  immediate_or_cancel depth order_id symbol side quantity price =
      new_order depth order_id symbol side quantity price 1
