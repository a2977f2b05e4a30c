-- ===== src/Tests/Sessions.antt =====
-- Runs of the session of src/order_entry.py against small exchanges.
use hft_trading_system.Prelude.{
  Error, List, [], abs, arith, drop, err, false, inl, insert, int_eq, is_some, length, lookup,
  nat_eq, neg, ok, pos, refl, some, suc, take, total, true, ℕ, ◌*ℤ◌, ◌++◌, ◌+ℤ◌, ◌+◌, ◌-ℤ◌, ◌∷◌,
  ◌≡◌, ◌≤ℤ◌, ◌≤◌,
}
use hft_trading_system.Struct.{Bytes, encode_all, from_bytes}
use hft_trading_system.Safety.Exposure.{OeConfig, buy_exposure, outstanding}
use hft_trading_system.Safety.Position.{get_amount, get_position}
use hft_trading_system.Client.{OrderEntryClient, book_fill, new_client}
use hft_trading_system.Client.Fills.{buys, sells}
use hft_trading_system.Client.Wire.{Event, chunk, pause, recv_message}
use hft_trading_system.Client.Session.{Session, Venue, drain, inbox_of, inbox_size}
use hft_trading_system.Client.Orders.{cancel_all_orders, new_order}
use hft_trading_system.Client.Manage.{forgotten, reconnect}
use hft_trading_system.Client.Steps.{Answer, Chain, IsAllowed, Step, modified}
use hft_trading_system.Client.Logins.{IsFirstOf, reconnect_outcome}
use hft_trading_system.Client.Remaining.{IsSameOrder, cancel_all_orders-Remains}
use hft_trading_system.Client.Refusals.{IsRefusal, IsUntouched, new_order_refused}
use hft_trading_system.Client.Framing.{StaysOpen, joined, recv_message_pause, recv_message_pieces}
use hft_trading_system.Client.Draining.{drain_ends}
use hft_trading_system.Client.Exposures.{IsFair}
use hft_trading_system.Client.Bounds.{new_client-IsSafe, trading_bounds}
use hft_trading_system.Safety.Limits.{placed}
use hft_trading_system.Tests.Clients.{answer, open_buy, trading}
use hft_trading_system.Protocol.Responses.{OrderFill, order_fill_layout}
use hft_trading_system.Client.Blocks.{◌>>=◌}

-- An exchange that answers each message with a fill of one more of order 7. Its state is the number
-- of its last response.
abbrev partial_fill : ℕ → OrderFill
partial_fill n = record {
  header = record (answer n) { length = 33 };
  order_id = 7;
  quantity = 1;
  price = pos 50;
  flags = 1;
}

abbrev pub filling : Venue ℕ
filling = record {
  connect = λ n. (ok [], n);
  sendall = λ bytes n. (
    ok (
        chunk
          (encode_all order_fill_layout.format (order_fill_layout.fields (partial_fill (n + 1))))
        ∷ []),
    n + 1,
  );
  clock = λ n. n;
  sleep = λ wait n. n;
}

abbrev pub connected : Session ℕ
connected = record {
  client = trading;
  username = [];
  password = [];
  socket = some (record { blocking = true; inbox = [] });
  outside = 0;
}

abbrev one_more : OeConfig
one_more = record open_buy { filled = pos 2 }

cancelled_order :
    lookup 7 (cancel_all_orders filling 2 connected).1.client.open_orders ≡ some one_more
unfolding cancel_all_orders ◌>>=◌ lookup insert abs get_position get_amount ◌-ℤ◌ ◌*ℤ◌ ◌+ℤ◌
cancelled_order = refl

cancel_all_orders-Remains_example :
    (o : OeConfig) × (lookup 7 trading.open_orders ≡ some o) × IsSameOrder o one_more
cancel_all_orders-Remains_example =
    cancel_all_orders-Remains filling 2 connected 7 one_more cancelled_order

listed : is_some (lookup 7 trading.open_orders) ≡ true
unfolding lookup
listed = refl

new_order_refused_example :
    let (r, s') = new_order filling 2 7 1 1 (pos 2) (pos 50) 0 connected in
    IsRefusal 7 r × IsUntouched connected s'
new_order_refused_example =
    new_order_refused filling 2 7 1 1 (pos 2) (pos 50) 0 connected (inl listed)

reconnect_outcome_example :
    let (r, s') = reconnect filling connected in
    IsFirstOf filling 5 (record connected { client = forgotten trading }) (r, s')
    × (s'.client.open_orders ≡ [])
    × (s'.client.position_tracker ≡ trading.position_tracker)
    × (s'.client.pnl_tracker ≡ trading.pnl_tracker)
    × (s'.client.risk_tracker ≡ trading.risk_tracker)
reconnect_outcome_example = reconnect_outcome filling connected

-- A fill of 33 bytes in two pieces, and the first byte of the next message
abbrev message : Bytes
message = encode_all order_fill_layout.format (order_fill_layout.fields (partial_fill 3))

abbrev in_pieces : List Event
in_pieces = chunk (take 10 message) ∷ pause ∷ chunk (drop 10 message ++ 9 ∷ []) ∷ []

message_size : from_bytes (take 2 message) ≡ length message
unfolding encode_all from_bytes
message_size = refl

pieces_open : StaysOpen in_pieces
unfolding encode_all
pieces_open = tt

pieces_joined : joined in_pieces ≡ message ++ 9 ∷ []
unfolding encode_all
pieces_joined = refl

long_enough : 16 ≤ length message
unfolding encode_all
long_enough = omega arith

recv_message_pieces_example :
    let (r, s') = recv_message (record { blocking = true; inbox = in_pieces }) in
    (r ≡ ok message) × (joined s'.inbox ≡ 9 ∷ []) × StaysOpen s'.inbox × (s'.blocking ≡ true)
recv_message_pieces_example =
    recv_message_pieces message (9 ∷ []) in_pieces pieces_open pieces_joined long_enough
      message_size

recv_message_pause_example :
    recv_message (record { blocking = false; inbox = chunk (33 ∷ 0 ∷ []) ∷ pause ∷ [] })
    ≡ (err Error.blocking_io_error, record { blocking = false; inbox = [] })
recv_message_pause_example = recv_message_pause (33 ∷ 0 ∷ []) [] (omega arith) (omega arith)

abbrev waiting : Session ℕ
waiting = record connected { socket = some (record { blocking = false; inbox = in_pieces }) }

drain_ends_example :
    let rounds = suc (inbox_size (inbox_of waiting)) in
    drain (5 + rounds) waiting ≡ drain rounds waiting
drain_ends_example = drain_ends 5 waiting

-- A buy of five, of which three are filled
abbrev bought : OrderEntryClient
bought = modified 7 (placed 1 1 (pos 5) (pos 50)) new_client

bought_listed : lookup 7 bought.open_orders ≡ some (placed 1 1 (pos 5) (pos 50))
unfolding lookup insert
bought_listed = refl

room_for_five : IsAllowed 1 1 (pos 5) new_client
unfolding buy_exposure outstanding total get_position get_amount lookup ◌+ℤ◌
room_for_five = omega arith

abbrev a_day :
    Chain Step new_client (book_fill (partial_fill 1) (placed 1 1 (pos 5) (pos 50)) bought)
a_day =
    Chain.next
      (Chain.next Chain.here (
        Step.opened new_client 7 1 1 (pos 5) (pos 50) (unfold lookup in refl) (inl refl)
          room_for_five))
      (Step.answered
        (Answer.filled bought (partial_fill 1) (placed 1 1 (pos 5) (pos 50)) bought_listed))

a_day-IsFair : IsFair a_day
unfolding ◌-ℤ◌
a_day-IsFair = ((tt, tt), omega arith)

trading_bounds_example :
    let c = book_fill (partial_fill 1) (placed 1 1 (pos 5) (pos 50)) bought in
    (get_position 1 c.position_tracker ≤ℤ pos 8)
    × (neg (pos 8) ≤ℤ get_position 1 c.position_tracker)
    × (buys 1 c ≤ℤ pos 8)
    × (sells 1 c ≤ℤ pos 8)
trading_bounds_example = trading_bounds (pos 8) 1 a_day a_day-IsFair new_client-IsSafe
