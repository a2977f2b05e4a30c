-- ===== src/Tests/Clients.antt =====
-- Runs of the client of src/order_entry.py.
use hft_trading_system.Protocol.Responses.{OeResponseHeader, OrderFill}
use hft_trading_system.Prelude.{
  Distinct, Error, [], arith, err, inl, int_eq, lookup, nat_eq, pos, refl, some, ℕ, ◌-ℤ◌, ◌∷◌, ◌≡◌,
  ◌≤ℤ◌,
}
use hft_trading_system.Safety.Exposure.{OeConfig}
use hft_trading_system.Client.{
  OrderEntryClient, accept_header, apply_fill, new_client, validate_response_header,
}
use hft_trading_system.Client.Fills.{apply_fill-exposures, buys, sells}
use hft_trading_system.Client.Headers.{accept_all}

abbrev pub answer : ℕ → OeResponseHeader
answer seq_num = record {
  length = 37;
  msg_type = 103;
  version = 1;
  seq_num = seq_num;
  last_seq_num = 1;
  client_id = 2;
}

abbrev pub open_buy : OeConfig
open_buy = record { symbol = 1; side = 1; quantity = pos 5; price = pos 50; filled = pos 1 }

abbrev pub trading : OrderEntryClient
trading = record new_client { open_orders = (7, open_buy) ∷ [] }

-- Three of the four that are open
abbrev three : OrderFill
three = record { header = answer 9; order_id = 7; quantity = 3; price = pos 50; flags = 1 }

trading_order : lookup 7 trading.open_orders ≡ some open_buy
unfolding lookup
trading_order = refl

trading-Distinct : Distinct trading.open_orders
unfolding lookup
trading-Distinct = (refl, tt)

four_open : pos 3 ≤ℤ open_buy.quantity -ℤ open_buy.filled
unfolding ◌-ℤ◌
four_open = omega arith

apply_fill-exposures_example :
    (buys 1 (apply_fill three trading).1 ≤ℤ buys 1 trading)
    × (sells 1 (apply_fill three trading).1 ≤ℤ sells 1 trading)
apply_fill-exposures_example =
    apply_fill-exposures 1 three open_buy trading trading-Distinct trading_order (inl refl)
      four_open

repeated_refused : (accept_all (answer 3 ∷ answer 3 ∷ []) new_client).0 ≡ err Error.value_error
unfolding accept_all accept_header validate_response_header
repeated_refused = refl
