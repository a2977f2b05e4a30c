-- ===== src/Client/Cancels.antt =====
-- `_process_responses`, `cancel_all_orders` and `delete_order` of src/order_entry.py as chains of
-- answers.

use hft_trading_system.Prelude.{
  Action, Bool-cases, Done, List, Option, [], inl, inr, int_eq, is_some, lookup, map, nat_eq, none,
  some, suc, zero, ℕ, ◌∷◌,
}
use hft_trading_system.Struct.{Bytes}
use hft_trading_system.Client.Session.{
  OeResponse, Session, Venue, of_error_message, of_header, of_login_response, of_order_ack,
  of_order_closed, of_order_fill, of_order_reject,
}
use hft_trading_system.Client.Orders.{
  cancel_all_orders, cancel_each, check_limits, check_symbol, delete_order, delete_with,
  exchange_messages, process_response, process_responses,
}
use hft_trading_system.Client.Steps.{Answer, Chain, chain_append}
use hft_trading_system.Client.Follows.{
  Follows, Follows-bind, Follows-if, Follows-lift, Follows-only_if, Follows-pure, Follows-quiet,
  Follows-raise, apply_fill-Follows, forget-Follows, make_header-Follows, send_and_recv-Follows,
}

module _ {X : Type 0} (cancel : Action (Session X) Done) (kept : Follows Answer cancel) where
  check_limits-Follows : (symbol : ℕ) → Follows Answer (check_limits cancel symbol)
  unfolding check_limits
  check_limits-Follows symbol = record {
    at = λ s.
        (Follows-bind Answer _ _ (Follows-only_if Answer _ cancel kept)
            λ _. Follows-only_if Answer _ cancel kept).at
          s;
  }

  check_symbol-Follows : (o : Option ℕ) → Follows Answer (check_symbol cancel o)
  check_symbol-Follows none = Follows-pure Answer tt
  check_symbol-Follows (some symbol) = check_limits-Follows symbol

  process_response-Follows : (m : OeResponse) → Follows Answer (process_response cancel m)
  unfolding process_response
  process_response-Follows (of_order_reject m) =
      Follows-bind Answer _ _ (Follows-lift Answer _)
        λ reason. Follows-if Answer _ _ _ (forget-Follows m.order_id) (Follows-raise Answer _ _)
  process_response-Follows (of_order_fill m) =
      Follows-bind Answer _ _ (apply_fill-Follows m) check_symbol-Follows
  process_response-Follows (of_order_closed m) = forget-Follows m.order_id
  process_response-Follows (of_header m) = Follows-pure Answer tt
  process_response-Follows (of_login_response m) = Follows-pure Answer tt
  process_response-Follows (of_order_ack m) = Follows-pure Answer tt
  process_response-Follows (of_error_message m) = Follows-pure Answer tt

  process_responses-Follows : (ms : List OeResponse) → Follows Answer (process_responses cancel ms)
  unfolding process_responses
  process_responses-Follows [] = Follows-pure Answer tt
  process_responses-Follows (m ∷ ms) =
      Follows-bind Answer _ _ (process_response-Follows m) λ _. process_responses-Follows ms

  module _ (v : Venue X) where
    pub exchange_messages-Follows :
        (bytes : Bytes) → Follows Answer (exchange_messages v cancel bytes)
    unfolding exchange_messages
    exchange_messages-Follows bytes =
        Follows-bind Answer _ _ (Follows-quiet (send_and_recv-Follows v bytes)) λ responses.
          Follows-bind Answer _ _ (process_responses-Follows responses) λ _. Follows-pure Answer _

    delete_with-Follows : (order_id : ℕ) → Follows Answer (delete_with v cancel order_id)
    unfolding delete_with
    delete_with-Follows order_id =
        Follows-bind Answer _ _ (Follows-quiet (make_header-Follows _ _))
          λ header. Follows-bind Answer _ _ (Follows-lift Answer _) exchange_messages-Follows

module _ {X : Type 0} (v : Venue X) where
  cancel_each-Follows :
      (delete : ℕ → Action (Session X) (List OeResponse))
      → ((order_id : ℕ) → Follows Answer (delete order_id))
      → (ids : List ℕ) → Follows Answer (cancel_each delete ids)
  unfolding cancel_each
  cancel_each-Follows delete kept [] = record { at = λ s. Chain.here }
  cancel_each-Follows delete kept (k ∷ ids) = record {
    at = λ s. elim (Bool-cases (is_some (lookup k s.client.open_orders))) [
      | inl listed ↦
          rw (listed, cancel_each)
            (chain_append ((kept k).at s) ((cancel_each-Follows delete kept ids).at (delete k s).1))
      | inr gone ↦ rw (gone, cancel_each) ((cancel_each-Follows delete kept ids).at s)
    ];
  }

  -- Whatever the exchange answers, and however deep the fills recur, all that `cancel_all_orders`
  -- does to the client is to number requests and to take answers.
  pub cancel_all_orders-Follows : (depth : ℕ) → Follows Answer (cancel_all_orders v depth)
  unfolding cancel_all_orders
  cancel_all_orders-Follows zero = record { at = λ s. Chain.here }
  cancel_all_orders-Follows (suc depth) = record {
    at = λ s.
        (cancel_each-Follows _
            (delete_with-Follows (cancel_all_orders v depth) (cancel_all_orders-Follows depth) v)
            (map (λ p. p.0) s.client.open_orders)).at
          s;
  }

  pub delete_order-Follows : (depth order_id : ℕ) → Follows Answer (delete_order v depth order_id)
  unfolding delete_order
  delete_order-Follows depth =
      delete_with-Follows (cancel_all_orders v depth) (cancel_all_orders-Follows depth) v
