-- ===== src/Client/Modifies.antt =====
-- `modify_order` of src/order_entry.py as a chain of steps.
use hft_trading_system.Prelude.{
  Bool-cases, List, Option-cases, [], eqb, inl, inr, int_eq, is_some, lookup, nat_eq, pure, ℕ, ℤ,
  ◌∷◌, ◌≡◌, ◌⊎◌,
}
use hft_trading_system.Protocol.Enums.{is_member, reject_reasons}
use hft_trading_system.Client.Session.{
  OeResponse, Venue, of_error_message, of_header, of_login_response, of_order_ack, of_order_closed,
  of_order_fill, of_order_reject, on_client,
}
use hft_trading_system.Client.Orders.{cancel_all_orders, exchange_messages}
use hft_trading_system.Client.Steps.{Answer, Chain, Step}
use hft_trading_system.Client.Follows.{
  Follows, Follows-bind, Follows-lift, Follows-pure, Follows-quiet, forget-Follows,
  make_header-Follows,
}
use hft_trading_system.Client.Cancels.{cancel_all_orders-Follows, exchange_messages-Follows}
use hft_trading_system.Client.Manage.{modify_order, rewrite, settle_modify}
use hft_trading_system.Struct.{Bytes}
use hft_trading_system.Client.Operations.{Follows-answers, Follows-bind_lift, side_of_member}
use hft_trading_system.Client.Blocks.{◌>>=◌}

module _ {X : Type 0} (v : Venue X) where
  settle_modify-Follows :
      (order_id side : ℕ) (quantity price : ℤ) (ms : List OeResponse)
      → (side ≡ 1) ⊎ (side ≡ 2)
      → Follows {X = X} Step (on_client (settle_modify order_id side quantity price ms))
  unfolding settle_modify ◌>>=◌
  settle_modify-Follows order_id side quantity price [] sided = record { at = λ s. Chain.here }
  settle_modify-Follows order_id side quantity price (of_order_ack m ∷ ms) sided = record {
    at = λ s. elim (Option-cases (lookup order_id s.client.open_orders)) [
      | inl e ↦ rw (e, rewrite) Chain.here
      | inr (o, e) ↦
          rw (e, rewrite)
            (Chain.next Chain.here (Step.rewritten s.client order_id side quantity price o e sided))
    ];
  }
  settle_modify-Follows order_id side quantity price (of_order_closed m ∷ ms) sided =
      Follows-answers (forget-Follows order_id)
  settle_modify-Follows order_id side quantity price (of_order_reject m ∷ ms) sided = record {
    at = λ s. elim (Bool-cases (is_member m.reject_reason reject_reasons)) [
      | inl known ↦ elim (Bool-cases (eqb m.reject_reason 4)) [
        | inl gone ↦
            rw (known, gone)
              (Chain.next Chain.here (Step.answered (Answer.closed s.client order_id)))
        | inr other ↦ rw (known, other) Chain.here
      ]
      | inr unknown ↦ rw unknown Chain.here
    ];
  }
  settle_modify-Follows order_id side quantity price (of_header m ∷ ms) sided = record {
    at = λ s. Chain.here;
  }
  settle_modify-Follows order_id side quantity price (of_login_response m ∷ ms) sided = record {
    at = λ s. Chain.here;
  }
  settle_modify-Follows order_id side quantity price (of_order_fill m ∷ ms) sided = record {
    at = λ s. Chain.here;
  }
  settle_modify-Follows order_id side quantity price (of_error_message m ∷ ms) sided = record {
    at = λ s. Chain.here;
  }

  request_modify-Follows :
      (depth order_id side : ℕ) (quantity price : ℤ) (bytes : Bytes)
      → (side ≡ 1) ⊎ (side ≡ 2)
      → Follows Step (
          exchange_messages v (cancel_all_orders v depth) bytes >>= λ responses.
          on_client (settle_modify order_id side quantity price responses) >>= λ _. pure responses)
  request_modify-Follows depth order_id side quantity price bytes sided =
      Follows-bind Step _ _
        (Follows-answers (
          exchange_messages-Follows (cancel_all_orders v depth) (cancel_all_orders-Follows v depth)
            v bytes))
        λ responses.
          Follows-bind Step _ _ (settle_modify-Follows order_id side quantity price responses sided)
            λ _. Follows-pure Step _

  -- All that `modify_order` does to the client is steps.
  modify_order-Follows :
      (depth order_id side : ℕ) (quantity price : ℤ)
      → Follows Step (modify_order v depth order_id side quantity price)
  unfolding modify_order
  modify_order-Follows depth order_id side quantity price = record {
    at = λ s. elim (Bool-cases (is_some (lookup order_id s.client.open_orders))) [
      | inl listed ↦
          rw (listed, modify_order)
            ((Follows-bind Step _ _ (Follows-answers (Follows-quiet (make_header-Follows _ _)))
                λ header. Follows-bind_lift _ _ λ a sided.
                  Follows-bind Step _ _ (Follows-lift Step _) λ amount.
                    Follows-bind Step _ _ (Follows-lift Step _) λ bytes.
                      request_modify-Follows depth order_id side quantity price bytes
                        (side_of_member side a sided)).at
              s)
      | inr gone ↦ rw (gone, modify_order) Chain.here
    ];
  }
