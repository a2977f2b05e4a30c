-- ===== src/Client/Manage.antt =====
-- The rest of `class OrderEntryClient` of src/order_entry.py: `modify_order`, `get_mid_price`,
-- `get_pnl`, `reconnect`, `shutdown`.
use hft_trading_system.Prelude.{
  Action, Dict, Done, Error, List, [], eqb, err, if◌then◌else◌, insert, int_eq, is_some, lift,
  lookup, modify, nat_eq, negsuc, none, ok, only_if, pos, pure, some, ℕ, ℤ, ◌*◌, ◌+ℤ◌, ◌/◌, ◌∷◌,
}
use hft_trading_system.Struct.{calcsize}
use hft_trading_system.Protocol.Enums.{member_of, reject_reasons, sides}
use hft_trading_system.Protocol.Codec.{Kind, layout, pack_message}
use hft_trading_system.Safety.Exposure.{OeConfig}
use hft_trading_system.Client.{OrderEntryClient, make_header}
use hft_trading_system.Client.Session.{
  OeResponse, Session, Venue, close, connect_socket, login, of_order_ack, of_order_closed,
  of_order_reject, on_client,
}
use hft_trading_system.Client.Orders.{
  cancel_all_orders, exchange_messages, forget, local_reject, unsigned_of,
}
use hft_trading_system.Protocol.Requests.{ModifyOrder}
use hft_trading_system.Client.Blocks.{◌>>=◌, ◌>>◌}
use hft_trading_system.OrderBook.{OrderBook, get_best}
use hft_trading_system.MarketData.{Side}

-- The fields of an order that a modification replaces
abbrev pub changed : (side : ℕ) → (quantity price : ℤ) → OeConfig → OeConfig
changed side quantity price o = record o { side = side; quantity = quantity; price = price }

abbrev pub rewrite :
    (order_id side : ℕ) → (quantity price : ℤ) → OrderEntryClient → OrderEntryClient
rewrite order_id side quantity price c = elim (lookup order_id c.open_orders) [
  | none ↦ c
  | some o ↦ record c {
    open_orders = insert order_id (changed side quantity price o) c.open_orders;
  }
]

-- What `modify_order` makes of the first response, once all are processed
unfoldable pub settle_modify :
    (order_id side : ℕ) → (quantity price : ℤ) → List OeResponse → Action OrderEntryClient Done
settle_modify order_id side quantity price (of_order_ack m ∷ ms) =
    modify (rewrite order_id side quantity price)
settle_modify order_id side quantity price (of_order_closed m ∷ ms) = modify (forget order_id)
settle_modify order_id side quantity price (of_order_reject m ∷ ms) = do
  reason ← lift (member_of reject_reasons m.reject_reason)
  only_if (eqb reason 4) (modify (forget order_id))
settle_modify order_id side quantity price _ = pure tt

-- What `reconnect` resets
abbrev pub forgotten : OrderEntryClient → OrderEntryClient
forgotten c = record c { open_orders = []; seq_num = 0; resp_seq = 0; session_id = 0 }

module _ {X : Type 0} (v : Venue X) where
  unfoldable pub modify_order :
      (depth order_id side : ℕ) → (quantity price : ℤ) → Action (Session X) (List OeResponse)
  unfolding make_header pack_message exchange_messages cancel_all_orders settle_modify
  modify_order depth order_id side quantity price s =
      if is_some (lookup order_id s.client.open_orders)
      then (do
        header ← on_client (make_header 3 (calcsize (layout Kind.modify_order).format))
        lift (member_of sides side)
        amount ← lift (unsigned_of quantity)
        let msg : ModifyOrder = record {
          header = header;
          order_id = order_id;
          side = side;
          quantity = amount;
          price = price;
        }
        bytes ← lift (pack_message Kind.modify_order msg)
        responses ← exchange_messages v (cancel_all_orders v depth) bytes
        on_client (settle_modify order_id side quantity price responses)
        pure responses)
          s
      else (ok (local_reject 0 s.client.seq_num 4 order_id s.client ∷ []), s)

  -- The attempts of `reconnect` that are left, each with the seconds that follow its failure
  unfoldable pub attempts : List ℕ → Action (Session X) Done
  unfolding connect_socket login
  attempts [] s = (err Error.connection_error, s)
  attempts (wait ∷ waits) s =
      let (r, s1) = (connect_socket v >> login v) s in
      elim r [
        | ok _ ↦ (ok tt, s1)
        | err _ ↦ attempts waits (record s1 { outside = v.sleep (1000 * wait) s1.outside })
      ]

  unfoldable pub reconnect : Action (Session X) Done
  unfolding attempts
  reconnect = on_client (modify forgotten) >> attempts (1 ∷ 2 ∷ 4 ∷ 8 ∷ 16 ∷ [])

  -- What `cancel_all_orders` raises is logged.
  unfoldable pub shutdown : (depth : ℕ) → Session X → Session X
  unfolding cancel_all_orders close
  shutdown depth s = elim s.socket [ none ↦ s | some k ↦ close (cancel_all_orders v depth s).1 ]

-- `n // 2`
abbrev pub half : ℤ → ℤ
half (pos n) = pos (n / 2)
half (negsuc n) = negsuc (n / 2)

-- `get_mid_price` on a book. A pair is true in a test, whatever it holds, so the branches below the
-- first are never taken.
unfoldable pub mid_price : Action OrderBook ℤ
unfolding get_best
mid_price = do
  best_bid ← get_best Side.buy
  best_ask ← get_best Side.sell
  pure (half (best_bid.0 +ℤ best_ask.0))

-- `get_mid_price`, on the books of the manager
unfoldable pub get_mid_price : ℕ → Action (Dict ℕ OrderBook) ℤ
unfolding mid_price
get_mid_price symbol books = elim (lookup symbol books) [
  | none ↦ (ok (pos 0), books)
  | some book ↦ let (r, book') = mid_price book in (r, insert symbol book' books)
]
