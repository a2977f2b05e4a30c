-- ===== src/Client/Remaining.antt =====
-- What the answers of the exchange leave of the open orders of src/order_entry.py.
use hft_trading_system.Prelude.{
  Bool-cases, Dict, arith, eqb, eqb_iff, erase, inl, inr, insert, int_eq, lookup, lookup-erase,
  lookup-insert, nat_eq, pos, refl, some, ℕ, ◌+ℤ◌, ◌∙◌, ◌≡◌,
}
use hft_trading_system.Safety.Exposure.{OeConfig}
use hft_trading_system.Client.{OrderEntryClient, book_fill}
use hft_trading_system.Client.Session.{Session, Venue}
use hft_trading_system.Client.Orders.{cancel_all_orders}
use hft_trading_system.Client.Steps.{Answer, Chain, Quiet}
use hft_trading_system.Client.Cancels.{cancel_all_orders-Follows}
use hft_trading_system.Protocol.Responses.{OrderFill}

-- The order is the same but for what is filled of it.
pub record IsSameOrder (o o' : OeConfig) : Type 0 where
  pub symbol_same : o'.symbol ≡ o.symbol
  pub side_same : o'.side ≡ o.side
  pub quantity_same : o'.quantity ≡ o.quantity
  pub price_same : o'.price ≡ o.price

-- An order that is open in the second state was open in the first.
abbrev pub Remains : OrderEntryClient → OrderEntryClient → Type 0
Remains c c' =
    (k : ℕ) (o' : OeConfig)
    → lookup k c'.open_orders ≡ some o'
    → (o : OeConfig) × (lookup k c.open_orders ≡ some o) × IsSameOrder o o'

itself : (o : OeConfig) → IsSameOrder o o
itself o = record { symbol_same = refl; side_same = refl; quantity_same = refl; price_same = refl }

same_trans : (a b c : OeConfig) → IsSameOrder a b → IsSameOrder b c → IsSameOrder a c
same_trans a b c h k = ground arith

erased_before :
    (k j : ℕ) (o : OeConfig) (d : Dict ℕ OeConfig)
    → lookup j (erase k d) ≡ some o
    → lookup j d ≡ some o
erased_before k j o d h = ground (arith, lookup-erase k j d)

filled-Remains :
    (c : OrderEntryClient) (m : OrderFill) (o : OeConfig)
    → lookup m.order_id c.open_orders ≡ some o
    → Remains c (book_fill m o c)
unfolding book_fill
filled-Remains c m o listed k o' found =
    let more : OeConfig = record o { filled = o.filled +ℤ pos m.quantity } in
    elim (Bool-cases (eqb m.flags 2)) [
      | inl done ↦ (o', erased_before m.order_id k o' c.open_orders (rw done at found), itself o')
      | inr open_still ↦
          let there : lookup k (insert m.order_id more c.open_orders) ≡ some o' =
            rw open_still at found in
          elim (Bool-cases (eqb m.order_id k)) [
            | inl same ↦
                let e : more ≡ o' = ground (arith, lookup-insert m.order_id k more c.open_orders) in
                (
                  o,
                  rw (← (eqb_iff m.order_id k).0 same) listed,
                  rw (← e) (record {
                    symbol_same = refl;
                    side_same = refl;
                    quantity_same = refl;
                    price_same = refl;
                  }),
                )
            | inr other ↦
                (o', ground (arith, lookup-insert m.order_id k more c.open_orders), itself o')
          ]
    ]

-- What numbering, hearing and joining leave alone
pub record IsSteady (c c' : OrderEntryClient) : Type 0 where
  pub orders_same : c'.open_orders ≡ c.open_orders
  pub positions_same : c'.position_tracker ≡ c.position_tracker
  pub pnl_same : c'.pnl_tracker ≡ c.pnl_tracker
  pub risk_same : c'.risk_tracker ≡ c.risk_tracker

quiet-IsSteady : {c c' : OrderEntryClient} → Quiet c c' → IsSteady c c'
quiet-IsSteady (Quiet.numbered c) = record {
  orders_same = refl;
  positions_same = refl;
  pnl_same = refl;
  risk_same = refl;
}
quiet-IsSteady (Quiet.heard c n after) = record {
  orders_same = refl;
  positions_same = refl;
  pnl_same = refl;
  risk_same = refl;
}
quiet-IsSteady (Quiet.joined c n) = record {
  orders_same = refl;
  positions_same = refl;
  pnl_same = refl;
  risk_same = refl;
}

pub quiets-IsSteady : {c c' : OrderEntryClient} → Chain Quiet c c' → IsSteady c c'
quiets-IsSteady Chain.here = record {
  orders_same = refl;
  positions_same = refl;
  pnl_same = refl;
  risk_same = refl;
}
quiets-IsSteady (Chain.next p q) =
    let last = quiet-IsSteady q in
    let before = quiets-IsSteady p in
    record {
      orders_same = last.orders_same ∙ before.orders_same;
      positions_same = last.positions_same ∙ before.positions_same;
      pnl_same = last.pnl_same ∙ before.pnl_same;
      risk_same = last.risk_same ∙ before.risk_same;
    }

Answer-Remains : {c c' : OrderEntryClient} → Answer c c' → Remains c c'
Answer-Remains (Answer.quiet q) k o' found =
    (o', rw (← (quiet-IsSteady q).orders_same) found, itself o')
Answer-Remains (Answer.filled c m o listed) k o' found = filled-Remains c m o listed k o' found
Answer-Remains (Answer.closed c order_id) k o' found =
    (o', erased_before order_id k o' c.open_orders found, itself o')

Answers-Remains : {c c' : OrderEntryClient} → Chain Answer c c' → Remains c c'
Answers-Remains Chain.here k o' found = (o', found, itself o')
Answers-Remains (Chain.next p a) k o' found =
    let (o1, found1, same1) = Answer-Remains a k o' found in
    let (o, found0, same0) = Answers-Remains p k o1 found1 in
    (o, found0, same_trans o o1 o' same0 same1)

-- Cancelling never opens or alters an order: whatever the exchange answers, and however deep the
-- fills recur, an order that is open after `cancel_all_orders` was open before it under the same
-- number, with the same symbol, side, quantity and price.
pub cancel_all_orders-Remains :
    {X : Type 0} (v : Venue X) (depth : ℕ) (s : Session X)
    → Remains s.client (cancel_all_orders v depth s).1.client
cancel_all_orders-Remains v depth s = Answers-Remains ((cancel_all_orders-Follows v depth).at s)
