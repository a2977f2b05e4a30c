-- ===== src/Client/Exposures.antt =====
-- The exposures of src/safety.py after a fill, a close or a modification that src/order_entry.py
-- books.
use hft_trading_system.Prelude.{
  Bool-cases, Dict, Distinct, Done, Every, Option-cases, [], ap, arith, eqb, erase, erase-Distinct,
  erase-Every, erase-eq_of_none, inl, inr, insert, insert-Distinct, insert-Every, int_eq, int_laws,
  lookup, lookup-Every, nat_eq, neg_part, pos, pos_part, some, total, total-erase, total-insert_old,
  ℕ, ℤ, ◌-ℤ◌, ◌∷◌, ◌≡◌, ◌≤ℤ◌,
}
use hft_trading_system.Safety.Exposure.{
  OeConfig, buy_exposure, buy_side, outstanding, sell_exposure, sell_side,
}
use hft_trading_system.Safety.Scenarios.{HasSide}
use hft_trading_system.Client.{OrderEntryClient, book_fill}
use hft_trading_system.Client.Fills.{book_fill-exposures, buys, filled_more, sells, weight}
use hft_trading_system.Client.Orders.{forget}
use hft_trading_system.Client.Steps.{Answer, Chain, Step, modified}
use hft_trading_system.Client.Manage.{changed}
use hft_trading_system.Protocol.Responses.{OrderFill}

-- The exchange fills no more of an order than is open.
abbrev pub IsFairAnswer : {c c' : OrderEntryClient} → Answer c c' → Type 0
IsFairAnswer (Answer.filled c m o listed) = pos m.quantity ≤ℤ o.quantity -ℤ o.filled
IsFairAnswer (Answer.quiet q) = Done
IsFairAnswer (Answer.closed c order_id) = Done

-- A modification keeps the side and does not raise the quantity, nor put it below what is filled.
abbrev pub IsFairStep : {c c' : OrderEntryClient} → Step c c' → Type 0
IsFairStep (Step.answered a) = IsFairAnswer a
IsFairStep (Step.rewritten c order_id side quantity price o listed sided) =
    (side ≡ o.side) × (quantity ≤ℤ o.quantity) × (o.filled ≤ℤ quantity)
IsFairStep (Step.checked c r same) = Done
IsFairStep (Step.opened c order_id symbol side quantity price new sided allowed) = Done
IsFairStep (Step.reset c) = Done

abbrev pub IsFair : {c c' : OrderEntryClient} → Chain Step c c' → Type 0
IsFair Chain.here = Done
IsFair (Chain.next p a) = IsFair p × IsFairStep a

abbrev pub IsSound : OeConfig → Type 0
IsSound o = HasSide o × (o.filled ≤ℤ o.quantity)

abbrev pub Within : ℤ → OrderEntryClient → Type 0
Within limit c = (s : ℕ) → (buys s c ≤ℤ limit) × (sells s c ≤ℤ limit)

pub record IsSafe (limit : ℤ) (c : OrderEntryClient) : Type 0 where
  pub limit_same : c.risk_tracker.max_exposure ≡ limit
  pub distinct : Distinct c.open_orders
  pub sound : Every IsSound c.open_orders
  pub within : Within limit c

weight_nonneg : (s side : ℕ) (o : OeConfig) → IsSound o → pos 0 ≤ℤ weight s side o
weight_nonneg s side o h = grind (int_laws)

outstanding-forget :
    (s side k : ℕ) (d : Dict ℕ OeConfig)
    → Distinct d
    → Every IsSound d
    → outstanding s side (erase k d) ≤ℤ outstanding s side d
unfolding outstanding
outstanding-forget s side k d distinct sound = elim (Option-cases (lookup k d)) [
  | inl e ↦ rw (erase-eq_of_none k d e) (omega arith)
  | inr (o, e) ↦ omega (
    int_laws,
    ap pos_part (total-erase (weight s side) k o d distinct e),
    ap neg_part (total-erase (weight s side) k o d distinct e),
    weight_nonneg s side o (lookup-Every IsSound k d sound e),
  )
]

pub forget-IsSafe :
    (limit : ℤ) (k : ℕ) (c : OrderEntryClient) → IsSafe limit c → IsSafe limit (forget k c)
unfolding buy_exposure sell_exposure
forget-IsSafe limit k c h = record {
  limit_same = h.limit_same;
  distinct = erase-Distinct k c.open_orders h.distinct;
  sound = erase-Every IsSound k c.open_orders h.sound;
  within = λ s.
      let less = λ (side : ℕ). outstanding-forget s side k c.open_orders h.distinct h.sound in
      (
        omega (int_laws, (h.within s).0, less buy_side),
        omega (int_laws, (h.within s).1, less sell_side),
      );
}

pub filled-IsSafe :
    (limit : ℤ) (c : OrderEntryClient) (m : OrderFill) (o : OeConfig)
    → lookup m.order_id c.open_orders ≡ some o
    → pos m.quantity ≤ℤ o.quantity -ℤ o.filled
    → IsSafe limit c
    → IsSafe limit (book_fill m o c)
unfolding book_fill
filled-IsSafe limit c m o listed fair h =
    let (sided, below) = lookup-Every IsSound m.order_id c.open_orders h.sound listed in
    let more = filled_more o (pos m.quantity) in
    let still : IsSound more = (sided, omega int_laws) in
    record {
      limit_same = h.limit_same;
      distinct = elim (Bool-cases (eqb m.flags 2)) [
        | inl done ↦ rw done (erase-Distinct m.order_id c.open_orders h.distinct)
        | inr open_still ↦ rw open_still (insert-Distinct m.order_id more c.open_orders h.distinct)
      ];
      sound = elim (Bool-cases (eqb m.flags 2)) [
        | inl done ↦ rw done (erase-Every IsSound m.order_id c.open_orders h.sound)
        | inr open_still ↦
            rw open_still (insert-Every IsSound m.order_id more c.open_orders still h.sound)
      ];
      within = λ s.
          let less = book_fill-exposures s m o c h.distinct listed sided fair in
          (omega (arith, less.0, (h.within s).0), omega (arith, less.1, (h.within s).1));
    }

-- An order that replaces another counts for no more.
outstanding-rewritten :
    (s side k : ℕ) (o o' : OeConfig) (d : Dict ℕ OeConfig)
    → lookup k d ≡ some o
    → weight s side o' ≤ℤ weight s side o
    → outstanding s side (insert k o' d) ≤ℤ outstanding s side d
unfolding outstanding
outstanding-rewritten s side k o o' d listed less =
    let same = total-insert_old (weight s side) k o' o d listed in
    omega (int_laws, ap pos_part same, ap neg_part same)

weight-changed :
    (s side : ℕ) (o : OeConfig) (quantity price : ℤ)
    → quantity ≤ℤ o.quantity
    → weight s side (changed o.side quantity price o) ≤ℤ weight s side o
weight-changed s side o quantity price less = grind int_laws

pub rewritten-IsSafe :
    (limit : ℤ) (c : OrderEntryClient) (k side : ℕ) (quantity price : ℤ) (o : OeConfig)
    → lookup k c.open_orders ≡ some o
    → HasSide (changed side quantity price o)
    → side ≡ o.side
    → quantity ≤ℤ o.quantity
    → o.filled ≤ℤ quantity
    → IsSafe limit c
    → IsSafe limit (modified k (changed side quantity price o) c)
unfolding buy_exposure sell_exposure
rewritten-IsSafe limit c k side quantity price o listed sided same less above h =
    let o' = changed side quantity price o in
    let fewer : (r : ℕ) (s : ℕ) → weight s r o' ≤ℤ weight s r o =
      λ r s. rw same (weight-changed s r o quantity price less) in
    record {
      limit_same = h.limit_same;
      distinct = insert-Distinct k o' c.open_orders h.distinct;
      sound = insert-Every IsSound k o' c.open_orders (sided, above) h.sound;
      within = λ s.
          let lower =
            λ (r : ℕ). outstanding-rewritten s r k o o' c.open_orders listed (fewer r s) in
          (
            omega (int_laws, (h.within s).0, lower buy_side),
            omega (int_laws, (h.within s).1, lower sell_side),
          );
    }

pub outstanding_nonneg :
    (s side : ℕ) (d : Dict ℕ OeConfig) → Every IsSound d → pos 0 ≤ℤ outstanding s side d
unfolding outstanding total
outstanding_nonneg s side [] h = omega arith
outstanding_nonneg s side ((k, o) ∷ d) (sound, h) =
    omega (int_laws, outstanding_nonneg s side d h, weight_nonneg s side o sound)
