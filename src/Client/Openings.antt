-- ===== src/Client/Openings.antt =====
-- The exposures of src/safety.py after an order that src/order_entry.py places.

-- A new order counts for its quantity, in its symbol and on its side alone.
use hft_trading_system.Prelude.{
  Bool-cases, Dict, ap, arith, eqb, eqb_iff, false, if◌then◌else◌, inl, inr, insert,
  insert-Distinct, insert-Every, int_eq, int_laws, lookup, nat_eq, none, pos, total,
  total-insert_new, true, ℕ, ℤ, ◌&&◌, ◌+ℤ◌, ◌∙◌, ◌≡◌, ◌≤ℤ◌,
}
use hft_trading_system.Safety.Exposure.{
  OeConfig, buy_exposure, buy_side, outstanding, sell_exposure, sell_side,
}
use hft_trading_system.Safety.Scenarios.{HasSide}
use hft_trading_system.Client.{OrderEntryClient}
use hft_trading_system.Client.Fills.{buys, less_zero, sells, weight}
use hft_trading_system.Client.Steps.{IsAllowed, modified}
use hft_trading_system.Safety.Limits.{placed}
use hft_trading_system.Client.Exposures.{IsSafe, IsSound, Within}

outstanding-opened :
    (s r k symbol side : ℕ) (quantity price : ℤ) (d : Dict ℕ OeConfig)
    → lookup k d ≡ none
    → outstanding s r (insert k (placed symbol side quantity price) d)
      ≡ outstanding s r d +ℤ (if eqb symbol s && eqb side r then quantity else pos 0)
unfolding outstanding
outstanding-opened s r k symbol side quantity price d new =
    let o = placed symbol side quantity price in
    let same : weight s r o ≡ (if eqb symbol s && eqb side r then quantity else pos 0) =
      ground (arith, less_zero quantity) in
    total-insert_new (weight s r) k o d new ∙ ap (λ n. total (weight s r) d +ℤ n) same

grown_within : (p t t' q limit : ℤ) → t' ≡ t +ℤ q → p +ℤ t +ℤ q ≤ℤ limit → p +ℤ t' ≤ℤ limit
grown_within p t t' q limit e h = rw e (omega int_laws)

same_within : (p t t' limit : ℤ) → t' ≡ t +ℤ pos 0 → p +ℤ t ≤ℤ limit → p +ℤ t' ≤ℤ limit
same_within p t t' limit e h = rw e (omega int_laws)

room_to_buy :
    (limit : ℤ) (c : OrderEntryClient) (symbol side s : ℕ) (quantity : ℤ)
    → symbol ≡ s
    → side ≡ buy_side
    → c.risk_tracker.max_exposure ≡ limit
    → IsAllowed symbol side quantity c
    → buys s c +ℤ quantity ≤ℤ limit
room_to_buy limit c symbol side s quantity e bid same allowed =
    rw (← e, ← same) (rw bid at allowed.0)

room_to_sell :
    (limit : ℤ) (c : OrderEntryClient) (symbol side s : ℕ) (quantity : ℤ)
    → symbol ≡ s
    → side ≡ sell_side
    → c.risk_tracker.max_exposure ≡ limit
    → IsAllowed symbol side quantity c
    → sells s c +ℤ quantity ≤ℤ limit
room_to_sell limit c symbol side s quantity e ask same allowed =
    rw (← e, ← same) (rw ask at allowed.0)

opened-Within :
    (limit : ℤ) (c : OrderEntryClient) (k symbol side : ℕ) (quantity price : ℤ)
    → lookup k c.open_orders ≡ none
    → HasSide (placed symbol side quantity price)
    → IsAllowed symbol side quantity c
    → IsSafe limit c
    → Within limit (modified k (placed symbol side quantity price) c)
unfolding buy_exposure sell_exposure
opened-Within limit c k symbol side quantity price new (inl bid) allowed h s =
    let grown = λ (r : ℕ). outstanding-opened s r k symbol side quantity price c.open_orders new in
    let sell : (eqb symbol s && eqb side sell_side) ≡ false = ground arith in
    let sells_same = same_within _ _ _ limit (rw sell at (grown sell_side)) (h.within s).1 in
    elim (Bool-cases (eqb symbol s)) [
      | inl here ↦
          let e = (eqb_iff symbol s).0 here in
          let buy : (eqb symbol s && eqb side buy_side) ≡ true = ground arith in
          let room : buys s c +ℤ quantity ≤ℤ limit =
            room_to_buy limit c symbol side s quantity e bid h.limit_same allowed in
          (grown_within _ _ _ _ limit (rw buy at (grown buy_side)) room, sells_same)
      | inr other ↦
          let buy : (eqb symbol s && eqb side buy_side) ≡ false = ground arith in
          (same_within _ _ _ limit (rw buy at (grown buy_side)) (h.within s).0, sells_same)
    ]
opened-Within limit c k symbol side quantity price new (inr ask) allowed h s =
    let grown = λ (r : ℕ). outstanding-opened s r k symbol side quantity price c.open_orders new in
    let buy : (eqb symbol s && eqb side buy_side) ≡ false = ground arith in
    let buys_same = same_within _ _ _ limit (rw buy at (grown buy_side)) (h.within s).0 in
    elim (Bool-cases (eqb symbol s)) [
      | inl here ↦
          let e = (eqb_iff symbol s).0 here in
          let sell : (eqb symbol s && eqb side sell_side) ≡ true = ground arith in
          let room : sells s c +ℤ quantity ≤ℤ limit =
            room_to_sell limit c symbol side s quantity e ask h.limit_same allowed in
          (buys_same, grown_within _ _ _ _ limit (rw sell at (grown sell_side)) room)
      | inr other ↦
          let sell : (eqb symbol s && eqb side sell_side) ≡ false = ground arith in
          (buys_same, same_within _ _ _ limit (rw sell at (grown sell_side)) (h.within s).1)
    ]

pub opened-IsSafe :
    (limit : ℤ) (c : OrderEntryClient) (k symbol side : ℕ) (quantity price : ℤ)
    → lookup k c.open_orders ≡ none
    → HasSide (placed symbol side quantity price)
    → IsAllowed symbol side quantity c
    → IsSafe limit c
    → IsSafe limit (modified k (placed symbol side quantity price) c)
opened-IsSafe limit c k symbol side quantity price new sided allowed h =
    let o = placed symbol side quantity price in
    record {
      limit_same = h.limit_same;
      distinct = insert-Distinct k o c.open_orders h.distinct;
      sound = insert-Every IsSound k o c.open_orders (sided, omega (arith, allowed)) h.sound;
      within = opened-Within limit c k symbol side quantity price new sided allowed h;
    }
