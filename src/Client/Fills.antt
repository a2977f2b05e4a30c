-- ===== src/Client/Fills.antt =====
-- Fills that src/order_entry.py books, and the exposures of src/safety.py.
use hft_trading_system.Protocol.Responses.{OrderFill}
use hft_trading_system.Prelude.{
  Bool-cases, Dict, Distinct, add_zero, ap, arith, eqb, erase, if◌then◌else◌, inl, inr, insert,
  int_eq, int_laws, lookup, ltb, nat_eq, neg, neg_part, pos, pos_part, some, sym, total,
  total-erase, total-insert_old, ℕ, ℤ, ◌&&◌, ◌+ℤ◌, ◌-ℤ◌, ◌∙◌, ◌≡◌, ◌≤ℤ◌,
}
use hft_trading_system.Safety.Position.{get_position}
use hft_trading_system.Safety.Exposure.{
  OeConfig, buy_exposure, buy_side, outstanding, sell_exposure, sell_side,
}
use hft_trading_system.Safety.Ledger.{Update, position-update}
use hft_trading_system.Safety.Scenarios.{HasSide, change}
use hft_trading_system.Client.{OrderEntryClient, apply_fill, book_fill}

abbrev pub buys : ℕ → OrderEntryClient → ℤ
buys s c = buy_exposure s c.open_orders (get_position s c.position_tracker)

abbrev pub sells : ℕ → OrderEntryClient → ℤ
sells s c = sell_exposure s c.open_orders (get_position s c.position_tracker)

-- What an order counts for on a side
abbrev pub weight : ℕ → ℕ → OeConfig → ℤ
weight s side o = if eqb o.symbol s && eqb o.side side then o.quantity -ℤ o.filled else pos 0

abbrev pub filled_more : OeConfig → ℤ → OeConfig
filled_more o n = record o { filled = o.filled +ℤ n }

-- The quantity that an order no longer counts for, once it is filled by n, or closed
outstanding_after :
    (s side k n flags : ℕ) (o : OeConfig) (d : Dict ℕ OeConfig)
    → Distinct d
    → lookup k d ≡ some o
    → outstanding s side (if eqb flags 2 then erase k d else insert k (filled_more o (pos n)) d)
        +ℤ weight s side o
      ≡ outstanding s side d
        +ℤ (if eqb flags 2 then pos 0 else weight s side (filled_more o (pos n)))
unfolding outstanding
outstanding_after s side k n flags o d distinct found = elim (Bool-cases (eqb flags 2)) [
  | inl closed ↦
      rw closed (
        total-erase (weight s side) k o d distinct found ∙ sym (add_zero (total (weight s side) d)))
  | inr still ↦ rw still (total-insert_old (weight s side) k (filled_more o (pos n)) o d found)
]

pub less_zero : (n : ℤ) → n -ℤ pos 0 ≡ n
less_zero n = omega int_laws

zero_less : (n : ℤ) → pos 0 -ℤ n ≡ neg n
zero_less n = omega int_laws

position_after_fill :
    (s : ℕ) (resp : OrderFill) (o : OeConfig) (c : OrderEntryClient)
    → get_position s (book_fill resp o c).position_tracker
      ≡ get_position s c.position_tracker +ℤ change s o (pos resp.quantity)
unfolding book_fill
position_after_fill s resp o c =
    let q = pos resp.quantity in
    let bought : Update = record { symbol = o.symbol; bought = q; sold = pos 0 } in
    let sold : Update = record { symbol = o.symbol; bought = pos 0; sold = q } in
    ground (
      arith,
      position-update s bought c.position_tracker,
      position-update s sold c.position_tracker,
      less_zero q,
      zero_less q,
    )

-- A fill moves the position by no more than the order then counts less.
fill_weight :
    (s n flags : ℕ) (o : OeConfig)
    → HasSide o
    → pos n ≤ℤ o.quantity -ℤ o.filled
    → (change s o (pos n)
          +ℤ (if eqb flags 2 then pos 0 else weight s buy_side (filled_more o (pos n)))
        ≤ℤ weight s buy_side o)
      × (neg (change s o (pos n))
            +ℤ (if eqb flags 2 then pos 0 else weight s sell_side (filled_more o (pos n)))
          ≤ℤ weight s sell_side o)
fill_weight s n flags o (inl bid) open_still = elim (Bool-cases (eqb o.symbol s)) [
  | inl here ↦ elim (Bool-cases (eqb flags 2)) [
    | inl closed ↦ rw (here, bid, closed) (omega int_laws, omega int_laws)
    | inr still ↦ rw (here, bid, still) (omega int_laws, omega int_laws)
  ]
  | inr other ↦ rw other (grind int_laws)
]
fill_weight s n flags o (inr ask) open_still = elim (Bool-cases (eqb o.symbol s)) [
  | inl here ↦ elim (Bool-cases (eqb flags 2)) [
    | inl closed ↦ rw (here, ask, closed) (omega int_laws, omega int_laws)
    | inr still ↦ rw (here, ask, still) (omega int_laws, omega int_laws)
  ]
  | inr other ↦ rw other (grind int_laws)
]

settle_buy :
    (p' p ch t' t w w' : ℤ) → p' ≡ p +ℤ ch → t' +ℤ w ≡ t +ℤ w' → ch +ℤ w' ≤ℤ w → p' +ℤ t' ≤ℤ p +ℤ t
settle_buy p' p ch t' t w w' e f h = rw e (omega (int_laws, ap pos_part f, ap neg_part f))

settle_sell :
    (p' p ch t' t w w' : ℤ)
    → p' ≡ p +ℤ ch
    → t' +ℤ w ≡ t +ℤ w'
    → neg ch +ℤ w' ≤ℤ w
    → neg p' +ℤ t' ≤ℤ neg p +ℤ t
settle_sell p' p ch t' t w w' e f h = rw e (omega (int_laws, ap pos_part f, ap neg_part f))

pub book_fill-exposures :
    (s : ℕ) (resp : OrderFill) (o : OeConfig) (c : OrderEntryClient)
    → Distinct c.open_orders
    → lookup resp.order_id c.open_orders ≡ some o
    → HasSide o
    → pos resp.quantity ≤ℤ o.quantity -ℤ o.filled
    → (buys s (book_fill resp o c) ≤ℤ buys s c) × (sells s (book_fill resp o c) ≤ℤ sells s c)
unfolding buy_exposure sell_exposure book_fill
book_fill-exposures s resp o c distinct found side open_still =
    let weights = fill_weight s resp.quantity resp.flags o side open_still in
    let moved = position_after_fill s resp o c in
    let left = λ (x : ℕ).
      outstanding_after s x resp.order_id resp.quantity resp.flags o c.open_orders distinct found in
    (
      settle_buy _ _ _ _ _ _ _ moved (left buy_side) weights.0,
      settle_sell _ _ _ _ _ _ _ moved (left sell_side) weights.1,
    )

-- A fill of an open order, by no more than what is open of it, raises neither exposure in any symbol,
-- whether it closes the order or not.
pub apply_fill-exposures :
    (s : ℕ) (resp : OrderFill) (o : OeConfig) (c : OrderEntryClient)
    → Distinct c.open_orders
    → lookup resp.order_id c.open_orders ≡ some o
    → HasSide o
    → pos resp.quantity ≤ℤ o.quantity -ℤ o.filled
    → (buys s (apply_fill resp c).1 ≤ℤ buys s c) × (sells s (apply_fill resp c).1 ≤ℤ sells s c)
unfolding apply_fill
apply_fill-exposures s resp o c distinct found side open_still =
    elim (Bool-cases (ltb 2 resp.flags)) [
      | inl bad ↦ rw (bad, apply_fill) (omega arith, omega arith)
      | inr good ↦
          rw (good, found, apply_fill)
            (book_fill-exposures s resp o c distinct found side open_still)
    ]
