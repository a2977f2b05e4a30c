-- ===== src/Client/Refusals.antt =====
-- Orders that `new_order` of src/order_entry.py refuses by itself.
use hft_trading_system.Prelude.{
  Bool, Bool-cases, List, Result, [], false, if◌then◌else◌, inl, inr, int_eq, is_some, lookup,
  nat_eq, ok, refl, true, ℕ, ℤ, ◌∷◌, ◌≡◌, ◌⊎◌,
}
use hft_trading_system.Client.Session.{OeResponse, Session, Venue, of_order_reject}
use hft_trading_system.Client.Orders.{new_order, refuse, risk_check, submit}
use hft_trading_system.Protocol.Responses.{OrderReject}
use hft_trading_system.Client.Blocks.{bind_ok}

-- The answer is one reject of the order.
abbrev pub IsRefusal : ℕ → Result (List OeResponse) → Type 0
IsRefusal order_id r =
    (m : OrderReject) × (r ≡ ok (of_order_reject m ∷ [])) × (m.order_id ≡ order_id)

module _ {X : Type 0} where
  -- Nothing was sent, and no order, position or profit is another.
  pub record IsUntouched (s s' : Session X) : Type 0 where
    pub outside_same : s'.outside ≡ s.outside
    pub socket_same : s'.socket ≡ s.socket
    pub orders_same : s'.client.open_orders ≡ s.client.open_orders
    pub positions_same : s'.client.position_tracker ≡ s.client.position_tracker
    pub pnl_same : s'.client.pnl_tracker ≡ s.client.pnl_tracker

module _ {X : Type 0} (v : Venue X) where
  duplicate_refused :
      (depth order_id symbol side : ℕ) (quantity price : ℤ) (flags : ℕ) (s : Session X)
      → is_some (lookup order_id s.client.open_orders) ≡ true
      → let (r, s') = new_order v depth order_id symbol side quantity price flags s in
        IsRefusal order_id r × IsUntouched s s'
  unfolding new_order
  duplicate_refused depth order_id symbol side quantity price flags s listed =
      rw (listed, new_order)
        (
          (_, refl, refl),
          record {
            outside_same = refl;
            socket_same = refl;
            orders_same = refl;
            positions_same = refl;
            pnl_same = refl;
          },
        )

  risk_refused :
      (depth order_id symbol side : ℕ) (quantity price : ℤ) (flags : ℕ) (s : Session X)
      → is_some (lookup order_id s.client.open_orders) ≡ false
      → (risk_check v symbol side quantity price s).0 ≡ ok false
      → let (r, s') = new_order v depth order_id symbol side quantity price flags s in
        IsRefusal order_id r × IsUntouched s s'
  unfolding new_order
  risk_refused depth order_id symbol side quantity price flags s fresh refused =
      let submitted = λ (valid : Bool).
        if valid
        then submit v depth order_id symbol side quantity price flags
        else refuse v order_id in
      rw
        (
          fresh,
          bind_ok (risk_check v symbol side quantity price) submitted s false refused,
          new_order,
        )
        (
          (_, refl, refl),
          record {
            outside_same = refl;
            socket_same = refl;
            orders_same = refl;
            positions_same = refl;
            pnl_same = refl;
          },
        )

  -- An order whose number is in use, or that the risk check does not pass, is refused: the answer
  -- is one reject of it, nothing is sent, and the open orders, the positions and the profit stay.
  pub new_order_refused :
      (depth order_id symbol side : ℕ) (quantity price : ℤ) (flags : ℕ) (s : Session X)
      → (is_some (lookup order_id s.client.open_orders) ≡ true)
        ⊎ ((risk_check v symbol side quantity price s).0 ≡ ok false)
      → let (r, s') = new_order v depth order_id symbol side quantity price flags s in
        IsRefusal order_id r × IsUntouched s s'
  new_order_refused depth order_id symbol side quantity price flags s (inl listed) =
      duplicate_refused depth order_id symbol side quantity price flags s listed
  new_order_refused depth order_id symbol side quantity price flags s (inr refused) =
      elim (Bool-cases (is_some (lookup order_id s.client.open_orders))) [
        | inl listed ↦ duplicate_refused depth order_id symbol side quantity price flags s listed
        | inr fresh ↦ risk_refused depth order_id symbol side quantity price flags s fresh refused
      ]
