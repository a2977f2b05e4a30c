-- ===== src/Client/Operations.antt =====
-- `new_order` of src/order_entry.py as a chain of steps.
use hft_trading_system.Prelude.{
  Action, Bool-cases, Dict, Option-cases, Result, Result-cases, arith, err, if◌then◌else◌, inl, inr,
  int_eq, lift, lookup, nat_eq, none, ok, refl, true, ℕ, ℤ, ◌≡◌, ◌⊎◌,
}
use hft_trading_system.Protocol.Enums.{member_of, sides}
use hft_trading_system.Safety.Exposure.{OeConfig}
use hft_trading_system.Safety.Position.{PositionTracker}
use hft_trading_system.Safety.Pnl.{PnLTracker}
use hft_trading_system.Safety.Risk.{RiskTracker, is_valid, meter, roll_second, roll_sequence}
use hft_trading_system.Client.{OrderEntryClient, make_header}
use hft_trading_system.Client.Session.{Session, Venue}
use hft_trading_system.Client.Orders.{cancel_all_orders, new_order, refuse, risk_check, submit}
use hft_trading_system.Client.Steps.{
  Answer, Chain, IsAllowed, Quiet, SameLimits, Step, answers, chain_append,
}
use hft_trading_system.Client.Follows.{
  Follows, Follows-bind, Follows-lift, Follows-quiet, make_header-Follows,
}
use hft_trading_system.Client.Cancels.{cancel_all_orders-Follows, exchange_messages-Follows}
use hft_trading_system.Safety.Limits.{is_valid-screen, screen-none}
use hft_trading_system.Client.Blocks.{◌>>=◌}

is_valid-SameLimits :
    (symbol side : ℕ) (quantity price : ℤ) (open_orders : Dict ℕ OeConfig)
    (positions : PositionTracker) (pnl : PnLTracker) (seq now : ℕ) (r : RiskTracker)
    → SameLimits r (is_valid symbol side quantity price open_orders positions pnl seq now r).1
unfolding is_valid meter roll_second roll_sequence
is_valid-SameLimits symbol side quantity price open_orders positions pnl seq now r = ground arith

pub side_of_member : (n a : ℕ) → member_of sides n ≡ ok a → (n ≡ 1) ⊎ (n ≡ 2)
side_of_member n a h = ground arith

module _ {X : Type 0} where
  pub Follows-answers : {A : Type 0} {m : Action (Session X) A} → Follows Answer m → Follows Step m
  Follows-answers h = record { at = λ s. answers (h.at s) }

  pub Follows-bind_lift :
      {A B : Type 0} (r : Result A) (f : A → Action (Session X) B)
      → ((a : A) → r ≡ ok a → Follows Step (f a))
      → Follows Step (lift r >>= f)
  unfolding ◌>>=◌
  Follows-bind_lift (ok a) f k = record { at = λ s. (k a refl).at s }
  Follows-bind_lift (err e) f k = record { at = λ s. Chain.here }

  -- A chain from the states in which the client has a property.
  pub record FollowsFrom (P : OrderEntryClient → Type 0) {A : Type 0} (m : Action (Session X) A)
      : Type 0 where
    pub at : (s : Session X) → P s.client → Chain Step s.client (m s).1.client

  module _ (P : OrderEntryClient → Type 0) {A B : Type 0} where
    From-lift :
        (r : Result A) (f : A → Action (Session X) B)
        → ((a : A) → r ≡ ok a → FollowsFrom P (f a))
        → FollowsFrom P (lift r >>= f)
    unfolding ◌>>=◌
    From-lift (ok a) f k = record { at = λ s h. (k a refl).at s h }
    From-lift (err e) f k = record { at = λ s h. Chain.here }

    From-first :
        (m : Action (Session X) A) (f : A → Action (Session X) B)
        → Follows Step m
        → ((s : Session X) → P s.client → P (m s).1.client)
        → ((a : A) → FollowsFrom P (f a))
        → FollowsFrom P (m >>= f)
    unfolding ◌>>=◌
    From-first m f h keep k = record {
      at = λ s p. elim (Result-cases (m s).0) [
        | inl (a, e) ↦ rw (e, ◌>>=◌) (chain_append (h.at s) ((k a).at (m s).1 (keep s p)))
        | inr (c, e) ↦ rw (e, ◌>>=◌) (h.at s)
      ];
    }

    From-last :
        (m : Action (Session X) A) (f : A → Action (Session X) B)
        → FollowsFrom P m
        → ((a : A) → Follows Step (f a))
        → FollowsFrom P (m >>= f)
    unfolding ◌>>=◌
    From-last m f h k = record {
      at = λ s p. elim (Result-cases (m s).0) [
        | inl (a, e) ↦ rw (e, ◌>>=◌) (chain_append (h.at s p) ((k a).at (m s).1))
        | inr (c, e) ↦ rw (e, ◌>>=◌) (h.at s p)
      ];
    }

module _ {X : Type 0} (v : Venue X) where
  -- An order that may be placed
  abbrev IsReady : (order_id symbol side : ℕ) → ℤ → OrderEntryClient → Type 0
  IsReady order_id symbol side quantity c =
      (lookup order_id c.open_orders ≡ none) × IsAllowed symbol side quantity c

  submit-Follows :
      (depth order_id symbol side : ℕ) (quantity price : ℤ) (flags : ℕ)
      → FollowsFrom
          (IsReady order_id symbol side quantity)
          (submit v depth order_id symbol side quantity price flags)
  unfolding submit make_header
  submit-Follows depth order_id symbol side quantity price flags =
      let P = IsReady order_id symbol side quantity in
      From-first P _ _ (Follows-answers (Follows-quiet (make_header-Follows _ _))) (λ s p. p)
        λ header. From-lift P _ _ λ a sided. From-lift P _ _ λ b _.
          From-last P _ _
            (record {
              at = λ s p. Chain.next Chain.here (
                  Step.opened s.client order_id symbol side quantity price p.0
                    (side_of_member side a sided) p.1);
            })
            λ _. Follows-bind Step _ _ (Follows-lift Step _) λ amount.
              Follows-bind Step _ _ (Follows-lift Step _) λ bytes. Follows-answers (
                exchange_messages-Follows (cancel_all_orders v depth)
                  (cancel_all_orders-Follows v depth) v bytes)

  pub IsAllowed-risk_check :
      (symbol side : ℕ) (quantity price : ℤ) (s : Session X)
      → (risk_check v symbol side quantity price s).0 ≡ ok true
      → IsAllowed symbol side quantity (risk_check v symbol side quantity price s).1.client
  IsAllowed-risk_check symbol side quantity price s e =
      let c = s.client in
      let now = v.clock s.outside in
      let valid : (is_valid symbol side quantity price c.open_orders c.position_tracker
            c.pnl_tracker c.resp_seq now c.risk_tracker).0.0
          ≡ true =
        cc in
      let same =
        is_valid-SameLimits symbol side quantity price c.open_orders c.position_tracker
          c.pnl_tracker c.resp_seq now c.risk_tracker in
      rw (same.exposure_same) (
        screen-none symbol side quantity price c.open_orders c.position_tracker c.pnl_tracker
          c.risk_tracker
          (is_valid-screen symbol side quantity price c.open_orders c.position_tracker c.pnl_tracker
            c.resp_seq now c.risk_tracker valid))

  checked_order :
      (depth order_id symbol side : ℕ) (quantity price : ℤ) (flags : ℕ) (s : Session X)
      → lookup order_id s.client.open_orders ≡ none
      → Chain Step s.client
          ((risk_check v symbol side quantity price >>= λ valid.
              if valid
              then submit v depth order_id symbol side quantity price flags
              else refuse v order_id)
            s).1.client
  unfolding ◌>>=◌
  checked_order depth order_id symbol side quantity price flags s new =
      let c = s.client in
      let s1 = (risk_check v symbol side quantity price s).1 in
      let step : Chain Step c s1.client = Chain.next Chain.here (
        Step.checked c s1.client.risk_tracker (
          is_valid-SameLimits symbol side quantity price c.open_orders c.position_tracker
            c.pnl_tracker c.resp_seq (v.clock s.outside) c.risk_tracker)) in
      elim (Bool-cases
        (is_valid symbol side quantity price c.open_orders c.position_tracker c.pnl_tracker
          c.resp_seq (v.clock s.outside) c.risk_tracker).0.0) [
            | inl valid ↦ rw valid (
                chain_append step (
                  (submit-Follows depth order_id symbol side quantity price flags).at s1
                    (new, IsAllowed-risk_check symbol side quantity price s (cc))))
            | inr refused ↦
                rw refused
                  (Chain.next step (Step.answered (Answer.quiet (Quiet.numbered s1.client))))
          ]

  -- Whatever the arguments and the answers are, `new_order` does nothing to the client but steps:
  -- an order is placed only under a number that is not in use, and after the check of its exposure.
  new_order-Follows :
      (depth order_id symbol side : ℕ) (quantity price : ℤ) (flags : ℕ)
      → Follows Step (new_order v depth order_id symbol side quantity price flags)
  unfolding new_order
  new_order-Follows depth order_id symbol side quantity price flags = record {
    at = λ s. elim (Option-cases (lookup order_id s.client.open_orders)) [
      | inl new ↦
          rw (new, new_order) (checked_order depth order_id symbol side quantity price flags s new)
      | inr (o, listed) ↦ rw (listed, new_order) Chain.here
    ];
  }
