-- ===== src/Strategy/Spoofs.antt =====
-- `class SpoofDetector` of src/strategy.py. `time.monotonic()` is an argument.
use hft_trading_system.Prelude.{
  Dict, [], eqb, erase, if◌then◌else◌, insert, int_eq, lookup, nat_eq, none, pos, some, ℕ, ℤ,
}
use hft_trading_system.Strategy.Floats.{Float, float, larger, less, literal, ◌⊕◌, ◌⊖◌, ◌⊗◌}

pub record Tracked (W : Type 0) : Type 0 where
  pub since : W
  pub side : ℕ
  pub qty : ℤ

pub record SpoofDetector (W : Type 0) : Type 0 where
  pub tracked : Dict ℕ (Tracked W)
  pub avg_qty : Dict ℕ W
  pub bid_pressure : Dict ℕ W
  pub ask_pressure : Dict ℕ W

abbrev pub new_spoof_detector : (W : Type 0) → SpoofDetector W
new_spoof_detector W = record { tracked = []; avg_qty = []; bid_pressure = []; ask_pressure = [] }

module _ {W : Type 0} ⦃f : Float W⦄ where
  -- `d.get(symbol, default)`
  abbrev pub amount_or : W → ℕ → Dict ℕ W → W
  amount_or default symbol d = elim (lookup symbol d) [ none ↦ default | some w ↦ w ]

  unfoldable pub on_new_order :
      (now : W) → (order_id symbol side : ℕ) → (qty : ℤ) → SpoofDetector W → SpoofDetector W
  on_new_order now order_id symbol side qty d =
      let avg = amount_or (float qty) symbol d.avg_qty in
      let large = larger (float (pos 3)) (literal 4 1 ⊗ avg) in
      record d {
        avg_qty = insert symbol (avg ⊗ literal 95 100 ⊕ float qty ⊗ literal 5 100) d.avg_qty;
        tracked =
            if less (float qty) large
            then d.tracked
            else insert order_id (record { since = now; side = side; qty = qty }) d.tracked;
      }

  abbrev press : ℕ → ℤ → Dict ℕ W → Dict ℕ W
  press symbol qty d = insert symbol (amount_or (float (pos 0)) symbol d ⊕ float qty) d

  unfoldable pub on_cancel : (now : W) → (order_id symbol : ℕ) → SpoofDetector W → SpoofDetector W
  on_cancel now order_id symbol d = elim (lookup order_id d.tracked) [
    | none ↦ d
    | some entry ↦
        let d1 : SpoofDetector W = record d { tracked = erase order_id d.tracked } in
        if less (now ⊖ entry.since) (literal 2 1)
        then if eqb entry.side 1
          then record d1 { bid_pressure = press symbol entry.qty d.bid_pressure }
          else record d1 { ask_pressure = press symbol entry.qty d.ask_pressure }
        else d1
  ]

  unfoldable pub on_trade : (order_id : ℕ) → SpoofDetector W → SpoofDetector W
  on_trade order_id d = record d { tracked = erase order_id d.tracked }

  -- One of the two dictionaries in the loop of `decay`
  unfoldable pub decay_pressure : (symbol : ℕ) → Dict ℕ W → Dict ℕ W
  decay_pressure symbol d = elim (lookup symbol d) [
    | none ↦ d
    | some w ↦
        let v = w ⊗ literal 88 100 in
        if less v (literal 1 2) then erase symbol d else insert symbol v d
  ]

  unfoldable pub decay : (symbol : ℕ) → SpoofDetector W → SpoofDetector W
  unfolding decay_pressure
  decay symbol d = record d {
    bid_pressure = decay_pressure symbol d.bid_pressure;
    ask_pressure = decay_pressure symbol d.ask_pressure;
  }

  abbrev pub bid_spoof_qty : ℕ → SpoofDetector W → W
  bid_spoof_qty symbol d = amount_or (float (pos 0)) symbol d.bid_pressure

  abbrev pub ask_spoof_qty : ℕ → SpoofDetector W → W
  ask_spoof_qty symbol d = amount_or (float (pos 0)) symbol d.ask_pressure
