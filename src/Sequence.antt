-- ===== src/Sequence.antt =====
-- `class SequenceTracker` of src/order_book.py.
pub mod Accepted
use hft_trading_system.Prelude.{
  Bool, List, Option, [], arith, false, if◌then◌else◌, int_eq, ltb, nat_eq, none, some, true, ℕ,
  ◌+◌, ◌∷◌, ◌≡◌,
}

pub record SequenceTracker : Type 0 where
  pub expected_seq : Option ℕ

abbrev pub new_tracker : SequenceTracker
new_tracker = record { expected_seq = none }

abbrev pub expect : ℕ → SequenceTracker
expect n = record { expected_seq = some n }

-- False on a duplicate. A gap is logged and accepted.
unfoldable pub check : ℕ → SequenceTracker → Bool × SequenceTracker
check seq_num t = elim t.expected_seq [
  | none ↦ (true, expect (seq_num + 1))
  | some expected ↦ if ltb seq_num expected then (false, t) else (true, expect (seq_num + 1))
]

-- The numbers that `check` lets through, of a sequence of packets, and the tracker after them
unfoldable pub accepted : List ℕ → SequenceTracker → List ℕ × SequenceTracker
accepted [] t = ([], t)
accepted (n ∷ ns) t =
    let (clean, t') = check n t in
    let (rest, t'') = accepted ns t' in (if clean then n ∷ rest else rest, t'')
