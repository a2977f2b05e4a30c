-- ===== src/Sequence/Accepted.antt =====
-- `SequenceTracker.check` of src/order_book.py over a sequence of packets.
use hft_trading_system.Prelude.{
  Bool-cases, List, Option, [], ap, arith, false, if◌then◌else◌, inl, inr, int_eq, leb, ltb, nat_eq,
  none, refl, some, true, ℕ, ◌+◌, ◌∷◌, ◌≡◌, ◌≤◌,
}
use hft_trading_system.Sequence.{SequenceTracker, accepted, check}

-- Above what was let through before
abbrev pub IsAbove : Option ℕ → ℕ → Type 0
IsAbove none n = Unit {0}
IsAbove (some low) n = low ≤ n

-- From `low` on, strictly upwards
abbrev pub Ascends : Option ℕ → List ℕ → Type 0
Ascends low [] = Unit {0}
Ascends low (n ∷ ns) = IsAbove low n × Ascends (some (n + 1)) ns

-- The reference: keep what is above all that was kept.
unfoldable pub running_maxima : Option ℕ → List ℕ → List ℕ
running_maxima low [] = []
running_maxima none (n ∷ ns) = n ∷ running_maxima (some (n + 1)) ns
running_maxima (some low) (n ∷ ns) =
    let kept = n ∷ running_maxima (some (n + 1)) ns in
    let rest = running_maxima (some low) ns in if leb low n then kept else rest

abbrev Passes : List ℕ → Option ℕ → SequenceTracker → Type 0
Passes ns low t = ((accepted ns t).0 ≡ running_maxima low ns) × Ascends low (accepted ns t).0

accepted_from : (ns : List ℕ) (low : Option ℕ) → Passes ns low (record { expected_seq = low })
unfolding accepted check running_maxima
accepted_from [] low = (refl, tt)
accepted_from (n ∷ ns) none =
    let h = accepted_from ns (some (n + 1)) in (ap (λ r. n ∷ r) h.0, (tt, h.1))
accepted_from (n ∷ ns) (some low) =
    let h = accepted_from ns (some (n + 1)) in
    let g = accepted_from ns (some low) in
    elim (Bool-cases (ltb n low)) [
      | inl old ↦ let old' : leb low n ≡ false = ground arith in rw (old, old') g
      | inr fresh ↦
          let fresh' : leb low n ≡ true = ground arith in
          rw (fresh, fresh') (ap (λ r. n ∷ r) h.0, (ground arith, h.1))
    ]

-- `check` lets a packet through exactly if it is above all packets let through before it, so the
-- packets let through are the running maxima of the sequence, in strictly ascending order: no number
-- passes twice, and none passes after a larger one.
pub accepted_lem :
    (ns : List ℕ) (t : SequenceTracker)
    → ((accepted ns t).0 ≡ running_maxima t.expected_seq ns)
      × Ascends t.expected_seq (accepted ns t).0
accepted_lem ns t = accepted_from ns t.expected_seq
