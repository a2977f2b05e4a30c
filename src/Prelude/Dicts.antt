-- ===== src/Prelude/Dicts.antt =====
-- Python's `dict`, in insertion order, over any type of keys with a test of equality.
use mathlib.Core.Path.{◌≡◌, refl, subst}
use mathlib.Core.Logic.{◌⊎◌, inl, inr}
use mathlib.Core.Bool.{Bool, true, false}
use mathlib.Core.Option.{Option, none, some}
use mathlib.Core.List.{List, [], ◌∷◌}
use native.Mathlib.Omega.{arith}
use hft_trading_system.Prelude.Tests.{if◌then◌else◌, Eq, ◌==◌, Bool-cases}
use hft_trading_system.Prelude.Ints.{ℤ, pos, ◌+ℤ◌, ◌≤ℤ◌, int_laws}

abbrev pub Dict {ℓ κ} : Type ℓ → Type κ → Type (ℓ ⊔ κ)
Dict K V = List (K × V)

abbrev pub is_some {ℓ} : {A : Type ℓ} → Option A → Bool
is_some none = false
is_some (some v) = true

-- `sum(w(v) for v in d.values())`
unfoldable pub total {ℓ κ} : {K : Type ℓ} {V : Type κ} → (V → ℤ) → Dict K V → ℤ
total w [] = pos 0
total w ((k, v) ∷ d) = w v +ℤ total w d

module _ {ℓ κ} {K : Type ℓ} {V : Type κ} ⦃e : Eq K⦄ where
  -- `d.get(k)`
  unfoldable pub lookup : K → Dict K V → Option V
  lookup k [] = none
  lookup k ((j, v) ∷ d) = if j == k then some v else lookup k d

  -- `d[k] = v`: an old key keeps its place.
  unfoldable pub insert : K → V → Dict K V → Dict K V
  insert k v [] = (k, v) ∷ []
  insert k v ((j, w) ∷ d) = if j == k then (j, v) ∷ d else (j, w) ∷ insert k v d

  -- `del d[k]`, `d.pop(k, None)`
  unfoldable pub erase : K → Dict K V → Dict K V
  erase k [] = []
  erase k ((j, w) ∷ d) = let rest = erase k d in if j == k then rest else (j, w) ∷ rest

  -- No key stands twice.
  abbrev pub Distinct : Dict K V → Type (ℓ ⊔ κ)
  Distinct [] = Unit
  Distinct ((k, v) ∷ d) = (lookup k d ≡ none) × Distinct d

  pub lookup-insert :
      (k j : K) (v : V) (d : Dict K V)
      → lookup j (insert k v d) ≡ (if k == j then some v else lookup j d)
  unfolding lookup insert
  lookup-insert k j v [] = refl
  lookup-insert k j v ((i, w) ∷ d) =
      ground (arith, e.beq_iff k j, e.beq_iff i k, e.beq_iff i j, lookup-insert k j v d)

  pub lookup-erase :
      (k j : K) (d : Dict K V) → lookup j (erase k d) ≡ (if k == j then none else lookup j d)
  unfolding lookup erase
  lookup-erase k j [] = ground arith
  lookup-erase k j ((i, w) ∷ d) =
      ground (arith, e.beq_iff k j, e.beq_iff i k, e.beq_iff i j, lookup-erase k j d)

  pub lookup-insert_self : (k : K) (v : V) (d : Dict K V) → lookup k (insert k v d) ≡ some v
  lookup-insert_self k v d = rw (lookup-insert k k v d, (e.beq_iff k k).1 refl)

  pub lookup-erase_self : (k : K) (d : Dict K V) → lookup k (erase k d) ≡ none
  lookup-erase_self k d = rw (lookup-erase k k d, (e.beq_iff k k).1 refl)

  pub insert-Distinct : (k : K) (v : V) (d : Dict K V) → Distinct d → Distinct (insert k v d)
  unfolding insert lookup
  insert-Distinct k v [] h = (refl, tt)
  insert-Distinct k v ((i, w) ∷ d) h =
      ground (arith, e.beq_iff i k, e.beq_iff k i, insert-Distinct k v d h.1, lookup-insert k i v d)

  pub erase-Distinct : (k : K) (d : Dict K V) → Distinct d → Distinct (erase k d)
  unfolding erase lookup
  erase-Distinct k [] h = tt
  erase-Distinct k ((i, w) ∷ d) h =
      ground (arith, e.beq_iff i k, e.beq_iff k i, erase-Distinct k d h.1, lookup-erase k i d)

  pub total-insert_new :
      (w : V → ℤ) (k : K) (v : V) (d : Dict K V)
      → lookup k d ≡ none
      → total w (insert k v d) ≡ total w d +ℤ w v
  unfolding insert lookup total
  total-insert_new w k v [] h = omega int_laws
  total-insert_new w k v ((i, u) ∷ d) h = grind (int_laws, total-insert_new w k v d)

  pub total-insert_old :
      (w : V → ℤ) (k : K) (v u : V) (d : Dict K V)
      → lookup k d ≡ some u
      → total w (insert k v d) +ℤ w u ≡ total w d +ℤ w v
  unfolding insert lookup total
  total-insert_old w k v u [] h = cc
  total-insert_old w k v u ((i, x) ∷ d) h = grind (int_laws, total-insert_old w k v u d)

  pub erase-eq_of_none : (k : K) (d : Dict K V) → lookup k d ≡ none → erase k d ≡ d
  unfolding erase lookup
  erase-eq_of_none k [] h = refl
  erase-eq_of_none k ((i, x) ∷ d) h = ground (arith, erase-eq_of_none k d)

  pub total-erase :
      (w : V → ℤ) (k : K) (u : V) (d : Dict K V)
      → Distinct d
      → lookup k d ≡ some u
      → total w (erase k d) +ℤ w u ≡ total w d
  unfolding erase lookup total
  total-erase w k u [] h e = cc
  total-erase w k u ((i, x) ∷ d) h p =
      grind (int_laws, e.beq_iff i k, erase-eq_of_none i d h.0, total-erase w k u d h.1)

-- A predicate on all values.
abbrev pub Every {ℓ κ μ} : {K : Type ℓ} {V : Type κ} → (V → Type μ) → Dict K V → Type μ
Every P [] = Unit
Every P ((k, v) ∷ d) = P v × Every P d

pub total_nonneg {ℓ κ} :
    {K : Type ℓ} {V : Type κ} (w : V → ℤ) (d : Dict K V)
    → Every (λ v. pos 0 ≤ℤ w v) d
    → pos 0 ≤ℤ total w d
unfolding total
total_nonneg w [] h = omega arith
total_nonneg w ((k, v) ∷ d) h = omega (int_laws, total_nonneg w d h.1)

module _ {ℓ κ μ} {K : Type ℓ} {V : Type κ} ⦃e : Eq K⦄ (P : V → Type μ) where
  pub insert-Every : (k : K) (v : V) (d : Dict K V) → P v → Every P d → Every P (insert k v d)
  unfolding insert
  insert-Every k v [] p h = (p, tt)
  insert-Every k v ((i, w) ∷ d) p h =
      elim (i == k) as (λ b. Every P (if b then (i, v) ∷ d else (i, w) ∷ insert k v d)) [
        | true ↦ (p, h.1)
        | false ↦ (h.0, insert-Every k v d p h.1)
      ]

  pub erase-Every : (k : K) (d : Dict K V) → Every P d → Every P (erase k d)
  unfolding erase
  erase-Every k [] h = tt
  erase-Every k ((i, w) ∷ d) h =
      elim (i == k) as (λ b. Every P (if b then erase k d else (i, w) ∷ erase k d)) [
        | true ↦ erase-Every k d h.1
        | false ↦ (h.0, erase-Every k d h.1)
      ]

  pub lookup-Every : (k : K) {v : V} (d : Dict K V) → Every P d → lookup k d ≡ some v → P v
  unfolding lookup
  lookup-Every k [] h p = cc
  lookup-Every k {v} ((i, w) ∷ d) h p = elim (Bool-cases (i == k)) [
    | inl hit ↦ let q : some w ≡ some v = rw hit at p in subst P (cc) h.0
    | inr miss ↦ lookup-Every k d h.1 (rw miss at p)
  ]

module _ {ℓ κ} {K : Type ℓ} {V : Type κ} ⦃e : Eq K⦄ where
  -- One value weighs no more than all together, if none weighs less than nothing.
  pub total-ge :
      (w : V → ℤ) (k : K) (u : V) (d : Dict K V)
      → Every (λ v. pos 0 ≤ℤ w v) d
      → lookup k d ≡ some u
      → w u ≤ℤ total w d
  unfolding lookup total
  total-ge w k u [] h p = cc
  total-ge w k u ((i, x) ∷ d) h p = grind (int_laws, total-ge w k u d h.1, total_nonneg w d h.1)

module _ {ℓ κ} {K : Type ℓ} {V : Type κ} ⦃e : Eq K⦄ where
  pub is_some-insert :
      (k j : K) (v : V) (d : Dict K V)
      → is_some (lookup j (insert k v d)) ≡ true
      → (k ≡ j) ⊎ (is_some (lookup j d) ≡ true)
  is_some-insert k j v d h = ground (arith, lookup-insert k j v d, e.beq_iff k j)

  pub is_some-erase :
      (k j : K) (d : Dict K V) → is_some (lookup j (erase k d)) ≡ true → is_some (lookup j d) ≡ true
  is_some-erase k j d h = ground (arith, lookup-erase k j d, e.beq_iff k j)

module _ {ℓ κ} {K : Type ℓ} {V : Type κ} ⦃e : Eq K⦄ where
  -- A write that is followed by a second one, or by a deletion, leaves no trace.
  pub insert-insert : (k : K) (v w : V) (d : Dict K V) → insert k v (insert k w d) ≡ insert k v d
  unfolding insert
  insert-insert k v w [] = ground (arith, e.beq_iff k k)
  insert-insert k v w ((i, x) ∷ d) = ground (arith, insert-insert k v w d)

  pub erase-insert : (k : K) (w : V) (d : Dict K V) → erase k (insert k w d) ≡ erase k d
  unfolding insert erase
  erase-insert k w [] = ground (arith, e.beq_iff k k)
  erase-insert k w ((i, x) ∷ d) = ground (arith, erase-insert k w d)
