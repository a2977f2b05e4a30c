-- ===== src/HeapQueue.antt =====
-- What src/order_book.py uses of the standard library's `heapq`: `heappush`, `heap[0]` and
-- `heappop`. A heap is held as the ascending list of its items, whose head is the least one.
use hft_trading_system.Prelude.{
  ℤ, ◌≤ℤ◌, leb_ℤ, ◌≡◌, refl, ◌⊎◌, inl, inr, List, [], ◌∷◌, All, arith, if◌then◌else◌,
}

abbrev pub Heap : Type 0
Heap = List ℤ

unfoldable pub heappush : ℤ → Heap → Heap
heappush x [] = x ∷ []
heappush x (y ∷ h) = if leb_ℤ x y then x ∷ y ∷ h else y ∷ heappush x h

abbrev pub IsOrdered : Heap → Type 0
IsOrdered [] = Unit
IsOrdered (x ∷ h) = All (λ y. x ≤ℤ y) h × IsOrdered h

abbrev pub In : ℤ → Heap → Type 0
In x [] = ⊥
In x (y ∷ h) = (x ≡ y) ⊎ In x h

pub In-heappush_self : (x : ℤ) (h : Heap) → In x (heappush x h)
unfolding heappush
In-heappush_self x [] = inl refl
In-heappush_self x (y ∷ h) = ground (arith, In-heappush_self x h)

pub In-heappush : (x z : ℤ) (h : Heap) → In z h → In z (heappush x h)
unfolding heappush
In-heappush x z [] i = absurd i
In-heappush x z (y ∷ h) i = ground (arith, In-heappush x z h)

All-le_trans : (x y : ℤ) (h : Heap) → x ≤ℤ y → All (λ z. y ≤ℤ z) h → All (λ z. x ≤ℤ z) h
All-le_trans x y [] p a = tt
All-le_trans x y (z ∷ h) p a = (omega arith, All-le_trans x y h p a.1)

All-heappush :
    (b x : ℤ) (h : Heap) → b ≤ℤ x → All (λ z. b ≤ℤ z) h → All (λ z. b ≤ℤ z) (heappush x h)
unfolding heappush
All-heappush b x [] p a = (p, tt)
All-heappush b x (y ∷ h) p a = ground (arith, All-heappush b x h p a.1)

pub heappush-IsOrdered : (x : ℤ) (h : Heap) → IsOrdered h → IsOrdered (heappush x h)
unfolding heappush
heappush-IsOrdered x [] o = (tt, tt)
heappush-IsOrdered x (y ∷ h) o =
    ground (arith, heappush-IsOrdered x h o.1, All-heappush y x h, All-le_trans x y h)

All-In : (x y : ℤ) (h : Heap) → All (λ z. x ≤ℤ z) h → In y h → x ≤ℤ y
All-In x y [] a i = absurd i
All-In x y (z ∷ h) a (inl p) = rw p a.0
All-In x y (z ∷ h) a (inr i) = All-In x y h a.1 i

-- The head of a heap is its least item.
pub head-le : (x y : ℤ) (h : Heap) → IsOrdered (x ∷ h) → In y (x ∷ h) → x ≤ℤ y
head-le x y h o (inl p) = rw p (omega arith)
head-le x y h o (inr i) = All-In x y h o.0 i
