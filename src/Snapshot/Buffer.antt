-- ===== src/Snapshot/Buffer.antt =====
-- The buffered packets that the replay of src/order_book.py goes through.
use hft_trading_system.Prelude.{
  All, Bool-cases, List, [], ap, arith, eqb, eqb_iff, inl, inr, int_eq, leb, nat_eq, not, refl,
  true, ℕ, ◌&&◌, ◌++◌, ◌<◌, ◌||◌, ◌∙◌, ◌∷◌, ◌≡◌, ◌≢◌, ◌≤◌,
}
use hft_trading_system.Snapshot.{Item, contains, dedup, sort_buffer, sort_in}
use hft_trading_system.MarketData.{side_eq}

abbrev pub seq : Item → ℕ
seq (header, body) = header.seq_num

abbrev pub seqs : List Item → List ℕ
seqs [] = []
seqs (x ∷ xs) = seq x ∷ seqs xs

abbrev IsSorted : List Item → Type 0
IsSorted [] = Unit {0}
IsSorted (x ∷ xs) = All (λ y. seq x ≤ seq y) xs × IsSorted xs

-- Strictly ascending numbers
abbrev pub IsAscending : List Item → Type 0
IsAscending [] = Unit {0}
IsAscending (x ∷ xs) = All (λ y. seq x < seq y) xs × IsAscending xs

All-le_trans :
    (a : ℕ) (x : Item) (xs : List Item)
    → a ≤ seq x
    → All (λ y. seq x ≤ seq y) xs
    → All (λ y. a ≤ seq y) xs
All-le_trans a x [] h s = tt
All-le_trans a x (y ∷ ys) h s = (omega arith, All-le_trans a x ys h s.1)

All-sort_in :
    (a : ℕ) (x : Item) (xs : List Item)
    → a ≤ seq x
    → All (λ y. a ≤ seq y) xs
    → All (λ y. a ≤ seq y) (sort_in x xs)
unfolding sort_in
All-sort_in a x [] h s = (h, tt)
All-sort_in a x (y ∷ ys) h s = ground (arith, All-sort_in a x ys h s.1)

sort_in-IsSorted : (x : Item) (xs : List Item) → IsSorted xs → IsSorted (sort_in x xs)
unfolding sort_in
sort_in-IsSorted x [] s = (tt, tt)
sort_in-IsSorted x (y ∷ ys) s = elim (Bool-cases (leb (seq x) (seq y))) [
  | inl le ↦ let h : seq x ≤ seq y = ground arith in rw le ((h, All-le_trans (seq x) y ys h s.0), s)
  | inr gt ↦ rw gt (All-sort_in (seq y) x ys (ground arith) s.0, sort_in-IsSorted x ys s.1)
]

sort_buffer-IsSorted : (xs : List Item) → IsSorted (sort_buffer xs)
unfolding sort_buffer
sort_buffer-IsSorted [] = tt
sort_buffer-IsSorted (x ∷ xs) = sort_in-IsSorted x (sort_buffer xs) (sort_buffer-IsSorted xs)

contains-sort_in :
    (n : ℕ) (x : Item) (xs : List Item)
    → contains n (seqs (sort_in x xs)) ≡ eqb (seq x) n || contains n (seqs xs)
unfolding sort_in contains
contains-sort_in n x [] = refl
contains-sort_in n x (y ∷ ys) = ground (arith, contains-sort_in n x ys)

contains-sort_buffer :
    (n : ℕ) (xs : List Item) → contains n (seqs (sort_buffer xs)) ≡ contains n (seqs xs)
unfolding sort_buffer contains
contains-sort_buffer n [] = refl
contains-sort_buffer n (x ∷ xs) =
    contains-sort_in n x (sort_buffer xs) ∙ ap (λ b. eqb (seq x) n || b) (contains-sort_buffer n xs)

-- A number is kept if it was there and was not seen.
contains-dedup :
    (n : ℕ) (seen : List ℕ) (xs : List Item)
    → contains n (seqs (dedup seen xs)) ≡ contains n (seqs xs) && not (contains n seen)
unfolding dedup contains
contains-dedup n seen [] = refl
contains-dedup n seen (x ∷ xs) =
    let a = contains-dedup n seen xs in
    let b = contains-dedup n (seq x ∷ seen) xs in ground (arith, eqb_iff n (seq x))

All-dedup :
    (a : ℕ) (seen : List ℕ) (xs : List Item)
    → All (λ y. a ≤ seq y) xs
    → All (λ y. a ≤ seq y) (dedup seen xs)
unfolding dedup
All-dedup a seen [] h = tt
All-dedup a seen (x ∷ xs) h =
    let p = All-dedup a seen xs h.1 in let q = All-dedup a (seq x ∷ seen) xs h.1 in ground arith

unseen_dedup :
    (a : ℕ) (seen : List ℕ) (xs : List Item)
    → contains a seen ≡ true
    → All (λ y. seq y ≢ a) (dedup seen xs)
unfolding dedup contains
unseen_dedup a seen [] h = tt
unseen_dedup a seen (x ∷ xs) h =
    let p = unseen_dedup a seen xs h in
    let q = unseen_dedup a (seq x ∷ seen) xs (ground arith) in ground arith

All-lt :
    (a : ℕ) (xs : List Item)
    → All (λ y. a ≤ seq y) xs
    → All (λ y. seq y ≢ a) xs
    → All (λ y. a < seq y) xs
All-lt a [] h n = tt
All-lt a (x ∷ xs) h n = (omega arith, All-lt a xs h.1 n.1)

dedup-IsAscending : (seen : List ℕ) (xs : List Item) → IsSorted xs → IsAscending (dedup seen xs)
unfolding dedup
dedup-IsAscending seen [] s = tt
dedup-IsAscending seen (x ∷ xs) s =
    let p = dedup-IsAscending seen xs s.1 in
    let q = dedup-IsAscending (seq x ∷ seen) xs s.1 in
    let above =
      All-lt (seq x) (dedup (seq x ∷ seen) xs) (All-dedup (seq x) (seq x ∷ seen) xs s.0)
        (unseen_dedup (seq x) (seq x ∷ seen) xs (unfold contains in ground arith)) in
    ground arith

-- What holds of every item of the buffer holds of every item that the replay goes through.
Every-sort_in :
    (P : Item → Type 0) (x : Item) (xs : List Item) → P x → All P xs → All P (sort_in x xs)
unfolding sort_in
Every-sort_in P x [] h s = (h, tt)
Every-sort_in P x (y ∷ ys) h s = elim (Bool-cases (leb (seq x) (seq y))) [
  | inl le ↦ rw le (h, s)
  | inr gt ↦ rw gt (s.0, Every-sort_in P x ys h s.1)
]

Every-sort_buffer : (P : Item → Type 0) (xs : List Item) → All P xs → All P (sort_buffer xs)
unfolding sort_buffer
Every-sort_buffer P [] h = tt
Every-sort_buffer P (x ∷ xs) h = Every-sort_in P x (sort_buffer xs) h.0 (Every-sort_buffer P xs h.1)

Every-dedup :
    (P : Item → Type 0) (seen : List ℕ) (xs : List Item) → All P xs → All P (dedup seen xs)
unfolding dedup
Every-dedup P seen [] h = tt
Every-dedup P seen (x ∷ xs) h = elim (Bool-cases (contains (seq x) seen)) [
  | inl old ↦ rw old (Every-dedup P seen xs h.1)
  | inr new ↦ rw new (h.0, Every-dedup P (seq x ∷ seen) xs h.1)
]

All-map : (P Q : Item → Type 0) (xs : List Item) → ((x : Item) → P x → Q x) → All P xs → All Q xs
All-map P Q [] f h = tt
All-map P Q (x ∷ xs) f h = (f x h.0, All-map P Q xs f h.1)

-- An item stands in a list.
abbrev pub Stands : List Item → Item → Type 0
Stands xs x = (before after : List Item) × (xs ≡ before ++ x ∷ after)

All-stand : (xs : List Item) → All (Stands xs) xs
All-stand [] = tt
All-stand (x ∷ xs) = (
  ([], xs, refl),
  All-map (Stands xs) (Stands (x ∷ xs)) xs (λ y w. (x ∷ w.0, w.1, ap (λ l. x ∷ l) w.2))
      (All-stand xs),
)

pub replay_items_stand : (buffer : List Item) → All (Stands buffer) (dedup [] (sort_buffer buffer))
replay_items_stand buffer =
    Every-dedup (Stands buffer) [] (sort_buffer buffer)
      (Every-sort_buffer (Stands buffer) buffer (All-stand buffer))

-- The items that the replay goes through have strictly ascending numbers, and these are exactly the
-- numbers of the buffer.
pub replay_order :
    (buffer : List Item)
    → IsAscending (dedup [] (sort_buffer buffer))
      × ((n : ℕ) → contains n (seqs (dedup [] (sort_buffer buffer))) ≡ contains n (seqs buffer))
unfolding contains
replay_order buffer = (
  dedup-IsAscending [] (sort_buffer buffer) (sort_buffer-IsSorted buffer),
  λ n. ground (arith, contains-dedup n [] (sort_buffer buffer), contains-sort_buffer n buffer),
)
