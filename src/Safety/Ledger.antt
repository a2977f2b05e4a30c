-- ===== src/Safety/Ledger.antt =====
-- The positions of src/safety.py over many calls of `update_position`.
use hft_trading_system.Prelude.{
  Dict, List, Option-cases, [], add_zero, ap, arith, eqb, eqb_iff, eqb_ℤ, eqb_ℤ_iff, if◌then◌else◌,
  inl, inr, insert, int_eq, int_laws, lookup, lookup-insert, nat_eq, neg_part, pos, pos_part, sym,
  total, total-insert_new, total-insert_old, ℕ, ℤ, ◌+ℤ◌, ◌-ℤ◌, ◌∙◌, ◌∷◌, ◌≡◌,
}
use hft_trading_system.Safety.Position.{
  PositionTracker, get_amount, get_net_position, get_position, update_position,
}

-- One call of `update_position`
pub record Update : Type 0 where
  pub symbol : ℕ
  pub bought : ℤ
  pub sold : ℤ

unfoldable pub update_all : List Update → PositionTracker → PositionTracker
unfolding update_position
update_all [] t = t
update_all (u ∷ us) t = update_all us (update_position u.symbol u.bought u.sold t)

abbrev pub sum_of : (Update → ℤ) → List Update → ℤ
sum_of f [] = pos 0
sum_of f (u ∷ us) = f u +ℤ sum_of f us

abbrev pub only : ℕ → (Update → ℤ) → Update → ℤ
only symbol f u = if eqb u.symbol symbol then f u else pos 0

after : (z m a x r : ℤ) → z ≡ m +ℤ r → m ≡ a +ℤ x → z ≡ a +ℤ (x +ℤ r)
after z m a x r e f = rw (e, f) (omega int_laws)

cancel : (z a n old : ℤ) → z +ℤ old ≡ a +ℤ (old +ℤ n) → z ≡ a +ℤ n
cancel z a n old h = omega (int_laws, ap pos_part h, ap neg_part h)

get_amount-insert :
    (s t : ℕ) (n : ℤ) (d : Dict ℕ ℤ)
    → get_amount t (insert s n d) ≡ (if eqb s t then n else get_amount t d)
unfolding get_amount
get_amount-insert s t n d = ground (arith, lookup-insert s t n d)

add_sub_assoc : (a b c : ℤ) → a +ℤ b -ℤ c ≡ a +ℤ (b -ℤ c)
add_sub_assoc a b c = omega int_laws

pub position-update :
    (s : ℕ) (u : Update) (t : PositionTracker)
    → get_position s (update_position u.symbol u.bought u.sold t)
      ≡ get_position s t +ℤ only s (λ v. v.bought -ℤ v.sold) u
unfolding get_position update_position
position-update s u t =
    let old = get_amount u.symbol t.symbol_position in
    ground (
      arith,
      eqb_iff u.symbol s,
      add_sub_assoc old u.bought u.sold,
      add_zero (get_amount s t.symbol_position),
      get_amount-insert u.symbol s (old +ℤ u.bought -ℤ u.sold) t.symbol_position,
    )

amount-update :
    (s t : ℕ) (n : ℤ) (d : Dict ℕ ℤ)
    → get_amount t (if eqb_ℤ n (pos 0) then d else insert s (get_amount s d +ℤ n) d)
      ≡ get_amount t d +ℤ (if eqb s t then n else pos 0)
amount-update s t n d = ground (
  arith,
  eqb_iff s t,
  eqb_ℤ_iff n (pos 0),
  add_zero (get_amount t d),
  get_amount-insert s t (get_amount s d +ℤ n) d,
)

total-replace :
    (s : ℕ) (n : ℤ) (d : Dict ℕ ℤ)
    → total (λ v. v) (insert s (get_amount s d +ℤ n) d) ≡ total (λ v. v) d +ℤ n
unfolding get_amount
total-replace s n d = elim (Option-cases (lookup s d)) [
  | inl e ↦ rw (e, get_amount) (total-insert_new (λ v. v) s (pos 0 +ℤ n) d e ∙ omega int_laws)
  | inr (old, e) ↦
      rw (e, get_amount)
        (let h = total-insert_old (λ v. v) s (old +ℤ n) old d e in
          cancel (total (λ v. v) (insert s (old +ℤ n) d)) (total (λ v. v) d) n old h)
]

bought-update :
    (s : ℕ) (u : Update) (t : PositionTracker)
    → get_amount s (update_position u.symbol u.bought u.sold t).total_bought
      ≡ get_amount s t.total_bought +ℤ only s (λ v. v.bought) u
unfolding update_position
bought-update s u t = amount-update u.symbol s u.bought t.total_bought

sold-update :
    (s : ℕ) (u : Update) (t : PositionTracker)
    → get_amount s (update_position u.symbol u.bought u.sold t).total_sold
      ≡ get_amount s t.total_sold +ℤ only s (λ v. v.sold) u
unfolding update_position
sold-update s u t = amount-update u.symbol s u.sold t.total_sold

net-update :
    (u : Update) (t : PositionTracker)
    → get_net_position (update_position u.symbol u.bought u.sold t)
      ≡ get_net_position t +ℤ (u.bought -ℤ u.sold)
unfolding get_net_position update_position
net-update u t =
    rw (add_sub_assoc (get_amount u.symbol t.symbol_position) u.bought u.sold)
      (total-replace u.symbol (u.bought -ℤ u.sold) t.symbol_position)

-- After any calls of `update_position`, and for every symbol: `get_position` is what it was plus
-- the sum of what the calls for the symbol bought less what they sold, each of the two totals is
-- what it was plus the sum of its amounts, and `get_net_position` is what it was plus the sum over
-- all the calls.
pub update_all_lem :
    (us : List Update) (t : PositionTracker) (s : ℕ)
    → (get_position s (update_all us t)
        ≡ get_position s t +ℤ sum_of (only s (λ v. v.bought -ℤ v.sold)) us)
      × (get_amount s (update_all us t).total_bought
          ≡ get_amount s t.total_bought +ℤ sum_of (only s (λ v. v.bought)) us)
      × (get_amount s (update_all us t).total_sold
          ≡ get_amount s t.total_sold +ℤ sum_of (only s (λ v. v.sold)) us)
      × (get_net_position (update_all us t)
          ≡ get_net_position t +ℤ sum_of (λ v. v.bought -ℤ v.sold) us)
unfolding update_all
update_all_lem [] t s = (sym (add_zero _), sym (add_zero _), sym (add_zero _), sym (add_zero _))
update_all_lem (u ∷ us) t s =
    let t' = update_position u.symbol u.bought u.sold t in
    let (a, b, c, d) = update_all_lem us t' s in
    (
      after _ _ _ _ _ a (position-update s u t),
      after _ _ _ _ _ b (bought-update s u t),
      after _ _ _ _ _ c (sold-update s u t),
      after _ _ _ _ _ d (net-update u t),
    )
