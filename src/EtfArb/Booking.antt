-- ===== src/EtfArb/Booking.antt =====
-- What src/etf_arb.py does to the positions once the service has made a share of the fund, or has
-- taken one apart.

-- The calls of `update_position` in one of the loops
use hft_trading_system.Prelude.{
  All, List, [], ap, int_eq, int_laws, nat_eq, neg_part, negsuc, pos, pos_part, refl, ℕ, ℤ, ◌+ℤ◌,
  ◌-ℤ◌, ◌∙◌, ◌∷◌, ◌≡◌,
}
use hft_trading_system.Safety.Position.{get_position, update_position}
use hft_trading_system.Safety.Ledger.{Update, only, sum_of, update_all, update_all_lem}
use hft_trading_system.EtfArb.{
  EtfArbEngine, book_created, book_each, book_position, book_redeemed, etf_sym, underlying_syms,
}

abbrev updates : (bought sold : ℤ) → List ℕ → List Update
updates bought sold [] = []
updates bought sold (symbol ∷ symbols) =
    record { symbol = symbol; bought = bought; sold = sold } ∷ updates bought sold symbols

level : (p c1 c2 r1 r2 : ℤ) → c1 +ℤ r2 ≡ pos 0 → c2 +ℤ r1 ≡ pos 0 → p +ℤ c1 +ℤ c2 +ℤ r1 +ℤ r2 ≡ p
level p c1 c2 r1 r2 h k =
    omega (int_laws, ap pos_part h, ap neg_part h, ap pos_part k, ap neg_part k)

abbrev moved : ℕ → Update → ℤ
moved s = only s (λ v. v.bought -ℤ v.sold)

sum_of-updates :
    (s : ℕ) (bought sold : ℤ) (syms : List ℕ)
    → sum_of (moved s) (updates bought sold syms) +ℤ sum_of (moved s) (updates sold bought syms)
      ≡ pos 0
sum_of-updates s bought sold [] = omega int_laws
sum_of-updates s bought sold (symbol ∷ symbols) =
    grind (int_laws, sum_of-updates s bought sold symbols)

module _ {X W : Type 0} where
  abbrev pub position_of : ℕ → EtfArbEngine X W → ℤ
  position_of symbol s = get_position symbol s.client.client.position_tracker

  book_each-updates :
      (bought sold : ℤ) (syms : List ℕ) (s : EtfArbEngine X W)
      → (book_each bought sold syms s).client.client.position_tracker
        ≡ update_all (updates bought sold syms) s.client.client.position_tracker
  unfolding book_each update_all
  book_each-updates bought sold [] s = refl
  book_each-updates bought sold (symbol ∷ symbols) s =
      book_each-updates bought sold symbols (book_position symbol bought sold s)

  book_each-position :
      (x : ℕ) (bought sold : ℤ) (syms : List ℕ) (s : EtfArbEngine X W)
      → position_of x (book_each bought sold syms s)
        ≡ position_of x s +ℤ sum_of (moved x) (updates bought sold syms)
  book_each-position x bought sold syms s =
      rw (book_each-updates bought sold syms s)
        ((update_all_lem (updates bought sold syms) s.client.client.position_tracker x).0)

  book_position-position :
      (x symbol : ℕ) (bought sold : ℤ) (s : EtfArbEngine X W)
      → position_of x (book_position symbol bought sold s)
        ≡ position_of x s +ℤ sum_of (moved x) (updates bought sold (symbol ∷ []))
  unfolding update_position book_each
  book_position-position x symbol bought sold s = book_each-position x bought sold (symbol ∷ []) s

  book_created-position :
      (x : ℕ) (s : EtfArbEngine X W)
      → position_of x (book_created s)
        ≡ position_of x s
          +ℤ sum_of (moved x) (updates (pos 0) (pos 1) underlying_syms)
          +ℤ sum_of (moved x) (updates (pos 1) (pos 0) (etf_sym ∷ []))
  unfolding book_created
  book_created-position x s =
      book_position-position x etf_sym (pos 1) (pos 0) (book_each (pos 0) (pos 1) underlying_syms s)
      ∙ ap (λ p. p +ℤ sum_of (moved x) (updates (pos 1) (pos 0) (etf_sym ∷ [])))
          (book_each-position x (pos 0) (pos 1) underlying_syms s)

  book_redeemed-position :
      (x : ℕ) (s : EtfArbEngine X W)
      → position_of x (book_redeemed s)
        ≡ position_of x s
          +ℤ sum_of (moved x) (updates (pos 0) (pos 1) (etf_sym ∷ []))
          +ℤ sum_of (moved x) (updates (pos 1) (pos 0) underlying_syms)
  unfolding book_redeemed
  book_redeemed-position x s =
      book_each-position x (pos 1) (pos 0) underlying_syms (book_position etf_sym (pos 0) (pos 1) s)
      ∙ ap (λ p. p +ℤ sum_of (moved x) (updates (pos 1) (pos 0) underlying_syms))
          (book_position-position x etf_sym (pos 0) (pos 1) s)

  created_by :
      (x : ℕ) (n : ℤ) (s : EtfArbEngine X W)
      → sum_of (moved x) (updates (pos 0) (pos 1) underlying_syms)
          +ℤ sum_of (moved x) (updates (pos 1) (pos 0) (etf_sym ∷ []))
        ≡ n
      → position_of x (book_created s) ≡ position_of x s +ℤ n
  created_by x n s h =
      book_created-position x s ∙ (omega int_laws ∙ ap (λ m. position_of x s +ℤ m) h)

  each_less :
      (s : EtfArbEngine X W)
      → All (λ u. position_of u (book_created s) ≡ position_of u s +ℤ negsuc 0) underlying_syms
  unfolding ◌+ℤ◌ ◌-ℤ◌
  each_less s = (
    created_by 3 (negsuc 0) s refl,
    (
      created_by 4 (negsuc 0) s refl,
      (
        created_by 5 (negsuc 0) s refl,
        (
          created_by 6 (negsuc 0) s refl,
          (
            created_by 7 (negsuc 0) s refl,
            (
              created_by 8 (negsuc 0) s refl,
              (
                created_by 9 (negsuc 0) s refl,
                (
                  created_by 10 (negsuc 0) s refl,
                  (created_by 11 (negsuc 0) s refl, (created_by 12 (negsuc 0) s refl, tt)),
                ),
              ),
            ),
          ),
        ),
      ),
    ),
  )

  one_more :
      (s : EtfArbEngine X W) → position_of etf_sym (book_created s) ≡ position_of etf_sym s +ℤ pos 1
  unfolding ◌+ℤ◌ ◌-ℤ◌
  one_more s = created_by etf_sym (pos 1) s refl

  brought_back :
      (x : ℕ) (s : EtfArbEngine X W)
      → position_of x (book_redeemed (book_created s)) ≡ position_of x s
  brought_back x s =
      book_redeemed-position x (book_created s)
      ∙ (ap
            (λ p.
              p
              +ℤ sum_of (moved x) (updates (pos 0) (pos 1) (etf_sym ∷ []))
              +ℤ sum_of (moved x) (updates (pos 1) (pos 0) underlying_syms))
            (book_created-position x s)
          ∙ level (position_of x s) _ _ _ _ (sum_of-updates x (pos 0) (pos 1) underlying_syms)
              (sum_of-updates x (pos 1) (pos 0) (etf_sym ∷ [])))

  -- After the bookkeeping of a created share the fund's position is one more, and that of each
  -- underlying one less; the bookkeeping of a redeemed share after it gives every symbol the
  -- position that it had.
  pub book_redeemed-created :
      (x : ℕ) (s : EtfArbEngine X W)
      → (position_of etf_sym (book_created s) ≡ position_of etf_sym s +ℤ pos 1)
        × All (λ u. position_of u (book_created s) ≡ position_of u s +ℤ negsuc 0) underlying_syms
        × (position_of x (book_redeemed (book_created s)) ≡ position_of x s)
  book_redeemed-created x s = (one_more s, each_less s, brought_back x s)
