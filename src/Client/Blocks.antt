-- ===== src/Client/Blocks.antt =====
-- The chaining of methods of src/order_entry.py that use the socket. It is `◌>>=◌` of actions kept
-- shut, so that a rule for it applies to a block as it is written.
use hft_trading_system.Prelude.{Action, err, ok, ◌≡◌}

infixl 5 ◌>>=◌ ◌>>◌
unfoldable pub ◌>>=◌ : {S A B : Type 0} → Action S A → (A → Action S B) → Action S B
◌>>=◌ m f s = let (r, s') = m s in elim r [ ok a ↦ f a s' | err e ↦ (err e, s') ]

abbrev pub ◌>>◌ : {S A B : Type 0} → Action S A → Action S B → Action S B
m >> k = m >>= λ _. k

pub bind_ok :
    {S A B : Type 0} (m : Action S A) (f : A → Action S B) (s : S) (a : A)
    → (m s).0 ≡ ok a
    → (m >>= f) s ≡ f a (m s).1
unfolding ◌>>=◌
bind_ok m f s a e = rw (e, ◌>>=◌)
