-- ===== src/Prelude/Actions.antt =====
-- Methods that change an object and may raise. What was written before a raise stays written, so
-- the state comes back beside the error too. An error is the class of the Python exception.
use mathlib.Core.Logic.{◌⊎◌, inl, inr}
use mathlib.Core.Path.{◌≡◌, refl}
use mathlib.Core.Bool.{Bool}
use mathlib.Core.Option.{Option, none, some}
use native.Mathlib.Omega.{arith}
use hft_trading_system.Prelude.Tests.{if◌then◌else◌}

pub data Error : Type 0 where
  value_error key_error struct_error type_error permission_error connection_error : Error
  assertion_error blocking_io_error index_error recursion_error : Error

pub data Result {ℓ} (A : Type ℓ) : Type ℓ where
  ok : A → Result A
  err : Error → Result A

pub Result-cases {ℓ} :
    {A : Type ℓ} (r : Result A) → ((a : A) × (r ≡ ok a)) ⊎ ((e : Error) × (r ≡ err e))
Result-cases (ok a) = inl (a, refl)
Result-cases (err e) = inr (e, refl)

-- A chain of two results that is `ok` has both of them `ok`.
pub bound_ok :
    {A B : Type 0} (r : Result A) (f : A → Result B) (b : B)
    → (elim r as (λ _. Result B) [ ok a ↦ f a | err e ↦ err e ]) ≡ ok b
    → (a : A) × (r ≡ ok a) × (f a ≡ ok b)
bound_ok (ok a) f b h = (a, refl, h)
bound_ok (err e) f b h = ground arith

abbrev pub Action {ℓ} : Type ℓ → Type ℓ → Type ℓ
Action S A = S → Result A × S

abbrev pub Done : Type 0
Done = Unit {0}

module _ {ℓ} {S A : Type ℓ} where
  abbrev pub pure : A → Action S A
  pure a s = (ok a, s)

  abbrev pub raise : Error → Action S A
  raise e s = (err e, s)

  abbrev pub lift : Result A → Action S A
  lift r s = (r, s)

  abbrev pub gets : (S → A) → Action S A
  gets f s = (ok (f s), s)

  -- `d[k]` on a missing key
  abbrev pub or_raise : Option A → Error → Action S A
  or_raise none e s = (err e, s)
  or_raise (some a) e s = (ok a, s)

infixl 5 ◌>>=◌ ◌>>◌
abbrev pub ◌>>=◌ {ℓ} : {S A B : Type ℓ} → Action S A → (A → Action S B) → Action S B
◌>>=◌ m f s = let (r, s') = m s in elim r [ ok a ↦ f a s' | err e ↦ (err e, s') ]

abbrev pub ◌>>◌ {ℓ} : {S A B : Type ℓ} → Action S A → Action S B → Action S B
m >> k = m >>= λ _. k

abbrev pub modify : {S : Type 0} → (S → S) → Action S Done
modify f s = (ok tt, f s)

abbrev pub raise_if : {S : Type 0} → Bool → Error → Action S Done
raise_if c e s = (if c then err e else ok tt, s)

-- A step that is taken only if a test holds.
abbrev pub only_if : {S : Type 0} → Bool → Action S Done → Action S Done
only_if c m s = if c then m s else (ok tt, s)

-- A step that did not raise is followed by the rest.
pub >>-ok :
    {S A B : Type 0} (m : Action S A) (n : Action S B) (s : S) (a : A)
    → (m s).0 ≡ ok a
    → (m >> n) s ≡ n (m s).1
>>-ok m n s a e = rw (e, ◌>>◌, ◌>>=◌)

pub >>=-ok :
    {S A B : Type 0} (m : Action S A) (f : A → Action S B) (s : S) (a : A)
    → (m s).0 ≡ ok a
    → (m >>= f) s ≡ f a (m s).1
>>=-ok m f s a e = rw (e, ◌>>=◌)

pub >>=-err :
    {S A B : Type 0} (m : Action S A) (f : A → Action S B) (s : S) (c : Error)
    → (m s).0 ≡ err c
    → (m >>= f) s ≡ (err c, (m s).1)
>>=-err m f s c e = rw (e, ◌>>=◌)

-- One that raised ends the method.
pub >>-err :
    {S A B : Type 0} (m : Action S A) (n : Action S B) (s : S) (c : Error)
    → (m s).0 ≡ err c
    → (m >> n) s ≡ (err c, (m s).1)
>>-err m n s c e = rw (e, ◌>>◌, ◌>>=◌)
