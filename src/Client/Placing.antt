-- ===== src/Client/Placing.antt =====
-- `new_order` of src/order_entry.py: what it does on every branch.
use hft_trading_system.Prelude.{
  Bool, Error, Result, [], err, false, int_eq, is_some, lookup, nat_eq, none, ok, true, ℕ, ℤ, ◌+◌,
  ◌≡◌, ◌⊎◌,
}
use hft_trading_system.Client.Steps.{Chain, IsAllowed, modified}
use hft_trading_system.Client.Accounts.{Booking}
use hft_trading_system.Protocol.Enums.{member_of, order_flags, sides}
use hft_trading_system.Safety.Scenarios.{HasSide}
use hft_trading_system.Safety.Limits.{placed}
use hft_trading_system.Client.{OrderEntryClient}
use hft_trading_system.Client.Session.{Session}

abbrev pub counted : OrderEntryClient → OrderEntryClient
counted c = record c { seq_num = c.seq_num + 1 }

-- What placing an order leaves of the client: the number is used; the side or the flags are none, and
-- nothing else happens; or the order is on the table as it was asked for, and from there each
-- response that is taken from the wire is processed once.
abbrev pub Places :
    (OrderEntryClient → Type 0)
    → (order_id symbol side : ℕ) → (quantity price : ℤ) → (flags : ℕ) → OrderEntryClient
    → OrderEntryClient
    → Type 0
Places Broken order_id symbol side quantity price flags c c' =
    ((((e : Error) × (member_of sides side ≡ err e))
        ⊎ ((e : Error) × (member_of order_flags flags ≡ err e)))
      × (c' ≡ counted c))
    ⊎ (HasSide (placed symbol side quantity price)
        × Chain (Booking Broken)
            (modified order_id (placed symbol side quantity price) (counted c), []) (c', []))

-- What becomes of an order on every branch: its number is in use; the risk check, which leaves the
-- client at c1, refuses it; or it passes the check.
abbrev pub Outcome :
    (OrderEntryClient → Type 0)
    → (order_id symbol side : ℕ) → (quantity price : ℤ) → (flags : ℕ) → OrderEntryClient
    → Result Bool
    → OrderEntryClient
    → OrderEntryClient
    → Type 0
Outcome Broken order_id symbol side quantity price flags c verdict c1 c' =
    ((is_some (lookup order_id c.open_orders) ≡ true) × (c' ≡ c))
    ⊎ ((lookup order_id c.open_orders ≡ none)
        × (((verdict ≡ ok false) × (c' ≡ counted c1))
            ⊎ ((verdict ≡ ok true)
                × IsAllowed symbol side quantity c1
                × Places Broken order_id symbol side quantity price flags c1 c')))
