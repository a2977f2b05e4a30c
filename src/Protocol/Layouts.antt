-- ===== src/Protocol/Layouts.antt =====
-- What the classes of src/order_entry_protocol.py share: `FORMAT`, the values that `pack` gives to
-- `struct.pack`, and the object that `unpack` makes of what `struct.unpack` gives.
use hft_trading_system.Prelude.{List, int_eq, nat_eq}
use hft_trading_system.Struct.{Code, Fields}

-- A value before the others
infixr 30 ◌▸◌
abbrev pub ◌▸◌ : {A B : Type 0} → A → B → A × B
a ▸ b = (a, b)

pub record Layout (M : Type 0) : Type 0 where
  pub format : List Code
  pub fields : M → Fields format
  pub build : Fields format → M
