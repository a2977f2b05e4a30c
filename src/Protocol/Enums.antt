-- ===== src/Protocol/Enums.antt =====
-- The enumerations of src/order_entry_protocol.py. `Cls(n)` on a number that no member has raises
-- `ValueError`; the protocol's fields and the client's arguments stay plain numbers.
use hft_trading_system.Prelude.{
  Bool, Error, List, Result, [], eqb, err, false, if◌then◌else◌, int_eq, nat_eq, ok, ℕ, ◌||◌, ◌∷◌,
}

abbrev pub oe_protocol_version : ℕ
oe_protocol_version = 1

-- The values of the members, in the order of the class
abbrev pub msg_types : List ℕ
msg_types = 1 ∷ 2 ∷ 3 ∷ 99 ∷ 100 ∷ 101 ∷ 102 ∷ 103 ∷ 104 ∷ 105 ∷ []

abbrev pub reject_reasons : List ℕ
reject_reasons = 0 ∷ 1 ∷ 2 ∷ 3 ∷ 4 ∷ 5 ∷ 6 ∷ 7 ∷ 8 ∷ 9 ∷ 10 ∷ []

abbrev pub login_statuses : List ℕ
login_statuses = 0 ∷ 5 ∷ 6 ∷ 7 ∷ 8 ∷ 9 ∷ 10 ∷ []

abbrev pub order_flags : List ℕ
order_flags = 0 ∷ 1 ∷ []

abbrev pub fill_flags : List ℕ
fill_flags = 0 ∷ 1 ∷ 2 ∷ []

abbrev pub sides : List ℕ
sides = 1 ∷ 2 ∷ []

abbrev pub is_member : ℕ → List ℕ → Bool
is_member n [] = false
is_member n (m ∷ ms) = eqb n m || is_member n ms

-- `Cls(n)`
abbrev pub member_of : List ℕ → ℕ → Result ℕ
member_of ms n = if is_member n ms then ok n else err Error.value_error
