-- ===== src/Struct.antt =====
-- Python's `struct` module as src/order_entry_protocol.py and src/market_data_struct.py use it:
-- little-endian formats without padding, over lists of byte values.
pub mod Numbers
pub mod RoundTrip
use hft_trading_system.Prelude.{
  Bool, Done, Error, List, Result, [], arith, drop, eqb, err, if◌then◌else◌, int_eq, length, ltb,
  nat_eq, negsuc, ok, pos, replicate, suc, take, true, zero, ℕ, ℤ, ◌%◌, ◌&&◌, ◌*◌, ◌++◌, ◌+◌, ◌-◌,
  ◌/◌, ◌^◌, ◌∷◌, ◌≡◌,
}

abbrev pub Bytes : Type 0
Bytes = List ℕ

-- A format character: B, H, I and Q by their width in bytes, i (of four bytes), and ns.
pub data Code : Type 0 where
  unsigned : ℕ → Code
  signed : Code
  text : ℕ → Code

abbrev pub Of : Code → Type 0
Of (unsigned w) = ℕ
Of signed = ℤ
Of (text n) = Bytes

abbrev pub Fields : List Code → Type 0
Fields [] = Done
Fields (c ∷ cs) = Of c × Fields cs

abbrev pub size : Code → ℕ
size (unsigned w) = w
size signed = 4
size (text n) = n

abbrev pub calcsize : List Code → ℕ
calcsize [] = 0
calcsize (c ∷ cs) = size c + calcsize cs

-- 256 ^ w
abbrev pub capacity : ℕ → ℕ
capacity zero = 1
capacity (suc w) = 256 * capacity w

unfoldable pub to_bytes : ℕ → ℕ → Bytes
to_bytes zero n = []
to_bytes (suc w) n = (n % 256) ∷ to_bytes w (n / 256)

unfoldable pub from_bytes : Bytes → ℕ
from_bytes [] = 0
from_bytes (b ∷ bs) = b + 256 * from_bytes bs

-- Two's complement in four bytes
unfoldable pub to_word : ℤ → ℕ
to_word (pos n) = n
to_word (negsuc n) = 4294967295 - n

unfoldable pub from_word : ℕ → ℤ
from_word n = if ltb n 2147483648 then pos n else negsuc (4294967295 - n)

-- `b.ljust(n, b"\x00")[:n]`, which is also what the code `ns` does to a longer or shorter value
unfoldable pub ljust : ℕ → Bytes → Bytes
ljust n bs = take n (bs ++ replicate n 0)

abbrev pub fits_signed : ℤ → Bool
fits_signed (pos n) = ltb n 2147483648
fits_signed (negsuc n) = ltb n 2147483648

-- What `struct.pack` takes without raising `struct.error`
unfoldable pub fits : (c : Code) → Of c → Bool
fits (unsigned w) n = ltb n (capacity w)
fits signed i = fits_signed i
fits (text n) bs = true

unfoldable pub encode : (c : Code) → Of c → Bytes
unfolding to_bytes to_word ljust
encode (unsigned w) n = to_bytes w n
encode signed i = to_bytes 4 (to_word i)
encode (text n) bs = ljust n bs

unfoldable pub decode : (c : Code) → Bytes → Of c
unfolding from_bytes from_word
decode (unsigned w) bs = from_bytes bs
decode signed bs = from_word (from_bytes bs)
decode (text n) bs = bs

unfoldable pub fits_all : (cs : List Code) → Fields cs → Bool
unfolding fits
fits_all [] vs = true
fits_all (c ∷ cs) vs = fits c vs.0 && fits_all cs vs.1

unfoldable pub encode_all : (cs : List Code) → Fields cs → Bytes
unfolding encode
encode_all [] vs = []
encode_all (c ∷ cs) vs = encode c vs.0 ++ encode_all cs vs.1

unfoldable pub decode_all : (cs : List Code) → Bytes → Fields cs
unfolding decode
decode_all [] bs = tt
decode_all (c ∷ cs) bs = (decode c (take (size c) bs), decode_all cs (drop (size c) bs))

unfoldable pub pack : (cs : List Code) → Fields cs → Result Bytes
unfolding fits_all encode_all
pack cs vs = if fits_all cs vs then ok (encode_all cs vs) else err Error.struct_error

unfoldable pub unpack : (cs : List Code) → Bytes → Result (Fields cs)
unfolding decode_all
unpack cs bs =
    if eqb (length bs) (calcsize cs) then ok (decode_all cs bs) else err Error.struct_error
