-- ===== src/Struct/Numbers.antt =====
-- The numbers of `struct`, written and read.
use hft_trading_system.Prelude.{
  All, [], ap, arith, int_eq, length, nat_eq, negsuc, pos, refl, suc, true, zero, ℕ, ℤ, ◌%◌, ◌*◌,
  ◌+◌, ◌/◌, ◌<◌, ◌∷◌, ◌≡◌,
}
use hft_trading_system.Struct.{
  Bytes, capacity, fits_signed, from_bytes, from_word, to_bytes, to_word,
}

pub length-to_bytes : (w n : ℕ) → length (to_bytes w n) ≡ w
unfolding to_bytes
length-to_bytes zero n = refl
length-to_bytes (suc w) n = ap suc (length-to_bytes w (n / 256))

pub from_bytes-to_bytes : (w n : ℕ) → n < capacity w → from_bytes (to_bytes w n) ≡ n
unfolding to_bytes from_bytes
from_bytes-to_bytes zero n h = omega arith
from_bytes-to_bytes (suc w) n h =
    let ih = from_bytes-to_bytes w (n / 256) (omega arith) in omega arith

pub from_bytes_lt : (bs : Bytes) → All (λ b. b < 256) bs → from_bytes bs < capacity (length bs)
unfolding from_bytes
from_bytes_lt [] h = omega arith
from_bytes_lt (b ∷ bs) (h, hs) = omega (arith, from_bytes_lt bs hs)

pub to_bytes-from_bytes :
    (bs : Bytes) → All (λ b. b < 256) bs → to_bytes (length bs) (from_bytes bs) ≡ bs
unfolding to_bytes from_bytes
to_bytes-from_bytes [] h = refl
to_bytes-from_bytes (b ∷ bs) (h, hs) =
    let low : (b + 256 * from_bytes bs) % 256 ≡ b = omega arith in
    let high : (b + 256 * from_bytes bs) / 256 ≡ from_bytes bs = omega arith in
    rw (low, high, to_bytes-from_bytes bs hs) refl

pub from_word-to_word : (i : ℤ) → fits_signed i ≡ true → from_word (to_word i) ≡ i
unfolding to_word from_word
from_word-to_word (pos n) h = ground arith
from_word-to_word (negsuc n) h = ground arith

pub to_word_lt : (i : ℤ) → fits_signed i ≡ true → to_word i < capacity 4
unfolding to_word
to_word_lt (pos n) h = ground arith
to_word_lt (negsuc n) h = ground arith

pub to_word-from_word : (n : ℕ) → n < capacity 4 → to_word (from_word n) ≡ n
unfolding to_word from_word
to_word-from_word n h = ground arith

pub from_word-fits : (n : ℕ) → n < capacity 4 → fits_signed (from_word n) ≡ true
unfolding from_word
from_word-fits n h = ground arith
