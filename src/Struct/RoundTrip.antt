-- ===== src/Struct/RoundTrip.antt =====
-- `struct.pack` and `struct.unpack`, one after the other.
use mathlib.Core.Path.{subst}
use hft_trading_system.Prelude.{
  All, Error, List, [], ap, arith, drop, drop-append, eqb, err, false, int_eq, length,
  length-append, length-replicate, length-take_le, ltb→lt, nat_eq, ok, refl, replicate, suc, take,
  take-append, true, zero, ℕ, ◌++◌, ◌-◌, ◌<◌, ◌∷◌, ◌≡◌, ◌≢◌,
}
use hft_trading_system.Struct.{
  Bytes, Code, Fields, Of, calcsize, capacity, decode, decode_all, encode, encode_all, fits,
  fits_all, from_bytes, ljust, pack, signed, size, text, to_bytes, to_word, unpack, unsigned,
}
use hft_trading_system.Struct.Numbers.{
  from_bytes-to_bytes, from_bytes_lt, from_word-fits, from_word-to_word, length-to_bytes,
  to_bytes-from_bytes, to_word-from_word, to_word_lt,
}

-- What a field reads as after it was written: a byte string of n bytes is padded or cut.
abbrev pub on_wire : (c : Code) → Of c → Of c
on_wire (unsigned w) n = n
on_wire signed i = i
on_wire (text n) bs = ljust n bs

abbrev pub on_wire_all : (cs : List Code) → Fields cs → Fields cs
on_wire_all [] vs = tt
on_wire_all (c ∷ cs) vs = (on_wire c vs.0, on_wire_all cs vs.1)

pub length-ljust : (n : ℕ) (bs : Bytes) → length (ljust n bs) ≡ n
unfolding ljust
length-ljust n bs =
    length-take_le n (bs ++ replicate n 0)
      (omega (arith, length-append bs (replicate n 0), length-replicate {A = ℕ} n 0))

length-encode : (c : Code) (v : Of c) → length (encode c v) ≡ size c
unfolding encode
length-encode (unsigned w) n = length-to_bytes w n
length-encode signed i = length-to_bytes 4 (to_word i)
length-encode (text n) bs = length-ljust n bs

decode-encode : (c : Code) (v : Of c) → fits c v ≡ true → decode c (encode c v) ≡ on_wire c v
unfolding fits encode decode
decode-encode (unsigned w) n h = from_bytes-to_bytes w n (ltb→lt n (capacity w) h)
decode-encode signed i h =
    rw (from_bytes-to_bytes 4 (to_word i) (to_word_lt i h)) (from_word-to_word i h)
decode-encode (text n) bs h = refl

pub length-encode_all : (cs : List Code) (vs : Fields cs) → length (encode_all cs vs) ≡ calcsize cs
unfolding encode_all
length-encode_all [] vs = refl
length-encode_all (c ∷ cs) vs = omega (
  arith,
  length-append (encode c vs.0) (encode_all cs vs.1),
  length-encode c vs.0,
  length-encode_all cs vs.1,
)

decode_all-encode_all :
    (cs : List Code) (vs : Fields cs)
    → fits_all cs vs ≡ true
    → decode_all cs (encode_all cs vs) ≡ on_wire_all cs vs
unfolding fits_all encode_all decode_all
decode_all-encode_all [] vs h = refl
decode_all-encode_all (c ∷ cs) vs h =
    let first : fits c vs.0 ≡ true = ground arith in
    let others : fits_all cs vs.1 ≡ true = ground arith in
    let head = encode c vs.0 in
    let tail = encode_all cs vs.1 in
    let front : take (size c) (head ++ tail) ≡ head =
      subst (λ n. take n (head ++ tail) ≡ head) (length-encode c vs.0) (take-append head tail) in
    let back : drop (size c) (head ++ tail) ≡ tail =
      subst (λ n. drop n (head ++ tail) ≡ tail) (length-encode c vs.0) (drop-append head tail) in
    rw (front, back, decode-encode c vs.0 first, decode_all-encode_all cs vs.1 others) refl

pub unpack-encode_all :
    (cs : List Code) (vs : Fields cs) (rest : Bytes)
    → fits_all cs vs ≡ true
    → unpack cs (take (calcsize cs) (encode_all cs vs ++ rest)) ≡ ok (on_wire_all cs vs)
unfolding unpack
unpack-encode_all cs vs rest h =
    let wire = encode_all cs vs in
    let long : length wire ≡ calcsize cs = length-encode_all cs vs in
    let cut : take (calcsize cs) (wire ++ rest) ≡ wire =
      subst (λ n. take n (wire ++ rest) ≡ wire) long (take-append wire rest) in
    let same : eqb (calcsize cs) (calcsize cs) ≡ true = ground arith in
    rw (cut, long, same, decode_all-encode_all cs vs h) refl

-- Fields in the range of their format are packed, into as many bytes as `calcsize` says, and
-- unpacking the first `calcsize` bytes of a longer buffer gives them back, byte strings padded or
-- cut to their width.
pub unpack-pack :
    (cs : List Code) (vs : Fields cs) (rest : Bytes)
    → fits_all cs vs ≡ true
    → (sent : Bytes) × (pack cs vs ≡ ok sent)
      × (length sent ≡ calcsize cs)
      × (unpack cs (take (calcsize cs) (sent ++ rest)) ≡ ok (on_wire_all cs vs))
unfolding pack
unpack-pack cs vs rest h =
    (encode_all cs vs, rw h refl, length-encode_all cs vs, unpack-encode_all cs vs rest h)

-- A field outside the range of its format, or a buffer of another length, raises `struct.error`.
pub pack-unfit :
    (cs : List Code) (vs : Fields cs) → fits_all cs vs ≡ false → pack cs vs ≡ err Error.struct_error
unfolding pack
pack-unfit cs vs h = rw h refl

pub unpack-short :
    (cs : List Code) (bs : Bytes) → length bs ≢ calcsize cs → unpack cs bs ≡ err Error.struct_error
unfolding unpack
unpack-short cs bs h = ground arith

All-take : (n : ℕ) (bs : Bytes) → All (λ b. b < 256) bs → All (λ b. b < 256) (take n bs)
All-take zero bs h = tt
All-take (suc n) [] h = tt
All-take (suc n) (b ∷ bs) (h, hs) = (h, All-take n bs hs)

All-drop : (n : ℕ) (bs : Bytes) → All (λ b. b < 256) bs → All (λ b. b < 256) (drop n bs)
All-drop zero bs h = h
All-drop (suc n) [] h = tt
All-drop (suc n) (b ∷ bs) (h, hs) = All-drop n bs hs

pub length-drop : (n : ℕ) (bs : Bytes) → length (drop n bs) ≡ length bs - n
length-drop zero bs = omega arith
length-drop (suc n) [] = omega arith
length-drop (suc n) (b ∷ bs) = omega (arith, length-drop n bs)

take-drop : (n : ℕ) (bs : Bytes) → take n bs ++ drop n bs ≡ bs
take-drop zero bs = refl
take-drop (suc n) [] = refl
take-drop (suc n) (b ∷ bs) = ap (λ r. b ∷ r) (take-drop n bs)

pub ljust-full : (bs : Bytes) → ljust (length bs) bs ≡ bs
unfolding ljust
ljust-full bs = take-append bs (replicate (length bs) 0)

encode-decode :
    (c : Code) (bs : Bytes)
    → length bs ≡ size c
    → All (λ b. b < 256) bs
    → (fits c (decode c bs) ≡ true) × (encode c (decode c bs) ≡ bs)
unfolding fits encode decode
encode-decode (unsigned w) bs e h =
    let low : from_bytes bs < capacity w =
      subst (λ n. from_bytes bs < capacity n) e (from_bytes_lt bs h) in
    (ground arith, subst (λ n. to_bytes n (from_bytes bs) ≡ bs) e (to_bytes-from_bytes bs h))
encode-decode signed bs e h =
    let low : from_bytes bs < capacity 4 =
      subst (λ n. from_bytes bs < capacity n) e (from_bytes_lt bs h) in
    (
      from_word-fits (from_bytes bs) low,
      rw (to_word-from_word (from_bytes bs) low)
          (subst (λ n. to_bytes n (from_bytes bs) ≡ bs) e (to_bytes-from_bytes bs h)),
    )
encode-decode (text n) bs e h = (refl, subst (λ m. ljust m bs ≡ bs) e (ljust-full bs))

encode_all-decode_all :
    (cs : List Code) (bs : Bytes)
    → length bs ≡ calcsize cs
    → All (λ b. b < 256) bs
    → (fits_all cs (decode_all cs bs) ≡ true) × (encode_all cs (decode_all cs bs) ≡ bs)
unfolding fits_all encode_all decode_all
encode_all-decode_all [] [] e h = (refl, refl)
encode_all-decode_all [] (b ∷ bs) e h = ground arith
encode_all-decode_all (c ∷ cs) bs e h =
    let n = size c in
    let first = encode-decode c (take n bs) (length-take_le n bs (omega arith)) (All-take n bs h) in
    let others =
      encode_all-decode_all cs (drop n bs) (omega (arith, length-drop n bs)) (All-drop n bs h) in
    (ground (arith, first.0, others.0), rw (first.1, others.1) (take-drop n bs))

-- A buffer of bytes of the right length is read without error, and packing what was read writes the
-- same bytes.
pub pack-unpack :
    (cs : List Code) (bs : Bytes)
    → length bs ≡ calcsize cs
    → All (λ b. b < 256) bs
    → (vs : Fields cs) × (unpack cs bs ≡ ok vs) × (pack cs vs ≡ ok bs)
unfolding pack unpack
pack-unpack cs bs e h =
    let there = encode_all-decode_all cs bs e h in
    let same : eqb (length bs) (calcsize cs) ≡ true = ground arith in
    (decode_all cs bs, rw same refl, rw (there.0, there.1) refl)
