-- ===== src/Client/Framing.antt =====
-- `_recv_message` of src/order_entry.py against the bytes that arrive.
use hft_trading_system.Prelude.{
  >>=-err, >>=-ok, Action, Bool-cases, Done, Error, List, Result, [], ap, arith, drop, drop-append,
  drop-append_beyond, drop-append_inside, eqb, eqb_iff, err, false, inl, inr, int_eq, leb, length,
  length-append, ltb, nat_eq, ok, pure, refl, suc, sym, take, take-append, take-append_beyond,
  take-append_inside, true, zero, ℕ, ◌++◌, ◌+◌, ◌-◌, ◌<◌, ◌∙◌, ◌∷◌, ◌≡◌, ◌≤◌,
}
use hft_trading_system.Struct.{Bytes, from_bytes, size}
use hft_trading_system.Client.Wire.{
  Event, Socket, chunk, pause, read, recv_exact, recv_message, recv_rest,
}
use mathlib.Core.List.{append_assoc, append-nil}

-- All the bytes that arrive
abbrev pub joined : List Event → Bytes
joined [] = []
joined (chunk bs ∷ es) = bs ++ joined es
joined (pause ∷ es) = joined es

-- The connection is not closed.
abbrev pub StaysOpen : List Event → Type 0
StaysOpen [] = Done
StaysOpen (chunk [] ∷ es) = ⊥
StaysOpen (chunk (b ∷ bs) ∷ es) = StaysOpen es
StaysOpen (pause ∷ es) = StaysOpen es

-- What a blocking read leaves
abbrev IsRead : ℕ → Bytes → List Event → Result Bytes × List Event → Type 0
IsRead n buf es r =
    (r.0 ≡ ok (buf ++ take n (joined es))) × (joined r.1 ≡ drop n (joined es)) × StaysOpen r.1

StaysOpen-drop :
    (n : ℕ) (bs : Bytes) (es : List Event)
    → n < length bs
    → StaysOpen es
    → StaysOpen (chunk (drop n bs) ∷ es)
StaysOpen-drop n [] es h o = absurd (omega arith)
StaysOpen-drop zero (b ∷ bs) es h o = o
StaysOpen-drop (suc n) (b ∷ bs) es h o = StaysOpen-drop n bs es (omega arith) o

read-IsRead :
    (es : List Event) (n : ℕ) (buf : Bytes)
    → StaysOpen es
    → n ≤ length (joined es)
    → IsRead n buf es (read true n buf es)
unfolding read
read-IsRead es zero buf o h = (ap ok (sym (append-nil buf)), refl, o)
read-IsRead [] (suc n) buf o h = absurd (omega arith)
read-IsRead (pause ∷ es) (suc n) buf o h = read-IsRead es (suc n) buf o h
read-IsRead (chunk [] ∷ es) (suc n) buf o h = elim o [ ]
read-IsRead (chunk (b ∷ bs) ∷ es) (suc n) buf o h =
    let piece = b ∷ bs in
    elim (Bool-cases (leb (length piece) (suc n))) [
      | inl all ↦
          let short : length piece ≤ suc n = ground arith in
          let (got, left, open_still) =
            read-IsRead es (suc n - length piece) (buf ++ piece) o
              (omega (arith, length-append piece (joined es))) in
          rw (all, read)
            (
              got
                  ∙ ap ok (
                      append_assoc buf piece _
                      ∙ ap (λ r. buf ++ r)
                          (sym (take-append_beyond (suc n) piece (joined es) short))),
              left ∙ sym (drop-append_beyond (suc n) piece (joined es) short),
              open_still,
            )
      | inr some_left ↦
          let long : suc n < length piece = ground arith in
          rw (some_left, read)
            (
              ap (λ r. ok (buf ++ r))
                  (sym (take-append_inside (suc n) piece (joined es) (omega arith))),
              sym (drop-append_inside (suc n) piece (joined es) (omega arith)),
              StaysOpen-drop (suc n) piece es long o,
            )
    ]

first_two : (m : Bytes) → 16 ≤ length m → take 2 (take 16 m) ≡ take 2 m
first_two [] h = absurd (omega arith)
first_two (x ∷ []) h = absurd (omega arith)
first_two (x ∷ y ∷ m) h = refl

parts_of : (n : ℕ) (m : Bytes) → take n m ++ drop n m ≡ m
parts_of zero m = refl
parts_of (suc n) [] = refl
parts_of (suc n) (x ∷ m) = ap (λ r. x ∷ r) (parts_of n m)

pub length-drop : (n : ℕ) (m : Bytes) → length (drop n m) ≡ length m - n
length-drop zero m = omega arith
length-drop (suc n) [] = omega arith
length-drop (suc n) (x ∷ m) = omega (arith, length-drop n m)

-- The header has been read, and gives the length of the message.
header_read :
    (m rest : Bytes) (es : List Event)
    → StaysOpen es
    → joined es ≡ m ++ rest
    → 16 ≤ length m
    → ((read true 16 [] es).0 ≡ ok (take 16 m))
      × (joined (read true 16 [] es).1 ≡ drop 16 m ++ rest)
      × StaysOpen (read true 16 [] es).1
header_read m rest es o e h =
    let size : length (joined es) ≡ length m + length rest = rw e (length-append m rest) in
    let (got, left, open_still) = read-IsRead es 16 [] o (omega arith) in
    (
      got ∙ ap (λ r. ok (take 16 r)) e ∙ ap ok (take-append_inside 16 m rest h),
      left ∙ ap (drop 16) e ∙ drop-append_inside 16 m rest h,
      open_still,
    )

body_read :
    (m rest : Bytes) (es : List Event)
    → StaysOpen es
    → joined es ≡ m ++ rest
    → ((read true (length m) [] es).0 ≡ ok m)
      × (joined (read true (length m) [] es).1 ≡ rest)
      × StaysOpen (read true (length m) [] es).1
body_read m rest es o e =
    let size : length (joined es) ≡ length m + length rest = rw e (length-append m rest) in
    let (got, left, open_still) = read-IsRead es (length m) [] o (omega arith) in
    (
      got ∙ ap (λ r. ok (take (length m) r)) e ∙ ap ok (take-append m rest),
      left ∙ ap (drop (length m)) e ∙ drop-append m rest,
      open_still,
    )

abbrev IsFound : Bytes → Bytes → Result Bytes × Socket → Type 0
IsFound m rest r =
    (r.0 ≡ ok m) × (joined r.1.inbox ≡ rest) × StaysOpen r.1.inbox × (r.1.blocking ≡ true)

all_of_it : (n : ℕ) (m : Bytes) → length m ≡ n → take n m ≡ m
all_of_it n m h = rw (← h) (take_self m)
  where
    take_self : (k : Bytes) → take (length k) k ≡ k
    take_self [] = refl
    take_self (x ∷ k) = ap (λ r. x ∷ r) (take_self k)

none_of_it : (n : ℕ) (m : Bytes) → length m ≡ n → drop n m ≡ []
none_of_it n m h = rw (← h) (drop_self m)
  where
    drop_self : (k : Bytes) → drop (length k) k ≡ []
    drop_self [] = refl
    drop_self (x ∷ k) = drop_self k

rest-IsFound :
    (m rest : Bytes) (es : List Event)
    → StaysOpen es
    → joined es ≡ drop 16 m ++ rest
    → 16 ≤ length m
    → from_bytes (take 2 (take 16 m)) ≡ length m
    → IsFound m rest (recv_rest (take 16 m) (record { blocking = true; inbox = es }))
unfolding recv_rest recv_exact
rest-IsFound m rest es o e h size =
    let enough : ltb (length m) 16 ≡ false = ground arith in
    elim (Bool-cases (eqb (length m) 16)) [
      | inl alone ↦
          let just : length m ≡ 16 = (eqb_iff (length m) 16).0 alone in
          rw (size, enough, alone, recv_rest)
            (ap ok (all_of_it 16 m just), e ∙ ap (λ r. r ++ rest) (none_of_it 16 m just), o, refl)
      | inr more ↦
          let (got, left, open_still) =
            rw (length-drop 16 m) at (body_read (drop 16 m) rest es o e) in
          let s : Socket = record { blocking = true; inbox = es } in
          let append : Bytes → Action Socket Bytes = λ bs. pure (take 16 m ++ bs) in
          rw
            (
              size,
              enough,
              more,
              >>=-ok (recv_exact (length m - 16)) append s (drop 16 m) got,
              recv_rest,
            )
            (ap ok (parts_of 16 m), left, open_still, refl)
    ]

-- Messages are found whatever the pieces are in which their bytes arrive: where the inbox holds a
-- message that gives its own length in its first two bytes, and then more, a socket that blocks and
-- is not closed returns that message, and leaves the rest.
pub recv_message_pieces :
    (m rest : Bytes) (es : List Event)
    → StaysOpen es
    → joined es ≡ m ++ rest
    → 16 ≤ length m
    → from_bytes (take 2 m) ≡ length m
    → let (r, s') = recv_message (record { blocking = true; inbox = es }) in
      (r ≡ ok m) × (joined s'.inbox ≡ rest) × StaysOpen s'.inbox × (s'.blocking ≡ true)
unfolding recv_message recv_exact
recv_message_pieces m rest es o e h size =
    let (got, left, open_still) = header_read m rest es o e h in
    let total = ap from_bytes (first_two m h) ∙ size in
    let s : Socket = record { blocking = true; inbox = es } in
    rw (>>=-ok (recv_exact 16) recv_rest s (take 16 m) got)
      (rest-IsFound m rest (read true 16 [] es).1 open_still left h total)

blocked_read :
    (n : ℕ) (buf : Bytes) (es : List Event)
    → 0 < n
    → read false n buf (pause ∷ es) ≡ (err Error.blocking_io_error, es)
unfolding read
blocked_read zero buf es h = absurd (omega arith)
blocked_read (suc n) buf es h = refl

cut_read :
    (bs : Bytes) (es : List Event)
    → 0 < length bs
    → length bs < 16
    → read false 16 [] (chunk bs ∷ pause ∷ es) ≡ (err Error.blocking_io_error, es)
unfolding read
cut_read [] es h k = absurd (omega arith)
cut_read (b ∷ bs) es h k =
    let all : leb (length (b ∷ bs)) 16 ≡ true = ground arith in
    rw (all, read) (blocked_read (16 - length (b ∷ bs)) (b ∷ bs) es (omega arith))

-- What a read that does not block has taken is lost when it raises: if some bytes of a header come,
-- and then a pause, `BlockingIOError` is raised and those bytes are gone from the inbox.
pub recv_message_pause :
    (bs : Bytes) (es : List Event)
    → 0 < length bs
    → length bs < 16
    → recv_message (record { blocking = false; inbox = chunk bs ∷ pause ∷ es })
      ≡ (err Error.blocking_io_error, record { blocking = false; inbox = es })
unfolding recv_message recv_exact
recv_message_pause bs es h k =
    let s : Socket = record { blocking = false; inbox = chunk bs ∷ pause ∷ es } in
    let e = cut_read bs es h k in
    rw
      (>>=-err (recv_exact 16) recv_rest s Error.blocking_io_error (ap (λ r. r.0) e), recv_exact, e)
      refl
