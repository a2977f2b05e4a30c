-- ===== src/Router/Loop.antt =====
-- When the loop of `_process_buffer` in src/main.py ends.
use mathlib.Core.Path.{subst}
use hft_trading_system.Prelude.{
  >>=-err, >>=-ok, Action, Bool, Bool-cases, Option, Result, Result-cases, [], ap, arith, drop,
  eqb_iff, false, inl, inr, int_eq, length, ltb, nat_eq, none, ok, pure, refl, some, suc, sym, take,
  true, zero, ℕ, ◌+◌, ◌<◌, ◌>>=◌, ◌∙◌, ◌∷◌, ◌≡◌, ◌≢◌, ◌≤◌,
}
use hft_trading_system.MarketData.{MdHeader, Message, side_eq}
use hft_trading_system.Struct.{Bytes}
use hft_trading_system.Struct.RoundTrip.{length-drop}
use hft_trading_system.Parser.{parse_message, read_header}
use hft_trading_system.Snapshot.{SnapShotSynchronizer}
use hft_trading_system.Router.{magic_number, process_buffer, route}

-- What follows a packet: the rest of the loop, or its end
abbrev pub next_round : ℕ → Bytes → Bool → Action SnapShotSynchronizer (Option Bytes)
next_round fuel rest true = process_buffer fuel rest
next_round fuel rest false = pure (some rest)

-- A round of the loop on a whole packet
pub process_buffer-round :
    (fuel : ℕ) (bytes : Bytes) (header : MdHeader) (s : SnapShotSynchronizer)
    → 23 ≤ length bytes
    → read_header (take 23 bytes) ≡ ok header
    → header.length ≤ length bytes
    → process_buffer (suc fuel) bytes s
      ≡ (route header (parse_message (take header.length bytes))
            >>= next_round fuel (drop header.length bytes))
          s
unfolding process_buffer
process_buffer-round fuel bytes header s enough h whole =
    let long : ltb (length bytes) 23 ≡ false = ground arith in
    let fits : ltb (length bytes) header.length ≡ false = ground arith in
    rw (long, h, ◌>>=◌, fits) refl

route_ignored :
    (header : MdHeader) (parsed : Result Message) (s : SnapShotSynchronizer)
    → header.magic_number ≢ magic_number
    → s.sync ≡ true
    → route header parsed s ≡ (ok true, s)
unfolding route
route_ignored header parsed s other sync = ground (arith, eqb_iff header.magic_number magic_number)

-- In sync, a packet of another channel whose header says that it has no bytes is met again and again:
-- the loop makes no progress, however long it runs.
pub process_buffer-stuck :
    (fuel : ℕ) (bytes : Bytes) (header : MdHeader) (s : SnapShotSynchronizer)
    → 23 ≤ length bytes
    → read_header (take 23 bytes) ≡ ok header
    → header.length ≡ 0
    → header.magic_number ≢ magic_number
    → s.sync ≡ true
    → process_buffer fuel bytes s ≡ (ok none, s)
unfolding process_buffer
process_buffer-stuck zero bytes header s enough h empty other sync = refl
process_buffer-stuck (suc fuel) bytes header s enough h empty other sync =
    let ih = process_buffer-stuck fuel bytes header s enough h empty other sync in
    let packet = parse_message (take header.length bytes) in
    let rest = drop header.length bytes in
    process_buffer-round fuel bytes header s enough h (omega arith)
    ∙ >>=-ok (route header packet) (next_round fuel rest) s true
        (ap (λ x. x.0) (route_ignored header packet s other sync))
    ∙ ap (λ x. process_buffer fuel rest x.1) (route_ignored header packet s other sync)
    ∙ ap (λ n. process_buffer fuel (drop n bytes) s) empty
    ∙ ih

drop-nil : (n : ℕ) → drop {A = ℕ} n [] ≡ []
drop-nil zero = refl
drop-nil (suc n) = refl

drop-drop : (k n : ℕ) (bs : Bytes) → drop k (drop n bs) ≡ drop (n + k) bs
drop-drop k zero bs = ap (λ m. drop m bs) (omega arith)
drop-drop k (suc n) [] = drop-nil k ∙ sym (drop-nil (suc n + k))
drop-drop k (suc n) (b ∷ bs) =
    let e : suc (n + k) ≡ suc n + k = omega arith in drop-drop k n bs ∙ ap (λ m. drop m (b ∷ bs)) e

-- No header in the bytes, wherever it is read, says that its packet has no bytes.
abbrev pub HasNoEmpty : Bytes → Type 0
HasNoEmpty bytes =
    (k : ℕ) (h : MdHeader) → read_header (take 23 (drop k bytes)) ≡ ok h → 0 < h.length

HasNoEmpty-drop : (n : ℕ) (bytes : Bytes) → HasNoEmpty bytes → HasNoEmpty (drop n bytes)
HasNoEmpty-drop n bytes none_empty k h e =
    none_empty (n + k) h (subst (λ x. read_header (take 23 x) ≡ ok h) (drop-drop k n bytes) e)

abbrev Returns : Result (Option Bytes) × SnapShotSynchronizer → Type 0
Returns x = x.0 ≢ ok none

next_round-Returns :
    (fuel : ℕ) (rest : Bytes) (act : Action SnapShotSynchronizer Bool) (s : SnapShotSynchronizer)
    → ((t : SnapShotSynchronizer) → Returns (process_buffer fuel rest t))
    → Returns ((act >>= next_round fuel rest) s)
next_round-Returns fuel rest act s loop = elim (Result-cases (act s).0) [
  | inl (true, e) ↦ rw (>>=-ok act (next_round fuel rest) s true e) (loop (act s).1)
  | inl (false, e) ↦ rw (>>=-ok act (next_round fuel rest) s false e) (λ h. cc)
  | inr (c, e) ↦ rw (>>=-err act (next_round fuel rest) s c e) (λ h. cc)
]

-- With more rounds than there are bytes the loop of `_process_buffer` has ended, with the bytes
-- that are left or with an exception, whatever the packets are, if no header that can be read
-- anywhere in the bytes gives its packet the length zero.
pub process_buffer-returns :
    (fuel : ℕ) (bytes : Bytes) (s : SnapShotSynchronizer)
    → length bytes < fuel
    → HasNoEmpty bytes
    → (process_buffer fuel bytes s).0 ≢ ok none
unfolding process_buffer
process_buffer-returns zero bytes s more none_empty = ground arith
process_buffer-returns (suc fuel) bytes s more none_empty =
    elim (Bool-cases (ltb (length bytes) 23)) [
      | inl short ↦ rw short (λ h. cc)
      | inr long ↦ elim (Result-cases (read_header (take 23 bytes))) [
        | inr (c, e) ↦ rw (long, e, ◌>>=◌) (λ h. cc)
        | inl (header, e) ↦ elim (Bool-cases (ltb (length bytes) header.length)) [
          | inl partial ↦ rw (long, e, ◌>>=◌, partial) (λ h. cc)
          | inr whole ↦
              let rest = drop header.length bytes in
              let some_bytes = none_empty 0 header e in
              let fits : header.length ≤ length bytes = ground arith in
              rw (process_buffer-round fuel bytes header s (ground arith) e (ground arith)) (
                next_round-Returns fuel rest
                  (route header (parse_message (take header.length bytes))) s
                  (λ t.
                    process_buffer-returns fuel rest t
                      (omega (arith, length-drop header.length bytes))
                      (HasNoEmpty-drop header.length bytes none_empty)))
        ]
      ]
    ]
