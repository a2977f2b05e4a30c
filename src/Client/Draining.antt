-- ===== src/Client/Draining.antt =====
-- The loop of `_send_and_recv` of src/order_entry.py that reads until nothing is left: the fuel that
-- it is given is enough.
use hft_trading_system.Prelude.{
  >>=-ok, Action, Bool, Bool-cases, List, Option, Option-cases, Result, Result-cases, [], ap, arith,
  err, false, inl, inr, int_eq, leb, length, nat_eq, none, ok, pure, refl, some, suc, sym, take,
  true, zero, ℕ, ◌++◌, ◌+◌, ◌-◌, ◌<◌, ◌∙◌, ◌∷◌, ◌≡◌, ◌≤◌,
}
use hft_trading_system.Struct.{Bytes, from_bytes}
use hft_trading_system.Client.Wire.{
  Event, Socket, chunk, pause, read, recv_exact, recv_message, recv_rest, resp_hdr_size,
}
use hft_trading_system.Client.Session.{
  OeResponse, Session, drain, inbox_of, inbox_size, parse_response, receive, with_socket,
}
use hft_trading_system.Client.Framing.{length-drop}
use hft_trading_system.Client.Blocks.{◌>>=◌, bind_ok}

read_no_larger :
    (blocking : Bool) (n : ℕ) (buf : Bytes) (es : List Event)
    → inbox_size (read blocking n buf es).1 ≤ inbox_size es
unfolding read
read_no_larger blocking zero buf es = omega arith
read_no_larger blocking (suc n) buf [] = omega arith
read_no_larger true (suc n) buf (pause ∷ es) = omega (arith, read_no_larger true (suc n) buf es)
read_no_larger false (suc n) buf (pause ∷ es) = omega arith
read_no_larger blocking (suc n) buf (chunk [] ∷ es) = omega arith
read_no_larger blocking (suc n) buf (chunk (b ∷ bs) ∷ es) =
    let piece = b ∷ bs in
    elim (Bool-cases (leb (length piece) (suc n))) [
      | inl all ↦
          rw (all, read)
            (omega (arith, read_no_larger blocking (suc n - length piece) (buf ++ piece) es))
      | inr more ↦ rw (more, read) (omega (arith, length-drop n bs))
    ]

read_smaller :
    (blocking : Bool) (n : ℕ) (buf : Bytes) (es : List Event) (r : Bytes)
    → (read blocking (suc n) buf es).0 ≡ ok r
    → inbox_size (read blocking (suc n) buf es).1 < inbox_size es
unfolding read
read_smaller blocking n buf [] r h = cc
read_smaller true n buf (pause ∷ es) r h = omega (arith, read_smaller true n buf es r h)
read_smaller false n buf (pause ∷ es) r h = cc
read_smaller blocking n buf (chunk [] ∷ es) r h = cc
read_smaller blocking n buf (chunk (b ∷ bs) ∷ es) r h =
    let piece = b ∷ bs in
    elim (Bool-cases (leb (length piece) (suc n))) [
      | inl all ↦
          rw (all, read)
            (omega (arith, read_no_larger blocking (suc n - length piece) (buf ++ piece) es))
      | inr more ↦ rw (more, read) (omega (arith, length-drop n bs))
    ]

rest_no_larger :
    (hdr : Bytes) (s : Socket) → inbox_size (recv_rest hdr s).1.inbox ≤ inbox_size s.inbox
unfolding recv_rest recv_exact
rest_no_larger hdr s =
    ground (arith, read_no_larger s.blocking (from_bytes (take 2 hdr) - resp_hdr_size) [] s.inbox)

message_smaller :
    (s : Socket) (m : Bytes)
    → (recv_message s).0 ≡ ok m
    → inbox_size (recv_message s).1.inbox < inbox_size s.inbox
unfolding recv_message recv_exact
message_smaller s m h = elim (Result-cases (recv_exact resp_hdr_size s).0) [
  | inl (hdr, e) ↦
      let shorter = read_smaller s.blocking 15 [] s.inbox hdr e in
      rw (>>=-ok (recv_exact resp_hdr_size) recv_rest s hdr e)
        (omega (arith, shorter, rest_no_larger hdr (recv_exact resp_hdr_size s).1))
  | inr (c, e) ↦ cc
]

abbrev left_over : Option Socket → ℕ
left_over o = inbox_size (elim o [ none ↦ [] | some k ↦ k.inbox ])

module _ {X : Type 0} where
  parse_socket : (bytes : Bytes) (s : Session X) → (parse_response bytes s).1.socket ≡ s.socket
  unfolding parse_response ◌>>=◌
  parse_socket bytes s = ground arith

  with_socket_smaller :
      (s : Session X) (m : Bytes)
      → (with_socket recv_message s).0 ≡ ok m
      → inbox_size (inbox_of (with_socket recv_message s).1) < inbox_size (inbox_of s)
  unfolding with_socket
  with_socket_smaller s m h = elim (Option-cases s.socket) [
    | inl e ↦ cc (rw (e, with_socket) at h)
    | inr (k, e) ↦
        let got : (recv_message k).0 ≡ ok m = rw (e, with_socket) at h in
        rw (e, with_socket) (message_smaller k m got)
  ]

  receive_smaller :
      (s : Session X) (m : OeResponse)
      → (receive s).0 ≡ ok m
      → inbox_size (inbox_of (receive s).1) < inbox_size (inbox_of s)
  unfolding receive ◌>>=◌
  receive_smaller s m h = elim (Result-cases (with_socket recv_message s).0) [
    | inl (bytes, e) ↦
        let s1 = (with_socket recv_message s).1 in
        rw (bind_ok (with_socket recv_message) parse_response s bytes e)
          (rw (ap left_over (parse_socket bytes s1)) (with_socket_smaller s bytes e))
    | inr (c, e) ↦ cc (rw (e, ◌>>=◌) at h)
  ]

  drain_next :
      (fuel : ℕ) (s : Session X) (m : OeResponse)
      → (receive s).0 ≡ ok m
      → drain (suc fuel) s ≡ (drain fuel >>= λ ms. pure (m ∷ ms)) (receive s).1
  unfolding drain
  drain_next fuel s m e = rw (e, drain) refl

  same_bind :
      {A B : Type 0} (m n : Action (Session X) A) (f : A → Action (Session X) B) (s : Session X)
      → m s ≡ n s
      → (m >>= f) s ≡ (n >>= f) s
  unfolding ◌>>=◌
  same_bind {A} {B} m n f s e =
      let continue : Result A × Session X → Result B × Session X =
        λ p. elim p.0 as (λ _. Result B × Session X) [ ok a ↦ f a p.1 | err c ↦ (err c, p.1) ] in
      ap continue e

  drain_steady :
      (fuel : ℕ) (s : Session X)
      → inbox_size (inbox_of s) < fuel
      → drain (suc fuel) s ≡ drain fuel s
  unfolding drain
  drain_steady zero s h = absurd (omega arith)
  drain_steady (suc fuel) s h = elim (Result-cases (receive s).0) [
    | inl (m, e) ↦
        let s1 = (receive s).1 in
        let ih = drain_steady fuel s1 (omega (arith, receive_smaller s m e)) in
        drain_next (suc fuel) s m e
        ∙ same_bind (drain (suc fuel)) (drain fuel) (λ ms. pure (m ∷ ms)) s1 ih
        ∙ sym (drain_next fuel s m e)
    | inr (c, e) ↦ rw (e, drain) refl
  ]

  drain_extra :
      (extra fuel : ℕ) (s : Session X)
      → inbox_size (inbox_of s) < fuel
      → drain (extra + fuel) s ≡ drain fuel s
  drain_extra zero fuel s h = let e : 0 + fuel ≡ fuel = omega arith in rw e refl
  drain_extra (suc extra) fuel s h =
      let e : suc extra + fuel ≡ suc (extra + fuel) = omega arith in
      rw e (drain_steady (extra + fuel) s (omega arith) ∙ drain_extra extra fuel s h)

  -- The loop that drains the socket ends: a round for each byte, each chunk and each pause that is
  -- there, and one more, are enough, since any number of further rounds gives the same responses, or
  -- the same error, and the same state.
  pub drain_ends :
      (extra : ℕ) (s : Session X)
      → let rounds = suc (inbox_size (inbox_of s)) in drain (extra + rounds) s ≡ drain rounds s
  drain_ends extra s = drain_extra extra (suc (inbox_size (inbox_of s))) s (omega arith)
