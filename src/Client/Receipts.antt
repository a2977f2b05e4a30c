-- ===== src/Client/Receipts.antt =====
-- What `_parse_response`, `_recv_message` and `_send_and_recv` of src/order_entry.py take from the
-- wire.
use hft_trading_system.Prelude.{
  Action, Bool, Bool-cases, List, Result, Result-cases, [], ap, err, false, inl, inr, int_eq, lift,
  nat_eq, ok, pure, suc, true, zero, ℕ, ◌∷◌, ◌≡◌,
}
use hft_trading_system.Client.{OrderEntryClient, accept_header}
use hft_trading_system.Client.Session.{
  OeResponse, Session, Venue, drain, drain_all, inbox_of, inbox_size, is_os_error, on_client,
  parse_response, receive, send_and_recv, setblocking, unpack_response, with_socket,
}
use hft_trading_system.Client.Steps.{Chain}
use hft_trading_system.Client.Headers.{Fits, accept_header-cases}
use hft_trading_system.Client.Accounts.{
  Account, Booking, Books, Books-bind, Books-if, Books-pure, Books-same, Ends, after, ended, frame,
}
use hft_trading_system.Client.Follows.{send_raw_same, with_socket_same}
use hft_trading_system.Client.Wire.{recv_message}
use hft_trading_system.Struct.{Bytes}
use hft_trading_system.Protocol.Codec.{Kind, unpack_message}
use hft_trading_system.Protocol.Enums.{member_of, msg_types}
use hft_trading_system.Protocol.Responses.{OeResponseHeader}
use hft_trading_system.Client.Blocks.{◌>>=◌}

abbrev pub one : OeResponse → List OeResponse
one m = m ∷ []

module _ (Broken : OrderEntryClient → Type 0) where
  -- One more response before those that were read after it
  joined :
      (start : Account) (c : OrderEntryClient) (m : OeResponse) (q : List OeResponse)
      (r : Result (List OeResponse))
      → Ends Broken (λ ms. ms) start (m ∷ q) c r
      → Ends Broken (λ ms. ms) start q c (elim r [ ok ms ↦ ok (m ∷ ms) | err e ↦ err e ])
  joined start c m q (ok ms) h = Chain.next h (Booking.moved c ms q m)
  joined start c m q (err e) (ms, h) = (m ∷ ms, Chain.next h (Booking.moved c ms q m))

  -- One response is taken, or none.
  abbrev Hears : Account → List OeResponse → OrderEntryClient → Result OeResponse → Type 0
  Hears start q c (ok m) = Chain (Booking Broken) start (c, m ∷ q)
  Hears start q c (err e) = Chain (Booking Broken) start (c, q)

  hears_ends :
      (start : Account) (q : List OeResponse) (c : OrderEntryClient) (r : Result OeResponse)
      → Hears start q c r
      → Ends Broken one start q c r
  hears_ends start q c (ok m) h = h
  hears_ends start q c (err e) h = ([], h)

  module _ {X : Type 0} where
    -- The rest of `_parse_response` once the header is accepted
    parse_rest :
        (h : OeResponseHeader) (bytes : Bytes) (s s' : Session X) (q : List OeResponse)
        → Fits s.client h
        → s'.client ≡ record s.client { resp_seq = h.seq_num }
        → let r =
            (lift (member_of msg_types h.msg_type) >>= λ t. lift (unpack_response t h bytes)) s' in
          Hears (s.client, q) q r.1.client r.0
    unfolding ◌>>=◌
    parse_rest h bytes s s' q fits same = elim (Result-cases (member_of msg_types h.msg_type)) [
      | inr (c, e) ↦ rw (e, same) (Chain.next Chain.here (Booking.garbled s.client q h fits))
      | inl (t, e) ↦ elim (Result-cases (unpack_response t h bytes)) [
        | inr (c, u) ↦ rw (e, u, same) (Chain.next Chain.here (Booking.garbled s.client q h fits))
        | inl (m, u) ↦
            rw (e, u, same) (Chain.next Chain.here (Booking.arrived s.client q h t bytes m fits u))
      ]
    ]

    parse_accepted :
        (h : OeResponseHeader) (bytes : Bytes) (s : Session X) (q : List OeResponse)
        → let r =
            (on_client (accept_header h) >>= λ _.
            lift (member_of msg_types h.msg_type) >>= λ t. lift (unpack_response t h bytes))
              s in
          Hears (s.client, q) q r.1.client r.0
    unfolding ◌>>=◌
    parse_accepted h bytes s q = elim (accept_header-cases h s.client) [
      | inl (fits, e) ↦
          rw (e, ◌>>=◌)
            (parse_rest h bytes s (on_client (accept_header h) s).1 q fits (ap (λ r. r.1) e))
      | inr (unfit, e) ↦
          let same : (on_client (accept_header h) s).1.client ≡ s.client = ap (λ r. r.1) e in
          rw (e, ◌>>=◌, same) Chain.here
    ]

    parse_response-Hears :
        (bytes : Bytes) (s : Session X) (q : List OeResponse)
        → let r = parse_response bytes s in Hears (s.client, q) q r.1.client r.0
    unfolding parse_response ◌>>=◌
    parse_response-Hears bytes s q =
        elim (Result-cases (unpack_message Kind.oe_response_header bytes)) [
          | inl (h, e) ↦ rw (e, parse_response, ◌>>=◌) (parse_accepted h bytes s q)
          | inr (c, e) ↦ rw (e, parse_response, ◌>>=◌) Chain.here
        ]

    receive-Hears :
        (s : Session X) (q : List OeResponse)
        → let r = receive s in Hears (s.client, q) q r.1.client r.0
    unfolding receive ◌>>=◌
    receive-Hears s q =
        let s1 = (with_socket recv_message s).1 in
        let same = with_socket_same recv_message s in
        elim (Result-cases (with_socket recv_message s).0) [
          | inl (bytes, e) ↦ rw (e, receive, ◌>>=◌) (rw (same) at (parse_response-Hears bytes s1 q))
          | inr (c, e) ↦ rw (e, receive, ◌>>=◌, same) Chain.here
        ]

    receive-Books : Books Broken {X = X} [] one receive
    receive-Books = record {
      at = λ s q. hears_ends (s.client, q) q (receive s).1.client (receive s).0 (receive-Hears s q);
    }

    setblocking-Books : (b : Bool) → Books Broken {X = X} [] (λ _. []) (setblocking b)
    unfolding setblocking
    setblocking-Books b = Books-same Broken _ (with_socket_same _)

    after_first :
        (m : OeResponse) (n : Action (Session X) (List OeResponse)) (s : Session X)
        (start : Account) (q : List OeResponse)
        → Ends Broken (λ ms. ms) start (m ∷ q) (n s).1.client (n s).0
        → let r = (n >>= λ ms. pure (m ∷ ms)) s in Ends Broken (λ ms. ms) start q r.1.client r.0
    unfolding ◌>>=◌
    after_first m n s start q h = elim (Result-cases (n s).0) [
      | inl (ms, e) ↦ rw (e, ◌>>=◌) (joined start (n s).1.client m q (ok ms) (rw (e) at h))
      | inr (c, e) ↦ rw (e, ◌>>=◌) (joined start (n s).1.client m q (err c) (rw (e) at h))
    ]

    drain-Books : (fuel : ℕ) → Books Broken {X = X} [] (λ ms. ms) (drain fuel)
    unfolding drain
    drain-Books zero = record { at = λ s q. Chain.here }
    drain-Books (suc fuel) = record {
      at = λ s q. elim (Result-cases (receive s).0) [
        | inl (m, e) ↦
            let s1 = (receive s).1 in
            let first = rw (e) at (receive-Books.at s q) in
            rw (e, drain)
              (after_first m (drain fuel) s1 (s.client, q) q
                (after Broken (λ ms. ms) (s.client, q) (s1.client, m ∷ q) (m ∷ q)
                  (drain fuel s1).1.client (drain fuel s1).0 first
                  ((drain-Books fuel).at s1 (m ∷ q))))
        | inr (c, e) ↦ elim (Bool-cases (is_os_error c)) [
          | inl os ↦ rw (e, os, drain) (rw (e) at (receive-Hears s q))
          | inr other ↦ rw (e, other, drain) (rw (e) at (receive-Books.at s q))
        ]
      ];
    }

    drain_all-Books : Books Broken {X = X} [] (λ ms. ms) drain_all
    unfolding drain_all
    drain_all-Books = record {
      at = λ s q.
          let fuel = suc (inbox_size (inbox_of s)) in
          let drained = (drain fuel s).1 in
          let first = (drain-Books fuel).at s q in
          let same : (setblocking true drained).1.client ≡ drained.client =
            with_socket_same _ drained in
          elim (Result-cases (setblocking true drained).0) [
            | inl (m, e) ↦ rw (e, drain_all, same) first
            | inr (c, e) ↦
                rw (e, drain_all, same)
                  (ended Broken (λ ms. ms) (s.client, q) q drained.client (drain fuel s).0 first)
          ];
    }

    more_after :
        (first : OeResponse)
        → Books Broken {X = X} (one first) (λ ms. ms) (drain_all >>= λ more. pure (first ∷ more))
    more_after first = record {
      at = λ s q.
          after_first first drain_all s (s.client, first ∷ q) q (drain_all-Books.at s (first ∷ q));
    }

    pub send_and_recv-Books :
        (v : Venue X) (msg : Bytes) → Books Broken [] (λ ms. ms) (send_and_recv v msg)
    unfolding send_and_recv
    send_and_recv-Books v msg =
        Books-bind Broken {mid = λ _. []} _ _ (Books-same Broken _ (send_raw_same v msg)) λ _.
          Books-bind Broken {mid = λ _. []} _ _ (setblocking-Books true) λ _.
            Books-bind Broken _ _ receive-Books λ first.
              Books-if Broken _ _ _ (Books-pure Broken (λ ms. ms) (one first)) (
                Books-bind Broken {mid = λ _. one first} _ _
                  (frame Broken (one first) (setblocking-Books false)) λ _. more_after first)
