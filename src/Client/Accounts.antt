-- ===== src/Client/Accounts.antt =====
-- The state of the client of src/order_entry.py together with the responses that it has taken from
-- the wire and not yet processed: what may happen to the two, and rules for the blocks.
use mathlib.Core.List.{append_assoc}
use hft_trading_system.Prelude.{
  Action, Bool, Error, List, Result, Result-cases, [], err, false, if◌then◌else◌, inl, inr, int_eq,
  lift, lookup, nat_eq, none, ok, pure, raise, refl, some, true, ℕ, ◌++◌, ◌+◌, ◌∷◌, ◌≡◌,
}
use hft_trading_system.Struct.{Bytes}
use hft_trading_system.Client.Steps.{Chain, chain_append}
use hft_trading_system.Client.Headers.{Fits}
use hft_trading_system.Safety.Exposure.{OeConfig}
use hft_trading_system.Client.{OrderEntryClient, book_fill}
use hft_trading_system.Client.Session.{
  OeResponse, Session, of_order_closed, of_order_fill, of_order_reject, unpack_response,
}
use hft_trading_system.Client.Orders.{forget}
use hft_trading_system.Protocol.Responses.{OeResponseHeader, OrderFill}
use hft_trading_system.Client.Blocks.{◌>>=◌}

abbrev pub Account : Type 0
Account = OrderEntryClient × List OeResponse

-- A response that takes an order off the table: its closing, or a reject that does not know it
abbrev pub Closes : OeResponse → ℕ → Type 0
Closes (of_order_closed m) order_id = m.order_id ≡ order_id
Closes (of_order_reject m) order_id = (m.order_id ≡ order_id) × (m.reject_reason ≡ 4)
Closes _ order_id = ⊥

-- A response that changes nothing
abbrev pub IsIdle : OrderEntryClient → OeResponse → Type 0
IsIdle c (of_order_fill m) = lookup m.order_id c.open_orders ≡ none
IsIdle c (of_order_closed m) = ⊥
IsIdle c (of_order_reject m) = ⊥
IsIdle c _ = Unit

-- A response is taken from the wire once, and each one taken is used up by what it does: a fill of an
-- order on the table is booked as it is, once. Only in a state that satisfies Broken may one be
-- `lost`. `moved`: their order does not matter.
pub data Booking (Broken : OrderEntryClient → Type 0) : Account → Account → Type 0 where
  numbered :
      (c : OrderEntryClient) (q : List OeResponse)
      → Booking Broken (c, q) (record c { seq_num = c.seq_num + 1 }, q)
  garbled :
      (c : OrderEntryClient) (q : List OeResponse) (h : OeResponseHeader)
      → Fits c h
      → Booking Broken (c, q) (record c { resp_seq = h.seq_num }, q)
  arrived :
      (c : OrderEntryClient) (q : List OeResponse) (h : OeResponseHeader) (t : ℕ) (bytes : Bytes)
      (m : OeResponse)
      → Fits c h
      → unpack_response t h bytes ≡ ok m
      → Booking Broken (c, q) (record c { resp_seq = h.seq_num }, m ∷ q)
  filled :
      (c : OrderEntryClient) (q : List OeResponse) (m : OrderFill) (o : OeConfig)
      → lookup m.order_id c.open_orders ≡ some o
      → Booking Broken (c, of_order_fill m ∷ q) (book_fill m o c, q)
  closed :
      (c : OrderEntryClient) (q : List OeResponse) (m : OeResponse) (order_id : ℕ)
      → Closes m order_id
      → Booking Broken (c, m ∷ q) (forget order_id c, q)
  ignored :
      (c : OrderEntryClient) (q : List OeResponse) (m : OeResponse)
      → IsIdle c m
      → Booking Broken (c, m ∷ q) (c, q)
  lost :
      (c : OrderEntryClient) (q : List OeResponse) (m : OeResponse)
      → Broken c
      → Booking Broken (c, m ∷ q) (c, q)
  moved :
      (c : OrderEntryClient) (ms q : List OeResponse) (m : OeResponse)
      → Booking Broken (c, ms ++ m ∷ q) (c, m ∷ ms ++ q)

module _ (Broken : OrderEntryClient → Type 0) where
  -- Where an action ends: at the responses that its result hands on, or, after an exception, at some
  -- that nobody will process.
  abbrev pub Ends :
      {A : Type 0}
      → (A → List OeResponse)
      → Account
      → List OeResponse
      → OrderEntryClient
      → Result A
      → Type 0
  Ends post start q c (ok a) = Chain (Booking Broken) start (c, post a ++ q)
  Ends post start q c (err e) = (ms : List OeResponse) × Chain (Booking Broken) start (c, ms ++ q)

  pub after :
      {A : Type 0} (post : A → List OeResponse) (start start' : Account) (q : List OeResponse)
      (c : OrderEntryClient) (r : Result A)
      → Chain (Booking Broken) start start'
      → Ends post start' q c r
      → Ends post start q c r
  after post start start' q c (ok a) h k = chain_append h k
  after post start start' q c (err e) h (ms, k) = (ms, chain_append h k)

  pub all_lost :
      (c : OrderEntryClient) (ms q : List OeResponse)
      → Broken c
      → Chain (Booking Broken) (c, ms ++ q) (c, q)
  all_lost c [] q b = Chain.here
  all_lost c (m ∷ ms) q b =
      chain_append (Chain.next Chain.here (Booking.lost c (ms ++ q) m b)) (all_lost c ms q b)

  -- What goes through to its end leaves nothing.
  pub settled :
      {A : Type 0} (start : Account) (c : OrderEntryClient) (q : List OeResponse) (r : Result A)
      → Chain (Booking Broken) start (c, q)
      → Ends (λ _. []) start q c r
  settled start c q (ok a) h = h
  settled start c q (err e) h = ([], h)

  pub ended :
      {A : Type 0} (post : A → List OeResponse) (start : Account) (q : List OeResponse)
      (c : OrderEntryClient) (r : Result A)
      → Ends post start q c r
      → (ms : List OeResponse) × Chain (Booking Broken) start (c, ms ++ q)
  ended post start q c (ok a) h = (post a, h)
  ended post start q c (err e) h = h

  frame_ends :
      {A : Type 0} (pre more q : List OeResponse) (post : A → List OeResponse)
      (c c' : OrderEntryClient) (r : Result A)
      → Ends post (c, pre ++ (more ++ q)) (more ++ q) c' r
      → Ends (λ a. post a ++ more) (c, (pre ++ more) ++ q) q c' r
  frame_ends pre more q post c c' (ok a) h =
      rw (append_assoc pre more q, append_assoc (post a) more q) h
  frame_ends pre more q post c c' (err e) (ms, h) =
      (ms ++ more, rw (append_assoc pre more q, append_assoc ms more q) h)

  module _ {X : Type 0} where
    -- Whatever an action does, errors included, is a chain of steps from the responses that it is
    -- given.
    pub record Books (pre : List OeResponse) {A : Type 0} (post : A → List OeResponse)
        (m : Action (Session X) A) : Type 0 where
      pub at :
          (s : Session X) (q : List OeResponse)
          → Ends post (s.client, pre ++ q) q (m s).1.client (m s).0

    pub Books-bind :
        {A B : Type 0} {pre : List OeResponse} {mid : A → List OeResponse}
        {post : B → List OeResponse} (m : Action (Session X) A) (k : A → Action (Session X) B)
        → Books pre mid m
        → ((a : A) → Books (mid a) post (k a))
        → Books pre post (m >>= k)
    unfolding ◌>>=◌
    Books-bind {pre} {mid} {post} m k h g = record {
      at = λ s q. elim (Result-cases (m s).0) [
        | inl (a, e) ↦
            rw (e, ◌>>=◌)
              (after post (s.client, pre ++ q) ((m s).1.client, mid a ++ q) q (k a (m s).1).1.client
                (k a (m s).1).0 (rw (e) at (h.at s q)) ((g a).at (m s).1 q))
        | inr (c, e) ↦ rw (e, ◌>>=◌) (rw (e) at (h.at s q))
      ];
    }

    pub Books-pure :
        {A : Type 0} (post : A → List OeResponse) (a : A) → Books (post a) post (pure a)
    Books-pure post a = record { at = λ s q. Chain.here }

    pub Books-raise :
        {A : Type 0} (pre : List OeResponse) (post : A → List OeResponse) (e : Error)
        → Books pre post (raise e)
    Books-raise pre post e = record { at = λ s q. (pre, Chain.here) }

    pub Books-lift :
        {A B : Type 0} {pre : List OeResponse} {post : B → List OeResponse} (r : Result A)
        (k : A → Action (Session X) B)
        → ((a : A) → r ≡ ok a → Books pre post (k a))
        → Books pre post (lift r >>= k)
    unfolding ◌>>=◌
    Books-lift (ok a) k h = record { at = λ s q. (h a refl).at s q }
    Books-lift {pre} (err e) k h = record { at = λ s q. (pre, Chain.here) }

    pub Books-if :
        {A : Type 0} {pre : List OeResponse} {post : A → List OeResponse} (b : Bool)
        (m n : Action (Session X) A)
        → Books pre post m
        → Books pre post n
        → Books pre post (if b then m else n)
    Books-if true m n h k = h
    Books-if false m n h k = k

    pub Books-same :
        {A : Type 0} (m : Action (Session X) A)
        → ((s : Session X) → (m s).1.client ≡ s.client)
        → Books [] (λ _. []) m
    Books-same m h = record {
      at = λ s q. rw (h s) (settled (s.client, q) s.client q (m s).0 Chain.here);
    }

    -- The responses that an action does not see stay.
    pub frame :
        {A : Type 0} {pre : List OeResponse} {post : A → List OeResponse} {m : Action (Session X) A}
        (more : List OeResponse)
        → Books pre post m
        → Books (pre ++ more) (λ a. post a ++ more) m
    frame {pre} {post} {m} more h = record {
      at = λ s q. frame_ends pre more q post s.client (m s).1.client (m s).0 (h.at s (more ++ q));
    }
