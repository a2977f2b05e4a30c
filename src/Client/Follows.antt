-- ===== src/Client/Follows.antt =====
-- The operations of the client of src/order_entry.py as chains of the steps that may happen to it.
use hft_trading_system.Prelude.{
  Action, Bool, Bool-cases, Done, Error, Option-cases, Result, Result-cases, arith, false,
  if◌then◌else◌, inl, inr, int_eq, length, lift, lookup, ltb, modify, nat_eq, only_if, pure, raise,
  suc, true, zero, ℕ, ◌∷◌, ◌≡◌,
}
use hft_trading_system.Struct.{Bytes, fits}
use hft_trading_system.Client.{OrderEntryClient, accept_header, apply_fill, make_header}
use hft_trading_system.Client.Headers.{accept_header-cases}
use hft_trading_system.Client.Wire.{Socket, recv_message}
use hft_trading_system.Client.Session.{
  OeResponse, Session, Venue, drain, drain_all, inbox_of, inbox_size, on_client, parse_response,
  receive, send_and_recv, send_raw, setblocking, with_socket,
}
use hft_trading_system.Client.Orders.{forget}
use hft_trading_system.Client.Steps.{Answer, Chain, Quiet, chain_append, quiets}
use hft_trading_system.Protocol.Responses.{OeResponseHeader, OrderFill}
use hft_trading_system.Client.Blocks.{◌>>=◌}

module _ {X : Type 0} (R : OrderEntryClient → OrderEntryClient → Type 0) where
  -- Whatever an action does to the client, errors included, is a chain.
  pub record Follows {A : Type 0} (m : Action (Session X) A) : Type 0 where
    pub at : (s : Session X) → Chain R s.client (m s).1.client

  pub Follows-bind :
      {A B : Type 0} (m : Action (Session X) A) (f : A → Action (Session X) B)
      → Follows m
      → ((a : A) → Follows (f a))
      → Follows (m >>= f)
  unfolding ◌>>=◌
  Follows-bind m f h k = record {
    at = λ s. elim (Result-cases (m s).0) [
      | inl (a, e) ↦ rw (e, ◌>>=◌) (chain_append (h.at s) ((k a).at (m s).1))
      | inr (c, e) ↦ rw (e, ◌>>=◌) (h.at s)
    ];
  }

  pub Follows-pure : {A : Type 0} (a : A) → Follows (pure a)
  Follows-pure a = record { at = λ s. Chain.here }

  pub Follows-lift : {A : Type 0} (r : Result A) → Follows (lift r)
  Follows-lift r = record { at = λ s. Chain.here }

  pub Follows-raise : (A : Type 0) (e : Error) → Follows {A = A} (raise e)
  Follows-raise A e = record { at = λ s. Chain.here }

  pub Follows-if :
      {A : Type 0} (b : Bool) (m n : Action (Session X) A)
      → Follows m
      → Follows n
      → Follows (if b then m else n)
  Follows-if true m n h k = h
  Follows-if false m n h k = k

  pub Follows-same :
      {A : Type 0} (m : Action (Session X) A)
      → ((s : Session X) → (m s).1.client ≡ s.client)
      → Follows m
  Follows-same m h = record { at = λ s. rw (h s) Chain.here }

  pub Follows-only_if : (b : Bool) (m : Action (Session X) Done) → Follows m → Follows (only_if b m)
  Follows-only_if true m h = h
  Follows-only_if false m h = record { at = λ s. Chain.here }

module _ {X : Type 0} where
  pub with_socket_same :
      {A : Type 0} (m : Action Socket A) (s : Session X) → (with_socket m s).1.client ≡ s.client
  unfolding with_socket
  with_socket_same m s = ground arith

  pub send_raw_same :
      (v : Venue X) (bytes : Bytes) (s : Session X) → (send_raw v bytes s).1.client ≡ s.client
  unfolding send_raw
  send_raw_same v bytes s = ground arith

  pub make_header-Follows :
      (msg_type length : ℕ) → Follows {X = X} Quiet (on_client (make_header msg_type length))
  unfolding make_header
  make_header-Follows msg_type length = record {
    at = λ s. Chain.next Chain.here (Quiet.numbered s.client);
  }

  accept_header-Follows :
      (h : OeResponseHeader) → Follows {X = X} Quiet (on_client (accept_header h))
  accept_header-Follows h = record {
    at = λ s. elim (accept_header-cases h s.client) [
      | inl (fits, e) ↦ rw e (Chain.next Chain.here (Quiet.heard s.client h.seq_num fits.2))
      | inr (unfit, e) ↦ rw e Chain.here
    ];
  }

  pub forget-Follows :
      (order_id : ℕ) → Follows {X = X} Answer (on_client (modify (forget order_id)))
  forget-Follows order_id = record {
    at = λ s. Chain.next Chain.here (Answer.closed s.client order_id);
  }

  pub apply_fill-Follows : (m : OrderFill) → Follows {X = X} Answer (on_client (apply_fill m))
  unfolding apply_fill
  apply_fill-Follows m = record {
    at = λ s. elim (Option-cases (lookup m.order_id s.client.open_orders)) [
      | inl e ↦ elim (Bool-cases (ltb 2 m.flags)) [
        | inl bad ↦ rw (bad, apply_fill) Chain.here
        | inr good ↦ rw (good, e, apply_fill) Chain.here
      ]
      | inr (o, e) ↦ elim (Bool-cases (ltb 2 m.flags)) [
        | inl bad ↦ rw (bad, apply_fill) Chain.here
        | inr good ↦ rw (good, e, apply_fill) (Chain.next Chain.here (Answer.filled s.client m o e))
      ]
    ];
  }

  parse_response-Follows : (bytes : Bytes) → Follows {X = X} Quiet (parse_response bytes)
  unfolding parse_response
  parse_response-Follows bytes = Follows-bind Quiet _ _ (Follows-lift Quiet _) λ hdr.
      Follows-bind Quiet _ _ (accept_header-Follows hdr)
        λ _. Follows-bind Quiet _ _ (Follows-lift Quiet _) λ t. Follows-lift Quiet _

  pub receive-Follows : Follows {X = X} Quiet receive
  unfolding receive
  receive-Follows =
      Follows-bind Quiet _ _ (Follows-same Quiet _ (with_socket_same recv_message))
        λ bytes. parse_response-Follows bytes

  setblocking-Follows : (b : Bool) → Follows {X = X} Quiet (setblocking b)
  unfolding setblocking
  setblocking-Follows b = Follows-same Quiet _ (with_socket_same _)

  drain-Follows : (fuel : ℕ) → Follows {X = X} Quiet (drain fuel)
  unfolding drain
  drain-Follows zero = record { at = λ s. Chain.here }
  drain-Follows (suc fuel) = record {
    at = λ s.
        let more : (m : OeResponse) → Follows {X = X} Quiet (drain fuel >>= λ ms. pure (m ∷ ms)) =
          λ m. Follows-bind Quiet _ _ (drain-Follows fuel) λ ms. Follows-pure Quiet _ in
        let heard = receive-Follows.at s in
        elim (Result-cases (receive s).0) [
          | inl (m, e) ↦ rw (e, drain) (chain_append heard ((more m).at (receive s).1))
          | inr (c, e) ↦ rw (e, drain) heard
        ];
  }

  drain_all-Follows : Follows {X = X} Quiet drain_all
  unfolding drain_all
  drain_all-Follows = record {
    at = λ s.
        let fuel = suc (inbox_size (inbox_of s)) in
        let drained = (drain fuel s).1 in
        let both =
          chain_append ((drain-Follows fuel).at s) ((setblocking-Follows true).at drained) in
        elim (Result-cases (setblocking true drained).0) [
          | inl (m, e) ↦ rw (e, drain_all) both
          | inr (c, e) ↦ rw (e, drain_all) both
        ];
  }

  pub send_and_recv-Follows : (v : Venue X) (msg : Bytes) → Follows Quiet (send_and_recv v msg)
  unfolding send_and_recv
  send_and_recv-Follows v msg =
      Follows-bind Quiet _ _ (Follows-same Quiet _ (send_raw_same v msg)) λ _.
        Follows-bind Quiet _ _ (setblocking-Follows true) λ _.
          Follows-bind Quiet _ _ receive-Follows λ first.
            Follows-if Quiet _ _ _ (Follows-pure Quiet _) (
              Follows-bind Quiet _ _ (setblocking-Follows false)
                λ _. Follows-bind Quiet _ _ drain_all-Follows λ more. Follows-pure Quiet _)

  pub Follows-quiet : {A : Type 0} {m : Action (Session X) A} → Follows Quiet m → Follows Answer m
  Follows-quiet h = record { at = λ s. quiets (h.at s) }
