-- ===== src/Client/Settling.antt =====
-- `_process_responses`, `cancel_all_orders` and `delete_order` of src/order_entry.py: every response
-- that is taken is processed once.
use hft_trading_system.Prelude.{
  Action, Bool, Bool-cases, Done, Error, List, Option, Option-cases, Result, Result-cases, [],
  arith, eqb, eqb_iff, err, false, if◌then◌else◌, inl, inr, int_eq, is_some, length, lift, lookup,
  ltb, map, modify, nat_eq, none, ok, only_if, pure, raise, refl, some, suc, sym, true, zero, ℕ,
  ◌∙◌, ◌∷◌, ◌≡◌,
}
use hft_trading_system.Struct.{Bytes}
use hft_trading_system.Client.Steps.{Chain, chain_append}
use hft_trading_system.Client.Accounts.{
  Booking, Books, Books-bind, Books-lift, Books-pure, Books-raise, Closes, IsIdle, all_lost, frame,
  settled,
}
use hft_trading_system.Protocol.Enums.{member_of, reject_reasons}
use hft_trading_system.Client.{OrderEntryClient, apply_fill, make_header}
use hft_trading_system.Client.Session.{
  OeResponse, Session, Venue, of_error_message, of_header, of_login_response, of_order_ack,
  of_order_closed, of_order_fill, of_order_reject, on_client,
}
use hft_trading_system.Client.Orders.{
  cancel_all_orders, cancel_each, check_limits, check_symbol, delete_with, exchange_messages,
  forget, process_response, process_responses,
}
use hft_trading_system.Client.Receipts.{send_and_recv-Books}
use hft_trading_system.Protocol.Responses.{OrderFill, OrderReject}
use hft_trading_system.Client.Blocks.{◌>>=◌}

member_same : (xs : List ℕ) (n a : ℕ) → member_of xs n ≡ ok a → a ≡ n
member_same xs n a h = ground arith

module _ {X : Type 0} (Broken : OrderEntryClient → Type 0) where
  -- An action at whose end, errors included, no response waits that did not wait before
  pub record Settles {A : Type 0} (m : Action (Session X) A) : Type 0 where
    pub at :
        (s : Session X) (q : List OeResponse)
        → Chain (Booking Broken) (s.client, q) ((m s).1.client, q)

  Settles-Books : {A : Type 0} (m : Action (Session X) A) → Settles m → Books Broken [] (λ _. []) m
  Settles-Books m h = record {
    at = λ s q. settled Broken (s.client, q) (m s).1.client q (m s).0 (h.at s q);
  }

  pub Settles-bind :
      {A B : Type 0} (m : Action (Session X) A) (k : A → Action (Session X) B)
      → Settles m
      → ((a : A) → Settles (k a))
      → Settles (m >>= k)
  unfolding ◌>>=◌
  Settles-bind m k h g = record {
    at = λ s q. elim (Result-cases (m s).0) [
      | inl (a, e) ↦ rw (e, ◌>>=◌) (chain_append (h.at s q) ((g a).at (m s).1 q))
      | inr (c, e) ↦ rw (e, ◌>>=◌) (h.at s q)
    ];
  }

  pub Settles-lift :
      {A B : Type 0} (r : Result A) (k : A → Action (Session X) B)
      → ((a : A) → r ≡ ok a → Settles (k a))
      → Settles (lift r >>= k)
  unfolding ◌>>=◌
  Settles-lift (ok a) k h = record { at = λ s q. (h a refl).at s q }
  Settles-lift (err e) k h = record { at = λ s q. Chain.here }

  pub make_header-Settles :
      (msg_type length : ℕ) → Settles (on_client (make_header msg_type length))
  unfolding make_header
  make_header-Settles msg_type length = record {
    at = λ s q. Chain.next Chain.here (Booking.numbered s.client q);
  }

  only_if-Books :
      (b : Bool) (m : Action (Session X) Done) → Settles m → Books Broken [] (λ _. []) (only_if b m)
  only_if-Books true m h = Settles-Books m h
  only_if-Books false m h = Books-pure Broken (λ _. []) tt

  apply_fill-Books :
      (m : OrderFill)
      → Books Broken {X = X} (of_order_fill m ∷ []) (λ _. []) (on_client (apply_fill m))
  unfolding apply_fill
  apply_fill-Books m = record {
    at = λ s q. elim (Option-cases (lookup m.order_id s.client.open_orders)) [
      | inl e ↦ elim (Bool-cases (ltb 2 m.flags)) [
        | inl bad ↦ rw (bad, apply_fill) (of_order_fill m ∷ [], Chain.here)
        | inr good ↦
            rw (good, e, apply_fill)
              (Chain.next Chain.here (Booking.ignored s.client q (of_order_fill m) e))
      ]
      | inr (o, e) ↦ elim (Bool-cases (ltb 2 m.flags)) [
        | inl bad ↦ rw (bad, apply_fill) (of_order_fill m ∷ [], Chain.here)
        | inr good ↦
            rw (good, e, apply_fill) (Chain.next Chain.here (Booking.filled s.client q m o e))
      ]
    ];
  }

  idle :
      (m : OeResponse)
      → ((c : OrderEntryClient) → IsIdle c m)
      → Books Broken {X = X} (m ∷ []) (λ _. []) (pure tt)
  idle m h = record {
    at = λ s q. Chain.next Chain.here (Booking.ignored s.client q m (h s.client));
  }

  closing :
      (m : OeResponse) (order_id : ℕ)
      → Closes m order_id
      → Books Broken {X = X} (m ∷ []) (λ _. []) (on_client (modify (forget order_id)))
  closing m order_id h = record {
    at = λ s q. Chain.next Chain.here (Booking.closed s.client q m order_id h);
  }

  rejected :
      (m : OrderReject) (reason : ℕ) (b : Bool)
      → reason ≡ m.reject_reason
      → eqb reason 4 ≡ b
      → Books Broken {X = X}
          (of_order_reject m ∷ [])
          (λ _. [])
          (if b then on_client (modify (forget m.order_id)) else raise Error.key_error)
  rejected m reason true same known =
      closing (of_order_reject m) m.order_id (refl, sym same ∙ (eqb_iff reason 4).0 known)
  rejected m reason false same known =
      Books-raise Broken (of_order_reject m ∷ []) (λ _. []) Error.key_error

  module _ (cancel : Action (Session X) Done) (kept : Settles cancel) where
    check_limits-Books : (symbol : ℕ) → Books Broken [] (λ _. []) (check_limits cancel symbol)
    unfolding check_limits
    check_limits-Books symbol = record {
      at = λ s q.
          (Books-bind Broken {mid = λ _. []} _ _ (only_if-Books _ cancel kept)
              λ _. only_if-Books _ cancel kept).at
            s q;
    }

    check_symbol-Books : (o : Option ℕ) → Books Broken [] (λ _. []) (check_symbol cancel o)
    check_symbol-Books none = Books-pure Broken (λ _. []) tt
    check_symbol-Books (some symbol) = check_limits-Books symbol

    process_response-Books :
        (m : OeResponse) → Books Broken (m ∷ []) (λ _. []) (process_response cancel m)
    unfolding process_response
    process_response-Books (of_order_reject m) = Books-lift Broken _ _ λ reason e.
        rejected m reason (eqb reason 4) (member_same reject_reasons m.reject_reason reason e) refl
    process_response-Books (of_order_fill m) =
        Books-bind Broken {mid = λ _. []} _ _ (apply_fill-Books m) check_symbol-Books
    process_response-Books (of_order_closed m) = closing (of_order_closed m) m.order_id refl
    process_response-Books (of_header m) = idle (of_header m) (λ c. tt)
    process_response-Books (of_login_response m) = idle (of_login_response m) (λ c. tt)
    process_response-Books (of_order_ack m) = idle (of_order_ack m) (λ c. tt)
    process_response-Books (of_error_message m) = idle (of_error_message m) (λ c. tt)

    process_responses-Books :
        (ms : List OeResponse) → Books Broken ms (λ _. []) (process_responses cancel ms)
    unfolding process_responses
    process_responses-Books [] = Books-pure Broken (λ _. []) tt
    process_responses-Books (m ∷ ms) =
        Books-bind Broken {mid = λ _. ms} _ _ (frame Broken ms (process_response-Books m))
          λ _. process_responses-Books ms

    module _ (v : Venue X)
        (broken : (bytes : Bytes) (s : Session X) (e : Error)
          → (exchange_messages v cancel bytes s).0 ≡ err e
          → Broken (exchange_messages v cancel bytes s).1.client) where
      exchange_messages-Books :
          (bytes : Bytes) → Books Broken [] (λ _. []) (exchange_messages v cancel bytes)
      unfolding exchange_messages
      exchange_messages-Books bytes =
          Books-bind Broken _ _ (send_and_recv-Books Broken v bytes) λ responses.
            Books-bind Broken {mid = λ _. []} _ _ (process_responses-Books responses)
              λ _. Books-pure Broken (λ _. []) responses

      pub exchange_messages-Settles : (bytes : Bytes) → Settles (exchange_messages v cancel bytes)
      exchange_messages-Settles bytes = record {
        at = λ s q.
            let r = exchange_messages v cancel bytes s in
            let ends = (exchange_messages-Books bytes).at s q in
            elim (Result-cases r.0) [
              | inl (a, e) ↦ rw (e) at ends
              | inr (c, e) ↦
                  let (ms, chain) = rw (e) at ends in
                  chain_append chain (all_lost Broken r.1.client ms q (broken bytes s c e))
            ];
      }

      pub delete_with-Settles : (order_id : ℕ) → Settles (delete_with v cancel order_id)
      unfolding delete_with
      delete_with-Settles order_id =
          Settles-bind _ _ (make_header-Settles _ _)
            λ header. Settles-lift _ _ λ bytes _. exchange_messages-Settles bytes

  cancel_each-Settles :
      (delete : ℕ → Action (Session X) (List OeResponse))
      → ((order_id : ℕ) → Settles (delete order_id))
      → (ids : List ℕ) → Settles (cancel_each delete ids)
  unfolding cancel_each
  cancel_each-Settles delete kept [] = record { at = λ s q. Chain.here }
  cancel_each-Settles delete kept (k ∷ ids) = record {
    at = λ s q. elim (Bool-cases (is_some (lookup k s.client.open_orders))) [
      | inl listed ↦
          rw (listed, cancel_each)
            (chain_append ((kept k).at s q)
              ((cancel_each-Settles delete kept ids).at (delete k s).1 q))
      | inr gone ↦ rw (gone, cancel_each) ((cancel_each-Settles delete kept ids).at s q)
    ];
  }

module _ {X : Type 0} (v : Venue X) where
  -- The state in which an exchange of messages leaves the client by an exception
  pub record Breaks (c : OrderEntryClient) : Type 0 where
    pub depth : ℕ
    pub bytes : Bytes
    pub before : Session X
    pub error : Error
    pub raised : (exchange_messages v (cancel_all_orders v depth) bytes before).0 ≡ err error
    pub left_at : c ≡ (exchange_messages v (cancel_all_orders v depth) bytes before).1.client

  pub exchange-Breaks :
      (depth : ℕ) (bytes : Bytes) (s : Session X) (e : Error)
      → (exchange_messages v (cancel_all_orders v depth) bytes s).0 ≡ err e
      → Breaks (exchange_messages v (cancel_all_orders v depth) bytes s).1.client
  exchange-Breaks d b s e r = record {
    depth = d;
    bytes = b;
    before = s;
    error = e;
    raised = r;
    left_at = refl;
  }

  pub cancel_all_orders-Settles : (depth : ℕ) → Settles Breaks (cancel_all_orders v depth)
  unfolding cancel_all_orders
  cancel_all_orders-Settles zero = record { at = λ s q. Chain.here }
  cancel_all_orders-Settles (suc depth) = record {
    at = λ s.
        (cancel_each-Settles Breaks _
            (delete_with-Settles Breaks (cancel_all_orders v depth)
              (cancel_all_orders-Settles depth) v (exchange-Breaks depth))
            (map (λ p. p.0) s.client.open_orders)).at
          s;
  }
