-- ===== src/Client/Logins.antt =====
-- `login` and `reconnect` of src/order_entry.py as chains of steps.
use hft_trading_system.Prelude.{
  Done, Error, List, Result, Result-cases, [], arith, err, inl, inr, int_eq, nat_eq, ok, refl, suc,
  zero, ℕ, ◌*◌, ◌+◌, ◌<◌, ◌^◌, ◌∷◌, ◌≡◌, ◌⊎◌,
}
use hft_trading_system.Client.Session.{
  OeResponse, Session, Venue, accept_login, connect_socket, login, of_error_message, of_header,
  of_login_response, of_order_ack, of_order_closed, of_order_fill, of_order_reject,
}
use hft_trading_system.Client.Steps.{Chain, Quiet, Step, chain_append}
use hft_trading_system.Client.Follows.{
  Follows, Follows-bind, Follows-lift, Follows-pure, Follows-quiet, Follows-raise, Follows-same,
  make_header-Follows, receive-Follows, send_raw_same,
}
use hft_trading_system.Client.Manage.{attempts, forgotten, reconnect}
use hft_trading_system.Client.Operations.{Follows-answers}
use hft_trading_system.Client.Remaining.{quiets-IsSteady}
use hft_trading_system.Protocol.Responses.{LoginResponse}
use hft_trading_system.Client.Blocks.{◌>>=◌}

module _ {X : Type 0} (v : Venue X) where
  accept_login-Follows : (m : OeResponse) → Follows {X = X} Quiet (accept_login m)
  unfolding accept_login
  accept_login-Follows (of_login_response m) =
      Follows-bind Quiet _ _ (Follows-lift Quiet _) λ status.
        Follows-bind Quiet _ _ (Follows-same Quiet _ (λ s. refl)) λ _.
          Follows-bind Quiet _ _
            (record { at = λ s. Chain.next Chain.here (Quiet.joined s.client m.session_id) })
            λ _. Follows-pure Quiet _
  accept_login-Follows (of_header m) = Follows-raise Quiet _ _
  accept_login-Follows (of_order_ack m) = Follows-raise Quiet _ _
  accept_login-Follows (of_order_reject m) = Follows-raise Quiet _ _
  accept_login-Follows (of_order_fill m) = Follows-raise Quiet _ _
  accept_login-Follows (of_order_closed m) = Follows-raise Quiet _ _
  accept_login-Follows (of_error_message m) = Follows-raise Quiet _ _

  login-Follows : Follows Quiet (login v)
  unfolding login
  login-Follows = Follows-bind Quiet _ _ (make_header-Follows _ _) λ header.
      Follows-bind Quiet _ _ (Follows-same Quiet _ (λ s. refl)) λ msg.
        Follows-bind Quiet _ _ (Follows-lift Quiet _) λ bytes.
          Follows-bind Quiet _ _ (Follows-same Quiet _ (send_raw_same v bytes))
            λ _. Follows-bind Quiet _ _ receive-Follows accept_login-Follows

  connect_same : (s : Session X) → (connect_socket v s).1.client ≡ s.client
  unfolding connect_socket
  connect_same s = ground arith

  attempts-Follows : (waits : List ℕ) → Follows Quiet (attempts v waits)
  unfolding attempts
  attempts-Follows [] = record { at = λ s. Chain.here }
  attempts-Follows (w ∷ ws) = record {
    at = λ s.
        let both : Follows Quiet (connect_socket v >>= λ _. login v) =
          Follows-bind Quiet _ _ (Follows-same Quiet _ connect_same) (λ _. login-Follows) in
        let s1 = ((connect_socket v >>= λ _. login v) s).1 in
        elim (Result-cases ((connect_socket v >>= λ _. login v) s).0) [
          | inl (m, e) ↦ rw (e, attempts) (both.at s)
          | inr (c, e) ↦
              rw (e, attempts)
                (chain_append (both.at s) (
                  (attempts-Follows ws).at (record s1 { outside = v.sleep (1000 * w) s1.outside })))
        ];
  }

  -- All that `reconnect` does to the client is steps.
  pub reconnect-Follows : Follows Step (reconnect v)
  unfolding reconnect
  reconnect-Follows =
      Follows-bind Step _ _ (record { at = λ s. Chain.next Chain.here (Step.reset s.client) })
        λ _. Follows-answers (Follows-quiet (attempts-Follows (1 ∷ 2 ∷ 4 ∷ 8 ∷ 16 ∷ [])))

  abbrev pub tried : Session X → Result LoginResponse × Session X
  tried s = (connect_socket v >>= λ _. login v) s

  -- The state before attempt k where all before it failed: after attempt k the client waits for
  -- 2^k seconds.
  abbrev pub after_failures : Session X → ℕ → Session X
  after_failures s zero = s
  after_failures s (suc k) =
      let s1 = (tried (after_failures s k)).1 in
      record s1 { outside = v.sleep (1000 * 2 ^ k) s1.outside }

  abbrev pub Fails : Session X → ℕ → Type 0
  Fails s k = (c : Error) × ((tried (after_failures s k)).0 ≡ err c)

  -- The attempts before k all fail.
  abbrev pub FailsBefore : Session X → ℕ → Type 0
  FailsBefore s zero = Unit
  FailsBefore s (suc k) = FailsBefore s k × Fails s k

  -- The first attempt that does not fail, of n, gives the result; or all n fail.
  abbrev pub IsFirstOf : ℕ → Session X → Result Done × Session X → Type 0
  IsFirstOf n s r =
      ((k : ℕ) × (k < n)
        × FailsBefore s k
        × ((m : LoginResponse) × ((tried (after_failures s k)).0 ≡ ok m))
        × (r ≡ (ok tt, (tried (after_failures s k)).1)))
      ⊎ (FailsBefore s n × (r ≡ (err Error.connection_error, after_failures s n)))

  abbrev waits_from : ℕ → ℕ → List ℕ
  waits_from k zero = []
  waits_from k (suc n) = 2 ^ k ∷ waits_from (suc k) n

  attempts-IsFirstOf :
      (s : Session X) (k n : ℕ)
      → FailsBefore s k
      → IsFirstOf (k + n) s (attempts v (waits_from k n) (after_failures s k))
  unfolding attempts
  attempts-IsFirstOf s k zero f = let e : k + 0 ≡ k = omega arith in rw e (inr (f, refl))
  attempts-IsFirstOf s k (suc n) f = elim (Result-cases (tried (after_failures s k)).0) [
    | inl (m, e) ↦ inl (k, omega arith, f, (m, e), rw (e, attempts) refl)
    | inr (c, e) ↦
        let l : k + suc n ≡ suc k + n = omega arith in
        rw (l, e, attempts) (attempts-IsFirstOf s (suc k) n (f, (c, e)))
  ]

  -- `reconnect` connects and logs in until that does not fail, at most five times, with a wait of
  -- 2^k seconds after failure k. It returns with the state that the first attempt without an
  -- exception leaves; if all five fail, it raises `ConnectionError`. Both ways the table of open
  -- orders is empty, and the positions, the profit and the counters of the risk check are as they
  -- were.
  pub reconnect_outcome :
      (s : Session X)
      → let (r, s') = reconnect v s in
        IsFirstOf 5 (record s { client = forgotten s.client }) (r, s')
        × (s'.client.open_orders ≡ [])
        × (s'.client.position_tracker ≡ s.client.position_tracker)
        × (s'.client.pnl_tracker ≡ s.client.pnl_tracker)
        × (s'.client.risk_tracker ≡ s.client.risk_tracker)
  unfolding reconnect ◌>>=◌
  reconnect_outcome s =
      let waits : List ℕ = 1 ∷ 2 ∷ 4 ∷ 8 ∷ 16 ∷ [] in
      let s1 : Session X = record s { client = forgotten s.client } in
      let steady = quiets-IsSteady ((attempts-Follows waits).at s1) in
      (
        attempts-IsFirstOf s1 0 5 tt,
        steady.orders_same,
        steady.positions_same,
        steady.pnl_same,
        steady.risk_same,
      )
