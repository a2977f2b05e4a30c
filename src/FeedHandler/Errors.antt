-- ===== src/FeedHandler/Errors.antt =====
-- The errors of a live message in `_process_buffer` of src/main.py, with a strategy.
use hft_trading_system.Prelude.{
  Action, Bool, Bool-cases, Done, Error, Result, Result-cases, ap, arith, err, false, inl, inr,
  int_eq, nat_eq, ok, refl, true, ℕ, ◌∙◌, ◌≡◌, ◌≢◌, ◌⊎◌,
}
use hft_trading_system.Snapshot.{in_manager}
use hft_trading_system.BookManager.{dispatch_live_message}
use hft_trading_system.Router.{is_book_error}
use hft_trading_system.Client.Session.{Venue}
use hft_trading_system.Strategy.Floats.{Float}
use hft_trading_system.Strategy.State.{OrderStrategy}
use hft_trading_system.Strategy.Steps.{on_raw_message}
use hft_trading_system.FeedHandler.{
  FeedHandler, after_dispatch, consult, consulted, handle_live, heard, on_strategy, on_synchronizer,
  passed_on,
}
use hft_trading_system.EtfArb.{Service}
use hft_trading_system.MarketData.{MdHeader, Message}

-- What an exception of the strategy comes to
abbrev pub PassesOn : Result Done → Result Bool → Type 0
PassesOn asked r =
    ((asked ≡ err Error.connection_error) × (r ≡ err Error.connection_error))
    ⊎ ((asked ≢ err Error.connection_error) × (r ≡ ok true))

passed_on_cases : (r : Result Done) → PassesOn r (passed_on r)
passed_on_cases (ok _) = inr ((λ e. absurd (grind arith)), refl)
passed_on_cases (err Error.connection_error) = inl (refl, refl)
passed_on_cases (err Error.value_error) = inr ((λ e. absurd (grind arith)), refl)
passed_on_cases (err Error.key_error) = inr ((λ e. absurd (grind arith)), refl)
passed_on_cases (err Error.struct_error) = inr ((λ e. absurd (grind arith)), refl)
passed_on_cases (err Error.type_error) = inr ((λ e. absurd (grind arith)), refl)
passed_on_cases (err Error.permission_error) = inr ((λ e. absurd (grind arith)), refl)
passed_on_cases (err Error.assertion_error) = inr ((λ e. absurd (grind arith)), refl)
passed_on_cases (err Error.blocking_io_error) = inr ((λ e. absurd (grind arith)), refl)
passed_on_cases (err Error.index_error) = inr ((λ e. absurd (grind arith)), refl)
passed_on_cases (err Error.recursion_error) = inr ((λ e. absurd (grind arith)), refl)

module _ {X W : Type 0} ⦃f : Float W⦄ (v : Venue X) (monotonic : X → W) (depth : ℕ) where
  raw_session :
      (msg : Message) (s : OrderStrategy X W)
      → (on_raw_message v monotonic depth msg s).session ≡ s.session
  unfolding on_raw_message
  raw_session (Message.new_order m) s = ground arith
  raw_session (Message.delete_order m) s = ground arith
  raw_session (Message.modify_order m) s = refl
  raw_session (Message.trade m) s = refl
  raw_session (Message.trade_summary m) s = refl
  raw_session (Message.snapshot_info m) s = refl
  raw_session (Message.header_only m) s = refl

module _ {X W : Type 0} ⦃f : Float W⦄ (v : Venue X) (service : Service X) (monotonic : X → W)
    (depth rounds : ℕ) (header : MdHeader) (msg : Message) where
  -- What the strategy makes of the message, or raises
  abbrev pub asked : FeedHandler X W → Result Done
  asked h = (on_strategy (consult v service monotonic depth rounds header msg) h).0

  consulted_cases :
      (h : FeedHandler X W)
      → PassesOn (asked h) (consulted v service monotonic depth rounds header msg h).0
  unfolding consulted
  consulted_cases h = elim (passed_on_cases (asked h)) [
    | inl (e, p) ↦ inl (e, rw (p, consulted) refl)
    | inr (n, p) ↦ inr (n, rw (p, consulted) refl)
  ]

  -- The books refused the message: the loop is left, with the strategy off until a snapshot is
  -- complete, and nothing sent.
  abbrev pub IsSetAside : FeedHandler X W → Result Bool × FeedHandler X W → Type 0
  IsSetAside h (r, h') =
      (r ≡ ok false)
      × (h'.strategy.enabled ≡ false)
      × (h'.strategy.pending_flatten ≡ true)
      × (h'.strategy.session ≡ h.strategy.session)

  abbrev dispatch : Action (FeedHandler X W) Done
  dispatch = on_synchronizer (in_manager (dispatch_live_message header msg))

  handle_live_split :
      (h : FeedHandler X W)
      → handle_live v service monotonic depth rounds header msg h
        ≡ after_dispatch v service monotonic depth rounds header msg
            (dispatch_live_message header msg h.synchronizer.book_manager).0
            (dispatch (heard v service monotonic depth rounds msg h)).1
  unfolding handle_live in_manager
  handle_live_split h = refl

  heard_session :
      (h : FeedHandler X W)
      → (heard v service monotonic depth rounds msg h).strategy.session ≡ h.strategy.session
  heard_session h =
      raw_session v monotonic depth msg
        (record h.strategy { manager = h.synchronizer.book_manager })

  after_taken :
      (h : FeedHandler X W)
      → PassesOn (asked h) (after_dispatch v service monotonic depth rounds header msg (ok tt) h).0
  unfolding after_dispatch
  after_taken h = consulted_cases h

  after_refused :
      (h h' : FeedHandler X W) (c : Error)
      → is_book_error c ≡ true
      → h'.strategy.session ≡ h.strategy.session
      → IsSetAside h (after_dispatch v service monotonic depth rounds header msg (err c) h')
  unfolding after_dispatch
  after_refused h h' c b k = rw (b) (refl, refl, refl, k)

  after_raised :
      (h : FeedHandler X W) (c : Error)
      → is_book_error c ≡ false
      → (after_dispatch v service monotonic depth rounds header msg (err c) h).0 ≡ err c
  unfolding after_dispatch
  after_raised h c b = rw (b) refl

  -- The books after the message, and the strategy that has heard it
  abbrev pub told : FeedHandler X W → FeedHandler X W
  told h = (dispatch (heard v service monotonic depth rounds msg h)).1

  -- A live message in sync. Where the books take it, a ConnectionError of the strategy is passed on,
  -- and the loop goes on if the strategy raises anything else or nothing. Where the books refuse it
  -- by a KeyError or a ValueError, the loop is left with the strategy off, about to flatten, and
  -- without anything sent. Any other error of the books is passed on.
  pub handle_live_outcome :
      (h : FeedHandler X W)
      → let r = handle_live v service monotonic depth rounds header msg h in
        let d = (dispatch_live_message header msg h.synchronizer.book_manager).0 in
        ((d ≡ ok tt) × PassesOn (asked (told h)) r.0)
        ⊎ ((c : Error) × (d ≡ err c)
            × (((is_book_error c ≡ true) × IsSetAside h r)
                ⊎ ((is_book_error c ≡ false) × (r.0 ≡ err c))))
  handle_live_outcome h =
      let d = (dispatch_live_message header msg h.synchronizer.book_manager).0 in
      let h' = told h in
      let after =
        λ (r : Result Done). after_dispatch v service monotonic depth rounds header msg r h' in
      elim (Result-cases d) [
        | inl (a, e) ↦
            let same = handle_live_split h ∙ ap after e in inl (e, rw (same) (after_taken h'))
        | inr (c, e) ↦
            let same = handle_live_split h ∙ ap after e in
            inr (
              c,
              e,
              elim (Bool-cases (is_book_error c)) [
                | inl b ↦ inl (b, rw (same) (after_refused h h' c b (heard_session h)))
                | inr b ↦ inr (b, rw (same) (after_raised h' c b))
              ],
            )
      ]
