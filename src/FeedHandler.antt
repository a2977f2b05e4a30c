-- ===== src/FeedHandler.antt =====
-- `_process_buffer` of src/main.py with a strategy. The manager that the strategy refers to is that
-- of the synchroniser, so each call starts from what the other has left of it.
use hft_trading_system.Prelude.{
  Action, Bool, Done, Error, Option, Result, [], drop, eqb, err, false, gets, if◌then◌else◌, int_eq,
  length, lift, ltb, modify, nat_eq, none, ok, only_if, pos, pure, some, suc, take, true, zero, ℕ,
  ◌%◌,
}
use hft_trading_system.Snapshot.{
  SnapShotSynchronizer, buffer_live_message, handle_snapshot_message, in_manager,
  replay_buffered_messages, reset_for_resnap,
}
use hft_trading_system.Sequence.{check}
use hft_trading_system.BookManager.{dispatch_live_message}
use hft_trading_system.Struct.{Bytes, calcsize}
use hft_trading_system.Parser.{header_format, parse_message, read_header}
use hft_trading_system.Router.{is_book_error, magic_number, show_all, show_books}
use hft_trading_system.Client.Session.{Venue}
use hft_trading_system.Strategy.Floats.{Float}
use hft_trading_system.Strategy.State.{OrderStrategy}
use hft_trading_system.Strategy.Steps.{on_raw_message, on_trade_summary, side_value}
use hft_trading_system.Strategy.Flat.{on_market_data_update}
use hft_trading_system.EtfArb.{Service}
use hft_trading_system.MarketData.{MdHeader, Message}
use hft_trading_system.Client.Blocks.{◌>>=◌, ◌>>◌}
pub mod Errors

pub record FeedHandler (X W : Type 0) : Type 0 where
  pub synchronizer : SnapShotSynchronizer
  pub strategy : OrderStrategy X W

-- `except ConnectionError: raise`, and `except Exception`, which logs
abbrev pub passed_on : Result Done → Result Bool
passed_on (ok _) = ok true
passed_on (err Error.connection_error) = err Error.connection_error
passed_on (err _) = ok true

module _ {X W : Type 0} where
  abbrev pub on_synchronizer :
      {A : Type 0} → Action SnapShotSynchronizer A → Action (FeedHandler X W) A
  on_synchronizer m h =
      let (r, s) = m h.synchronizer in
      (r, record { synchronizer = s; strategy = record h.strategy { manager = s.book_manager } })

  abbrev pub on_strategy : {A : Type 0} → Action (OrderStrategy X W) A → Action (FeedHandler X W) A
  on_strategy m h =
      let (r, s) = m (record h.strategy { manager = h.synchronizer.book_manager }) in
      (
        r,
        record { synchronizer = record h.synchronizer { book_manager = s.manager }; strategy = s },
      )

  -- What a book error does to the strategy: it is off, and flattens once it is on again.
  abbrev pub stand_aside : FeedHandler X W → FeedHandler X W
  stand_aside h = record h {
    strategy = record h.strategy { enabled = false; pending_flatten = true };
  }

  -- And what the end of a snapshot does
  abbrev pub resume : FeedHandler X W → FeedHandler X W
  resume h =
      if h.strategy.pending_flatten
      then record h { strategy = record h.strategy { enabled = true } }
      else h

  -- The books whose tops are printed
  abbrev pub show_every : FeedHandler X W → FeedHandler X W
  show_every h = (on_synchronizer (modify show_all) h).1

module _ {X W : Type 0} ⦃f : Float W⦄ (v : Venue X) (service : Service X) (monotonic : X → W)
    (depth rounds : ℕ) where
  -- The summary of a trade is handed over before the strategy looks at its quotes.
  unfoldable pub note_summary : MdHeader → Message → OrderStrategy X W → OrderStrategy X W
  unfolding on_trade_summary
  note_summary header (Message.trade_summary m) s =
      on_trade_summary v monotonic depth m.symbol (side_value m.aggressor_side)
        (pos m.total_quantity) m.last_price (pos header.timestamp) s
  note_summary header _ s = s

  unfoldable pub consult : MdHeader → Message → Action (OrderStrategy X W) Done
  unfolding note_summary on_market_data_update
  consult header msg = do
    modify (note_summary header msg)
    on_market_data_update v service monotonic depth rounds

  -- What follows a message that the books have taken
  unfoldable pub consulted : MdHeader → Message → Action (FeedHandler X W) Bool
  unfolding consult show_books
  consulted header msg h =
      let (r, h') = on_strategy (consult header msg) h in
      elim (passed_on r) [
        | ok go ↦ (ok go, if eqb (header.seq_num % 10000) 0 then show_every h' else h')
        | err e ↦ (err e, h')
      ]

  -- What becomes of the result of `dispatch_live_message`; the result is false where the loop is
  -- left by `break`.
  unfoldable pub after_dispatch : MdHeader → Message → Result Done → Action (FeedHandler X W) Bool
  unfolding consulted reset_for_resnap
  after_dispatch header msg (ok _) h = consulted header msg h
  after_dispatch header msg (err e) h =
      if is_book_error e
      then (ok false, (on_synchronizer (modify reset_for_resnap) (stand_aside h)).1)
      else (err e, h)

  -- The message before the books take it
  abbrev pub heard : Message → FeedHandler X W → FeedHandler X W
  heard msg h = record h {
    strategy =
        on_raw_message v monotonic depth msg
          (record h.strategy { manager = h.synchronizer.book_manager });
  }

  -- A live message in sync
  unfoldable pub handle_live : MdHeader → Message → Action (FeedHandler X W) Bool
  unfolding on_raw_message in_manager after_dispatch
  handle_live header msg h =
      let (r, h') = on_synchronizer (in_manager (dispatch_live_message header msg)) (heard msg h) in
      after_dispatch header msg r h'

  -- A message of the snapshot channel out of sync
  unfoldable pub handle_snapshot : MdHeader → Message → Action (FeedHandler X W) Bool
  unfolding handle_snapshot_message replay_buffered_messages show_books
  handle_snapshot header msg = do
    on_synchronizer (handle_snapshot_message header msg)
    complete ← gets (λ h. h.synchronizer.snap_complete)
    only_if complete (do on_synchronizer replay_buffered_messages; modify show_every; modify resume)
    pure true

  -- A live packet in sync: a duplicate is skipped.
  unfoldable pub handle_clean : MdHeader → Result Message → Action (FeedHandler X W) Bool
  unfolding check handle_live
  handle_clean header parsed h =
      let (clean, tracker) = check header.seq_num h.synchronizer.seq_tracker in
      let h' : FeedHandler X W = record h {
        synchronizer = record h.synchronizer { seq_tracker = tracker };
      } in
      if clean then (lift parsed >>= handle_live header) h' else (ok true, h')

  -- The branches on the magic number and on `sync`
  unfoldable pub handle_packet : MdHeader → Result Message → Action (FeedHandler X W) Bool
  unfolding handle_clean handle_snapshot buffer_live_message
  handle_packet header parsed h =
      if eqb header.magic_number magic_number
      then if h.synchronizer.sync
        then handle_clean header parsed h
        else (lift parsed >>= λ msg.
              on_synchronizer (modify (buffer_live_message header msg)) >> pure true)
            h
      else if h.synchronizer.sync
      then (ok true, h)
      else (lift parsed >>= handle_snapshot header) h

  -- The loop, as in Router: the bytes that are left, or nothing while it still runs
  unfoldable pub handle_buffer : ℕ → Bytes → Action (FeedHandler X W) (Option Bytes)
  unfolding handle_packet
  handle_buffer zero bytes = pure none
  handle_buffer (suc fuel) bytes =
      if ltb (length bytes) (calcsize header_format)
      then pure (some bytes)
      else lift (read_header (take (calcsize header_format) bytes)) >>= λ header.
          if ltb (length bytes) header.length
          then pure (some bytes)
          else let rest = drop header.length bytes in
            handle_packet header (parse_message (take header.length bytes)) >>= λ go. elim go [
              | true ↦ handle_buffer fuel rest
              | false ↦ pure (some rest)
            ]
