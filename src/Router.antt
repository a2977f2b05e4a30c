-- ===== src/Router.antt =====
-- `_process_buffer` of src/main.py, for a feed handler without a strategy (`strategy` is `None`). The
-- manager and the tracker that it is given are those that the synchroniser refers to. The bytes are
-- those of `buf` from `pos` to `buf_len`.
pub mod Loop
pub mod Stream
use hft_trading_system.Prelude.{
  Action, Bool, Dict, Error, Option, Result, [], arith, drop, eqb, err, false, gets, if◌then◌else◌,
  int_eq, length, lift, ltb, modify, nat_eq, none, ok, only_if, pure, some, suc, take, true, zero,
  ℕ, ◌%◌, ◌>>=◌, ◌>>◌, ◌∷◌, ◌≡◌,
}
use hft_trading_system.MarketData.{MdHeader, Message, Side, side_eq}
use hft_trading_system.OrderBook.{OrderBook, get_best}
use hft_trading_system.BookManager.{dispatch_live_message}
use hft_trading_system.Sequence.{check}
use hft_trading_system.Struct.{Bytes, calcsize, from_bytes}
use hft_trading_system.Parser.{header_format, parse_message, read_header}
use hft_trading_system.Snapshot.{
  SnapShotSynchronizer, buffer_live_message, handle_snapshot_message, in_manager,
  replay_buffered_messages, reset_for_resnap,
}

-- `MAGIC_NUMBER`: the bytes of GOIRISH!
unfoldable pub magic_number : ℕ
unfolding from_bytes
magic_number = from_bytes (71 ∷ 79 ∷ 73 ∷ 82 ∷ 73 ∷ 83 ∷ 72 ∷ 33 ∷ [])

-- The best prices of every book are asked for, to print them, which drops stale tops of the heaps.
unfoldable pub show_books : Dict ℕ OrderBook → Dict ℕ OrderBook
unfolding get_best
show_books [] = []
show_books ((symbol, b) ∷ d) =
    (symbol, (get_best Side.sell (get_best Side.buy b).1).1) ∷ show_books d

abbrev pub show_all : SnapShotSynchronizer → SnapShotSynchronizer
show_all s = record s {
  book_manager = record s.book_manager { books = show_books s.book_manager.books };
}

abbrev pub is_book_error : Error → Bool
is_book_error Error.key_error = true
is_book_error Error.value_error = true
is_book_error _ = false

-- A live message in sync. The result is false where the loop is left by `break`.
unfoldable pub apply_live : MdHeader → Message → Action SnapShotSynchronizer Bool
unfolding in_manager show_books reset_for_resnap
apply_live header msg s =
    let (r, s') = in_manager (dispatch_live_message header msg) s in
    elim r [
      | ok _ ↦ (ok true, if eqb (header.seq_num % 10000) 0 then show_all s' else s')
      | err e ↦ if is_book_error e then (ok false, reset_for_resnap s') else (err e, s')
    ]

-- A message of the snapshot channel out of sync
unfoldable pub apply_snapshot : MdHeader → Message → Action SnapShotSynchronizer Bool
unfolding show_books
apply_snapshot header msg = do
  handle_snapshot_message header msg
  complete ← gets (λ s. s.snap_complete)
  only_if complete (replay_buffered_messages >> modify show_all)
  pure true

-- A live packet in sync: a duplicate is skipped.
unfoldable pub route_live : MdHeader → Result Message → Action SnapShotSynchronizer Bool
unfolding apply_live check
route_live header parsed s =
    let (clean, tracker) = check header.seq_num s.seq_tracker in
    let s' : SnapShotSynchronizer = record s { seq_tracker = tracker } in
    if clean then (lift parsed >>= apply_live header) s' else (ok true, s')

-- The branches on the magic number and on `sync`, with `parse_message(packet_mv)` where it is called
unfoldable pub route : MdHeader → Result Message → Action SnapShotSynchronizer Bool
unfolding route_live apply_snapshot buffer_live_message
route header parsed s =
    if eqb header.magic_number magic_number
    then if s.sync
      then route_live header parsed s
      else (lift parsed >>= λ msg. modify (buffer_live_message header msg) >> pure true) s
    else if s.sync
    then (ok true, s)
    else (lift parsed >>= apply_snapshot header) s

-- The loop; the result is the bytes that are left, or nothing while it still runs after `fuel` rounds.
unfoldable pub process_buffer : ℕ → Bytes → Action SnapShotSynchronizer (Option Bytes)
unfolding route
process_buffer zero bytes = pure none
process_buffer (suc fuel) bytes =
    if ltb (length bytes) (calcsize header_format)
    then pure (some bytes)
    else lift (read_header (take (calcsize header_format) bytes)) >>= λ header.
        if ltb (length bytes) header.length
        then pure (some bytes)
        else let rest = drop header.length bytes in
          route header (parse_message (take header.length bytes)) >>= λ go. elim go [
            | true ↦ process_buffer fuel rest
            | false ↦ pure (some rest)
          ]
