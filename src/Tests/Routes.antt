-- ===== src/Tests/Routes.antt =====
-- Runs of `_process_buffer` of src/main.py.
use hft_trading_system.Prelude.{
  Error, [], arith, drop, err, int_eq, length, nat_eq, none, ok, refl, replicate, suc, sym, take,
  true, zero, ◌++◌, ◌<◌, ◌∙◌, ◌∷◌, ◌≡◌, ◌≢◌,
}
use hft_trading_system.MarketData.{MdHeader, Message, MsgType, side_eq}
use hft_trading_system.BookManager.{empty_manager}
use hft_trading_system.Sequence.{new_tracker}
use hft_trading_system.Struct.{
  Bytes, decode, decode_all, encode, encode_all, fits, fits_all, from_bytes, to_bytes, unpack,
}
use hft_trading_system.Struct.RoundTrip.{length-drop, unpack-short}
use hft_trading_system.Protocol.RoundTrip.{length-take_shorter}
use hft_trading_system.Parser.{header_format, read_header}
use hft_trading_system.Parser.Feed.{datagram, header_of}
use hft_trading_system.Snapshot.{SnapShotSynchronizer, new_synchronizer}
use hft_trading_system.Router.{magic_number, process_buffer}
use hft_trading_system.Router.Loop.{HasNoEmpty, process_buffer-returns, process_buffer-stuck}
use hft_trading_system.Router.Stream.{
  IsFramed, deliver, process_buffer-stream, read_header-take, stream,
}

abbrev pub in_sync : SnapShotSynchronizer
in_sync = record (new_synchronizer empty_manager new_tracker) { sync = true }

-- A header of zeros: a heartbeat of no channel, with the length zero
abbrev zeros : Bytes
zeros = replicate 23 0

abbrev zero_header : MdHeader
zero_header = record {
  magic_number = 0;
  length = 0;
  seq_num = 0;
  timestamp = 0;
  msg_type = MsgType.heartbeat;
}

zeros_read : read_header (take 23 zeros) ≡ ok zero_header
unfolding read_header unpack decode_all decode from_bytes
zeros_read = refl

not_magic : zero_header.magic_number ≢ magic_number
unfolding magic_number from_bytes
not_magic = omega arith

process_buffer-stuck_example : process_buffer 1000 zeros in_sync ≡ (ok none, in_sync)
process_buffer-stuck_example =
    process_buffer-stuck 1000 zeros zero_header in_sync (omega arith) zeros_read refl not_magic refl

-- Bytes too few for a header
abbrev scrap : Bytes
scrap = replicate 3 1

abbrev beat : Message
beat = Message.header_only (record {
  magic_number = 7;
  length = 23;
  seq_num = 1;
  timestamp = 2;
  msg_type = MsgType.heartbeat;
})

beat-IsFramed : IsFramed beat
unfolding fits_all fits datagram encode_all encode to_bytes
beat-IsFramed = record {
  sendable = record { tagged = refl; header_fits = refl; body_fits = refl };
  framed = refl;
}

-- The bytes of that heartbeat
abbrev beat_bytes : Bytes
beat_bytes = 7 ∷ replicate 7 0 ++ 23 ∷ 0 ∷ 1 ∷ 0 ∷ 0 ∷ 0 ∷ 2 ∷ replicate 8 0

beat_bytes_read : read_header (take 23 beat_bytes) ≡ ok (header_of beat)
unfolding read_header unpack decode_all decode from_bytes
beat_bytes_read = refl

short_unread : (bs : Bytes) → length bs < 23 → read_header (take 23 bs) ≡ err Error.struct_error
unfolding read_header
short_unread bs short =
    read_header-take bs
    ∙ rw
        (
          unpack-short header_format (take 23 bs)
              (λ e. omega (arith, length-take_shorter 23 bs, e)),
          read_header,
        )
        refl

beat_bytes-HasNoEmpty : HasNoEmpty beat_bytes
beat_bytes-HasNoEmpty zero h e =
    let same : ok (header_of beat) ≡ ok h = sym beat_bytes_read ∙ e in ground arith
beat_bytes-HasNoEmpty (suc k) h e =
    let none_read =
      short_unread (drop (suc k) beat_bytes) (omega (arith, length-drop (suc k) beat_bytes)) in
    cc

process_buffer-returns_example : (process_buffer 24 beat_bytes in_sync).0 ≢ ok none
process_buffer-returns_example =
    process_buffer-returns 24 beat_bytes in_sync (omega arith) beat_bytes-HasNoEmpty

process_buffer-stream_example :
    process_buffer 3 (stream (beat ∷ beat ∷ []) scrap) in_sync
    ≡ deliver (beat ∷ beat ∷ []) scrap in_sync
process_buffer-stream_example =
    process_buffer-stream (beat ∷ beat ∷ []) scrap in_sync (beat-IsFramed, (beat-IsFramed, tt))
      (omega arith)
