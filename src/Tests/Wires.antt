-- ===== src/Tests/Wires.antt =====
-- Runs of the parsers of src/parser.py and src/order_entry_protocol.py.
use hft_trading_system.Protocol.Requests.{Login}
use hft_trading_system.Prelude.{
  [], int_eq, length, nat_eq, negsuc, ok, refl, replicate, ◌++◌, ◌∷◌, ◌≡◌,
}
use hft_trading_system.MarketData.{MdHeader, Message, MsgType, side_eq}
use hft_trading_system.Struct.{Bytes, decode, decode_all, fits, fits_all, from_bytes, ljust, unpack}
use hft_trading_system.Parser.{construct, parse_message, read_header}
use hft_trading_system.Parser.Feed.{
  IsSendable, datagram, header_of, kind_of, parse_message-datagram,
}
use hft_trading_system.Parser.Tagged.{parse_message-IsTagged}
use hft_trading_system.Protocol.Codec.{Kind, pack_message, unpack_message}
use hft_trading_system.Protocol.RoundTrip.{IsPackable, unpack_message-pack_message}

abbrev pub fill_header : MdHeader
fill_header = record {
  magic_number = 2406149374178643783;
  length = 39;
  seq_num = 258;
  timestamp = 1000;
  msg_type = MsgType.trade;
}

abbrev pub fill : Message
fill = Message.trade (record { header = fill_header; order_id = 9; quantity = 2; price = negsuc 4 })

fill-IsSendable : IsSendable fill
unfolding fits_all fits
fill-IsSendable = record { tagged = refl; header_fits = refl; body_fits = refl }

parse_message-datagram_example : parse_message (datagram fill ++ 0 ∷ []) ≡ ok fill
parse_message-datagram_example = parse_message-datagram fill (0 ∷ []) fill-IsSendable

-- A heartbeat
abbrev beat : Bytes
beat = replicate 23 0

abbrev beat_message : Message
beat_message = Message.header_only (record {
  magic_number = 0;
  length = 0;
  seq_num = 0;
  timestamp = 0;
  msg_type = MsgType.heartbeat;
})

beat_parsed : parse_message beat ≡ ok beat_message
unfolding parse_message construct read_header unpack decode_all decode from_bytes
beat_parsed = refl

parse_message-IsTagged_example : (header_of beat_message).msg_type ≡ kind_of beat_message
parse_message-IsTagged_example = parse_message-IsTagged beat beat_message beat_parsed

abbrev credentials : Login
credentials = record {
  header = record {
    length = 54;
    msg_type = 99;
    version = 1;
    seq_num = 1;
    client_id = 2;
    session_id = 0;
  };
  username = 116 ∷ 101 ∷ 97 ∷ 109 ∷ 50 ∷ [];
  password = 49 ∷ 50 ∷ [];
}

credentials-IsPackable : IsPackable Kind.login credentials
unfolding fits_all fits
credentials-IsPackable = refl

unpack_message-pack_message_example :
    (sent : Bytes) × (pack_message Kind.login credentials ≡ ok sent)
    × (length sent ≡ 52)
    × (unpack_message Kind.login (sent ++ 7 ∷ [])
        ≡ ok (record credentials {
          username = ljust 16 credentials.username;
          password = ljust 16 credentials.password;
        }))
unpack_message-pack_message_example =
    unpack_message-pack_message Kind.login credentials (7 ∷ []) credentials-IsPackable
