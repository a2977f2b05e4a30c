-- ===== src/Protocol/Responses.antt =====
-- The messages that the exchange sends, of src/order_entry_protocol.py, with the order of their
-- fields on the wire.
use hft_trading_system.Prelude.{[], int_eq, nat_eq, ℕ, ℤ, ◌++◌, ◌∷◌}
use hft_trading_system.Struct.{Bytes, ljust, signed, text, unsigned}
use hft_trading_system.Protocol.Layouts.{Layout, ◌▸◌}

pub record OeResponseHeader : Type 0 where
  pub length : ℕ
  pub msg_type : ℕ
  pub version : ℕ
  pub seq_num : ℕ
  pub last_seq_num : ℕ
  pub client_id : ℕ

abbrev pub oe_response_header_layout : Layout OeResponseHeader
oe_response_header_layout = record {
  format = unsigned 2 ∷ unsigned 1 ∷ unsigned 1 ∷ unsigned 4 ∷ unsigned 4 ∷ unsigned 4 ∷ [];
  fields = λ m. m.length ▸ m.msg_type ▸ m.version ▸ m.seq_num ▸ m.last_seq_num ▸ m.client_id ▸ tt;
  build = λ v. record {
    length = v.0;
    msg_type = v.1.0;
    version = v.1.1.0;
    seq_num = v.1.1.1.0;
    last_seq_num = v.1.1.1.1.0;
    client_id = v.1.1.1.1.1.0;
  };
}

pub record LoginResponse : Type 0 where
  pub header : OeResponseHeader
  pub session_id : ℕ
  pub status : ℕ

abbrev pub login_response_layout : Layout LoginResponse
login_response_layout = record {
  format = oe_response_header_layout.format ++ unsigned 8 ∷ unsigned 1 ∷ [];
  fields = λ m.
      m.header.length ▸ m.header.msg_type ▸ m.header.version ▸ m.header.seq_num
      ▸ m.header.last_seq_num ▸ m.header.client_id ▸ m.session_id ▸ m.status ▸ tt;
  build = λ v. record {
    header = record {
      length = v.0;
      msg_type = v.1.0;
      version = v.1.1.0;
      seq_num = v.1.1.1.0;
      last_seq_num = v.1.1.1.1.0;
      client_id = v.1.1.1.1.1.0;
    };
    session_id = v.1.1.1.1.1.1.0;
    status = v.1.1.1.1.1.1.1.0;
  };
}

pub record OrderAck : Type 0 where
  pub header : OeResponseHeader
  pub order_id : ℕ
  pub exch_order_id : ℕ
  pub quantity : ℕ
  pub price : ℤ

abbrev pub order_ack_layout : Layout OrderAck
order_ack_layout = record {
  format = oe_response_header_layout.format ++ unsigned 8 ∷ unsigned 8 ∷ unsigned 4 ∷ signed ∷ [];
  fields = λ m.
      m.header.length ▸ m.header.msg_type ▸ m.header.version ▸ m.header.seq_num
      ▸ m.header.last_seq_num ▸ m.header.client_id ▸ m.order_id ▸ m.exch_order_id ▸ m.quantity
      ▸ m.price ▸ tt;
  build = λ v. record {
    header = record {
      length = v.0;
      msg_type = v.1.0;
      version = v.1.1.0;
      seq_num = v.1.1.1.0;
      last_seq_num = v.1.1.1.1.0;
      client_id = v.1.1.1.1.1.0;
    };
    order_id = v.1.1.1.1.1.1.0;
    exch_order_id = v.1.1.1.1.1.1.1.0;
    quantity = v.1.1.1.1.1.1.1.1.0;
    price = v.1.1.1.1.1.1.1.1.1.0;
  };
}

pub record OrderReject : Type 0 where
  pub header : OeResponseHeader
  pub order_id : ℕ
  pub reject_reason : ℕ

abbrev pub order_reject_layout : Layout OrderReject
order_reject_layout = record {
  format = oe_response_header_layout.format ++ unsigned 8 ∷ unsigned 1 ∷ [];
  fields = λ m.
      m.header.length ▸ m.header.msg_type ▸ m.header.version ▸ m.header.seq_num
      ▸ m.header.last_seq_num ▸ m.header.client_id ▸ m.order_id ▸ m.reject_reason ▸ tt;
  build = λ v. record {
    header = record {
      length = v.0;
      msg_type = v.1.0;
      version = v.1.1.0;
      seq_num = v.1.1.1.0;
      last_seq_num = v.1.1.1.1.0;
      client_id = v.1.1.1.1.1.0;
    };
    order_id = v.1.1.1.1.1.1.0;
    reject_reason = v.1.1.1.1.1.1.1.0;
  };
}

pub record OrderFill : Type 0 where
  pub header : OeResponseHeader
  pub order_id : ℕ
  pub quantity : ℕ
  pub price : ℤ
  pub flags : ℕ

abbrev pub order_fill_layout : Layout OrderFill
order_fill_layout = record {
  format = oe_response_header_layout.format ++ unsigned 8 ∷ unsigned 4 ∷ signed ∷ unsigned 1 ∷ [];
  fields = λ m.
      m.header.length ▸ m.header.msg_type ▸ m.header.version ▸ m.header.seq_num
      ▸ m.header.last_seq_num ▸ m.header.client_id ▸ m.order_id ▸ m.quantity ▸ m.price ▸ m.flags
      ▸ tt;
  build = λ v. record {
    header = record {
      length = v.0;
      msg_type = v.1.0;
      version = v.1.1.0;
      seq_num = v.1.1.1.0;
      last_seq_num = v.1.1.1.1.0;
      client_id = v.1.1.1.1.1.0;
    };
    order_id = v.1.1.1.1.1.1.0;
    quantity = v.1.1.1.1.1.1.1.0;
    price = v.1.1.1.1.1.1.1.1.0;
    flags = v.1.1.1.1.1.1.1.1.1.0;
  };
}

pub record OrderClosed : Type 0 where
  pub header : OeResponseHeader
  pub order_id : ℕ

abbrev pub order_closed_layout : Layout OrderClosed
order_closed_layout = record {
  format = oe_response_header_layout.format ++ unsigned 8 ∷ [];
  fields = λ m.
      m.header.length ▸ m.header.msg_type ▸ m.header.version ▸ m.header.seq_num
      ▸ m.header.last_seq_num ▸ m.header.client_id ▸ m.order_id ▸ tt;
  build = λ v. record {
    header = record {
      length = v.0;
      msg_type = v.1.0;
      version = v.1.1.0;
      seq_num = v.1.1.1.0;
      last_seq_num = v.1.1.1.1.0;
      client_id = v.1.1.1.1.1.0;
    };
    order_id = v.1.1.1.1.1.1.0;
  };
}

pub record ErrorMessage : Type 0 where
  pub header : OeResponseHeader
  pub error_code : ℕ
  pub error_message_length : ℕ
  pub error_message : Bytes

abbrev pub error_message_layout : Layout ErrorMessage
error_message_layout = record {
  format = oe_response_header_layout.format ++ unsigned 1 ∷ unsigned 2 ∷ text 32 ∷ [];
  fields = λ m.
      m.header.length
      ▸ m.header.msg_type
      ▸ m.header.version
      ▸ m.header.seq_num
      ▸ m.header.last_seq_num
      ▸ m.header.client_id
      ▸ m.error_code
      ▸ m.error_message_length
      ▸ ljust 32 m.error_message
      ▸ tt;
  build = λ v. record {
    header = record {
      length = v.0;
      msg_type = v.1.0;
      version = v.1.1.0;
      seq_num = v.1.1.1.0;
      last_seq_num = v.1.1.1.1.0;
      client_id = v.1.1.1.1.1.0;
    };
    error_code = v.1.1.1.1.1.1.0;
    error_message_length = v.1.1.1.1.1.1.1.0;
    error_message = v.1.1.1.1.1.1.1.1.0;
  };
}
