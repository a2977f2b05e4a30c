-- ===== src/Protocol/Requests.antt =====
-- The messages that the client sends, of src/order_entry_protocol.py, with the order of their fields
-- on the wire.
use hft_trading_system.Prelude.{[], int_eq, nat_eq, ℕ, ℤ, ◌++◌, ◌∷◌}
use hft_trading_system.Struct.{Bytes, ljust, signed, text, unsigned}
use hft_trading_system.Protocol.Layouts.{Layout, ◌▸◌}

pub record OeRequestHeader : Type 0 where
  pub length : ℕ
  pub msg_type : ℕ
  pub version : ℕ
  pub seq_num : ℕ
  pub client_id : ℕ
  pub session_id : ℕ

abbrev pub oe_request_header_layout : Layout OeRequestHeader
oe_request_header_layout = record {
  format = unsigned 2 ∷ unsigned 1 ∷ unsigned 1 ∷ unsigned 4 ∷ unsigned 4 ∷ unsigned 8 ∷ [];
  fields = λ m. m.length ▸ m.msg_type ▸ m.version ▸ m.seq_num ▸ m.client_id ▸ m.session_id ▸ tt;
  build = λ v. record {
    length = v.0;
    msg_type = v.1.0;
    version = v.1.1.0;
    seq_num = v.1.1.1.0;
    client_id = v.1.1.1.1.0;
    session_id = v.1.1.1.1.1.0;
  };
}

pub record Login : Type 0 where
  pub header : OeRequestHeader
  pub username : Bytes
  pub password : Bytes

abbrev pub login_layout : Layout Login
login_layout = record {
  format = oe_request_header_layout.format ++ text 16 ∷ text 16 ∷ [];
  fields = λ m.
      m.header.length
      ▸ m.header.msg_type
      ▸ m.header.version
      ▸ m.header.seq_num
      ▸ m.header.client_id
      ▸ m.header.session_id
      ▸ ljust 16 m.username
      ▸ ljust 16 m.password
      ▸ tt;
  build = λ v. record {
    header = record {
      length = v.0;
      msg_type = v.1.0;
      version = v.1.1.0;
      seq_num = v.1.1.1.0;
      client_id = v.1.1.1.1.0;
      session_id = v.1.1.1.1.1.0;
    };
    username = v.1.1.1.1.1.1.0;
    password = v.1.1.1.1.1.1.1.0;
  };
}

pub record NewOrder : Type 0 where
  pub header : OeRequestHeader
  pub order_id : ℕ
  pub symbol : ℕ
  pub side : ℕ
  pub quantity : ℕ
  pub price : ℤ
  pub flags : ℕ

abbrev pub new_order_layout : Layout NewOrder
new_order_layout = record {
  format =
      oe_request_header_layout.format
      ++ unsigned 8 ∷ unsigned 4 ∷ unsigned 1 ∷ unsigned 4 ∷ signed ∷ unsigned 1 ∷ [];
  fields = λ m.
      m.header.length ▸ m.header.msg_type ▸ m.header.version ▸ m.header.seq_num ▸ m.header.client_id
      ▸ m.header.session_id ▸ m.order_id ▸ m.symbol ▸ m.side ▸ m.quantity ▸ m.price ▸ m.flags ▸ tt;
  build = λ v. record {
    header = record {
      length = v.0;
      msg_type = v.1.0;
      version = v.1.1.0;
      seq_num = v.1.1.1.0;
      client_id = v.1.1.1.1.0;
      session_id = v.1.1.1.1.1.0;
    };
    order_id = v.1.1.1.1.1.1.0;
    symbol = v.1.1.1.1.1.1.1.0;
    side = v.1.1.1.1.1.1.1.1.0;
    quantity = v.1.1.1.1.1.1.1.1.1.0;
    price = v.1.1.1.1.1.1.1.1.1.1.0;
    flags = v.1.1.1.1.1.1.1.1.1.1.1.0;
  };
}

pub record DeleteOrder : Type 0 where
  pub header : OeRequestHeader
  pub order_id : ℕ

abbrev pub delete_order_layout : Layout DeleteOrder
delete_order_layout = record {
  format = oe_request_header_layout.format ++ unsigned 8 ∷ [];
  fields = λ m.
      m.header.length ▸ m.header.msg_type ▸ m.header.version ▸ m.header.seq_num ▸ m.header.client_id
      ▸ m.header.session_id ▸ m.order_id ▸ tt;
  build = λ v. record {
    header = record {
      length = v.0;
      msg_type = v.1.0;
      version = v.1.1.0;
      seq_num = v.1.1.1.0;
      client_id = v.1.1.1.1.0;
      session_id = v.1.1.1.1.1.0;
    };
    order_id = v.1.1.1.1.1.1.0;
  };
}

pub record ModifyOrder : Type 0 where
  pub header : OeRequestHeader
  pub order_id : ℕ
  pub side : ℕ
  pub quantity : ℕ
  pub price : ℤ

abbrev pub modify_order_layout : Layout ModifyOrder
modify_order_layout = record {
  format = oe_request_header_layout.format ++ unsigned 8 ∷ unsigned 1 ∷ unsigned 4 ∷ signed ∷ [];
  fields = λ m.
      m.header.length ▸ m.header.msg_type ▸ m.header.version ▸ m.header.seq_num ▸ m.header.client_id
      ▸ m.header.session_id ▸ m.order_id ▸ m.side ▸ m.quantity ▸ m.price ▸ tt;
  build = λ v. record {
    header = record {
      length = v.0;
      msg_type = v.1.0;
      version = v.1.1.0;
      seq_num = v.1.1.1.0;
      client_id = v.1.1.1.1.0;
      session_id = v.1.1.1.1.1.0;
    };
    order_id = v.1.1.1.1.1.1.0;
    side = v.1.1.1.1.1.1.1.0;
    quantity = v.1.1.1.1.1.1.1.1.0;
    price = v.1.1.1.1.1.1.1.1.1.0;
  };
}
