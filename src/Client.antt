-- ===== src/Client.antt =====
-- `class OrderEntryClient` of src/order_entry.py: its state, the numbering of requests, the check of
-- a response's header, and what `_process_responses` books for a fill. The socket, the address and the
-- credentials are left out of the state, as is the manager of the books, which it reads alone.
pub mod Fills
pub mod Headers
pub mod Blocks
pub mod Wire
pub mod Session
pub mod Orders
pub mod Manage
pub mod Steps
pub mod Accounts
pub mod Follows
pub mod Receipts
pub mod Settling
pub mod Cancels
pub mod Operations
pub mod Placing
pub mod Modifies
pub mod Logins
pub mod Refusals
pub mod Mid
pub mod Framing
pub mod Draining
pub mod Remaining
pub mod Exposures
pub mod Openings
pub mod Bounds
use hft_trading_system.Protocol.Requests.{OeRequestHeader}
use hft_trading_system.Protocol.Responses.{OeResponseHeader, OrderFill}
use hft_trading_system.Prelude.{
  +ℤ_parts, -ℤ_parts, >>-err, >>-ok, >>=-err, >>=-ok, Action, All, Bool, Bool-cases, Dict, Distinct,
  Done, Eq, Error, Every, List, Option, Option-cases, Result, Result-cases, [], abs, add_zero, ap,
  arith, bound_ok, drop, drop-append, eq_of_parts, eqb, eqb_iff, eqb_ℤ, eqb_ℤ_iff, erase,
  erase-Distinct, erase-Every, erase-eq_of_none, erase-insert, err, false, get_or, gets,
  if◌then◌else◌, inl, inr, insert, insert-Distinct, insert-Every, insert-insert, int_eq, int_laws,
  is_some, is_some-erase, is_some-insert, leb, leb_ℤ, length, length-append, length-replicate,
  length-take_le, lift, lookup, lookup-Every, lookup-erase, lookup-erase_self, lookup-insert,
  lookup-insert_self, ltb, ltb_ℤ, ltb→lt, map, modify, nat_eq, neg, neg-neg, neg_part, neg_parts,
  negsuc, none, not, ok, only_if, or_raise, pos, pos_part, pure, raise, raise_if, refl, replicate,
  some, sub_ℕ, suc, sym, take, take-append, total, total-erase, total-ge, total-insert_new,
  total-insert_old, total_nonneg, true, zero, ℕ, ℤ, ◌%◌, ◌&&◌, ◌*ℤ◌, ◌*◌, ◌++◌, ◌+ℤ◌, ◌+◌, ◌-ℤ◌,
  ◌-◌, ◌/◌, ◌<ℤ◌, ◌<◌, ◌==◌, ◌>>=◌, ◌>>◌, ◌^◌, ◌||◌, ◌↔◌, ◌∙◌, ◌∷◌, ◌≡◌, ◌≢◌, ◌≤ℤ◌, ◌≤◌, ◌⊎◌,
}
use hft_trading_system.Safety.Position.{
  PositionTracker, get_amount, get_net_position, get_position, new_position_tracker,
  update_position,
}
use hft_trading_system.Safety.Exposure.{
  OeConfig, buy_exposure, buy_side, outstanding, sell_exposure, sell_side,
}
use hft_trading_system.Safety.Pnl.{
  PnLTracker, get_pnl, new_pnl_tracker, on_fill_buy, on_fill_sell, round_magnitude, round_to,
  spacing, to_double, turnover,
}
use hft_trading_system.Safety.Risk.{
  Reason, RiskTracker, is_valid, meter, new_risk_tracker, roll_second, roll_sequence, screen,
  second,
}

pub record OrderEntryClient : Type 0 where
  pub client_id : ℕ
  pub session_id : ℕ
  pub seq_num : ℕ
  pub resp_seq : ℕ
  pub position_tracker : PositionTracker
  pub open_orders : Dict ℕ OeConfig
  pub risk_tracker : RiskTracker
  pub pnl_tracker : PnLTracker
  pub pnl_min_val : ℤ
  pub position_limit : ℤ

abbrev pub new_client : OrderEntryClient
new_client = record {
  client_id = 2;
  session_id = 0;
  seq_num = 0;
  resp_seq = 0;
  position_tracker = new_position_tracker;
  open_orders = [];
  risk_tracker = new_risk_tracker;
  pnl_tracker = new_pnl_tracker;
  pnl_min_val = negsuc 19999;
  position_limit = pos 10;
}

-- `_make_header`, with the count of `_next_seq`
unfoldable pub make_header : (msg_type length : ℕ) → Action OrderEntryClient OeRequestHeader
make_header msg_type length c = (
  ok (record {
    length = length;
    msg_type = msg_type;
    version = 1;
    seq_num = c.seq_num + 1;
    client_id = c.client_id;
    session_id = c.session_id;
  }),
  record c { seq_num = c.seq_num + 1 },
)

unfoldable pub validate_response_header : OeResponseHeader → Action OrderEntryClient Done
validate_response_header hdr c =
    (do
      raise_if (not (eqb hdr.version 1)) Error.value_error
      raise_if (not (eqb hdr.client_id c.client_id)) Error.value_error
      raise_if (not (eqb c.resp_seq 0) && leb hdr.seq_num c.resp_seq) Error.value_error)
      c

-- The first steps of `_parse_response`, on the header
unfoldable pub accept_header : OeResponseHeader → Action OrderEntryClient Done
unfolding validate_response_header
accept_header hdr = do
  validate_response_header hdr
  modify (λ c. record c { resp_seq = hdr.seq_num })

-- A fill of an order that is open
unfoldable pub book_fill : OrderFill → OeConfig → OrderEntryClient → OrderEntryClient
unfolding update_position on_fill_buy on_fill_sell
book_fill resp o c = record c {
  position_tracker =
      if eqb o.side buy_side
      then update_position o.symbol (pos resp.quantity) (pos 0) c.position_tracker
      else update_position o.symbol (pos 0) (pos resp.quantity) c.position_tracker;
  pnl_tracker =
      if eqb o.side buy_side
      then on_fill_buy o.symbol (pos resp.quantity) resp.price c.pnl_tracker
      else on_fill_sell o.symbol (pos resp.quantity) resp.price c.pnl_tracker;
  open_orders =
      if eqb resp.flags 2
      then erase resp.order_id c.open_orders
      else insert resp.order_id (record o { filled = o.filled +ℤ pos resp.quantity }) c.open_orders;
}

-- The branch of `_process_responses` for a fill, up to `_check_limits`, which is called with the
-- symbol that comes back. `FillFlags(resp.flags)` raises on a number above 2.
unfoldable pub apply_fill : OrderFill → Action OrderEntryClient (Option ℕ)
unfolding book_fill
apply_fill resp c =
    if ltb 2 resp.flags
    then (err Error.value_error, c)
    else elim (lookup resp.order_id c.open_orders) [
      | none ↦ (ok none, c)
      | some o ↦ (ok (some o.symbol), book_fill resp o c)
    ]
