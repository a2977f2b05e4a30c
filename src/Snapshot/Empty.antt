-- ===== src/Snapshot/Empty.antt =====
-- A symbol without orders in the snapshot of src/order_book.py.
use mathlib.Core.Path.{subst}
use hft_trading_system.Prelude.{
  >>-err, >>-ok, Action, All, Bool, Bool-cases, Done, Error, List, Option-cases, Result-cases, [],
  arith, eqb, eqb_iff, false, inl, inr, insert, int_eq, lookup, lookup-insert, modify, nat_eq, pos,
  raise_if, refl, some, true, ℕ, ◌&&◌, ◌+◌, ◌<◌, ◌>>◌, ◌∷◌, ◌≡◌, ◌⊎◌,
}
use hft_trading_system.MarketData.{
  MdHeader, Message, MsgType, NewOrder, SnapshotInfo, eq_msg_type, side_eq,
}
use hft_trading_system.OrderBook.{add_order}
use hft_trading_system.BookManager.{OrderBookManager, create_book, in_book}
use hft_trading_system.Sequence.{SequenceTracker}
use hft_trading_system.Snapshot.{
  Item, SnapShotSynchronizer, SnapState, all_completed, begin_symbol, clear_book, contains,
  count_order, finish_symbol, handle_snapshot_info, handle_snapshot_message, handle_snapshot_order,
  in_manager, new_synchronizer, reaches_back, receive_order, reset_for_resnap, set_add, set_remove,
}

-- An announcement of the symbol, if the message is one, says that it has no orders.
abbrev pub SaysEmpty : ℕ → Message → Type 0
SaysEmpty symbol (Message.snapshot_info body) =
    (eqb body.symbol symbol ≡ false) ⊎ (body.ask_count + body.bid_count ≡ 0)
SaysEmpty symbol _ = Done

-- The symbol is not completed, and no order of it is expected.
record IsPending (symbol : ℕ) (s : SnapShotSynchronizer) : Type 0 where
  open_still : contains symbol s.completed_symbols ≡ false
  none_expected :
      (state : SnapState) → lookup symbol s.snap_state ≡ some state → state.expected_total ≡ 0

record Preserves (symbol : ℕ) (act : Action SnapShotSynchronizer Done) : Type 0 where
  keeps : (s : SnapShotSynchronizer) → IsPending symbol s → IsPending symbol (act s).1

Preserves-then :
    {a b : Action SnapShotSynchronizer Done} (symbol : ℕ)
    → Preserves symbol a
    → Preserves symbol b
    → Preserves symbol (a >> b)
Preserves-then {a} {b} symbol first second = record {
  keeps = λ s pending. elim (Result-cases (a s).0) [
    | inl (v, e) ↦ rw (>>-ok a b s v e) (second.keeps (a s).1 (first.keeps s pending))
    | inr (x, e) ↦ rw (>>-err a b s x e) (first.keeps s pending)
  ];
}

raise_if-Preserves : (symbol : ℕ) (b : Bool) → Preserves symbol (raise_if b Error.value_error)
raise_if-Preserves symbol b = record {
  keeps = λ s pending. record {
    open_still = pending.open_still;
    none_expected = pending.none_expected;
  };
}

in_manager-Preserves :
    (symbol : ℕ) (method : Action OrderBookManager Done) → Preserves symbol (in_manager method)
unfolding in_manager
in_manager-Preserves symbol method = record {
  keeps = λ s pending. record {
    open_still = pending.open_still;
    none_expected = pending.none_expected;
  };
}

contains-set_add :
    (n m : ℕ) (ms : List ℕ)
    → contains n (set_add m ms) ≡ true
    → (eqb m n ≡ true) ⊎ (contains n ms ≡ true)
unfolding contains set_add
contains-set_add n m ms h = ground arith

contains-set_remove :
    (n m : ℕ) (ms : List ℕ) → contains n ms ≡ false → contains n (set_remove m ms) ≡ false
unfolding contains set_remove
contains-set_remove n m [] h = refl
contains-set_remove n m (k ∷ ms) h = ground (arith, contains-set_remove n m ms)

finish_symbol-open :
    (symbol other : ℕ) (state : SnapState) (s : SnapShotSynchronizer)
    → (eqb other symbol ≡ false) ⊎ (state.expected_total ≡ 0)
    → 0 < state.orders_received
    → contains symbol s.completed_symbols ≡ false
    → (contains symbol (finish_symbol other state s).1.completed_symbols ≡ false)
      × ((finish_symbol other state s).1.snap_state ≡ s.snap_state)
unfolding finish_symbol in_manager
finish_symbol-open symbol other state s empty some_received open_still =
    ground (arith, contains-set_add symbol other s.completed_symbols)

count_order-Preserves :
    (symbol other : ℕ) (state : SnapState)
    → (eqb other symbol ≡ false) ⊎ (state.expected_total ≡ 0)
    → Preserves symbol (count_order other state)
unfolding count_order
count_order-Preserves symbol other state empty = record {
  keeps = λ s pending.
      let state' : SnapState = record state { orders_received = state.orders_received + 1 } in
      let s' : SnapShotSynchronizer = record s { snap_state = insert other state' s.snap_state } in
      let (open_still, same) =
        finish_symbol-open symbol other state' s' empty (omega arith) pending.open_still in
      record {
        open_still = open_still;
        none_expected = λ x found.
            let found' : lookup symbol (insert other state' s.snap_state) ≡ some x =
              rw (← same) found in
            ground (
              arith,
              found',
              lookup-insert other symbol state' s.snap_state,
              pending.none_expected x,
            );
      };
}

receive_order-Preserves :
    (symbol : ℕ) (completed : Bool) (header : MdHeader) (body : NewOrder) (state : SnapState)
    → (eqb body.symbol symbol ≡ false) ⊎ (state.expected_total ≡ 0)
    → Preserves symbol (receive_order completed header body state)
unfolding receive_order
receive_order-Preserves symbol completed header body state empty =
    let a : Action OrderBookManager Done = modify (λ m. record m {
      order_id_to_symbol = insert body.order_id body.symbol m.order_id_to_symbol;
    }) in
    let b : Action OrderBookManager Done = modify (create_book body.symbol) in
    let c = in_book body.symbol (
      add_order body.order_id body.symbol body.side (pos body.quantity) body.price
        header.timestamp) in
    Preserves-then symbol (raise_if-Preserves symbol completed) (
      Preserves-then symbol (in_manager-Preserves symbol a) (
        Preserves-then symbol (in_manager-Preserves symbol b) (
          Preserves-then symbol (in_manager-Preserves symbol c)
            (count_order-Preserves symbol body.symbol state empty))))

reset-IsPending : (symbol : ℕ) (s : SnapShotSynchronizer) → IsPending symbol (reset_for_resnap s)
unfolding reset_for_resnap contains lookup
reset-IsPending symbol s = record { open_still = refl; none_expected = λ x found. cc }

expected_here :
    (symbol : ℕ) (body : NewOrder) (state : SnapState) (s : SnapShotSynchronizer)
    → IsPending symbol s
    → lookup body.symbol s.snap_state ≡ some state
    → (eqb body.symbol symbol ≡ false) ⊎ (state.expected_total ≡ 0)
expected_here symbol body state s pending found = elim (Bool-cases (eqb body.symbol symbol)) [
  | inl same ↦
      let e = (eqb_iff body.symbol symbol).0 same in
      inr (pending.none_expected state (subst (λ n. lookup n s.snap_state ≡ some state) e found))
  | inr other ↦ inl other
]

handle_snapshot_order-Preserves :
    (symbol : ℕ) (header : MdHeader) (body : NewOrder)
    → Preserves symbol (handle_snapshot_order header body)
unfolding handle_snapshot_order
handle_snapshot_order-Preserves symbol header body = record {
  keeps = λ s pending. elim (Option-cases (lookup body.symbol s.snap_state)) [
    | inl e ↦ rw (e, handle_snapshot_order) (reset-IsPending symbol s)
    | inr (state, e) ↦
        rw (e, handle_snapshot_order)
          ((receive_order-Preserves symbol (contains body.symbol s.completed_symbols) header body
              state (expected_here symbol body state s pending e)).keeps
            s pending)
  ];
}

begin_symbol-IsPending :
    (symbol : ℕ) (body : SnapshotInfo) (s : SnapShotSynchronizer)
    → SaysEmpty symbol (Message.snapshot_info body)
    → IsPending symbol s
    → IsPending symbol (begin_symbol body s)
begin_symbol-IsPending symbol body s empty pending = record {
  open_still = contains-set_remove symbol body.symbol s.completed_symbols pending.open_still;
  none_expected = λ x found. ground (
    arith,
    found,
    pending.none_expected x,
    eqb_iff body.symbol symbol,
    lookup-insert body.symbol symbol
        (record {
          ask_count = body.ask_count;
          bid_count = body.bid_count;
          last_md_seq_num = body.last_md_seq_num;
          orders_received = 0;
          expected_total = body.ask_count + body.bid_count;
        })
        s.snap_state,
  );
}

handle_snapshot_info-Preserves :
    (symbol : ℕ) (body : SnapshotInfo)
    → SaysEmpty symbol (Message.snapshot_info body)
    → Preserves symbol (handle_snapshot_info body)
unfolding handle_snapshot_info
handle_snapshot_info-Preserves symbol body empty = record {
  keeps = λ s pending.
      let begun =
        (in_manager-Preserves symbol (clear_book body.symbol)).keeps (begin_symbol body s)
          (begin_symbol-IsPending symbol body s empty pending) in
      elim (Bool-cases (
        reaches_back s.live_buffer s.last_snap_seq_num
        && contains body.symbol s.completed_symbols
        && all_completed s)) [
          | inl complete ↦
              rw (complete, handle_snapshot_info)
                (record { open_still = pending.open_still; none_expected = pending.none_expected })
          | inr not_yet ↦ rw (not_yet, handle_snapshot_info) begun
        ];
}

handle_snapshot_message-Preserves :
    (symbol : ℕ) (header : MdHeader) (body : Message)
    → SaysEmpty symbol body
    → Preserves symbol (handle_snapshot_message header body)
unfolding handle_snapshot_message
handle_snapshot_message-Preserves symbol header (Message.snapshot_info body) empty =
    elim (Bool-cases (eq_msg_type header.msg_type MsgType.snapshot_info)) [
      | inl typed ↦ rw typed (handle_snapshot_info-Preserves symbol body empty)
      | inr other ↦ rw other (record { keeps = λ s pending. pending })
    ]
handle_snapshot_message-Preserves symbol header (Message.new_order body) empty =
    elim (Bool-cases (eq_msg_type header.msg_type MsgType.new_order)) [
      | inl typed ↦ rw typed (handle_snapshot_order-Preserves symbol header body)
      | inr other ↦ rw other (record { keeps = λ s pending. pending })
    ]
handle_snapshot_message-Preserves symbol header (Message.delete_order body) empty = record {
  keeps = λ s pending. pending;
}
handle_snapshot_message-Preserves symbol header (Message.modify_order body) empty = record {
  keeps = λ s pending. pending;
}
handle_snapshot_message-Preserves symbol header (Message.trade body) empty = record {
  keeps = λ s pending. pending;
}
handle_snapshot_message-Preserves symbol header (Message.trade_summary body) empty = record {
  keeps = λ s pending. pending;
}
handle_snapshot_message-Preserves symbol header (Message.header_only body) empty = record {
  keeps = λ s pending. pending;
}

-- The messages of the snapshot channel, one after the other; an exception loses its message alone.
unfoldable pub handle_all : List Item → SnapShotSynchronizer → SnapShotSynchronizer
unfolding handle_snapshot_message
handle_all [] s = s
handle_all ((header, body) ∷ rest) s = handle_all rest (handle_snapshot_message header body s).1

handle_all-IsPending :
    (symbol : ℕ) (messages : List Item) (s : SnapShotSynchronizer)
    → All (λ x. SaysEmpty symbol x.1) messages
    → IsPending symbol s
    → IsPending symbol (handle_all messages s)
unfolding handle_all
handle_all-IsPending symbol [] s empty pending = pending
handle_all-IsPending symbol ((header, body) ∷ rest) s (now, later) pending =
    handle_all-IsPending symbol rest (handle_snapshot_message header body s).1 later
      ((handle_snapshot_message-Preserves symbol header body now).keeps s pending)

-- A symbol that every announcement says to have no orders is never completed: after any messages of
-- the snapshot channel to a new synchroniser it is still not among the completed symbols.
pub handle_all-empty :
    (symbol : ℕ) (messages : List Item) (manager : OrderBookManager) (tracker : SequenceTracker)
    → All (λ x. SaysEmpty symbol x.1) messages
    → contains symbol (handle_all messages (new_synchronizer manager tracker)).completed_symbols
      ≡ false
unfolding contains lookup
handle_all-empty symbol messages manager tracker empty =
    (handle_all-IsPending symbol messages (new_synchronizer manager tracker) empty
      (record { open_still = refl; none_expected = λ x found. cc })).open_still
