-- ===== src/Snapshot/Complete.antt =====
-- When the snapshot of src/order_book.py counts as complete.
use hft_trading_system.Prelude.{
  >>-err, >>-ok, Action, Bool, Done, Error, List, Option-cases, Result-cases, [], ap, arith,
  eqb_iff, false, if◌then◌else◌, inl, inr, insert, int_eq, length, lookup, modify, nat_eq, ok, pos,
  raise_if, true, ℕ, ◌+◌, ◌>>◌, ◌∙◌, ◌∷◌, ◌≡◌,
}
use hft_trading_system.BookManager.{OrderBookManager, create_book, in_book}
use hft_trading_system.Snapshot.{
  Item, SnapShotSynchronizer, SnapState, all_completed, contains, count_order, finish_symbol,
  handle_snapshot_info, handle_snapshot_message, handle_snapshot_order, in_manager, reaches_back,
  receive_order, replay_buffered_messages, reset_for_resnap,
}
use hft_trading_system.Snapshot.Buffer.{seq}
use hft_trading_system.Snapshot.Replay.{
  gap_before, in_order, no_gap_before, replay_buffered_messages_lem, replayed,
}
use hft_trading_system.MarketData.{MdHeader, Message, NewOrder, SnapshotInfo, side_eq}
use hft_trading_system.OrderBook.{add_order}

-- What `snap_complete` promises when it is set
abbrev pub CanReplay : SnapShotSynchronizer → Type 0
CanReplay s = (reaches_back s.live_buffer s.last_snap_seq_num ≡ true) × (all_completed s ≡ true)

abbrev pub Promises : SnapShotSynchronizer → Type 0
Promises s = s.snap_complete ≡ true → CanReplay s

finish_symbol-Promises :
    (symbol : ℕ) (state : SnapState) (s : SnapShotSynchronizer)
    → s.snap_complete ≡ false
    → Promises (finish_symbol symbol state s).1
unfolding finish_symbol
finish_symbol-Promises symbol state s no_yet = ground arith

handle_snapshot_info-Promises :
    (body : SnapshotInfo) (s : SnapShotSynchronizer)
    → s.snap_complete ≡ false
    → Promises (handle_snapshot_info body s).1
unfolding handle_snapshot_info
handle_snapshot_info-Promises body s no_yet = ground arith

-- A step before the test of completion
record IsQuiet (act : Action SnapShotSynchronizer Done) : Type 0 where
  keeps : (s : SnapShotSynchronizer) → s.snap_complete ≡ false → (act s).1.snap_complete ≡ false

record IsPromising (act : Action SnapShotSynchronizer Done) : Type 0 where
  keeps : (s : SnapShotSynchronizer) → s.snap_complete ≡ false → Promises (act s).1

quiet_then :
    {a b : Action SnapShotSynchronizer Done} → IsQuiet a → IsPromising b → IsPromising (a >> b)
quiet_then {a} {b} quiet promising = record {
  keeps = λ s no_yet. elim (Result-cases (a s).0) [
    | inl (v, e) ↦ rw (>>-ok a b s v e) (promising.keeps (a s).1 (quiet.keeps s no_yet))
    | inr (x, e) ↦ rw (>>-err a b s x e) (ground (arith, quiet.keeps s no_yet))
  ];
}

raise_if-IsQuiet : (b : Bool) → IsQuiet (raise_if b Error.value_error)
raise_if-IsQuiet b = record { keeps = λ s no_yet. no_yet }

in_manager-IsQuiet : (method : Action OrderBookManager Done) → IsQuiet (in_manager method)
unfolding in_manager
in_manager-IsQuiet method = record { keeps = λ s no_yet. no_yet }

count_order-IsPromising : (symbol : ℕ) (state : SnapState) → IsPromising (count_order symbol state)
unfolding count_order
count_order-IsPromising symbol state = record {
  keeps = λ s no_yet.
      let state' : SnapState = record state { orders_received = state.orders_received + 1 } in
      finish_symbol-Promises symbol state'
        (record s { snap_state = insert symbol state' s.snap_state }) no_yet;
}

receive_order-Promises :
    (completed : Bool) (header : MdHeader) (body : NewOrder) (state : SnapState)
    → IsPromising (receive_order completed header body state)
unfolding receive_order
receive_order-Promises completed header body state =
    let a : Action OrderBookManager Done = modify (λ m. record m {
      order_id_to_symbol = insert body.order_id body.symbol m.order_id_to_symbol;
    }) in
    let b : Action OrderBookManager Done = modify (create_book body.symbol) in
    let c = in_book body.symbol (
      add_order body.order_id body.symbol body.side (pos body.quantity) body.price
        header.timestamp) in
    quiet_then (raise_if-IsQuiet completed) (
      quiet_then (in_manager-IsQuiet a) (
        quiet_then (in_manager-IsQuiet b)
          (quiet_then (in_manager-IsQuiet c) (count_order-IsPromising body.symbol state))))

handle_snapshot_order-Promises :
    (header : MdHeader) (body : NewOrder) (s : SnapShotSynchronizer)
    → s.snap_complete ≡ false
    → Promises (handle_snapshot_order header body s).1
unfolding handle_snapshot_order reset_for_resnap
handle_snapshot_order-Promises header body s no_yet =
    elim (Option-cases (lookup body.symbol s.snap_state)) [
      | inl e ↦ ground arith
      | inr (state, e) ↦
          rw (e, handle_snapshot_order)
            ((receive_order-Promises (contains body.symbol s.completed_symbols) header body
                state).keeps
              s no_yet)
    ]

handle_snapshot_message-Promises :
    (header : MdHeader) (body : Message) (s : SnapShotSynchronizer)
    → s.snap_complete ≡ false
    → Promises (handle_snapshot_message header body s).1
unfolding handle_snapshot_message
handle_snapshot_message-Promises header (Message.snapshot_info body) s no_yet =
    ground (arith, handle_snapshot_info-Promises body s no_yet)
handle_snapshot_message-Promises header (Message.new_order body) s no_yet =
    ground (arith, handle_snapshot_order-Promises header body s no_yet)
handle_snapshot_message-Promises header _ s no_yet = ground arith

reaching :
    (buffer : List Item) (snap : ℕ)
    → reaches_back buffer snap ≡ true
    → gap_before (in_order buffer) snap ≡ false
unfolding contains
reaching [] snap h = absurd (grind arith)
reaching (x ∷ xs) snap h =
    no_gap_before (seq x) snap (x ∷ xs) (ground (arith, eqb_iff (seq x) (seq x)))
      (ground (arith, eqb_iff (seq x) (snap + 1)))

replay_possible :
    (s : SnapShotSynchronizer)
    → reaches_back s.live_buffer s.last_snap_seq_num ≡ true
    → gap_before (in_order s.live_buffer) s.last_snap_seq_num ≡ false
replay_possible s h = reaching s.live_buffer s.last_snap_seq_num h

-- A message of the snapshot channel after which the snapshot counts as complete, where it did not
-- before, leaves as many completed symbols as there are symbols, and a buffer that the replay can
-- start from: `replay_buffered_messages` does not start the resynchronisation anew but goes on
-- to dispatch the messages that the snapshot does not hold.
pub handle_snapshot_message-CanReplay :
    (header : MdHeader) (body : Message) (s : SnapShotSynchronizer)
    → s.snap_complete ≡ false
    → (handle_snapshot_message header body s).1.snap_complete ≡ true
    → let s' = (handle_snapshot_message header body s).1 in
      (replay_buffered_messages s' ≡ replayed (in_order s'.live_buffer) s')
      × (length s'.completed_symbols ≡ s'.total_symbols)
handle_snapshot_message-CanReplay header body s no_yet complete =
    let s' = (handle_snapshot_message header body s).1 in
    let (reaches, all) = handle_snapshot_message-Promises header body s no_yet complete in
    let start = replay_possible s' reaches in
    (
      (replay_buffered_messages_lem s').0
          ∙ ap
              (λ b.
                if b then (ok tt, reset_for_resnap s') else replayed (in_order s'.live_buffer) s')
              start,
      (eqb_iff (length s'.completed_symbols) s'.total_symbols).0 all,
    )
