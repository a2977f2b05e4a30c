-- ===== src/Tests/Feeds.antt =====
-- Runs of the manager, the tracker and the synchroniser of src/order_book.py.
use hft_trading_system.Prelude.{
  All, List, [], false, if◌then◌else◌, inr, insert, int_eq, length, lookup, nat_eq, none, ok, pos,
  refl, true, ℕ, ◌∷◌, ◌≡◌,
}
use hft_trading_system.HeapQueue.{heappush}
use hft_trading_system.BookManager.{create_book, dispatch_live_message, empty_manager, in_book}
use hft_trading_system.BookManager.Books.{IsSound, empty_manager-IsSound, find_order}
use hft_trading_system.BookManager.Dispatch.{Dispatched, dispatch_live_message_lem, message_call}
use hft_trading_system.Sequence.{accepted, check, new_tracker}
use hft_trading_system.Sequence.Accepted.{Ascends, accepted_lem, running_maxima}
use hft_trading_system.Snapshot.{
  Item, SnapShotSynchronizer, contains, count_order, finish_symbol, handle_snapshot_message,
  handle_snapshot_order, in_manager, new_synchronizer, receive_order, replay_buffered_messages,
  reset_for_resnap, set_add,
}
use hft_trading_system.Snapshot.Replay.{
  gap_before, in_order, replay_buffered_messages_lem, replayed,
}
use hft_trading_system.Snapshot.Complete.{handle_snapshot_message-CanReplay}
use hft_trading_system.Snapshot.Empty.{handle_all, handle_all-empty}
use hft_trading_system.Snapshot.Recover.{reset_for_resnap-IsSound}
use hft_trading_system.Snapshot.Buffer.{IsAscending, Stands, seqs}
use hft_trading_system.MarketData.{MdHeader, Message, MsgType, Side, side_eq}
use hft_trading_system.OrderBook.{
  OrderBook, add_order, add_to_level, empty_book, get_best, levels_are_positive, orders_have_levels,
  validate,
}

abbrev header_at : ℕ → MsgType → MdHeader
header_at seq_num msg_type = record {
  magic_number = 0;
  length = 45;
  seq_num = seq_num;
  timestamp = 7;
  msg_type = msg_type;
}

-- Three to sell at 20, of symbol 4
abbrev offer : ℕ → Message
offer seq_num = Message.new_order (record {
  header = header_at seq_num MsgType.new_order;
  order_id = 11;
  symbol = 4;
  side = Side.sell;
  quantity = 3;
  price = pos 20;
  flags = 0;
})

no_offer : find_order 11 empty_manager ≡ none
unfolding find_order lookup
no_offer = refl

dispatch_live_message_lem_example :
    Dispatched empty_manager
      (message_call (header_at 5 MsgType.new_order) (offer 5))
      MsgType.new_order
      (dispatch_live_message (header_at 5 MsgType.new_order) (offer 5) empty_manager)
dispatch_live_message_lem_example =
    dispatch_live_message_lem (header_at 5 MsgType.new_order) (offer 5) empty_manager
      empty_manager-IsSound refl no_offer

accepted_lem_example :
    ((accepted (3 ∷ 4 ∷ 4 ∷ 9 ∷ 8 ∷ []) new_tracker).0
      ≡ running_maxima none (3 ∷ 4 ∷ 4 ∷ 9 ∷ 8 ∷ []))
    × Ascends none (accepted (3 ∷ 4 ∷ 4 ∷ 9 ∷ 8 ∷ []) new_tracker).0
accepted_lem_example = accepted_lem (3 ∷ 4 ∷ 4 ∷ 9 ∷ 8 ∷ []) new_tracker

accepted_run : (accepted (3 ∷ 4 ∷ 4 ∷ 9 ∷ 8 ∷ []) new_tracker).0 ≡ 3 ∷ 4 ∷ 9 ∷ []
unfolding accepted check
accepted_run = refl

abbrev offers : List Item
offers =
    (header_at 6 MsgType.new_order, offer 6)
    ∷ (header_at 5 MsgType.new_order, offer 5)
    ∷ (header_at 6 MsgType.new_order, offer 6)
    ∷ []

abbrev waiting : SnapShotSynchronizer
waiting = record (new_synchronizer empty_manager new_tracker) {
  live_buffer = offers;
  last_snap_seq_num = 5;
}

replay_buffered_messages_lem_example :
    (replay_buffered_messages waiting ≡ (
      if gap_before (in_order offers) 5
      then (ok tt, reset_for_resnap waiting)
      else replayed (in_order offers) waiting))
    × IsAscending (in_order offers)
    × ((n : ℕ) → contains n (seqs (in_order offers)) ≡ contains n (seqs offers))
    × All (Stands offers) (in_order offers)
replay_buffered_messages_lem_example = replay_buffered_messages_lem waiting

-- One order of one symbol is missing.
abbrev almost : SnapShotSynchronizer
almost = record (new_synchronizer empty_manager new_tracker) {
  total_symbols = 1;
  live_buffer =
      (header_at 6 MsgType.heartbeat, Message.header_only (header_at 6 MsgType.heartbeat)) ∷ [];
  last_snap_seq_num = 5;
  snap_state =
      (
        4,
        record {
          ask_count = 1;
          bid_count = 0;
          last_md_seq_num = 5;
          orders_received = 0;
          expected_total = 1;
        },
      )
      ∷ [];
}

almost_complete :
    (handle_snapshot_message (header_at 1 MsgType.new_order) (offer 1) almost).1.snap_complete
    ≡ true
unfolding handle_snapshot_message handle_snapshot_order receive_order count_order finish_symbol
    in_manager in_book create_book add_order add_to_level lookup insert contains set_add validate
    get_best heappush levels_are_positive orders_have_levels
almost_complete = refl

handle_snapshot_message-CanReplay_example :
    let s' = (handle_snapshot_message (header_at 1 MsgType.new_order) (offer 1) almost).1 in
    (replay_buffered_messages s' ≡ replayed (in_order s'.live_buffer) s')
    × (length s'.completed_symbols ≡ s'.total_symbols)
handle_snapshot_message-CanReplay_example =
    handle_snapshot_message-CanReplay (header_at 1 MsgType.new_order) (offer 1) almost refl
      almost_complete

-- An announcement of symbol 4 without orders
abbrev vacant : Message
vacant = Message.snapshot_info (record {
  header = header_at 1 MsgType.snapshot_info;
  symbol = 4;
  bid_count = 0;
  ask_count = 0;
  last_md_seq_num = 5;
})

handle_all-empty_example :
    contains 4
      (handle_all
        ((header_at 1 MsgType.snapshot_info, vacant)
          ∷ (header_at 2 MsgType.new_order, offer 2)
          ∷ [])
        (new_synchronizer empty_manager new_tracker)).completed_symbols
    ≡ false
handle_all-empty_example =
    handle_all-empty 4
      ((header_at 1 MsgType.snapshot_info, vacant) ∷ (header_at 2 MsgType.new_order, offer 2) ∷ [])
      empty_manager new_tracker (inr refl, (tt, tt))

-- A book in which an order has lost its level
abbrev broken : OrderBook
broken = record (empty_book 4) {
  orders =
      (
        11,
        record {
          order_id = 11;
          symbol = 4;
          side = Side.sell;
          quantity = pos 3;
          price = pos 20;
          timestamp = 7;
        },
      )
      ∷ [];
}

abbrev astray : SnapShotSynchronizer
astray =
    new_synchronizer
      (record {
        books = (4, broken) ∷ [];
        order_id_to_symbol = (11, 4) ∷ [];
        unknown_delete_count = 0;
      })
      new_tracker

reset_for_resnap-IsSound_example :
    IsSound (reset_for_resnap astray).book_manager
    × ((k : ℕ) → find_order k (reset_for_resnap astray).book_manager ≡ none)
reset_for_resnap-IsSound_example = reset_for_resnap-IsSound astray
