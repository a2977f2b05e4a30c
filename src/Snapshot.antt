-- ===== src/Snapshot.antt =====
-- `class SnapShotSynchronizer` of src/order_book.py. The manager and the tracker that it refers to,
-- and that the main loop shares, are part of its state.
pub mod Buffer
pub mod Replay
pub mod Complete
pub mod Empty
pub mod Recover
use Prim.Native.Nat.{max}
use hft_trading_system.Prelude.{
  Action, Bool, Dict, Done, Error, List, [], arith, eqb, err, false, if◌then◌else◌, insert, int_eq,
  leb, length, lookup, ltb, modify, nat_eq, none, ok, only_if, pos, pure, raise_if, some, true, ℕ,
  ◌&&◌, ◌++◌, ◌+◌, ◌>>=◌, ◌>>◌, ◌||◌, ◌∷◌, ◌≡◌,
}
use hft_trading_system.MarketData.{
  MdHeader, Message, MsgType, NewOrder, SnapshotInfo, eq_msg_type, side_eq,
}
use hft_trading_system.OrderBook.{OrderBook, add_order, clear, validate}
use hft_trading_system.BookManager.{OrderBookManager, create_book, dispatch_live_message, in_book}
use hft_trading_system.Sequence.{SequenceTracker, expect}

abbrev pub Item : Type 0
Item = MdHeader × Message

pub record SnapState : Type 0 where
  pub ask_count : ℕ
  pub bid_count : ℕ
  pub last_md_seq_num : ℕ
  pub orders_received : ℕ
  pub expected_total : ℕ

pub record SnapShotSynchronizer : Type 0 where
  pub book_manager : OrderBookManager
  pub seq_tracker : SequenceTracker
  pub sync : Bool
  pub last_snap_seq_num : ℕ
  pub total_symbols : ℕ
  pub live_buffer : List Item
  pub snap_state : Dict ℕ SnapState
  pub snap_complete : Bool
  pub completed_symbols : List ℕ

abbrev pub new_synchronizer : OrderBookManager → SequenceTracker → SnapShotSynchronizer
new_synchronizer manager seq_tracker = record {
  book_manager = manager;
  seq_tracker = seq_tracker;
  sync = false;
  last_snap_seq_num = 0;
  total_symbols = 13;
  live_buffer = [];
  snap_state = [];
  snap_complete = false;
  completed_symbols = [];
}

-- Python's `set` of symbols, as the list of its members
unfoldable pub contains : ℕ → List ℕ → Bool
contains n [] = false
contains n (m ∷ ms) = eqb m n || contains n ms

unfoldable pub set_add : ℕ → List ℕ → List ℕ
unfolding contains
set_add n ms = if contains n ms then ms else n ∷ ms

unfoldable pub set_remove : ℕ → List ℕ → List ℕ
set_remove n [] = []
set_remove n (m ∷ ms) = let rest = set_remove n ms in if eqb m n then rest else m ∷ rest

unfoldable pub clear_books : Dict ℕ OrderBook → Dict ℕ OrderBook
unfolding clear
clear_books [] = []
clear_books ((s, b) ∷ d) = (s, clear b) ∷ clear_books d

unfoldable pub reset_for_resnap : SnapShotSynchronizer → SnapShotSynchronizer
reset_for_resnap s = record s {
  live_buffer = [];
  snap_state = [];
  completed_symbols = [];
  last_snap_seq_num = 0;
  snap_complete = false;
  sync = false;
  book_manager = record s.book_manager {
    books = clear_books s.book_manager.books;
    order_id_to_symbol = [];
  };
}

unfoldable pub buffer_live_message :
    MdHeader → Message → SnapShotSynchronizer → SnapShotSynchronizer
buffer_live_message header body s = record s { live_buffer = s.live_buffer ++ (header, body) ∷ [] }

-- A call on the manager, or on a book of it
unfoldable pub in_manager : Action OrderBookManager Done → Action SnapShotSynchronizer Done
in_manager method s = let (r, m) = method s.book_manager in (r, record s { book_manager = m })

-- The test, written twice in the source, that the buffer reaches back to the snapshot
abbrev pub reaches_back : List Item → ℕ → Bool
reaches_back [] last_snap = false
reaches_back ((header, body) ∷ rest) last_snap =
    ltb header.seq_num last_snap || eqb header.seq_num (last_snap + 1)

abbrev pub all_completed : SnapShotSynchronizer → Bool
all_completed s = eqb (length s.completed_symbols) s.total_symbols

-- `_handle_snapshot_info`
abbrev pub begin_symbol : SnapshotInfo → SnapShotSynchronizer → SnapShotSynchronizer
begin_symbol body s = record s {
  completed_symbols = set_remove body.symbol s.completed_symbols;
  snap_state =
      insert body.symbol
        (record {
          ask_count = body.ask_count;
          bid_count = body.bid_count;
          last_md_seq_num = body.last_md_seq_num;
          orders_received = 0;
          expected_total = body.ask_count + body.bid_count;
        })
        s.snap_state;
  last_snap_seq_num = max s.last_snap_seq_num body.last_md_seq_num;
}

unfoldable pub clear_book : ℕ → Action OrderBookManager Done
unfolding create_book in_book clear
clear_book symbol = modify (create_book symbol) >> in_book symbol (modify clear)

unfoldable pub handle_snapshot_info : SnapshotInfo → Action SnapShotSynchronizer Done
unfolding contains set_remove in_manager clear_book
handle_snapshot_info body s =
    if reaches_back s.live_buffer s.last_snap_seq_num
      && contains body.symbol s.completed_symbols
      && all_completed s
    then (ok tt, record s { snap_complete = true })
    else in_manager (clear_book body.symbol) (begin_symbol body s)

-- `_handle_snapshot_order` from the count of the received orders on
unfoldable pub finish_symbol : ℕ → SnapState → Action SnapShotSynchronizer Done
unfolding set_add in_manager
finish_symbol symbol state = only_if (eqb state.orders_received state.expected_total) do
  modify (λ s. record s { completed_symbols = set_add symbol s.completed_symbols })
  in_manager (in_book symbol validate)
  modify (λ s. record s {
    snap_complete =
        if reaches_back s.live_buffer s.last_snap_seq_num && all_completed s
        then true
        else s.snap_complete;
  })

unfoldable pub count_order : ℕ → SnapState → Action SnapShotSynchronizer Done
unfolding finish_symbol
count_order symbol state = do
  let state' : SnapState = record state { orders_received = state.orders_received + 1 }
  modify (λ s. record s { snap_state = insert symbol state' s.snap_state })
  finish_symbol symbol state'

-- `_handle_snapshot_order` for a symbol that `_handle_snapshot_info` has begun; `completed` is
-- whether the symbol is completed already.
unfoldable pub receive_order :
    Bool → MdHeader → NewOrder → SnapState → Action SnapShotSynchronizer Done
unfolding in_manager count_order create_book in_book add_order
receive_order completed header body state = do
  raise_if completed Error.value_error
  in_manager (
      modify (λ m. record m {
        order_id_to_symbol = insert body.order_id body.symbol m.order_id_to_symbol;
      }))
  in_manager (modify (create_book body.symbol))
  in_manager (
      in_book body.symbol (
        add_order body.order_id body.symbol body.side (pos body.quantity) body.price
          header.timestamp))
  count_order body.symbol state

unfoldable pub handle_snapshot_order : MdHeader → NewOrder → Action SnapShotSynchronizer Done
unfolding contains receive_order
handle_snapshot_order header body s = elim (lookup body.symbol s.snap_state) [
  | none ↦ (ok tt, reset_for_resnap s)
  | some state ↦ receive_order (contains body.symbol s.completed_symbols) header body state s
]

unfoldable pub handle_snapshot_message : MdHeader → Message → Action SnapShotSynchronizer Done
handle_snapshot_message header (Message.snapshot_info body) =
    if eq_msg_type header.msg_type MsgType.snapshot_info then handle_snapshot_info body else pure tt
handle_snapshot_message header (Message.new_order body) =
    if eq_msg_type header.msg_type MsgType.new_order
    then handle_snapshot_order header body
    else pure tt
handle_snapshot_message header _ = pure tt

-- `sorted(self.live_buffer, key=lambda x: x[0].seq_num)`, which is stable
unfoldable pub sort_in : Item → List Item → List Item
sort_in x [] = x ∷ []
sort_in x (y ∷ ys) = if leb x.0.seq_num y.0.seq_num then x ∷ y ∷ ys else y ∷ sort_in x ys

unfoldable pub sort_buffer : List Item → List Item
unfolding sort_in
sort_buffer [] = []
sort_buffer (x ∷ xs) = sort_in x (sort_buffer xs)

-- The loop that keeps the first item of each number; `seen` is `seen_seq`.
unfoldable pub dedup : List ℕ → List Item → List Item
unfolding contains
dedup seen [] = []
dedup seen (x ∷ xs) =
    let fresh = x ∷ dedup (x.0.seq_num ∷ seen) xs in
    let rest = dedup seen xs in if contains x.0.seq_num seen then rest else fresh

-- The replay loop; the result is `last_seq`. An exception of a dispatched message ends it.
unfoldable pub replay_loop : ℕ → ℕ → List Item → Action OrderBookManager ℕ
replay_loop last_snap last_seq [] = pure last_seq
replay_loop last_snap last_seq ((header, body) ∷ rest) =
    let skip = replay_loop last_snap last_seq rest in
    let replay =
      dispatch_live_message header body >>= λ _. replay_loop last_snap header.seq_num rest in
    if leb header.seq_num last_snap then skip else replay

-- `replay_buffered_messages` from the test for a gap on
unfoldable pub replay_items : List Item → Action SnapShotSynchronizer Done
unfolding replay_loop
replay_items [] s = (err Error.index_error, s)
replay_items ((header, body) ∷ rest) s =
    if ltb (s.last_snap_seq_num + 1) header.seq_num
    then (ok tt, reset_for_resnap s)
    else let (r, m) =
        replay_loop s.last_snap_seq_num s.last_snap_seq_num ((header, body) ∷ rest)
          s.book_manager in
      elim r [
        | err e ↦ (err e, record s { book_manager = m })
        | ok last_seq ↦ (
          ok tt,
          record s {
            book_manager = m;
            seq_tracker = expect (last_seq + 1);
            live_buffer = [];
            sync = true;
          },
        )
      ]

unfoldable pub replay_buffered_messages : Action SnapShotSynchronizer Done
unfolding sort_buffer dedup replay_items
replay_buffered_messages s = elim s.live_buffer [
  | [] ↦ (ok tt, reset_for_resnap s)
  | x ∷ xs ↦ replay_items (dedup [] (sort_buffer (x ∷ xs))) s
]
