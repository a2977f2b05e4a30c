-- ===== src/Snapshot/Replay.antt =====
-- `replay_buffered_messages` of src/order_book.py against a plain description.
use hft_trading_system.Prelude.{
  Action, All, Bool, Bool-cases, Done, List, Result, [], arith, eqb, eqb_iff, err, false,
  if◌then◌else◌, inl, inr, int_eq, leb, ltb, nat_eq, ok, pure, refl, true, ℕ, ◌+◌, ◌<◌, ◌>>◌, ◌∙◌,
  ◌∷◌, ◌≡◌, ◌≢◌, ◌≤◌,
}
use hft_trading_system.BookManager.{OrderBookManager, dispatch_live_message}
use hft_trading_system.Sequence.{expect}
use hft_trading_system.Snapshot.{
  Item, SnapShotSynchronizer, contains, dedup, replay_buffered_messages, replay_items, replay_loop,
  reset_for_resnap, sort_buffer,
}
use hft_trading_system.Snapshot.Buffer.{
  IsAscending, Stands, replay_items_stand, replay_order, seq, seqs,
}
use hft_trading_system.MarketData.{side_eq}

-- The messages after the snapshot
unfoldable pub after : ℕ → List Item → List Item
after snap [] = []
after snap (x ∷ xs) = let rest = after snap xs in if leb (seq x) snap then rest else x ∷ rest

-- Dispatch in order, up to an exception
unfoldable pub dispatch_all : List Item → Action OrderBookManager Done
dispatch_all [] = pure tt
dispatch_all ((header, body) ∷ xs) = dispatch_live_message header body >> dispatch_all xs

-- The last number of a list, if it has one
unfoldable pub last_seq : ℕ → List Item → ℕ
last_seq n [] = n
last_seq n (x ∷ xs) = last_seq (seq x) xs

abbrev with_last : ℕ → Result Done × OrderBookManager → Result ℕ × OrderBookManager
with_last n (ok _, m) = (ok n, m)
with_last n (err e, m) = (err e, m)

replay_loop_lem :
    (snap last : ℕ) (xs : List Item) (m : OrderBookManager)
    → replay_loop snap last xs m
      ≡ with_last (last_seq last (after snap xs)) (dispatch_all (after snap xs) m)
unfolding replay_loop after dispatch_all last_seq
replay_loop_lem snap last [] m = refl
replay_loop_lem snap last ((header, body) ∷ xs) m = elim (Bool-cases (leb header.seq_num snap)) [
  | inl old ↦ rw old (replay_loop_lem snap last xs m)
  | inr new ↦
      let ih = replay_loop_lem snap header.seq_num xs (dispatch_live_message header body m).1 in
      rw new (ground arith)
]

-- What the replay leaves: nothing, if messages are missing between the snapshot and the buffer; else
-- the books after the messages that the snapshot does not hold, and the number to expect next.
abbrev pub replayed : List Item → SnapShotSynchronizer → Result Done × SnapShotSynchronizer
replayed xs s =
    let snap = s.last_snap_seq_num in
    let (r, m) = dispatch_all (after snap xs) s.book_manager in
    elim r [
      | err e ↦ (err e, record s { book_manager = m })
      | ok _ ↦ (
        ok tt,
        record s {
          book_manager = m;
          seq_tracker = expect (last_seq snap (after snap xs) + 1);
          live_buffer = [];
          sync = true;
        },
      )
    ]

abbrev pub gap_before : List Item → ℕ → Bool
gap_before [] snap = true
gap_before (x ∷ xs) snap = ltb (snap + 1) (seq x)

-- The items of the buffer, each number once and in order
abbrev pub in_order : List Item → List Item
in_order buffer = dedup [] (sort_buffer buffer)

in_order_nonempty : (x : Item) (xs : List Item) → in_order (x ∷ xs) ≢ []
unfolding contains
in_order_nonempty x xs e =
    let same = (replay_order (x ∷ xs)).1 (seq x) in
    let none_left : contains (seq x) (seqs (in_order (x ∷ xs))) ≡ false = rw e refl in
    ground (arith, eqb_iff (seq x) (seq x))

replay_items_lem :
    (xs : List Item) (s : SnapShotSynchronizer)
    → xs ≢ []
    → replay_items xs s
      ≡ (if gap_before xs s.last_snap_seq_num then (ok tt, reset_for_resnap s) else replayed xs s)
unfolding replay_items
replay_items_lem [] s h = absurd (h refl)
replay_items_lem (x ∷ xs) s h =
    let loop = replay_loop_lem s.last_snap_seq_num s.last_snap_seq_num (x ∷ xs) s.book_manager in
    ground arith

replay_from :
    (buffer : List Item) (s : SnapShotSynchronizer)
    → (elim buffer [
      | [] ↦ (ok tt, reset_for_resnap s)
      | y ∷ ys ↦ replay_items (in_order (y ∷ ys)) s
    ])
      ≡ (if gap_before (in_order buffer) s.last_snap_seq_num
          then (ok tt, reset_for_resnap s)
          else replayed (in_order buffer) s)
unfolding sort_buffer dedup
replay_from [] s = refl
replay_from (y ∷ ys) s = replay_items_lem (in_order (y ∷ ys)) s (in_order_nonempty y ys)

replay_lem :
    (s : SnapShotSynchronizer)
    → replay_buffered_messages s ≡ (
        if gap_before (in_order s.live_buffer) s.last_snap_seq_num
        then (ok tt, reset_for_resnap s)
        else replayed (in_order s.live_buffer) s)
unfolding replay_buffered_messages
replay_lem s = replay_from s.live_buffer s

-- The replay goes through items of the buffer, whose numbers are strictly ascending and exactly the
-- numbers that the buffer has. If there are none, or the first is past the message after the
-- snapshot, it starts the resynchronisation anew; else each of them that the snapshot does not hold
-- is dispatched, up to the first exception; if there is none, the synchroniser is in sync, its
-- buffer is empty, and the tracker expects the number after the last.
pub replay_buffered_messages_lem :
    (s : SnapShotSynchronizer)
    → let xs = in_order s.live_buffer in
      (replay_buffered_messages s ≡ (
        if gap_before xs s.last_snap_seq_num then (ok tt, reset_for_resnap s) else replayed xs s))
      × IsAscending xs
      × ((n : ℕ) → contains n (seqs xs) ≡ contains n (seqs s.live_buffer))
      × All (Stands s.live_buffer) xs
replay_buffered_messages_lem s =
    let (ascending, same) = replay_order s.live_buffer in
    (replay_lem s, ascending, same, replay_items_stand s.live_buffer)

lowest :
    (n : ℕ) (x : Item) (xs : List Item)
    → All (λ y. seq x < seq y) xs
    → contains n (seqs (x ∷ xs)) ≡ true
    → seq x ≤ n
unfolding contains
lowest n x [] a h = ground (arith, eqb_iff (seq x) n)
lowest n x (y ∷ ys) a h = elim (Bool-cases (eqb (seq y) n)) [
  | inl here ↦ ground (arith, eqb_iff (seq y) n, a.0)
  | inr there ↦ lowest n x ys a.1 (ground arith)
]

lowest_first :
    (n : ℕ) (xs : List Item)
    → IsAscending xs
    → contains n (seqs xs) ≡ true
    → (x : Item) × (rest : List Item) × (xs ≡ x ∷ rest) × (seq x ≤ n)
unfolding contains
lowest_first n [] a h = absurd (grind arith)
lowest_first n (x ∷ xs) a h = (x, xs, refl, lowest n x xs a.0 h)

-- A buffer that holds the message after the snapshot, or an earlier one, begins early enough.
pub no_gap_before :
    (n snap : ℕ) (buffer : List Item)
    → contains n (seqs buffer) ≡ true
    → n ≤ snap + 1
    → gap_before (in_order buffer) snap ≡ false
no_gap_before n snap buffer h le =
    let (ascending, same) = replay_order buffer in
    let (x, rest, e, below) = lowest_first n (in_order buffer) ascending (same n ∙ h) in
    rw e (ground (arith, below, le))
