-- ===== src/Router/Stream.antt =====
-- `_process_buffer` of src/main.py on a stream of packets.
use mathlib.Core.Path.{subst}
use mathlib.Core.List.{append_assoc, append-nil}
use hft_trading_system.Prelude.{
  >>=-err, >>=-ok, Action, All, Bool, List, Option, Result-cases, [], ap, arith, drop, drop-append,
  false, inl, inr, int_eq, length, length-append, ltb, nat_eq, ok, pure, refl, some, suc, sym, take,
  take-append, true, zero, ℕ, ◌++◌, ◌<◌, ◌>>=◌, ◌∙◌, ◌∷◌, ◌≡◌, ◌≤◌,
}
use hft_trading_system.MarketData.{Message, side_eq}
use hft_trading_system.Struct.{Bytes, encode_all}
use hft_trading_system.Struct.RoundTrip.{length-encode_all}
use hft_trading_system.Parser.{header_format, parse_message, read_header}
use hft_trading_system.Parser.Feed.{
  IsSendable, body_format, body_values, datagram, header_of, header_values, kind_of,
  parse_message-datagram, read_header-datagram,
}
use hft_trading_system.Snapshot.{SnapShotSynchronizer}
use hft_trading_system.Router.{process_buffer, route}
use hft_trading_system.Router.Loop.{next_round, process_buffer-round}

-- A message as the feed sends it: the header gives the length of the packet.
pub record IsFramed (m : Message) : Type 0 where
  pub sendable : IsSendable m
  pub framed : (header_of m).length ≡ length (datagram m)

take-take : (n : ℕ) (bs : Bytes) → take n (take n bs) ≡ take n bs
take-take zero bs = refl
take-take (suc n) [] = refl
take-take (suc n) (b ∷ bs) = ap (λ r. b ∷ r) (take-take n bs)

pub read_header-take : (bs : Bytes) → read_header (take 23 bs) ≡ read_header bs
unfolding read_header
read_header-take bs = rw (take-take 23 bs) refl

header-datagram :
    (m : Message) (rest : Bytes)
    → IsSendable m
    → read_header (take 23 (datagram m ++ rest)) ≡ ok (header_of m)
unfolding datagram
header-datagram m rest sendable =
    let head = encode_all header_format (header_values (header_of m)) in
    let body = encode_all (body_format (kind_of m)) (body_values m) in
    read_header-take (head ++ body ++ rest)
    ∙ ap read_header (append_assoc head body rest)
    ∙ read_header-datagram (header_of m) (body ++ rest) sendable.header_fits

long-datagram : (m : Message) → 23 ≤ length (datagram m)
unfolding datagram
long-datagram m =
    let head = encode_all header_format (header_values (header_of m)) in
    let body = encode_all (body_format (kind_of m)) (body_values m) in
    omega (
      arith,
      length-append head body,
      length-encode_all header_format (header_values (header_of m)),
    )

parse-packet :
    (m : Message) (rest : Bytes)
    → IsFramed m
    → parse_message (take (header_of m).length (datagram m ++ rest)) ≡ ok m
parse-packet m rest framed =
    rw (framed.framed, take-append (datagram m) rest)
      (subst (λ x. parse_message x ≡ ok m) (append-nil (datagram m))
        (parse_message-datagram m [] framed.sendable))

-- The bytes of the messages, one after the other
abbrev pub stream : List Message → Bytes → Bytes
stream [] tail = tail
stream (m ∷ ms) tail = datagram m ++ stream ms tail

-- Each message is routed, until one breaks the loop off, which leaves the bytes behind it.
unfoldable pub deliver : List Message → Bytes → Action SnapShotSynchronizer (Option Bytes)
deliver [] tail = pure (some tail)
deliver (m ∷ ms) tail = route (header_of m) (ok m) >>= λ go. elim go [
  | true ↦ deliver ms tail
  | false ↦ pure (some (stream ms tail))
]

abbrev deliver_next : List Message → Bytes → Bool → Action SnapShotSynchronizer (Option Bytes)
deliver_next ms tail true = deliver ms tail
deliver_next ms tail false = pure (some (stream ms tail))

bind_same :
    {A B : Type 0} (act : Action SnapShotSynchronizer A) (f g : A → Action SnapShotSynchronizer B)
    (s : SnapShotSynchronizer)
    → ((a : A) (t : SnapShotSynchronizer) → f a t ≡ g a t)
    → (act >>= f) s ≡ (act >>= g) s
bind_same act f g s same = elim (Result-cases (act s).0) [
  | inl (a, e) ↦ >>=-ok act f s a e ∙ same a (act s).1 ∙ sym (>>=-ok act g s a e)
  | inr (c, e) ↦ >>=-err act f s c e ∙ sym (>>=-err act g s c e)
]

next_same :
    (ms : List Message) (tail : Bytes) (go : Bool) (t : SnapShotSynchronizer)
    → process_buffer (suc (length ms)) (stream ms tail) t ≡ deliver ms tail t
    → next_round (suc (length ms)) (stream ms tail) go t ≡ deliver_next ms tail go t
next_same ms tail true t same = same
next_same ms tail false t same = refl

-- A buffer of messages, each framed by its length, and of fewer bytes than a header behind them, is
-- cut into these messages: each is routed as it was sent, in order, until one breaks the loop off, and
-- the bytes behind the last are left.
pub process_buffer-stream :
    (ms : List Message) (tail : Bytes) (s : SnapShotSynchronizer)
    → All IsFramed ms
    → length tail < 23
    → process_buffer (suc (length ms)) (stream ms tail) s ≡ deliver ms tail s
unfolding process_buffer deliver
process_buffer-stream [] tail s framed short =
    let less : ltb (length tail) 23 ≡ true = ground arith in rw less refl
process_buffer-stream (m ∷ ms) tail s (framed, others) short =
    let rest = stream ms tail in
    let size = length-append (datagram m) rest in
    let enough = long-datagram m in
    let cut : drop (header_of m).length (datagram m ++ rest) ≡ rest =
      rw (framed.framed) (drop-append (datagram m) rest) in
    process_buffer-round (suc (length ms)) (datagram m ++ rest) (header_of m) s (omega arith)
      (header-datagram m rest framed.sendable) (omega (arith, framed.framed))
    ∙ ap
        (λ p.
          (route (header_of m) p
              >>= next_round (suc (length ms)) (drop (header_of m).length (datagram m ++ rest)))
            s)
        (parse-packet m rest framed)
    ∙ ap (λ r. (route (header_of m) (ok m) >>= next_round (suc (length ms)) r) s) cut
    ∙ bind_same (route (header_of m) (ok m)) (next_round (suc (length ms)) rest)
        (deliver_next ms tail) s
        (λ go t. next_same ms tail go t (process_buffer-stream ms tail t others short))
