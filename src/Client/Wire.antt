-- ===== src/Client/Wire.antt =====
-- The framing of src/order_entry.py: `_recv_exact` and `_recv_message` over what arrives on the
-- socket, which is given as the pieces and pauses in which it comes.
use hft_trading_system.Prelude.{
  Action, Bool, Error, List, Result, [], drop, eqb, err, if◌then◌else◌, int_eq, leb, length, ltb,
  nat_eq, ok, pure, raise, suc, take, zero, ℕ, ◌++◌, ◌-◌, ◌>>=◌, ◌∷◌,
}
use hft_trading_system.Struct.{Bytes, calcsize, from_bytes}
use hft_trading_system.Protocol.Responses.{oe_response_header_layout}

-- Some bytes, of which none says that the other side has closed; or a time in which nothing is there
pub data Event : Type 0 where
  chunk : Bytes → Event
  pause : Event

-- `self.socket`: whether it blocks, and what is still to be read
pub record Socket : Type 0 where
  pub blocking : Bool
  pub inbox : List Event

-- `_recv_exact`, with `buf` read and `missing` bytes to go. At the end of the list nothing more comes
-- before the client sends again: a read that does not block raises, and one that does ends with the
-- connection.
unfoldable pub read : Bool → (missing : ℕ) → (buf : Bytes) → List Event → Result Bytes × List Event
read blocking zero buf es = (ok buf, es)
read blocking (suc n) buf [] =
    (err (if blocking then Error.connection_error else Error.blocking_io_error), [])
read blocking (suc n) buf (pause ∷ es) =
    if blocking then read blocking (suc n) buf es else (err Error.blocking_io_error, es)
read blocking (suc n) buf (chunk [] ∷ es) = (err Error.connection_error, chunk [] ∷ es)
read blocking (suc n) buf (chunk (b ∷ bs) ∷ es) =
    if leb (length (b ∷ bs)) (suc n)
    then read blocking (suc n - length (b ∷ bs)) (buf ++ b ∷ bs) es
    else (ok (buf ++ take (suc n) (b ∷ bs)), chunk (drop (suc n) (b ∷ bs)) ∷ es)

unfoldable pub recv_exact : ℕ → Action Socket Bytes
unfolding read
recv_exact n s = let (r, es) = read s.blocking n [] s.inbox in (r, record s { inbox = es })

abbrev pub resp_hdr_size : ℕ
resp_hdr_size = calcsize oe_response_header_layout.format

-- `_recv_message` once it has the header
unfoldable pub recv_rest : Bytes → Action Socket Bytes
unfolding recv_exact from_bytes
recv_rest hdr_bytes =
    let total_length = from_bytes (take 2 hdr_bytes) in
    if ltb total_length resp_hdr_size
    then raise Error.value_error
    else if eqb total_length resp_hdr_size
    then pure hdr_bytes
    else (do rest ← recv_exact (total_length - resp_hdr_size); pure (hdr_bytes ++ rest))

unfoldable pub recv_message : Action Socket Bytes
unfolding recv_exact recv_rest
recv_message = do hdr_bytes ← recv_exact resp_hdr_size; recv_rest hdr_bytes
