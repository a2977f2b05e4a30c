-- ===== src/Protocol/RoundTrip.antt =====
-- `pack` and then `unpack` of the messages of src/order_entry_protocol.py.
use mathlib.Core.Path.{subst}
use hft_trading_system.Prelude.{
  Error, [], arith, err, int_eq, length, nat_eq, ok, refl, suc, take, true, zero, ℕ, ◌++◌, ◌<◌, ◌∷◌,
  ◌≡◌, ◌≤◌,
}
use hft_trading_system.Struct.{Bytes, calcsize, fits_all, ljust}
use hft_trading_system.Struct.RoundTrip.{
  length-ljust, ljust-full, on_wire_all, unpack-pack, unpack-short,
}
use hft_trading_system.Protocol.Codec.{Content, Kind, layout, pack_message, unpack_message}

-- A message whose fields are in the range of their wire types
abbrev pub IsPackable : (k : Kind) → Content k → Type 0
IsPackable k m = fits_all (layout k).format ((layout k).fields m) ≡ true

-- What arrives: names and texts come padded with zeros, or cut, to their width.
abbrev pub as_received : (k : Kind) → Content k → Content k
as_received Kind.oe_request_header m = m
as_received Kind.login m = record m {
  username = ljust 16 m.username;
  password = ljust 16 m.password;
}
as_received Kind.new_order m = m
as_received Kind.delete_order m = m
as_received Kind.modify_order m = m
as_received Kind.oe_response_header m = m
as_received Kind.login_response m = m
as_received Kind.order_ack m = m
as_received Kind.order_reject m = m
as_received Kind.order_fill m = m
as_received Kind.order_closed m = m
as_received Kind.error_message m = record m { error_message = ljust 32 m.error_message }

pub length-take_shorter : (n : ℕ) (bs : Bytes) → length (take n bs) ≤ length bs
length-take_shorter zero bs = omega arith
length-take_shorter (suc n) [] = omega arith
length-take_shorter (suc n) (b ∷ bs) = omega (arith, length-take_shorter n bs)

ljust-ljust : (n : ℕ) (bs : Bytes) → ljust n (ljust n bs) ≡ ljust n bs
ljust-ljust n bs =
    subst (λ k. ljust k (ljust n bs) ≡ ljust n bs) (length-ljust n bs) (ljust-full (ljust n bs))

build-fields :
    (k : Kind) (m : Content k)
    → (layout k).build (on_wire_all (layout k).format ((layout k).fields m)) ≡ as_received k m
build-fields Kind.oe_request_header m = refl
build-fields Kind.login m = rw (ljust-ljust 16 m.username, ljust-ljust 16 m.password) refl
build-fields Kind.new_order m = refl
build-fields Kind.delete_order m = refl
build-fields Kind.modify_order m = refl
build-fields Kind.oe_response_header m = refl
build-fields Kind.login_response m = refl
build-fields Kind.order_ack m = refl
build-fields Kind.order_reject m = refl
build-fields Kind.order_fill m = refl
build-fields Kind.order_closed m = refl
build-fields Kind.error_message m = rw (ljust-ljust 32 m.error_message) refl

-- A message of any of the classes whose fields are in range packs without error, and unpacking a
-- buffer that begins with its bytes gives the message back, its names and texts padded or cut to
-- their width.
pub unpack_message-pack_message :
    (k : Kind) (m : Content k) (rest : Bytes)
    → IsPackable k m
    → (sent : Bytes) × (pack_message k m ≡ ok sent)
      × (length sent ≡ calcsize (layout k).format)
      × (unpack_message k (sent ++ rest) ≡ ok (as_received k m))
unfolding pack_message unpack_message
unpack_message-pack_message k m rest h =
    let (sent, packed, long, back) = unpack-pack (layout k).format ((layout k).fields m) rest h in
    (sent, packed, long, rw (back, unpack_message, build-fields k m) refl)

-- A buffer shorter than the message raises `struct.error`, whatever the class.
pub unpack_message-short :
    (k : Kind) (bytes : Bytes)
    → length bytes < calcsize (layout k).format
    → unpack_message k bytes ≡ err Error.struct_error
unfolding unpack_message
unpack_message-short k bytes h =
    rw
      (
        unpack-short (layout k).format (take (calcsize (layout k).format) bytes)
            (λ e. omega (arith, length-take_shorter (calcsize (layout k).format) bytes, e)),
        unpack_message,
      )
      refl
