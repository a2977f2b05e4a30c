-- ===== src/Client/Session.antt =====
-- The connection of src/order_entry.py: `_connect`, `_close`, `_send_raw`, `_parse_response`,
-- `_send_and_recv`, `login`. The exchange, the network and the clock are parameters.
use hft_trading_system.Protocol.Requests.{Login, OeRequestHeader}
use hft_trading_system.Prelude.{
  Action, Bool, Done, Error, List, Option, Result, [], eqb, err, false, gets, if◌then◌else◌, int_eq,
  length, lift, modify, nat_eq, none, not, ok, pure, raise, raise_if, some, suc, true, zero, ℕ,
  ◌++◌, ◌+◌, ◌∷◌,
}
use hft_trading_system.Client.Blocks.{◌>>=◌, ◌>>◌}
use hft_trading_system.Struct.{Bytes, calcsize}
use hft_trading_system.Protocol.Enums.{login_statuses, member_of, msg_types}
use hft_trading_system.Protocol.Codec.{Kind, layout, pack_message, unpack_message}
use hft_trading_system.Protocol.Responses.{
  ErrorMessage, LoginResponse, OeResponseHeader, OrderAck, OrderClosed, OrderFill, OrderReject,
}
use hft_trading_system.Client.{OrderEntryClient, accept_header, make_header}
use hft_trading_system.Client.Wire.{chunk, pause, Event, Socket, recv_message}

-- What the client uses of the outside, whose state is X. A message that is sent brings what arrives
-- on the socket from then on, before the next is sent; both may raise.
pub record Venue (X : Type 0) : Type 0 where
  pub connect : Action X (List Event)
  pub sendall : Bytes → Action X (List Event)
  pub clock : X → ℕ
  pub sleep : (milliseconds : ℕ) → X → X

-- The client with its credentials and its socket, and the outside
pub record Session (X : Type 0) : Type 0 where
  pub client : OrderEntryClient
  pub username : Bytes
  pub password : Bytes
  pub socket : Option Socket
  pub outside : X

-- What `_parse_response` returns: an object of the class that goes with the type of the message, and
-- the header alone where none does
pub data OeResponse : Type 0 where
  of_header : OeResponseHeader → OeResponse
  of_login_response : LoginResponse → OeResponse
  of_order_ack : OrderAck → OeResponse
  of_order_reject : OrderReject → OeResponse
  of_order_fill : OrderFill → OeResponse
  of_order_closed : OrderClosed → OeResponse
  of_error_message : ErrorMessage → OeResponse

abbrev parsed : {A : Type 0} → Result A → (A → OeResponse) → Result OeResponse
parsed (ok m) f = ok (f m)
parsed (err e) f = err e

-- The class of `dispatch`, and its `unpack`
unfoldable pub unpack_response : (msg_type : ℕ) → OeResponseHeader → Bytes → Result OeResponse
unfolding unpack_message
unpack_response msg_type hdr bytes =
    if eqb msg_type 100
    then parsed (unpack_message Kind.login_response bytes) of_login_response
    else if eqb msg_type 101
    then parsed (unpack_message Kind.order_ack bytes) of_order_ack
    else if eqb msg_type 102
    then parsed (unpack_message Kind.order_reject bytes) of_order_reject
    else if eqb msg_type 103
    then parsed (unpack_message Kind.order_fill bytes) of_order_fill
    else if eqb msg_type 104
    then parsed (unpack_message Kind.order_closed bytes) of_order_closed
    else if eqb msg_type 105
    then parsed (unpack_message Kind.error_message bytes) of_error_message
    else ok (of_header hdr)

-- The classes of exceptions below `OSError`, which is `socket.error`
abbrev pub is_os_error : Error → Bool
is_os_error Error.blocking_io_error = true
is_os_error Error.connection_error = true
is_os_error Error.permission_error = true
is_os_error _ = false

-- What is to be read, with one for each event
abbrev pub inbox_size : List Event → ℕ
inbox_size [] = 0
inbox_size (chunk bs ∷ es) = suc (length bs) + inbox_size es
inbox_size (pause ∷ es) = suc (inbox_size es)

abbrev pub ends_exchange : OeResponse → Bool
ends_exchange (of_order_reject m) = true
ends_exchange (of_error_message m) = true
ends_exchange _ = false

module _ {X : Type 0} where
  -- A method of the client that does not touch the socket
  abbrev pub on_client : {A : Type 0} → Action OrderEntryClient A → Action (Session X) A
  on_client m s = let (r, c) = m s.client in (r, record s { client = c })

  abbrev on_socket : {A : Type 0} → Action Socket A → Socket → Action (Session X) A
  on_socket m k s = let (r, k') = m k in (r, record s { socket = some k' })

  -- A use of the socket after `assert self.socket is not None`
  unfoldable pub with_socket : {A : Type 0} → Action Socket A → Action (Session X) A
  with_socket m s = elim s.socket [
    | none ↦ (err Error.assertion_error, s)
    | some k ↦ on_socket m k s
  ]

  unfoldable pub setblocking : Bool → Action (Session X) Done
  unfolding with_socket
  setblocking blocking = with_socket (modify (λ k. record k { blocking = blocking }))

  unfoldable pub parse_response : Bytes → Action (Session X) OeResponse
  unfolding unpack_response accept_header unpack_message
  parse_response bytes = do
    hdr ← lift (unpack_message Kind.oe_response_header bytes)
    on_client (accept_header hdr)
    msg_type ← lift (member_of msg_types hdr.msg_type)
    lift (unpack_response msg_type hdr bytes)

  unfoldable pub receive : Action (Session X) OeResponse
  unfolding with_socket recv_message parse_response
  receive = do bytes ← with_socket recv_message; parse_response bytes

  abbrev pub inbox_of : Session X → List Event
  inbox_of s = elim s.socket [ none ↦ [] | some k ↦ k.inbox ]

  -- The loop that reads what has come besides the first response, on fuel. `rest` is bound, so that
  -- it waits for the test.
  unfoldable pub drain : ℕ → Action (Session X) (List OeResponse)
  unfolding receive
  drain zero s = (ok [], s)
  drain (suc fuel) s =
      let (r, s1) = receive s in
      elim r [
        | err e ↦ (if is_os_error e then ok [] else err e, s1)
        | ok m ↦ (do ms ← drain fuel; pure (m ∷ ms)) s1
      ]

  -- `try: … finally: self.socket.setblocking(True)`
  unfoldable pub drain_all : Action (Session X) (List OeResponse)
  unfolding drain setblocking
  drain_all s =
      let (r, s1) = drain (suc (inbox_size (inbox_of s))) s in
      let (r1, s2) = setblocking true s1 in elim r1 [ ok _ ↦ (r, s2) | err e ↦ (err e, s2) ]

  unfoldable pub close : Session X → Session X
  close s = record s { socket = none }

  abbrev login_request : OeRequestHeader → Session X → Login
  login_request h s = record { header = h; username = s.username; password = s.password }

  -- The checks of `login` on the response
  unfoldable pub accept_login : OeResponse → Action (Session X) LoginResponse
  accept_login (of_login_response resp) = do
    status ← lift (member_of login_statuses resp.status)
    raise_if (not (eqb status 0)) Error.permission_error
    on_client (modify (λ c. record c { session_id = resp.session_id }))
    pure resp
  accept_login _ = raise Error.permission_error

module _ {X : Type 0} (v : Venue X) where
  unfoldable pub send_raw : Bytes → Action (Session X) Done
  send_raw bytes s = elim s.socket [
    | none ↦ (err Error.assertion_error, s)
    | some k ↦
        let (r, x) = v.sendall bytes s.outside in
        elim r [
          | err e ↦ (err e, record s { outside = x })
          | ok es ↦
              (ok tt, record s { socket = some (record k { inbox = k.inbox ++ es }); outside = x })
        ]
  ]

  unfoldable pub send_and_recv : Bytes → Action (Session X) (List OeResponse)
  unfolding send_raw setblocking receive drain_all
  send_and_recv msg = do
    send_raw msg
    setblocking true
    first ← receive
    if ends_exchange first
        then pure (first ∷ [])
        else (do setblocking false; more ← drain_all; pure (first ∷ more))

  unfoldable pub connect_socket : Action (Session X) Done
  unfolding close
  connect_socket s =
      let (r, x) = v.connect s.outside in
      elim r [
        | err e ↦ (err e, record s { socket = none; outside = x })
        | ok es ↦ (
          ok tt,
          record s { socket = some (record { blocking = true; inbox = es }); outside = x },
        )
      ]

  unfoldable pub login : Action (Session X) LoginResponse
  unfolding make_header pack_message send_raw receive accept_login
  login = do
    header ← on_client (make_header 99 (calcsize (layout Kind.login).format))
    msg ← gets (login_request header)
    bytes ← lift (pack_message Kind.login msg)
    send_raw bytes
    resp ← receive
    accept_login resp
