-- ===== src/Net/Socket.antt =====
-- src/net/socket.hpp: the readiness of a socket, Socket_guard, and the functions on sockets.
pub mod Polling
pub mod Leaving
pub mod Timeouts
use Prim.Native.Nat.{bit_and, bit_or, bit_xor}
use fcgi.Prelude.{
  ℕ, ◌+◌, ◌-◌, ◌*◌, ◌/◌, ◌%◌, ◌^◌, min, Bool, true, false, not, ◌&&◌, Option, none, some, ltb, leb,
  ◌==◌, if◌then◌else◌,
}
use fcgi.Outcome.{
  M, ok, threw, terminated, undefined, stuck, pure, throw, guard, state, ◌>>=◌, ◌>>◌,
  cannot_create_socket, cannot_bind_socket, cannot_connect_socket, cannot_poll_invalid_socket,
  cannot_poll_socket,
}
use fcgi.Net.Address.{ProtocolFamily, SocketAddress}
use fcgi.Net.Os.{Os, Sets, Timeval, call, is_nonneg, is_nonneg64}

-- A value of Socket_readiness is the number of its underlying int, the operators are those of util/enum_bitmask.hpp.
abbrev pub SocketReadiness : Type 0
SocketReadiness = ℕ

abbrev pub unready : SocketReadiness
unready = 0

abbrev pub read_ready : SocketReadiness
read_ready = 2

abbrev pub write_ready : SocketReadiness
write_ready = 4

abbrev pub exceptions : SocketReadiness
exceptions = 8

-- -1
abbrev pub invalid_socket : ℕ
invalid_socket = 4294967295

abbrev pub is_socket_valid : ℕ → Bool
is_socket_valid socket = is_nonneg socket

abbrev pub is_socket_error : ℕ → Bool
is_socket_error function_result = not (is_nonneg function_result)

abbrev pub sock_stream : ℕ
sock_stream = 1

abbrev pub ipproto_tcp : ℕ
ipproto_tcp = 6

-- A Socket_guard in the world.
pub record Guarded (W : Type 0) : Type 0 where
  pub socket : ℕ
  pub world : W

-- FD_SET and FD_ISSET are undefined for a socket from FD_SETSIZE on.
abbrev pub fd_setsize : ℕ
fd_setsize = 1024

abbrev pub fd_set : {W : Type 0} → ℕ → Bool → M W Bool
fd_set socket false w = ok false w
fd_set socket true w = if ltb socket fd_setsize then ok true w else undefined

-- `if (FD_ISSET(socket, &set)) result |= flag;`
abbrev pub fd_isset :
    {W : Type 0} → ℕ → Bool → SocketReadiness → SocketReadiness → M W SocketReadiness
fd_isset socket is_in_set flag result w =
    if ltb socket fd_setsize
    then ok (if is_in_set then bit_or result flag else result) w
    else undefined

-- No timeval stands for no timeout; milliseconds are signed, of 64 bits.
unfoldable pub timeval_of : ℕ → Option Timeval
timeval_of timeout =
    if is_nonneg64 timeout
    then some (record {
      tv_sec = min (timeout / 1000) (2 ^ 63 - 1);
      tv_usec = min ((timeout - min (timeout / 1000) (2 ^ 63 - 1) * 1000) * 1000) (2 ^ 63 - 1);
    })
    else none

module _ {W : Type 0} (os : Os W) where
  -- `Socket_guard::close`
  unfoldable pub close_guard : M (Guarded W) ℕ
  close_guard g =
      if g.socket == invalid_socket
      then ok 0 g
      else (let (result, w) = os.close g.socket g.world in
          ok result
            (record { socket = if result == 0 then invalid_socket else g.socket; world = w }))

  -- The destructor, which only prints an error.
  abbrev pub destroy : ℕ → M W (Unit {0})
  destroy socket w = elim (close_guard (record { socket = socket; world = w })) [
    | ok r g ↦ ok tt g.world
    | threw e g ↦ threw e g.world
    | terminated ↦ terminated
    | undefined ↦ undefined
    | stuck ↦ stuck
  ]

  -- The move assignment from a temporary: what was guarded before is closed.
  unfoldable pub move_assign : ℕ → M (Guarded W) (Unit {0})
  move_assign rhs g = elim (destroy g.socket g.world) [
    | ok r w ↦ ok tt (record { socket = rhs; world = w })
    | threw e w ↦ threw e (record { socket = rhs; world = w })
    | terminated ↦ terminated
    | undefined ↦ undefined
    | stuck ↦ stuck
  ]

  unfoldable pub make_socket : ProtocolFamily → ℕ → ℕ → M W ℕ
  make_socket domain type protocol = do
    result ← call (os.socket domain type protocol)
    if is_socket_valid result then pure result else (destroy result >> throw cannot_create_socket)

  abbrev pub make_tcp_socket : ProtocolFamily → M W ℕ
  make_tcp_socket family = make_socket family sock_stream ipproto_tcp

  unfoldable pub bind_socket : ℕ → SocketAddress → M W (Unit {0})
  bind_socket socket addr = do r ← call (os.bind socket addr); guard (r == 0) cannot_bind_socket

  unfoldable pub connect_socket : ℕ → SocketAddress → M W (Unit {0})
  connect_socket socket addr = do
    r ← call (os.connect socket addr)
    guard (r == 0) cannot_connect_socket

  abbrev select_sets : ℕ → Sets → Option Timeval → M W (ℕ × Sets)
  select_sets socket sets tv w =
      let (r, answer, w') = os.select ((socket + 1) % 2 ^ 32) socket sets tv w in ok (r, answer) w'

  unfoldable pub poll : ℕ → SocketReadiness → ℕ → M W SocketReadiness
  poll socket mask timeout = do
    guard (is_socket_valid socket) cannot_poll_invalid_socket
    r ← fd_set socket (not (bit_and mask read_ready == 0))
    w ← fd_set socket (not (bit_and mask write_ready == 0))
    e ← fd_set socket (not (bit_and mask exceptions == 0))
    answer ←
        select_sets socket (record { read_mask = r; write_mask = w; except_mask = e })
          (timeval_of timeout)
    guard (not (is_socket_error answer.0)) cannot_poll_socket
    if answer.0 == 0 then pure unready else (do
      a ← fd_isset socket answer.1.read_mask read_ready unready
      b ← fd_isset socket answer.1.write_mask write_ready a
      fd_isset socket answer.1.except_mask exceptions b)
