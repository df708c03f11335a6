-- ===== src/Net/Listener.antt =====
-- src/net/listener.hpp, as it is compiled outside Windows: the options, and the listener of sockets. A path and an
-- address are lists of characters.
pub mod Owning
pub mod Keeping
pub mod Steps
pub mod Reaching
pub mod Failing
pub mod Options
use fcgi.Prelude.{
  ℕ, ◌-◌, ◌^◌, Bool, true, false, not, ◌||◌, List, Option, none, some, ltb, ◌==◌, if◌then◌else◌,
}
use Prim.Native.Nat.{bit_and}
use fcgi.Outcome.{
  M, ok, threw, terminated, undefined, stuck, pure, throw, guard, assert, state, modify, ◌>>=◌,
  ◌>>◌, invalid_port, invalid_backlog, bad_optional_access, cannot_reuse_address, cannot_listen,
  not_listening, invalid_timeout, cannot_accept, cannot_close_socket,
}
use fcgi.Net.Endpoint.{Endpoint, uds, net, communication_mode, make_uds_endpoint, make_net_endpoint}
use fcgi.Net.Address.{Inet, is_positive, ipv4, local, from_text, make_tcp_address, make_uds_address}
use fcgi.Net.Os.{Os, call, is_nonneg64}
use fcgi.Net.Socket.{
  Guarded, is_socket_valid, invalid_socket, sock_stream, ipproto_tcp, read_ready, close_guard,
  destroy, move_assign, make_socket, bind_socket, poll,
}

pub record ListenerOptions : Type 0 where
  pub endpoint : Endpoint
  pub backlog : Option ℕ

abbrev pub is_options_ok : ListenerOptions → Bool
is_options_ok o = elim o.backlog [ none ↦ false | some n ↦ true ]

unfoldable pub make_uds_options : {S : Type 0} → List ℕ → ℕ → M S ListenerOptions
make_uds_options path backlog = do
  e ← make_uds_endpoint path
  guard (is_positive backlog) invalid_backlog
  assert (is_options_ok (record { endpoint = e; backlog = some backlog }))
  pure (record { endpoint = e; backlog = some backlog })

unfoldable pub make_net_options : {S : Type 0} → List ℕ → ℕ → ℕ → M S ListenerOptions
make_net_options address port backlog = do
  e ← make_net_endpoint address port
  guard (is_positive port) invalid_port
  guard (is_positive backlog) invalid_backlog
  assert (is_options_ok (record { endpoint = e; backlog = some backlog }))
  pure (record { endpoint = e; backlog = some backlog })

-- A listener in the world.
pub record Listener (W : Type 0) : Type 0 where
  pub options : ListenerOptions
  pub socket : ℕ
  pub world : W

abbrev pub is_listening : {W : Type 0} → Listener W → Bool
is_listening l = is_socket_valid l.socket

-- A call that does not change the guard, and one that does.
abbrev pub on_world : {W A : Type 0} → M W A → M (Listener W) A
on_world m l = elim (m l.world) [
  | ok a w ↦ ok a (record l { world = w })
  | threw e w ↦ threw e (record l { world = w })
  | terminated ↦ terminated
  | undefined ↦ undefined
  | stuck ↦ stuck
]

abbrev pub on_guard : {W A : Type 0} → M (Guarded W) A → M (Listener W) A
on_guard m l = elim (m (record { socket = l.socket; world = l.world })) [
  | ok a g ↦ ok a (record { options = l.options; socket = g.socket; world = g.world })
  | threw e g ↦ threw e (record { options = l.options; socket = g.socket; world = g.world })
  | terminated ↦ terminated
  | undefined ↦ undefined
  | stuck ↦ stuck
]

-- `*o` is undefined for an empty optional, `o.value()` throws.
abbrev pub deref : {S A : Type 0} → Option A → M S A
deref none s = undefined
deref (some a) s = ok a s

abbrev pub value_of : {S A : Type 0} → Option A → M S A
value_of none s = threw bad_optional_access s
value_of (some a) s = ok a s

-- `Listener::make`; nothing is to be initialized outside Windows.
unfoldable pub make_listener : {W : Type 0} → ListenerOptions → M W (Listener W)
make_listener options w = elim (communication_mode options.endpoint) [
  | uds ↦ ok (record { options = options; socket = invalid_socket; world = w }) w
  | net ↦ ok (record { options = options; socket = invalid_socket; world = w }) w
]

module _ {W : Type 0} (os : Os W) (inet : Inet) where
  unfoldable pub tcp_create_bind : M (Listener W) (Unit {0})
  tcp_create_bind = do
    l ← state
    s ← on_world (make_socket os ipv4 sock_stream ipproto_tcp)
    on_guard (move_assign os s)
    r ← on_world (call (os.set_reuse_address s))
    guard (r == 0) cannot_reuse_address
    address ← deref l.options.endpoint.net_address
    ip ← from_text inet address
    port ← deref l.options.endpoint.net_port
    on_world (bind_socket os s (make_tcp_address ip port))

  unfoldable pub uds_create_bind : M (Listener W) (Unit {0})
  uds_create_bind = do
    l ← state
    s ← on_world (make_socket os local sock_stream ipproto_tcp)
    on_guard (move_assign os s)
    path ← value_of l.options.endpoint.uds_path
    address ← make_uds_address path
    on_world (bind_socket os s address)

  abbrev pub create_bind : M (Listener W) (Unit {0})
  create_bind l = elim (communication_mode l.options.endpoint) [
    | net ↦ tcp_create_bind l
    | uds ↦ uds_create_bind l
  ]

  unfoldable pub listen : M (Listener W) (Unit {0})
  listen = do
    before ← state
    if is_listening before then pure tt else (do
      create_bind
      l ← state
      backlog ← deref l.options.backlog
      r ← on_world (call (os.listen l.socket backlog))
      guard (r == 0) cannot_listen)

  -- Milliseconds from -1 on.
  unfoldable pub wait : ℕ → M (Listener W) Bool
  wait timeout = do
    l ← state
    guard (is_listening l) not_listening
    guard (is_nonneg64 timeout || timeout == 2 ^ 64 - 1) invalid_timeout
    mask ← on_world (poll os l.socket read_ready timeout)
    pure (not (bit_and mask read_ready == 0))

  -- The guard of the accepted connection, which becomes a descriptor's.
  unfoldable pub accept_socket : M (Listener W) ℕ
  accept_socket = do
    l ← state
    guard (is_listening l) not_listening
    sock ← on_world (call (os.accept l.socket))
    if is_socket_valid sock then pure sock else (on_world (destroy os sock) >> throw cannot_accept)

  unfoldable pub close_listener : M (Listener W) (Unit {0})
  close_listener = do r ← on_guard (close_guard os); guard (r == 0) cannot_close_socket

  unfoldable pub net_deinitialize : Listener W → W
  net_deinitialize l = elim (communication_mode l.options.endpoint) [
    | net ↦ l.world
    | uds ↦ elim l.options.endpoint.uds_path [ none ↦ l.world | some path ↦ os.unlink path l.world ]
  ]

  -- The destructor of the guard `socket_`, behind the body of the listener's.
  abbrev pub destroy_guard : ℕ → W → W
  destroy_guard socket w = elim (close_guard os (record { socket = socket; world = w })) [
    | ok r g ↦ g.world
    | threw e g ↦ g.world
    | terminated ↦ w
    | undefined ↦ w
    | stuck ↦ w
  ]

  -- The destructor, which closes the socket and then destroys its guard, which closes again what could not be closed.
  unfoldable pub destroy_listener : Listener W → W
  destroy_listener l = elim (on_guard (close_guard os) l) [
    | ok r k ↦ destroy_guard k.socket (net_deinitialize k)
    | threw e k ↦ k.world
    | terminated ↦ l.world
    | undefined ↦ l.world
    | stuck ↦ l.world
  ]
