-- ===== src/Net/Client.antt =====
-- src/net/client.hpp, as it is compiled outside Windows.
pub mod Opening
use fcgi.Prelude.{ℕ, Bool, true, false, Option, none, some, List, if◌then◌else◌}
use fcgi.Outcome.{M, ok, threw, terminated, undefined, stuck, pure, ◌>>=◌, ◌>>◌}
use fcgi.Net.Endpoint.{Endpoint, uds, net, communication_mode, make_uds_endpoint, make_net_endpoint}
use fcgi.Net.Address.{
  Inet, SocketAddress, address_family, from_text, make_tcp_address, make_uds_address,
}
use fcgi.Net.Os.{Os}
use fcgi.Net.Socket.{make_tcp_socket, connect_socket, destroy}
use fcgi.Net.Listener.{value_of}
use fcgi.Net.Closing.{Descriptor, make_descriptor}

pub record ClientOptions : Type 0 where
  pub endpoint : Endpoint

unfoldable pub make_uds_client_options : {S : Type 0} → List ℕ → M S ClientOptions
make_uds_client_options path = do e ← make_uds_endpoint path; pure (record { endpoint = e })

unfoldable pub make_net_client_options : {S : Type 0} → List ℕ → ℕ → M S ClientOptions
make_net_client_options address port = do
  e ← make_net_endpoint address port
  pure (record { endpoint = e })

module _ {W : Type 0} (os : Os W) (inet : Inet) where
  -- Where the rest throws, the guard of the socket is destroyed.
  abbrev pub guarding : {A : Type 0} → ℕ → M W A → M W A
  guarding s m w = elim (m w) [
    | ok a v ↦ ok a v
    | threw e v ↦ (destroy os s >> λ u. threw e u) v
    | terminated ↦ terminated
    | undefined ↦ undefined
    | stuck ↦ stuck
  ]

  -- The lambda of the same name as the function.
  unfoldable pub connect_to : SocketAddress → M W ℕ
  connect_to addr = do
    result ← make_tcp_socket os (address_family addr)
    guarding result (connect_socket os result addr)
    pure result

  abbrev pub remote_address : Endpoint → M W SocketAddress
  remote_address remote = elim (communication_mode remote) [
    | uds ↦ do path ← value_of remote.uds_path; make_uds_address path
    | net ↦ do
      address ← value_of remote.net_address
      ip ← from_text inet address
      port ← value_of remote.net_port
      pure (make_tcp_address ip port)
  ]

  unfoldable pub make_tcp_connection : ClientOptions → M W (Descriptor W)
  make_tcp_connection opts = do
    addr ← remote_address opts.endpoint
    socket ← connect_to addr
    make_descriptor socket
