-- ===== src/Listener/Settling.antt =====
-- accept() comes to its end where the serving of the client does.
use fcgi.Prelude.{ℕ, ◌≡◌, ◌<◌, true}
use fcgi.Outcome.{Outcome}
use fcgi.Net.Address.{Inet}
use fcgi.Net.Closing.{Descriptor}
use fcgi.Net.Closing.Draining.{Returns, IsFinite}
use fcgi.Net.Descriptor.{Io}
use fcgi.Net.Listener.{Listener as NetListener}
use fcgi.Net.Os.{Os}
use fcgi.Net.Socket.{is_socket_valid, fd_setsize}
use fcgi.Server.{accept as accept_connection}
use fcgi.Listener.{Listener, accept}

module _ {W : Type 0} (os : Os W) (inet : Inet) (pending : W → ℕ)
    (finite : IsFinite os pending) where
  -- Of the connection that ::accept gives: its socket is below FD_SETSIZE, its peer sends less bytes more than there is
  -- fuel, and serving it returns or throws.
  abbrev pub IsServed : (ℕ → ℕ) → (ℕ → W → Io) → ℕ → NetListener W → Type 0
  IsServed garbage wire fuel l =
      let s = (os.accept l.socket l.world).0 in
      let w = (os.accept l.socket l.world).1 in
      is_socket_valid s ≡ true
      → (s < fd_setsize) × (pending w < fuel) × Returns (accept_connection garbage fuel (wire s w))
