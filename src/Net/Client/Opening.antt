-- ===== src/Net/Client/Opening.antt =====
-- What a client leaves open.
use fcgi.Prelude.{
  arith, ℕ, ◌≡◌, inl, inr, refl, ap, ◌∙◌, Bool, true, false, not, ◌&&◌, ◌||◌, Option, none, some,
  ◌==◌, Bool-cases,
}
use fcgi.Outcome.{M}
use fcgi.Outcome.Holds.{Holds, Leaves, bind-Holds, assert-Holds, mono-Holds}
use fcgi.Net.Endpoint.{Endpoint, CommunicationMode, uds, net, communication_mode}
use fcgi.Net.Address.{Inet, SocketAddress, address_family, from_text, make_uds_address}
use fcgi.Net.Address.Leaving.{from_text-Leaves, make_uds_address-Leaves}
use fcgi.Net.Os.{Os}
use fcgi.Net.Socket.{
  is_socket_valid, invalid_socket, sock_stream, ipproto_tcp, make_socket, connect_socket,
  close_guard,
}
use fcgi.Net.Listener.{value_of}
use fcgi.Net.Listener.Owning.{Same, IsTracked, without}
use fcgi.Net.Closing.{Descriptor, make_descriptor}
use fcgi.Net.Client.{ClientOptions, connect_to, remote_address, make_tcp_connection}

module _ {W : Type 0} (is_open : W → ℕ → Bool) (os : Os W) (inet : Inet)
    (tracked : IsTracked is_open os) (closes : (s : ℕ) (w : W) → (os.close s w).0 ≡ 0) where
  -- The socket is new, and is all that is open besides what was.
  abbrev pub IsOpened : W → ℕ → W → Type 0
  IsOpened before s w =
      (is_socket_valid s ≡ true)
      × (is_open before s ≡ false)
      × ((fd : ℕ) → is_open w fd ≡ (fd == s) || is_open before fd)

  connect_to-IsOpened :
      (addr : SocketAddress) (w : W)
      → Holds (IsOpened w) (Same is_open w) (connect_to os inet addr w)
  unfolding connect_to make_socket connect_socket close_guard
  connect_to-IsOpened addr w =
      let (s, v) = os.socket (address_family addr) sock_stream ipproto_tcp w in
      let (r, u) = os.connect s addr v in
      elim (tracked.socket_opens (address_family addr) sock_stream ipproto_tcp w) [
        | inr (i, same) ↦ rw (Holds, i) same
        | inl (valid, new, all) ↦ elim (Bool-cases (r == 0)) [
          | inl z ↦
              rw (Holds, valid, z) (valid, new, λ fd. tracked.connect_keeps s addr v fd ∙ all fd)
          | inr n ↦ elim (Bool-cases (s == invalid_socket)) [
            | inl i ↦ absurd (ground arith)
            | inr k ↦
                rw (Holds, valid, n, k)
                  λ fd.
                    tracked.close_closes s u (closes s u) fd
                    ∙ ap (λ b. not (fd == s) && b) (tracked.connect_keeps s addr v fd ∙ all fd)
                    ∙ without (is_open w) s fd new
          ]
        ]
      ]

  make_descriptor-IsOpened :
      (before : W) (s : ℕ) (w : W)
      → IsOpened before s w
      → Holds (λ d v. IsOpened before d.socket v) (Same is_open before) (make_descriptor s w)
  unfolding make_descriptor
  make_descriptor-IsOpened before s w h =
      assert-Holds (λ (d : Descriptor W) v. IsOpened before d.socket v) (Same is_open before)
        (is_socket_valid s) _ w h

  module _ (P : W → Type 0) where
    value_of-Leaves : {A : Type 0} (o : Option A) (w : W) → P w → Leaves P (value_of o w)
    value_of-Leaves none w h = h
    value_of-Leaves (some a) w h = h

    by_mode :
        (mode : CommunicationMode) (t u : M W SocketAddress) (w : W)
        → Leaves P (t w)
        → Leaves P (u w)
        → Leaves P ((elim mode as (λ _. M W SocketAddress) [ uds ↦ t | net ↦ u ]) w)
    by_mode uds t u w h k = h
    by_mode net t u w h k = k

    remote_address-Leaves :
        (remote : Endpoint) (w : W) → P w → Leaves P (remote_address os inet remote w)
    remote_address-Leaves remote w h =
        by_mode (communication_mode remote) _ _ w
          (bind-Holds (λ _. P) P (λ _. P) (value_of remote.uds_path) make_uds_address w
            (value_of-Leaves remote.uds_path w h) λ path v i. make_uds_address-Leaves P path v i)
          (bind-Holds (λ _. P) P (λ _. P) (value_of remote.net_address) _ w
            (value_of-Leaves remote.net_address w h)
            λ address v i.
              bind-Holds (λ _. P) P (λ _. P) (from_text inet address) _ v
                (from_text-Leaves P inet address v i)
                λ ip u j.
                  bind-Holds (λ _. P) P (λ _. P) (value_of remote.net_port) _ u
                    (value_of-Leaves remote.net_port u j) λ port t k. k)

  -- Where the calls do as documented and ::close succeeds, a client that is connected has a new descriptor, valid
  -- and open, besides what was open before; where it throws, nothing is left open that was not.
  pub make_tcp_connection-IsOpened :
      (opts : ClientOptions) (w : W)
      → Holds (λ d v. IsOpened w d.socket v) (Same is_open w) (make_tcp_connection os inet opts w)
  unfolding make_tcp_connection
  make_tcp_connection-IsOpened opts w =
      bind-Holds (λ _ v. v ≡ w) (λ (v : W). Same is_open w v)
        (λ (d : Descriptor W) v. IsOpened w d.socket v) (remote_address os inet opts.endpoint) _ w
        (mono-Holds (λ _ v. v ≡ w) (λ _ v. v ≡ w) (λ v. v ≡ w) (Same is_open w)
          (remote_address os inet opts.endpoint w)
          (remote_address-Leaves (λ v. v ≡ w) opts.endpoint w refl) (λ _ _ e. e)
          λ v e fd. ap (λ (u : W). is_open u fd) e)
        λ addr v e. rw e (
          bind-Holds (IsOpened w) (Same is_open w) (λ (d : Descriptor W) v. IsOpened w d.socket v)
            (connect_to os inet addr) make_descriptor w (connect_to-IsOpened addr w)
            λ s u h. make_descriptor-IsOpened w s u h)
