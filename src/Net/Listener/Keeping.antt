-- ===== src/Net/Listener/Keeping.antt =====
-- listen() and its parts leave a listener the owner of its socket.
use fcgi.Prelude.{Option, none, some, ℕ, ◌≡◌, inl, inr, refl, ◌∙◌, Bool, List, ◌==◌}
use fcgi.Outcome.{Exception, M, guard, ◌>>=◌, cannot_bind_socket, cannot_reuse_address}
use fcgi.Outcome.Holds.{Holds, Leaves, bind-Holds, guard-Leaves}
use fcgi.Net.Address.{
  ipv4, local, ProtocolFamily, SocketAddress, Inet, from_text, make_tcp_address, make_uds_address,
}
use fcgi.Net.Address.Leaving.{from_text-Leaves, make_uds_address-Leaves}
use fcgi.Net.Os.{Os, call}
use fcgi.Net.Socket.{
  sock_stream, ipproto_tcp, invalid_socket, make_socket, bind_socket, move_assign, close_guard,
}
use fcgi.Net.Listener.{
  Listener, on_world, on_guard, deref, value_of, tcp_create_bind, uds_create_bind,
}
use fcgi.Net.Listener.Owning.{
  Same, IsTracked, IsOwner, Owns, keeps-IsOwner, on_world-Leaves, IsHolding, opens-IsHolding,
}

module _ {W : Type 0} (is_open : W → ℕ → Bool) (before : W) (os : Os W) (inet : Inet)
    (tracked : IsTracked is_open os) where
  make_socket-IsHolding :
      (family : ProtocolFamily) (type protocol : ℕ) (l : Listener W) (handed : List ℕ)
      → IsOwner is_open before l handed
      → l.socket ≡ invalid_socket
      → Holds
          (λ s k. IsHolding is_open before s k handed)
          (Owns is_open before handed)
          (on_world (make_socket os family type protocol) l)
  unfolding make_socket close_guard
  make_socket-IsHolding family type protocol l handed h e =
      let (s, w) = os.socket family type protocol l.world in
      elim (tracked.socket_opens family type protocol l.world) [
        | inl (v, new, all) ↦
            rw (Holds, v) (opens-IsHolding is_open before s l handed w h e v new all)
        | inr (i, same) ↦ rw (Holds, i) (keeps-IsOwner is_open before l handed w h same)
      ]

  move_assign-IsOwner :
      (s : ℕ) (l : Listener W) (handed : List ℕ)
      → IsHolding is_open before s l handed
      → Leaves (Owns is_open before handed) (on_guard (move_assign os s) l)
  unfolding move_assign close_guard
  move_assign-IsOwner s l handed h = rw h.no_socket (record {
    socket_or_invalid = inl h.valid;
    opened = λ fd. h.opened fd ∙ rw h.valid refl;
    own = λ _. h.own;
  })

  module _ (handed : List ℕ) where
    abbrev pub Keeps : {A : Type 0} → M (Listener W) A → Type 0
    Keeps m =
        (l : Listener W)
        → IsOwner is_open before l handed
        → Leaves (Owns is_open before handed) (m l)

    pub bind-Keeps :
        {A B : Type 0} (m : M (Listener W) A) (f : A → M (Listener W) B)
        → Keeps m
        → ((a : A) → Keeps (f a))
        → Keeps (m >>= f)
    bind-Keeps m f hm hf l h =
        bind-Holds (λ _. Owns is_open before handed) (Owns is_open before handed)
          (λ _. Owns is_open before handed) m f l (hm l h) λ a t k. hf a t k

    pub call-Keeps :
        (f : W → ℕ × W) → ((w : W) → Same is_open w (f w).1) → Keeps (on_world (call f))
    call-Keeps f same l h = keeps-IsOwner is_open before l handed (f l.world).1 h (same l.world)

    pub guard-Keeps : (b : Bool) (e : Exception) → Keeps (guard b e)
    guard-Keeps b e l h = guard-Leaves (Owns is_open before handed) b e l h

    pub deref-Keeps : {A : Type 0} (o : Option A) → Keeps (deref o)
    deref-Keeps none l h = tt
    deref-Keeps (some a) l h = h

    value_of-Keeps : {A : Type 0} (o : Option A) → Keeps (value_of o)
    value_of-Keeps none l h = h
    value_of-Keeps (some a) l h = h

    bind_socket-Keeps : (s : ℕ) (a : SocketAddress) → Keeps (on_world (bind_socket os s a))
    unfolding bind_socket
    bind_socket-Keeps s a l h = on_world-Leaves is_open before (bind_socket os s a) l handed h (
        guard-Leaves (Same is_open l.world) ((os.bind s a l.world).0 == 0) cannot_bind_socket
          (os.bind s a l.world).1 (tracked.bind_keeps s a l.world))

    pub tcp_create_bind-Keeps :
        (l : Listener W)
        → IsOwner is_open before l handed
        → l.socket ≡ invalid_socket
        → Leaves (Owns is_open before handed) (tcp_create_bind os inet l)
    unfolding tcp_create_bind
    tcp_create_bind-Keeps l h e =
        bind-Holds (λ s k. IsHolding is_open before s k handed) (Owns is_open before handed)
          (λ _. Owns is_open before handed) (on_world (make_socket os ipv4 sock_stream ipproto_tcp))
          _ l (make_socket-IsHolding ipv4 sock_stream ipproto_tcp l handed h e)
          λ s k holding.
            bind-Holds (λ _. Owns is_open before handed) (Owns is_open before handed)
              (λ _. Owns is_open before handed) (on_guard (move_assign os s)) _ k
              (move_assign-IsOwner s k handed holding)
              λ _.
                bind-Keeps (on_world (call (os.set_reuse_address s))) _
                  (call-Keeps (os.set_reuse_address s) (tracked.set_reuse_address_keeps s))
                  λ r.
                    bind-Keeps (guard (r == 0) cannot_reuse_address) _
                      (guard-Keeps (r == 0) cannot_reuse_address)
                      λ _.
                        bind-Keeps (deref l.options.endpoint.net_address) _
                          (deref-Keeps l.options.endpoint.net_address)
                          λ address.
                            bind-Keeps (from_text inet address) _
                              (from_text-Leaves (Owns is_open before handed) inet address)
                              λ ip.
                                bind-Keeps (deref l.options.endpoint.net_port) _
                                  (deref-Keeps l.options.endpoint.net_port)
                                  λ port. bind_socket-Keeps s (make_tcp_address ip port)

    pub uds_create_bind-Keeps :
        (l : Listener W)
        → IsOwner is_open before l handed
        → l.socket ≡ invalid_socket
        → Leaves (Owns is_open before handed) (uds_create_bind os inet l)
    unfolding uds_create_bind
    uds_create_bind-Keeps l h e =
        bind-Holds (λ s k. IsHolding is_open before s k handed) (Owns is_open before handed)
          (λ _. Owns is_open before handed)
          (on_world (make_socket os local sock_stream ipproto_tcp)) _ l
          (make_socket-IsHolding local sock_stream ipproto_tcp l handed h e)
          λ s k holding.
            bind-Holds (λ _. Owns is_open before handed) (Owns is_open before handed)
              (λ _. Owns is_open before handed) (on_guard (move_assign os s)) _ k
              (move_assign-IsOwner s k handed holding)
              λ _.
                bind-Keeps (value_of l.options.endpoint.uds_path) _
                  (value_of-Keeps l.options.endpoint.uds_path)
                  λ path.
                    bind-Keeps (make_uds_address path) _
                      (make_uds_address-Leaves (Owns is_open before handed) path)
                      λ address. bind_socket-Keeps s address
