-- ===== src/Net/Listener/Failing.antt =====
-- listen() where a system call fails.
use fcgi.Prelude.{ℕ, ◌≡◌, refl, true, false, Option, none, some, ◌==◌}
use fcgi.Outcome.{
  Outcome, M, ok, threw, terminated, undefined, stuck, guard, state, ◌>>=◌, ◌>>◌,
  cannot_reuse_address, cannot_listen, cannot_create_socket,
}
use fcgi.Outcome.Holds.{Holds, Leaves, mono-Holds, bind-Holds, guard-Leaves}
use fcgi.Net.Address.{
  ProtocolFamily, Inet, ipv4, local, from_text, make_tcp_address, make_uds_address,
}
use fcgi.Net.Address.Leaving.{from_text-Leaves, make_uds_address-Leaves}
use fcgi.Net.Endpoint.{CommunicationMode, uds, net, communication_mode}
use fcgi.Net.Os.{Os, call}
use fcgi.Net.Socket.{
  is_socket_valid, invalid_socket, sock_stream, ipproto_tcp, make_socket, bind_socket, move_assign,
  close_guard,
}
use fcgi.Net.Listener.{
  Listener, is_listening, on_world, deref, value_of, tcp_create_bind, uds_create_bind, create_bind,
  listen,
}

module _ {W : Type 0} (os : Os W) (inet : Inet) (s : ℕ) where
  -- The listener has the socket `s`.
  abbrev Has : Listener W → Type 0
  Has l = l.socket ≡ s

  abbrev Keeps : {A : Type 0} → M (Listener W) A → Type 0
  Keeps m = (l : Listener W) → Has l → Leaves Has (m l)

  bind-Keeps :
      {A B : Type 0} (m : M (Listener W) A) (f : A → M (Listener W) B)
      → Keeps m
      → ((a : A) → Keeps (f a))
      → Keeps (m >>= f)
  bind-Keeps m f hm hf l h = bind-Holds (λ _. Has) Has (λ _. Has) m f l (hm l h) λ a t k. hf a t k

  outcome-Keeps :
      {A : Type 0} (o : Outcome W A) (l : Listener W) → Has l → Leaves Has (on_world (λ _. o) l)
  outcome-Keeps (ok a w) l h = h
  outcome-Keeps (threw e w) l h = h
  outcome-Keeps terminated l h = tt
  outcome-Keeps undefined l h = tt
  outcome-Keeps stuck l h = tt

  on_world-Keeps : {A : Type 0} (m : M W A) → Keeps (on_world m)
  on_world-Keeps m l h = outcome-Keeps (m l.world) l h

  deref-Keeps : {A : Type 0} (o : Option A) → Keeps (deref o)
  deref-Keeps none l h = tt
  deref-Keeps (some a) l h = h

  value_of-Keeps : {A : Type 0} (o : Option A) → Keeps (value_of o)
  value_of-Keeps none l h = h
  value_of-Keeps (some a) l h = h

  -- What follows the guarding of the socket.
  abbrev tcp_rest : Listener W → M (Listener W) (Unit {0})
  tcp_rest l = do
    r ← on_world (call (os.set_reuse_address s))
    guard (r == 0) cannot_reuse_address
    address ← deref l.options.endpoint.net_address
    ip ← from_text inet address
    port ← deref l.options.endpoint.net_port
    on_world (bind_socket os s (make_tcp_address ip port))

  tcp_rest-Keeps : (l : Listener W) → Keeps (tcp_rest l)
  tcp_rest-Keeps l =
      bind-Keeps (on_world (call (os.set_reuse_address s))) _
        (on_world-Keeps (call (os.set_reuse_address s)))
        λ r.
          bind-Keeps (guard (r == 0) cannot_reuse_address) _
            (λ k. guard-Leaves Has (r == 0) cannot_reuse_address k)
            λ _.
              bind-Keeps (deref l.options.endpoint.net_address) _
                (deref-Keeps l.options.endpoint.net_address)
                λ address.
                  bind-Keeps (from_text inet address) _ (from_text-Leaves Has inet address) λ ip.
                    bind-Keeps (deref l.options.endpoint.net_port) _
                      (deref-Keeps l.options.endpoint.net_port)
                      λ port. on_world-Keeps (bind_socket os s (make_tcp_address ip port))

  tcp-Has :
      (l : Listener W)
      → l.socket ≡ invalid_socket
      → is_socket_valid s ≡ true
      → (os.socket ipv4 sock_stream ipproto_tcp l.world).0 ≡ s
      → Leaves Has (tcp_create_bind os inet l)
  unfolding tcp_create_bind make_socket move_assign close_guard
  tcp-Has l off v e =
      rw (Holds, e, v, off)
        (tcp_rest-Keeps l
          (record {
            options = l.options;
            socket = s;
            world = (os.socket ipv4 sock_stream ipproto_tcp l.world).1;
          })
          refl)

  abbrev uds_rest : Listener W → M (Listener W) (Unit {0})
  uds_rest l = do
    path ← value_of l.options.endpoint.uds_path
    address ← make_uds_address path
    on_world (bind_socket os s address)

  uds_rest-Keeps : (l : Listener W) → Keeps (uds_rest l)
  uds_rest-Keeps l =
      bind-Keeps (value_of l.options.endpoint.uds_path) _
        (value_of-Keeps l.options.endpoint.uds_path)
        λ path.
          bind-Keeps (make_uds_address path) _ (make_uds_address-Leaves Has path)
            λ address. on_world-Keeps (bind_socket os s address)

  uds-Has :
      (l : Listener W)
      → l.socket ≡ invalid_socket
      → is_socket_valid s ≡ true
      → (os.socket local sock_stream ipproto_tcp l.world).0 ≡ s
      → Leaves Has (uds_create_bind os inet l)
  unfolding uds_create_bind make_socket move_assign close_guard
  uds-Has l off v e =
      rw (Holds, e, v, off)
        (uds_rest-Keeps l
          (record {
            options = l.options;
            socket = s;
            world = (os.socket local sock_stream ipproto_tcp l.world).1;
          })
          refl)

  -- The family that listen() makes a socket of.
  abbrev pub listen_family : Listener W → ProtocolFamily
  listen_family l = elim (communication_mode l.options.endpoint) [ uds ↦ local | net ↦ ipv4 ]

  create_bind-by :
      (mode : CommunicationMode) (l : Listener W)
      → ((os.socket ipv4 sock_stream ipproto_tcp l.world).0 ≡ s
          → Leaves Has (tcp_create_bind os inet l))
      → ((os.socket local sock_stream ipproto_tcp l.world).0 ≡ s
          → Leaves Has (uds_create_bind os inet l))
      → (os.socket
          (elim mode as (λ _. ProtocolFamily) [ uds ↦ local | net ↦ ipv4 ])
          sock_stream
          ipproto_tcp
          l.world).0
        ≡ s
      → Leaves Has (elim mode as (λ _. Outcome (Listener W) (Unit {0})) [
        | net ↦ tcp_create_bind os inet l
        | uds ↦ uds_create_bind os inet l
      ])
  create_bind-by net l t u e = t e
  create_bind-by uds l t u e = u e

  -- The listener says that it is listening, and to call listen() again does nothing.
  abbrev pub IsDeaf : Listener W → Type 0
  IsDeaf k = (is_listening k ≡ true) × (listen os inet k ≡ ok tt k)

  Has-IsDeaf : (k : Listener W) → is_socket_valid s ≡ true → Has k → IsDeaf k
  unfolding listen
  Has-IsDeaf k v h = let on : is_listening k ≡ true = rw h v in (on, rw on)

  -- The last part of listen().
  abbrev start_listening : M (Listener W) (Unit {0})
  start_listening = do
    l ← state
    backlog ← deref l.options.backlog
    r ← on_world (call (os.listen l.socket backlog))
    guard (r == 0) cannot_listen

  start_listening-Keeps : Keeps start_listening
  start_listening-Keeps l h =
      bind-Keeps (deref l.options.backlog) _ (deref-Keeps l.options.backlog)
        (λ backlog.
          bind-Keeps (on_world (call (os.listen l.socket backlog))) _
            (on_world-Keeps (call (os.listen l.socket backlog)))
            λ r. guard-Leaves Has (r == 0) cannot_listen)
        l h

  abbrev create_listen : M (Listener W) (Unit {0})
  create_listen = do create_bind os inet; start_listening

  -- Where a listener has no socket and ::socket gives it one, listen() leaves, whether it returns or throws since
  -- a later call failed, a listener that says that it is listening, and whose listen() does nothing but return.
  pub listen-IsDeaf :
      (l : Listener W)
      → l.socket ≡ invalid_socket
      → is_socket_valid s ≡ true
      → (os.socket (listen_family l) sock_stream ipproto_tcp l.world).0 ≡ s
      → Leaves IsDeaf (listen os inet l)
  unfolding listen
  listen-IsDeaf l off v e =
      let created =
        create_bind-by (communication_mode l.options.endpoint) l (tcp-Has l off v) (uds-Has l off v)
          e in
      let one = λ (k : Listener W) (h : Has k). Has-IsDeaf k v h in
      let idle : is_listening l ≡ false = rw off refl in
      rw (Leaves, idle)
        (mono-Holds (λ _. Has) (λ _. IsDeaf) Has IsDeaf (create_listen l)
          (bind-Holds (λ _. Has) Has (λ _. Has) (create_bind os inet) (λ _. start_listening) l
            created λ _ k h. start_listening-Keeps k h)
          (λ _. one) one)

-- On a system whose ::socket refuses to make a local socket of the protocol TCP, listen() of a listener for a local
-- socket that has no socket throws that it cannot create one, and does not listen.
listen-local :
    {W : Type 0} (os : Os W) (inet : Inet) (l : Listener W)
    → ((w : W) → (os.socket local sock_stream ipproto_tcp w).0 ≡ invalid_socket)
    → communication_mode l.options.endpoint ≡ uds
    → l.socket ≡ invalid_socket
    → (k : Listener W) × (listen os inet l ≡ threw cannot_create_socket k)
      × (is_listening k ≡ false)
unfolding listen uds_create_bind make_socket close_guard
listen-local os inet l refuses mode off =
    let w = (os.socket local sock_stream ipproto_tcp l.world).1 in
    let idle : is_listening l ≡ false = rw off refl in
    (record l { world = w }, rw (idle, ◌>>=◌, ◌>>◌, mode, ◌>>=◌, refuses l.world), idle)
