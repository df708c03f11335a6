-- ===== src/Net/Listener/Steps.antt =====
-- Each operation of a listener, and which descriptors are open after it.
use fcgi.Prelude.{
  ℕ, ◌^◌, ◌-◌, ◌≡◌, inl, inr, refl, ap, sym, ◌∙◌, Bool, true, false, not, ◌&&◌, ◌||◌, List, ◌∷◌,
  arith, ◌==◌, ◌≢◌, eq→==, Bool-cases,
}
use fcgi.Outcome.{pure, cannot_listen, not_listening, invalid_timeout}
use fcgi.Outcome.Holds.{Holds, Leaves, bind-Holds, guard-Holds, if-Holds}
use fcgi.Net.Address.{Inet}
use fcgi.Net.Endpoint.{CommunicationMode, uds, net, communication_mode}
use fcgi.Net.Os.{Os, call, is_nonneg64}
use fcgi.Net.Socket.{is_socket_valid, invalid_socket, read_ready, poll, close_guard}
use fcgi.Net.Socket.Leaving.{poll-Leaves}
use fcgi.Net.Listener.{
  Listener, is_listening, on_world, deref, tcp_create_bind, uds_create_bind, create_bind, listen,
  wait, accept_socket, close_listener,
}
use fcgi.Net.Listener.Owning.{
  Same, IsTracked, elem, IsOwner, Owns, keeps-IsOwner, on_world-Leaves, without,
}
use fcgi.Net.Listener.Keeping.{
  Keeps, bind-Keeps, call-Keeps, guard-Keeps, deref-Keeps, tcp_create_bind-Keeps,
  uds_create_bind-Keeps,
}

or_move : (x a e b : Bool) → x || (a || (e || b)) ≡ a || ((x || e) || b)
or_move true true e b = refl
or_move true false e b = refl
or_move false a e b = refl

clash : true ≢ false
clash e = ground arith

module _ {W : Type 0} (is_open : W → ℕ → Bool) (before : W) (os : Os W) (inet : Inet)
    (tracked : IsTracked is_open os) where
  no_socket :
      (handed : List ℕ) (l : Listener W)
      → IsOwner is_open before l handed
      → is_listening l ≡ false
      → l.socket ≡ invalid_socket
  no_socket handed l h off = elim h.socket_or_invalid [ inl v ↦ absurd (ground arith) | inr e ↦ e ]

  -- By the mode of the endpoint.
  create_bind-by :
      {A : Type 0} (P : A → Type 0) (mode : CommunicationMode) (t u : A)
      → P t
      → P u
      → P (elim mode [ net ↦ t | uds ↦ u ])
  create_bind-by P net t u h k = h
  create_bind-by P uds t u h k = k

  create_bind-Keeps :
      (handed : List ℕ) (l : Listener W)
      → IsOwner is_open before l handed
      → l.socket ≡ invalid_socket
      → Leaves (Owns is_open before handed) (create_bind os inet l)
  create_bind-Keeps handed l h e =
      create_bind-by (Leaves (Owns is_open before handed)) (communication_mode l.options.endpoint)
        (tcp_create_bind os inet l) (uds_create_bind os inet l)
        (tcp_create_bind-Keeps is_open before os inet tracked handed l h e)
        (uds_create_bind-Keeps is_open before os inet tracked handed l h e)

  pub listen-Keeps :
      (handed : List ℕ) → Keeps is_open before os inet tracked handed (listen os inet)
  unfolding listen
  listen-Keeps handed l h =
      if-Holds (λ _. Owns is_open before handed) (Owns is_open before handed) (is_listening l)
        (pure tt) _ l (λ _. h)
        λ off.
          bind-Holds (λ _. Owns is_open before handed) (Owns is_open before handed)
            (λ _. Owns is_open before handed) (create_bind os inet) _ l
            (create_bind-Keeps handed l h (no_socket handed l h off))
            λ _ k j.
              bind-Keeps is_open before os inet tracked handed (deref k.options.backlog) _
                (deref-Keeps is_open before os inet tracked handed k.options.backlog)
                (λ backlog.
                  bind-Keeps is_open before os inet tracked handed
                    (on_world (call (os.listen k.socket backlog))) _
                    (call-Keeps is_open before os inet tracked handed (os.listen k.socket backlog)
                      (tracked.listen_keeps k.socket backlog))
                    λ r. guard-Keeps is_open before os inet tracked handed (r == 0) cannot_listen)
                k j

  poll-Same :
      (socket mask timeout : ℕ) (w : W) → Leaves (Same is_open w) (poll os socket mask timeout w)
  poll-Same socket mask timeout w =
      poll-Leaves (Same is_open w) os socket mask timeout w
        (λ v h n sets tv fd. tracked.select_keeps n socket sets tv v fd ∙ h fd) λ _. refl

  pub wait-Keeps :
      (handed : List ℕ) (timeout : ℕ)
      → Keeps is_open before os inet tracked handed (wait os inet timeout)
  unfolding wait
  wait-Keeps handed timeout l h =
      let P = Owns is_open before handed in
      guard-Holds (λ _. P) P (is_listening l) not_listening _ l h
        λ _.
          guard-Holds (λ _. P) P (is_nonneg64 timeout || timeout == 2 ^ 64 - 1) invalid_timeout _ l
            h
            λ _.
              bind-Holds (λ _. P) P (λ _. P) (on_world (poll os l.socket read_ready timeout)) _ l
                (on_world-Leaves is_open before (poll os l.socket read_ready timeout) l handed h
                  (poll-Same l.socket read_ready timeout l.world))
                λ mask k j. j

  other_socket :
      (handed : List ℕ) (l : Listener W) (s : ℕ)
      → IsOwner is_open before l handed
      → is_socket_valid l.socket ≡ true
      → is_open l.world s ≡ false
      → (l.socket == s) ≡ false
  other_socket handed l s h v new = elim (Bool-cases (l.socket == s)) [
    | inr n ↦ n
    | inl e ↦
        let same : l.socket ≡ s = ground arith in
        let open_own : is_open l.world l.socket ≡ true =
          h.opened l.socket ∙ rw (v, eq→== l.socket l.socket refl) refl in
        absurd (clash (sym open_own ∙ ap (λ (n : ℕ). is_open l.world n) same ∙ new))
  ]

  -- A new descriptor is handed out.
  pub handed-IsOwner :
      (handed : List ℕ) (l : Listener W) (s : ℕ) (w : W)
      → IsOwner is_open before l handed
      → is_open l.world s ≡ false
      → ((fd : ℕ) → is_open w fd ≡ (fd == s) || is_open l.world fd)
      → IsOwner is_open before (record l { world = w }) (s ∷ handed)
  handed-IsOwner handed l s w h new all = record {
    socket_or_invalid = h.socket_or_invalid;
    opened = λ fd.
        all fd
        ∙ ap (λ b. (fd == s) || b) (h.opened fd)
        ∙ or_move (fd == s) (is_socket_valid l.socket && (fd == l.socket)) (elem fd handed)
            (is_open before fd);
    own = λ v. rw (other_socket handed l s h v new) (h.own v);
  }

  pub accept_socket-Holds :
      (handed : List ℕ) (l : Listener W)
      → IsOwner is_open before l handed
      → Holds
          (λ s k. IsOwner is_open before k (s ∷ handed))
          (Owns is_open before handed)
          (accept_socket os inet l)
  unfolding accept_socket close_guard
  accept_socket-Holds handed l h =
      let (s, w) = os.accept l.socket l.world in
      guard-Holds (λ s k. IsOwner is_open before k (s ∷ handed)) (Owns is_open before handed)
        (is_listening l) not_listening _ l h
        λ _. elim (tracked.accept_opens l.socket l.world) [
          | inl (v, new, all) ↦ rw (Holds, v) (handed-IsOwner handed l s w h new all)
          | inr (i, same) ↦ rw (Holds, i) (keeps-IsOwner is_open before l handed w h same)
        ]

  pub closed-IsOwner :
      (handed : List ℕ) (l : Listener W)
      → IsOwner is_open before l handed
      → (l.socket == invalid_socket) ≡ false
      → (os.close l.socket l.world).0 ≡ 0
      → IsOwner is_open before
          (record {
            options = l.options;
            socket = invalid_socket;
            world = (os.close l.socket l.world).1;
          })
          handed
  closed-IsOwner handed l h e z =
      let v : is_socket_valid l.socket ≡ true = elim h.socket_or_invalid [
        | inl v ↦ v
        | inr i ↦ absurd (ground arith)
      ] in
      record {
        socket_or_invalid = inr refl;
        opened = λ fd.
            tracked.close_closes l.socket l.world z fd
            ∙ ap (λ b. not (fd == l.socket) && b) (h.opened fd)
            ∙ rw v (without (λ (n : ℕ). elem n handed || is_open before n) l.socket fd (h.own v));
        own = λ i. absurd (ground arith);
      }

  -- Where ::close succeeds.
  pub close_listener-Holds :
      (handed : List ℕ) (l : Listener W)
      → IsOwner is_open before l handed
      → Holds (λ _. Owns is_open before handed) (λ _. Unit) (close_listener os inet l)
  unfolding close_listener close_guard
  close_listener-Holds handed l h = elim (Bool-cases (l.socket == invalid_socket)) [
    | inl e ↦ rw (Holds, e) h
    | inr e ↦ elim (Bool-cases ((os.close l.socket l.world).0 == 0)) [
      | inr n ↦ rw (Holds, e, n) tt
      | inl z ↦ rw (Holds, e, z) (closed-IsOwner handed l h e (ground arith))
    ]
  ]
