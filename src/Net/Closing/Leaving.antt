-- ===== src/Net/Closing/Leaving.antt =====
-- What the destructor of a descriptor leaves open.
use fcgi.Prelude.{
  ℕ, zero, suc, ◌≡◌, refl, ap, ◌∙◌, Bool, true, false, not, ◌&&◌, arith, ◌==◌, Bool-cases, eq→==,
  inl, inr, sym,
}
use mathlib.Core.Bool.{false≢true}
use mathlib.Core.Path.{subst}
use Prim.Native.Nat.{bit_and}
use fcgi.Outcome.{
  Outcome, ok, threw, terminated, undefined, stuck, pure, throw, guard, modify, ◌>>=◌, ◌>>◌,
  cannot_shutdown_gracefully, cannot_close_socket,
}
use fcgi.Outcome.Holds.{Holds, Leaves, bind-Holds, guard-Holds, if-Holds}
use fcgi.Net.Os.{Os, is_nonneg64}
use fcgi.Net.Socket.{is_socket_valid, invalid_socket, read_ready, poll, close_guard, destroy}
use fcgi.Net.Socket.Leaving.{poll-Leaves}
use fcgi.Net.Listener.Owning.{Same, IsTracked}
use fcgi.Net.Closing.{
  Descriptor, trashcan_size, on_world, on_guard, drain, graceful_shutdown, close_descriptor,
  destroy_descriptor,
}

module _ {W : Type 0} (is_open : W → ℕ → Bool) (os : Os W) (tracked : IsTracked is_open os) where
  -- ::shutdown and ::recv neither open nor close a descriptor, and ::close succeeds.
  pub record IsClosing : Type 0 where
    pub shutdown_same : (s : ℕ) (w : W) → Same is_open w (os.shutdown_send s w).1
    pub recv_same : (s n : ℕ) (w : W) → Same is_open w (os.recv s n w).1
    pub closes : (s : ℕ) (w : W) → (os.close s w).0 ≡ 0

  module _ (closing : IsClosing) (start : W) where
    abbrev Kept : W → Type 0
    Kept = Same is_open start

    drain-Leaves : (fuel socket : ℕ) (w : W) → Kept w → Leaves Kept (drain os fuel socket w)
    unfolding drain
    drain-Leaves zero socket w h = tt
    drain-Leaves (suc fuel) socket w h =
        bind-Holds (λ _. Kept) Kept (λ _. Kept) (poll os socket read_ready 1000) _ w
          (poll-Leaves Kept os socket read_ready 1000 w
            (λ v i n sets tv fd. tracked.select_keeps n socket sets tv v fd ∙ i fd) h)
          λ mask v i.
            if-Holds (λ _. Kept) Kept (bit_and mask read_ready == 0) (pure tt) _ v (λ _. i)
              λ _.
                guard-Holds (λ _. Kept) Kept (is_nonneg64 (os.recv socket trashcan_size v).0)
                  cannot_shutdown_gracefully _ (os.recv socket trashcan_size v).1
                  (λ fd. closing.recv_same socket trashcan_size v fd ∙ i fd)
                  λ _.
                    if-Holds (λ _. Kept) Kept ((os.recv socket trashcan_size v).0 == 0) (pure tt) _
                      (os.recv socket trashcan_size v).1
                      (λ _ fd. closing.recv_same socket trashcan_size v fd ∙ i fd)
                      λ _.
                        drain-Leaves fuel socket (os.recv socket trashcan_size v).1
                          (λ fd. closing.recv_same socket trashcan_size v fd ∙ i fd)

    graceful_shutdown-Leaves :
        (fuel socket : ℕ) (w : W) → Kept w → Leaves Kept (graceful_shutdown os fuel socket w)
    unfolding graceful_shutdown
    graceful_shutdown-Leaves fuel socket w h =
        let v = (os.shutdown_send socket w).1 in
        let k : Kept v = λ fd. closing.shutdown_same socket w fd ∙ h fd in
        if-Holds (λ _. Kept) Kept ((os.shutdown_send socket w).0 == 0) (drain os fuel socket) _ v
          (λ _. drain-Leaves fuel socket v k)
          λ _.
            if-Holds (λ _. Kept) Kept (os.is_not_connected v) (pure tt)
              (throw cannot_shutdown_gracefully) v (λ _. k) λ _. k

    -- All is open that was, but for this socket.
    abbrev pub Closed : ℕ → W → Type 0
    Closed s w = (fd : ℕ) → is_open w fd ≡ not (fd == s) && is_open start fd

    valid-ne : (s : ℕ) → is_socket_valid s ≡ true → (s == invalid_socket) ≡ false
    valid-ne s v = elim (Bool-cases (s == invalid_socket)) [
      | inr n ↦ n
      | inl e ↦ absurd (false≢true (ground arith))
    ]

    close-Closed :
        (s : ℕ) (w : W) → is_socket_valid s ≡ true → Kept w → Leaves (Closed s) (destroy os s w)
    unfolding close_guard
    close-Closed s w v h =
        rw (Holds, valid-ne s v)
          λ fd.
            tracked.close_closes s w (closing.closes s w) fd ∙ ap (λ b. not (fd == s) && b) (h fd)

    -- close() closes the socket, or throws with the socket as it was.
    abbrev Shut : ℕ → Descriptor W → Type 0
    Shut s d = (d.socket ≡ invalid_socket) × Closed s d.world

    abbrev Left : ℕ → Descriptor W → Type 0
    Left s d = (d.socket ≡ s) × Kept d.world

    on_world-Left :
        (s : ℕ) (b : Bool) (o : Outcome W (Unit {0}))
        → Leaves Kept o
        → Leaves
            (Left s)
            (on_world (λ _. o) (record { is_shutted_down = b; socket = s; world = start }))
    on_world-Left s b (ok a w) h = (refl, h)
    on_world-Left s b (threw e w) h = (refl, h)
    on_world-Left s b terminated h = tt
    on_world-Left s b undefined h = tt
    on_world-Left s b stuck h = tt

    guard-Shut :
        (s : ℕ) (k : Descriptor W)
        → is_socket_valid s ≡ true
        → Left s k
        → Holds
            (λ _. Shut s)
            (Left s)
            ((on_guard (close_guard os) >>= λ r. guard (r == 0) cannot_close_socket) k)
    unfolding close_guard
    guard-Shut s k v (e, h) =
        let open_one : (k.socket == invalid_socket) ≡ false = rw e (valid-ne s v) in
        let done : ((os.close k.socket k.world).0 == 0) ≡ true =
          eq→== (os.close k.socket k.world).0 0 (closing.closes k.socket k.world) in
        rw (Holds, open_one, ◌>>=◌, done)
          (
            refl,
            λ fd.
                tracked.close_closes k.socket k.world (closing.closes k.socket k.world) fd
                ∙ (ap (λ (n : ℕ). not (fd == n) && is_open k.world fd) e
                    ∙ ap (λ b. not (fd == s) && b) (h fd)),
          )

    close_descriptor-Holds :
        (fuel s : ℕ)
        → is_socket_valid s ≡ true
        → Holds
            (λ _. Shut s)
            (Left s)
            (close_descriptor os fuel
              (record { is_shutted_down = false; socket = s; world = start }))
    unfolding close_descriptor
    close_descriptor-Holds fuel s v =
        let d : Descriptor W = record { is_shutted_down = false; socket = s; world = start } in
        bind-Holds (λ _. Left s) (Left s) (λ _. Shut s)
          (on_world (graceful_shutdown os fuel s)
            >> modify λ k. record k { is_shutted_down = true })
          (λ _. on_guard (close_guard os) >>= λ r. guard (r == 0) cannot_close_socket) d
          (bind-Holds (λ _. Left s) (Left s) (λ _. Left s) (on_world (graceful_shutdown os fuel s))
            (λ _. modify λ k. record k { is_shutted_down = true }) d
            (on_world-Left s false (graceful_shutdown os fuel s start)
              (graceful_shutdown-Leaves fuel s start (λ fd. refl)))
            λ _ k h. h)
          λ _ k h. guard-Shut s k v h

    -- The destructor closes the socket whether close() has thrown or not.
    destroyed :
        (s : ℕ) (o : Outcome (Descriptor W) (Unit {0}))
        → is_socket_valid s ≡ true
        → Holds (λ _. Shut s) (Left s) o
        → Leaves (Closed s) (elim o [
          | ok r k ↦ destroy os k.socket k.world
          | threw e k ↦ destroy os k.socket k.world
          | terminated ↦ terminated
          | undefined ↦ undefined
          | stuck ↦ stuck
        ])
    unfolding close_guard
    destroyed s (ok r k) v (e, h) = rw (Holds, e) h
    destroyed s (threw x k) v (e, h) =
        subst (λ (n : ℕ). Leaves (Closed s) (destroy os n k.world)) (sym e)
          (close-Closed s k.world v h)
    destroyed s terminated v h = tt
    destroyed s undefined v h = tt
    destroyed s stuck v h = tt

    -- An open descriptor: its destructor leaves open what was, but for its socket.
    pub destroy_descriptor-Closed :
        (fuel s : ℕ)
        → is_socket_valid s ≡ true
        → Leaves (Closed s) (
            destroy_descriptor os fuel
              (record { is_shutted_down = false; socket = s; world = start }))
    unfolding destroy_descriptor
    destroy_descriptor-Closed fuel s v =
        let d : Descriptor W = record { is_shutted_down = false; socket = s; world = start } in
        rw (Holds, v) (destroyed s (close_descriptor os fuel d) v (close_descriptor-Holds fuel s v))
