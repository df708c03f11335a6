-- ===== src/Net/Closing/Draining.antt =====
-- Closing a descriptor ends when the peer does, and shuts the sending side once.
use fcgi.Prelude.{
  ℕ, zero, suc, ◌+◌, ◌<◌, ◌≤◌, ◌≡◌, ◌⊎◌, inl, inr, refl, ◌∙◌, true, false, arith, ◌==◌, Bool-cases,
  if◌then◌else◌,
}
use Prim.Native.Nat.{bit_and}
use fcgi.Outcome.{
  Outcome, Exception, ok, threw, ◌>>=◌, ◌>>◌, cannot_poll_socket, cannot_shutdown_gracefully,
  cannot_close_socket,
}
use fcgi.Net.Os.{Os, is_nonneg, is_nonneg64}
use fcgi.Net.Socket.{fd_setsize, read_ready, timeval_of, invalid_socket, close_guard, poll}
use fcgi.Net.Socket.Polling.{sets_of, readiness_of, poll-polled}
use fcgi.Net.Closing.{Descriptor, trashcan_size, drain, graceful_shutdown, close_descriptor}

-- It returns or throws: it neither loops nor is undefined.
abbrev pub Returns : {S A : Type 0} → Outcome S A → Type 0
Returns {S} {A} m =
    ((a : A) × (s : S) × (m ≡ ok a s)) ⊎ ((e : Exception) × (s : S) × (m ≡ threw e s))

-- A peer that sends at most `pending w` more bytes: ::recv takes what it returns from them, ::shutdown and ::select
-- take none.
pub record IsFinite {W : Type 0} (os : Os W) (pending : W → ℕ) : Type 0 where
  pub recv_takes :
      (socket n : ℕ) (w : W)
      → is_nonneg64 (os.recv socket n w).0 ≡ true
      → pending (os.recv socket n w).1 + (os.recv socket n w).0 ≤ pending w
  pub select_keeps :
      (socket : ℕ) (w : W)
      → pending (os.select (socket + 1) socket (sets_of read_ready) (timeval_of 1000) w).2
        ≤ pending w
  pub shutdown_keeps : (socket : ℕ) (w : W) → pending (os.shutdown_send socket w).1 ≤ pending w

less : (p q r n m : ℕ) → p + r ≤ q → q ≤ n → (r == 0) ≡ false → n < suc m → p < m
less p q r n m a b c d = ground arith

module _ {W : Type 0} (os : Os W) (pending : W → ℕ) (finite : IsFinite os pending) where
  poll-keeps :
      (socket : ℕ) (w : W)
      → socket < fd_setsize
      → ((w' : W) × (poll os socket read_ready 1000 w ≡ threw cannot_poll_socket w'))
        ⊎ ((mask : ℕ) × (w' : W) × (poll os socket read_ready 1000 w ≡ ok mask w')
            × (pending w' ≤ pending w))
  poll-keeps socket w h =
      let (r, sets, w') = os.select (socket + 1) socket (sets_of read_ready) (timeval_of 1000) w in
      let p = poll-polled os socket read_ready 1000 w h in
      elim (Bool-cases (is_nonneg r)) [
        | inl q ↦
            inr (
              (if r == 0 then 0 else readiness_of sets),
              w',
              p ∙ rw q,
              finite.select_keeps socket w,
            )
        | inr q ↦ inl (w', p ∙ rw q)
      ]

  drain-Returns :
      (fuel socket : ℕ) (w : W)
      → socket < fd_setsize
      → pending w < fuel
      → Returns (drain os fuel socket w)
  unfolding drain
  drain-Returns zero socket w h enough = absurd (omega arith)
  drain-Returns (suc fuel) socket w h enough = elim (poll-keeps socket w h) [
    | inl (w', p) ↦ inr (cannot_poll_socket, w', rw (drain, ◌>>=◌, p))
    | inr (mask, w', p, k) ↦ elim (Bool-cases (bit_and mask read_ready == 0)) [
      | inl z ↦ inl (tt, w', rw (drain, ◌>>=◌, p, ◌>>=◌, z))
      | inr z ↦ elim (Bool-cases (is_nonneg64 (os.recv socket trashcan_size w').0)) [
        | inr q ↦ inr (
          cannot_shutdown_gracefully,
          (os.recv socket trashcan_size w').1,
          rw (drain, ◌>>=◌, p, ◌>>=◌, z, q),
        )
        | inl q ↦ elim (Bool-cases ((os.recv socket trashcan_size w').0 == 0)) [
          | inl e ↦
              inl (tt, (os.recv socket trashcan_size w').1, rw (drain, ◌>>=◌, p, ◌>>=◌, z, q, e))
          | inr e ↦
              rw (drain, ◌>>=◌, p, ◌>>=◌, z, q, e)
                (drain-Returns fuel socket (os.recv socket trashcan_size w').1 h
                  (less _ _ _ _ _ (finite.recv_takes socket trashcan_size w' q) k e enough))
        ]
      ]
    ]
  ]

  graceful_shutdown-Returns :
      (fuel socket : ℕ) (w : W)
      → socket < fd_setsize
      → pending w < fuel
      → Returns (graceful_shutdown os fuel socket w)
  unfolding graceful_shutdown
  graceful_shutdown-Returns fuel socket w h enough =
      let (r, w') = os.shutdown_send socket w in
      elim (Bool-cases (r == 0)) [
        | inl e ↦
            rw e (drain-Returns fuel socket w' h (ground (arith, finite.shutdown_keeps socket w)))
        | inr e ↦ elim (Bool-cases (os.is_not_connected w')) [
          | inl c ↦ inl (tt, w', rw (e, c))
          | inr c ↦ inr (cannot_shutdown_gracefully, w', rw (e, c))
        ]
      ]

  -- It is closed, and to close it again does nothing.
  abbrev pub IsClosed : Descriptor W → Type 0
  IsClosed d =
      (d.is_shutted_down ≡ true)
      × (d.socket ≡ invalid_socket)
      × ((fuel : ℕ) → close_descriptor os fuel d ≡ ok tt d)

  closes-IsClosed :
      (d : Descriptor W) → d.is_shutted_down ≡ true → d.socket ≡ invalid_socket → IsClosed d
  unfolding close_descriptor close_guard
  closes-IsClosed d s i = (s, i, λ fuel. rw (s, i))

  close_shut :
      (fuel : ℕ) (d : Descriptor W)
      → d.is_shutted_down ≡ true
      → ((k : Descriptor W) × (close_descriptor os fuel d ≡ ok tt k) × IsClosed k)
        ⊎ ((e : Exception) × (k : Descriptor W) × (close_descriptor os fuel d ≡ threw e k))
  unfolding close_descriptor close_guard
  close_shut fuel d s = elim (Bool-cases (d.socket == invalid_socket)) [
    | inl e ↦ inl (d, rw (s, ◌>>=◌, ◌>>◌, e), closes-IsClosed d s (ground arith))
    | inr e ↦ elim (Bool-cases ((os.close d.socket d.world).0 == 0)) [
      | inl z ↦
          let k : Descriptor W = record {
            is_shutted_down = d.is_shutted_down;
            socket = invalid_socket;
            world = (os.close d.socket d.world).1;
          } in
          inl (k, rw (s, ◌>>=◌, ◌>>◌, e, z), closes-IsClosed k s refl)
      | inr z ↦
          let k : Descriptor W = record {
            is_shutted_down = d.is_shutted_down;
            socket = d.socket;
            world = (os.close d.socket d.world).1;
          } in
          inr (cannot_close_socket, k, rw (s, ◌>>=◌, ◌>>◌, e, z))
    ]
  ]

  abbrev shut : Descriptor W → W → Descriptor W
  shut d w = record { is_shutted_down = true; socket = d.socket; world = w }

  close-throws :
      (fuel : ℕ) (d : Descriptor W) (e : Exception) (w : W)
      → d.is_shutted_down ≡ false
      → graceful_shutdown os fuel d.socket d.world ≡ threw e w
      → close_descriptor os fuel d ≡ threw e (record d { world = w })
  unfolding close_descriptor
  close-throws fuel d e w s g = rw (s, ◌>>=◌, ◌>>◌, g)

  close-shuts :
      (fuel : ℕ) (d : Descriptor W) (w : W)
      → d.is_shutted_down ≡ false
      → graceful_shutdown os fuel d.socket d.world ≡ ok tt w
      → close_descriptor os fuel d ≡ close_descriptor os fuel (shut d w)
  unfolding close_descriptor
  close-shuts fuel d w s g = rw (s, ◌>>=◌, ◌>>◌, g)

  -- For a socket below FD_SETSIZE and a peer that sends a bounded number of bytes, as `IsFinite` has it, more fuel than
  -- these bytes is enough for close() to come to its end: it throws, or returns with the descriptor shut down and
  -- its socket closed, after which another close() does nothing, with any fuel.
  pub close_descriptor-returns :
      (fuel : ℕ) (d : Descriptor W)
      → d.socket < fd_setsize
      → pending d.world < fuel
      → ((k : Descriptor W) × (close_descriptor os fuel d ≡ ok tt k) × IsClosed k)
        ⊎ ((e : Exception) × (k : Descriptor W) × (close_descriptor os fuel d ≡ threw e k))
  close_descriptor-returns fuel d h enough = elim (Bool-cases d.is_shutted_down) [
    | inl s ↦ close_shut fuel d s
    | inr s ↦ elim (graceful_shutdown-Returns fuel d.socket d.world h enough) [
      | inr (e, w', g) ↦ inr (e, record d { world = w' }, close-throws fuel d e w' s g)
      | inl (a, w', g) ↦ elim (close_shut fuel (shut d w') refl) [
        | inl (k, p, c) ↦ inl (k, close-shuts fuel d w' s g ∙ p, c)
        | inr (e, k, p) ↦ inr (e, k, close-shuts fuel d w' s g ∙ p)
      ]
    ]
  ]
