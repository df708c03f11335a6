-- ===== src/Net/Pipe/Reading/Closing.antt =====
-- close() and the destructor of pipe_Descriptor.
use fcgi.Prelude.{ℕ, ◌≡◌, inl, inr, ap, ◌∙◌, Bool, false, not, ◌&&◌, ◌==◌, Bool-cases}
use fcgi.Outcome.{caught, Outcome, ok, ◌>>=◌, ◌>>◌}
use fcgi.Net.Handle.{Windows, HandleGuard, invalid_handle, close_handle_guard}
use fcgi.Net.Pipe.Listening.Owning.{IsKept}
use fcgi.Net.Pipe.Reading.{close_pipe, destroy_pipe}

module _ {W : Type 0} (is_open : W → ℕ → Bool) (windows : Windows W)
    (kept : IsKept is_open windows) where
  -- It returns, and all is open that was, but for this handle.
  abbrev pub Closes : ℕ → W → Outcome (HandleGuard W) (Unit {0}) → Type 0
  Closes p w o =
      (d : HandleGuard W) × (o ≡ ok tt d)
      × ((h : ℕ) → is_open d.world h ≡ not (h == p) && is_open w h)

  destroy_pipe-Closes :
      (p : ℕ) (start w : W)
      → (p == invalid_handle) ≡ false
      → ((h : ℕ) → is_open w h ≡ is_open start h)
      → Closes p start (destroy_pipe windows (record { handle = p; world = w }))
  unfolding destroy_pipe close_handle_guard
  destroy_pipe-Closes p start w v h =
      let u = (windows.flush_file_buffers p w).1 in
      let t = (windows.disconnect_named_pipe p u).1 in
      (
        record { handle = invalid_handle; world = (windows.close_handle p t).1 },
        rw (v, ◌>>=◌, ◌>>◌, v, kept.close_succeeds p t),
        λ k.
            kept.close_closes p t k
            ∙ ap (λ b. not (k == p) && b)
                (kept.disconnect_same p u k ∙ (kept.flush_same p w k ∙ h k)),
      )

  -- A descriptor with a pipe, on a system whose calls do as documented and whose ::CloseHandle succeeds: close(), be it
  -- that it throws since the pipe cannot be flushed or disconnected, and then the destructor close the pipe, and no
  -- other handle.
  pub close_pipe-Closes :
      (p : ℕ) (w : W)
      → (p == invalid_handle) ≡ false
      → Closes p w (
          ((λ d. caught (close_pipe windows d)) >> destroy_pipe windows)
            (record { handle = p; world = w }))
  unfolding close_pipe close_handle_guard destroy_pipe
  close_pipe-Closes p w v =
      let u = (windows.flush_file_buffers p w).1 in
      let t = (windows.disconnect_named_pipe p u).1 in
      elim (Bool-cases ((windows.flush_file_buffers p w).0 == 0)) [
        | inl f ↦ rw (v, ◌>>=◌, ◌>>◌, f) (destroy_pipe-Closes p w u v (λ h. kept.flush_same p w h))
        | inr f ↦ elim (Bool-cases ((windows.disconnect_named_pipe p u).0 == 0)) [
          | inl g ↦
              rw (v, ◌>>=◌, ◌>>◌, f, g)
                (destroy_pipe-Closes p w t v
                  (λ h. kept.disconnect_same p u h ∙ kept.flush_same p w h))
          | inr g ↦ (
            record { handle = invalid_handle; world = (windows.close_handle p t).1 },
            rw (v, ◌>>=◌, ◌>>◌, f, g, v, kept.close_succeeds p t),
            λ k.
                kept.close_closes p t k
                ∙ ap (λ b. not (k == p) && b) (kept.disconnect_same p u k ∙ kept.flush_same p w k),
          )
        ]
      ]
