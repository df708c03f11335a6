-- ===== src/Net/Pipe/Listening/Owning.antt =====
-- Which handles wait() of pipe_Listener leaves open.
use fcgi.Prelude.{
  ℕ, ◌-◌, ◌%◌, ◌^◌, ◌≡◌, ◌⊎◌, inl, inr, refl, ap, sym, ◌∙◌, Bool, true, false, not, ◌&&◌, ◌||◌,
  List, ◌==◌, leb, arith, if◌then◌else◌,
}
use fcgi.Outcome.{
  Outcome, ok, threw, terminated, undefined, stuck, pure, throw, ◌>>=◌, ◌>>◌, not_listening,
  invalid_timeout, cannot_connect_pipe, cannot_retrieve_results, cannot_cancel_io,
  cannot_wait_for_pipe,
}
use fcgi.Outcome.Holds.{Holds, Leaves, guard-Holds, guard-passes, assert-Holds, if-Holds}
use fcgi.Net.Handle.{Windows, invalid_handle, close_handle_guard, assign_handle}
use fcgi.Net.Listener.Owning.{without}
use fcgi.Net.Os.{is_nonneg64}
use fcgi.Net.Pipe.{PipeListener}
use fcgi.Net.Pipe.Listening.{
  infinite, error_pipe_connected, error_io_pending, wait_object_0, wait_timeout, make_named_pipe,
  await, connect_pipe, keep_pipe, pipe_wait,
}

module _ {W : Type 0} (is_open : W → ℕ → Bool) where
  abbrev pub Same : W → W → Type 0
  Same w w' = (h : ℕ) → is_open w' h ≡ is_open w h

  -- A call that gives a new handle, or this one where it fails.
  abbrev pub Makes : ℕ → W → ℕ × W → Type 0
  Makes bad w (h, w') =
      (((h == bad) ≡ false)
        × (is_open w h ≡ false)
        × ((k : ℕ) → is_open w' k ≡ (k == h) || is_open w k))
      ⊎ (((h == bad) ≡ true) × Same w w')

  -- What the documentation of the calls says of the open handles, where ::CloseHandle succeeds.
  pub record IsKept (windows : Windows W) : Type 0 where
    pub event_makes : (w : W) → Makes 0 w (windows.create_event w)
    pub pipe_makes :
        (path : List ℕ) (w : W) → Makes invalid_handle w (windows.create_named_pipe path w)
    pub connect_same : (p e : ℕ) (w : W) → Same w (windows.connect_named_pipe p e w).1
    pub wait_same : (e t : ℕ) (w : W) → Same w (windows.wait_for_single_object e t w).1
    pub result_same : (p e : ℕ) (w : W) → Same w (windows.get_overlapped_result p e w).1
    pub cancel_same : (p : ℕ) (w : W) → Same w (windows.cancel_io p w).1
    pub flush_same : (p : ℕ) (w : W) → Same w (windows.flush_file_buffers p w).1
    pub disconnect_same : (p : ℕ) (w : W) → Same w (windows.disconnect_named_pipe p w).1
    pub close_succeeds : (h : ℕ) (w : W) → ((windows.close_handle h w).0 == 0) ≡ false
    pub close_closes :
        (h : ℕ) (w : W) (k : ℕ)
        → is_open (windows.close_handle h w).1 k ≡ not (k == h) && is_open w k

  module _ (windows : Windows W) (kept : IsKept windows) where
    module _ (start : W) where
      await-Leaves :
          (pipe event timeout : ℕ) (w : W)
          → Same start w
          → Leaves (Same start) (await windows pipe event timeout w)
      unfolding await
      await-Leaves pipe event timeout w h =
          assert-Holds (λ _. Same start) (Same start)
            ((timeout == 2 ^ 64 - 1) || leb timeout (2 ^ 32 - 1)) _ w
            (let tout : ℕ = if timeout == 2 ^ 64 - 1 then infinite else timeout % 2 ^ 32 in
              let (r, v) = windows.wait_for_single_object event tout w in
              let i : Same start v = λ k. kept.wait_same event tout w k ∙ h k in
              if-Holds (λ _. Same start) (Same start) (r == wait_object_0) _ _ v
                (λ _.
                  let (got, u) = windows.get_overlapped_result pipe event v in
                  let j : Same start u = λ k. kept.result_same pipe event v k ∙ i k in
                  guard-Holds (λ _. Same start) (Same start) (not (got == 0))
                    cannot_retrieve_results _ u j (λ _. j))
                λ _.
                  let (canceled, u) = windows.cancel_io pipe v in
                  let j : Same start u = λ k. kept.cancel_same pipe v k ∙ i k in
                  guard-Holds (λ _. Same start) (Same start) (not (canceled == 0)) cannot_cancel_io
                    _ u j
                    λ _.
                      guard-Holds (λ _. Same start) (Same start) (r == wait_timeout)
                        cannot_wait_for_pipe _ u j (λ _. j))

      connect_pipe-Leaves :
          (pipe event timeout : ℕ)
          → Leaves (Same start) (connect_pipe windows pipe event timeout start)
      unfolding connect_pipe
      connect_pipe-Leaves pipe event timeout =
          let (connected, w) = windows.connect_named_pipe pipe event start in
          let h : Same start w = kept.connect_same pipe event start in
          if-Holds (λ _. Same start) (Same start)
            (not (connected == 0) || (windows.get_last_error w == error_pipe_connected)) (pure true)
            _ w (λ _. h)
            λ _.
              if-Holds (λ _. Same start) (Same start) (windows.get_last_error w == error_io_pending)
                (await windows pipe event timeout) (throw cannot_connect_pipe) w
                (λ _. await-Leaves pipe event timeout w h) λ _. h

    -- Open are the event, the pipe that the listener has, and what was open before.
    abbrev pub Leaks : PipeListener W → PipeListener W → Type 0
    Leaks l k =
        (h : ℕ)
        → is_open k.world h
          ≡ (h == (windows.create_event l.world).0)
            || ((not (k.pipe == invalid_handle) && (h == k.pipe)) || is_open l.world h)

    abbrev pub LeaksWith : PipeListener W → Bool → PipeListener W → Type 0
    LeaksWith l r k = (not (k.pipe == invalid_handle) ≡ r) × Leaks l k

    abbrev pub LeaksWithout : PipeListener W → PipeListener W → Type 0
    LeaksWithout l k = ((k.pipe == invalid_handle) ≡ true) × Leaks l k

    permute : (a b c : Bool) → a || (b || c) ≡ b || (a || c)
    permute true true c = refl
    permute true false c = refl
    permute false b c = refl

    module _ (l : PipeListener W) (none_yet : (l.pipe == invalid_handle) ≡ true) where
      -- With the event open, and the new pipe.
      abbrev Fresh : ℕ → W → Type 0
      Fresh p u =
          (h : ℕ)
          → is_open u h ≡ (h == p) || ((h == (windows.create_event l.world).0) || is_open l.world h)

      Makes-event :
          ((windows.create_event l.world).0 == 0) ≡ false
          → (h : ℕ)
          → is_open (windows.create_event l.world).1 h
            ≡ (h == (windows.create_event l.world).0) || is_open l.world h
      Makes-event made = elim (kept.event_makes l.world) [
        | inl (v, new, all) ↦ all
        | inr (v, same) ↦ absurd (ground arith)
      ]

      closed-Fresh :
          (p : ℕ) (u w : W)
          → Fresh p u
          → ((p == (windows.create_event l.world).0) || is_open l.world p) ≡ false
          → Same u w
          → (k : ℕ)
          → is_open (windows.close_handle p w).1 k
            ≡ (k == (windows.create_event l.world).0) || is_open l.world k
      closed-Fresh p u w all new h k =
          kept.close_closes p w k
          ∙ ap (λ b. not (k == p) && b) (h k ∙ all k)
          ∙ without (λ j. (j == (windows.create_event l.world).0) || is_open l.world j) p k new

      keep_pipe-Leaks :
          (p : ℕ) (u : W) (o : Outcome W Bool)
          → (p == invalid_handle) ≡ false
          → Fresh p u
          → ((p == (windows.create_event l.world).0) || is_open l.world p) ≡ false
          → Leaves (Same u) o
          → Holds (LeaksWith l) (LeaksWithout l) (keep_pipe windows p o (record l { world = u }))
      unfolding assign_handle close_handle_guard
      keep_pipe-Leaks p u (ok true w) v all new h =
          rw (none_yet, Holds, v)
            (
              refl,
              λ k.
                  h k
                  ∙ all k
                  ∙ permute (k == p) (k == (windows.create_event l.world).0) (is_open l.world k),
            )
      keep_pipe-Leaks p u (ok false w) v all new h =
          rw (Holds, v, none_yet) (refl, closed-Fresh p u w all new h)
      keep_pipe-Leaks p u (threw x w) v all new h =
          rw (Holds, v, none_yet) (refl, closed-Fresh p u w all new h)
      keep_pipe-Leaks p u terminated v all new h = tt
      keep_pipe-Leaks p u undefined v all new h = tt
      keep_pipe-Leaks p u stuck v all new h = tt

      with_pipe :
          (event timeout : ℕ) (v : W)
          → ((h : ℕ) → is_open v h ≡ (h == (windows.create_event l.world).0) || is_open l.world h)
          → Holds (LeaksWith l) (LeaksWithout l) (
              (make_named_pipe windows >>= λ pipe k.
              keep_pipe windows pipe (connect_pipe windows pipe event timeout k.world) k)
                (record l { world = v }))
      unfolding make_named_pipe close_handle_guard
      with_pipe event timeout v all =
          let (p, u) = windows.create_named_pipe l.pipe_path v in
          elim (kept.pipe_makes l.pipe_path v) [
            | inl (ok_p, new, more) ↦
                rw (ok_p, ◌>>=◌)
                  (keep_pipe-Leaks p u (connect_pipe windows p event timeout u) ok_p
                    (λ h. more h ∙ ap (λ b. (h == p) || b) (all h)) (sym (all p) ∙ new)
                    (connect_pipe-Leaves u p event timeout))
            | inr (bad, same) ↦ rw (bad, ◌>>=◌, ◌>>◌, none_yet) (refl, λ h. same h ∙ all h)
          ]

      -- A listener that listens and has no pipe, on a system whose calls do as documented, whose ::CloseHandle succeeds
      -- and which makes the event: wait(), with a time-out from -1 on, leaves this event open, whether it returns true
      -- with a pipe, or returns false or throws without one; and besides opens nothing.
      pub pipe_wait-Leaks :
          (timeout : ℕ)
          → l.is_listening ≡ true
          → is_nonneg64 timeout || timeout == 2 ^ 64 - 1 ≡ true
          → ((windows.create_event l.world).0 == 0) ≡ false
          → Holds (LeaksWith l) (LeaksWithout l) (pipe_wait windows timeout l)
      unfolding pipe_wait
      pipe_wait-Leaks timeout on in_range made =
          guard-passes (LeaksWith l) (LeaksWithout l) l.is_listening not_listening _ l on (
            guard-passes (LeaksWith l) (LeaksWithout l)
              (is_nonneg64 timeout || (timeout == 2 ^ 64 - 1)) invalid_timeout _ l in_range
              (rw (none_yet, ◌>>=◌, made)
                (with_pipe (windows.create_event l.world).0 timeout (windows.create_event l.world).1
                  (Makes-event made))))
