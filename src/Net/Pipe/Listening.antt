-- ===== src/Net/Pipe/Listening.antt =====
-- pipe_Listener of src/net/listener.hpp.
pub mod Owning
pub mod Naming
use fcgi.Prelude.{ℕ, ◌-◌, ◌%◌, ◌^◌, Bool, true, false, not, ◌||◌, leb, ◌==◌, if◌then◌else◌}
use fcgi.Outcome.{
  Outcome, M, ok, threw, terminated, undefined, stuck, pure, throw, guard, assert, state, modify,
  ◌>>=◌, ◌>>◌, cannot_create_event, cannot_create_pipe, cannot_connect_pipe,
  cannot_retrieve_results, cannot_cancel_io, cannot_wait_for_pipe, cannot_close_pipe, not_listening,
  invalid_timeout,
}
use fcgi.Net.Handle.{
  Windows, HandleGuard, move_handle, invalid_handle, close_handle_guard, destroy_handle,
  assign_handle,
}
use fcgi.Net.Os.{call, is_nonneg64}
use fcgi.Net.Pipe.{PipeListener}

-- What ::GetLastError and ::WaitForSingleObject say, and the longest time-out.
abbrev pub error_pipe_connected : ℕ
error_pipe_connected = 535

abbrev pub error_io_pending : ℕ
error_io_pending = 997

abbrev pub wait_object_0 : ℕ
wait_object_0 = 0

abbrev pub wait_timeout : ℕ
wait_timeout = 258

abbrev pub infinite : ℕ
infinite = 2 ^ 32 - 1

abbrev pub on_world : {W A : Type 0} → M W A → M (PipeListener W) A
on_world m l = elim (m l.world) [
  | ok a w ↦ ok a (record l { world = w })
  | threw e w ↦ threw e (record l { world = w })
  | terminated ↦ terminated
  | undefined ↦ undefined
  | stuck ↦ stuck
]

abbrev pub on_pipe : {W A : Type 0} → M (HandleGuard W) A → M (PipeListener W) A
on_pipe m l = elim (m (record { handle = l.pipe; world = l.world })) [
  | ok a g ↦ ok a (record l { pipe = g.handle; world = g.world })
  | threw e g ↦ threw e (record l { pipe = g.handle; world = g.world })
  | terminated ↦ terminated
  | undefined ↦ undefined
  | stuck ↦ stuck
]

abbrev pub pipe_listen : {W : Type 0} → M (PipeListener W) (Unit {0})
pipe_listen = modify λ l. record l { is_listening = true }

module _ {W : Type 0} (windows : Windows W) where
  unfoldable pub make_named_pipe : M (PipeListener W) ℕ
  make_named_pipe = do
    l ← state
    result ← on_world (call (windows.create_named_pipe l.pipe_path))
    if not (result == invalid_handle)
        then pure result
        else (on_world (destroy_handle windows result) >> throw cannot_create_pipe)

  -- Where a client is awaited: `true` is the label have_waited, `false` the end of the time-out.
  unfoldable pub await : ℕ → ℕ → ℕ → M W Bool
  await pipe event timeout = do
    assert (timeout == 2 ^ 64 - 1 || leb timeout (2 ^ 32 - 1))
    let tout : ℕ = if timeout == 2 ^ 64 - 1 then infinite else timeout % 2 ^ 32
    r ← call (windows.wait_for_single_object event tout)
    if r == wait_object_0
        then (do
          got ← call (windows.get_overlapped_result pipe event)
          guard (not (got == 0)) cannot_retrieve_results
          pure true)
        else (do
          canceled ← call (windows.cancel_io pipe)
          guard (not (canceled == 0)) cannot_cancel_io
          guard (r == wait_timeout) cannot_wait_for_pipe
          pure false)

  unfoldable pub connect_pipe : ℕ → ℕ → ℕ → M W Bool
  connect_pipe pipe event timeout = do
    connected ← call (windows.connect_named_pipe pipe event)
    w ← state
    let error : ℕ = windows.get_last_error w
    if not (connected == 0) || error == error_pipe_connected
        then pure true
        else (if error == error_io_pending
            then await pipe event timeout
            else throw cannot_connect_pipe)

  -- What becomes of the new pipe: the listener takes it, or it is closed with its guard.
  abbrev pub keep_pipe : ℕ → Outcome W Bool → M (PipeListener W) Bool
  keep_pipe pipe (ok true w) l =
      (on_pipe (assign_handle windows pipe) >> pure true) (record l { world = w })
  keep_pipe pipe (ok false w) l =
      (on_world (destroy_handle windows pipe) >> pure false) (record l { world = w })
  keep_pipe pipe (threw e w) l =
      (on_world (destroy_handle windows pipe) >> throw e) (record l { world = w })
  keep_pipe pipe terminated l = terminated
  keep_pipe pipe undefined l = undefined
  keep_pipe pipe stuck l = stuck

  -- The event belongs to no guard.
  unfoldable pub pipe_wait : ℕ → M (PipeListener W) Bool
  pipe_wait timeout = do
    l ← state
    guard l.is_listening not_listening
    guard (is_nonneg64 timeout || timeout == 2 ^ 64 - 1) invalid_timeout
    if not (l.pipe == invalid_handle) then pure true else (do
      event ← on_world (call windows.create_event)
      guard (not (event == 0)) cannot_create_event
      pipe ← make_named_pipe
      k ← state
      keep_pipe pipe (connect_pipe pipe event timeout k.world))

  -- The handle of the descriptor that is made.
  unfoldable pub accept_pipe : M (PipeListener W) ℕ
  accept_pipe = do
    pipe_wait (2 ^ 64 - 1) >>= λ _. pure tt
    l ← state
    assert (not (l.pipe == invalid_handle))
    pipe ← on_pipe λ g. let (h, k) = move_handle g in ok h k
    assert (not (pipe == invalid_handle))
    pure pipe

  unfoldable pub close_pipe_listener : M (PipeListener W) (Unit {0})
  close_pipe_listener = do
    l ← state
    if l.is_listening
        then (do
          closed ← on_pipe (close_handle_guard windows)
          guard closed cannot_close_pipe
          modify λ k. record k { is_listening = false })
        else pure tt
