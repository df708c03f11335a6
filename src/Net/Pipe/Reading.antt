-- ===== src/Net/Pipe/Reading.antt =====
-- pipe_Descriptor of src/net/descriptor.hpp.
pub mod Closing
use fcgi.Prelude.{ℕ, min, length, Bool, not, List, Option, none, some, take, ◌==◌, if◌then◌else◌}
use fcgi.Outcome.{
  Outcome, M, ok, threw, terminated, undefined, stuck, pure, guard, assert, state, ◌>>=◌, ◌>>◌,
  cannot_read_from_pipe, cannot_write_to_pipe, cannot_flush_buffers, cannot_disconnect_pipe,
  cannot_close_pipe,
}
use fcgi.Net.Descriptor.{max_read_size, max_write_size}
use fcgi.Net.Handle.{Windows, HandleGuard, invalid_handle, close_handle_guard, destroy_handle}
use fcgi.Net.Os.{call}

-- A descriptor is the guard of its pipe.
abbrev pub on_world : {W A : Type 0} → M W A → M (HandleGuard W) A
on_world m d = elim (m d.world) [
  | ok a w ↦ ok a (record d { world = w })
  | threw e w ↦ threw e (record d { world = w })
  | terminated ↦ terminated
  | undefined ↦ undefined
  | stuck ↦ stuck
]

unfoldable pub make_pipe_descriptor : {W : Type 0} → ℕ → M W (HandleGuard W)
make_pipe_descriptor pipe = do
  assert (not (pipe == invalid_handle))
  w ← state
  pure (record { handle = pipe; world = w })

module _ {W : Type 0} (windows : Windows W) where
  -- The bytes read stand for their number and the buffer.
  unfoldable pub read_pipe : ℕ → M (HandleGuard W) (List ℕ)
  read_pipe len d =
      let (answer, w) = windows.read_file d.handle (min len max_read_size) d.world in
      elim answer [
        | none ↦ threw cannot_read_from_pipe (record d { world = w })
        | some bytes ↦ ok bytes (record d { world = w })
      ]

  unfoldable pub write_pipe : List ℕ → M (HandleGuard W) ℕ
  write_pipe bytes d =
      let (answer, w) =
        windows.write_file d.handle (take (min (length bytes) max_write_size) bytes) d.world in
      elim answer [
        | none ↦ threw cannot_write_to_pipe (record d { world = w })
        | some n ↦ ok n (record d { world = w })
      ]

  unfoldable pub close_pipe : M (HandleGuard W) (Unit {0})
  close_pipe = do
    d ← state
    if d.handle == invalid_handle then pure tt else (do
      flushed ← on_world (call (windows.flush_file_buffers d.handle))
      guard (not (flushed == 0)) cannot_flush_buffers
      disconnected ← on_world (call (windows.disconnect_named_pipe d.handle))
      guard (not (disconnected == 0)) cannot_disconnect_pipe
      closed ← close_handle_guard windows
      guard closed cannot_close_pipe)

  -- The destructor, which only prints errors, and then that of the guard.
  unfoldable pub destroy_pipe : M (HandleGuard W) (Unit {0})
  destroy_pipe = do
    d ← state
    if d.handle == invalid_handle then pure tt else (do
      on_world (call (windows.flush_file_buffers d.handle)) >>= λ _. pure tt
      on_world (call (windows.disconnect_named_pipe d.handle)) >>= λ _. pure tt)
    close_handle_guard windows >>= λ _. pure tt
