-- ===== src/Net/Handle.antt =====
-- src/os/windows.hpp: the guard of a handle; and the calls of Windows that it and the pipes of src/net make. They are not
-- part of the repository: a `Windows` is what a system answers, with its own state `W`, the world.
use fcgi.Prelude.{ℕ, ◌-◌, ◌^◌, Bool, true, not, List, Option, ◌==◌, if◌then◌else◌}
use fcgi.Outcome.{M, ok, threw, terminated, undefined, stuck}

-- A handle is the number of its 64 bits. A call gives a handle, or the DWORD or BOOL that it returns; `create_event` is
-- that of an event that is reset by hand and not signaled, and gives 0 where it fails. `create_named_pipe` has the path
-- of the pipe; `connect_named_pipe`, `get_overlapped_result` the pipe and the event; `wait_for_single_object` the event
-- and the time-out. `read_file` gives the bytes read, of at most as many as are asked for, and `write_file` how many of
-- them were written, or nothing where they fail.
pub record Windows (W : Type 0) : Type 0 where
  pub create_event : W → ℕ × W
  pub create_named_pipe : List ℕ → W → ℕ × W
  pub connect_named_pipe : ℕ → ℕ → W → ℕ × W
  pub get_last_error : W → ℕ
  pub wait_for_single_object : ℕ → ℕ → W → ℕ × W
  pub get_overlapped_result : ℕ → ℕ → W → ℕ × W
  pub cancel_io : ℕ → W → ℕ × W
  pub close_handle : ℕ → W → ℕ × W
  pub flush_file_buffers : ℕ → W → ℕ × W
  pub disconnect_named_pipe : ℕ → W → ℕ × W
  pub read_file : ℕ → ℕ → W → Option (List ℕ) × W
  pub write_file : ℕ → List ℕ → W → Option ℕ × W

abbrev pub invalid_handle : ℕ
invalid_handle = 2 ^ 64 - 1

-- A guard in the world.
pub record HandleGuard (W : Type 0) : Type 0 where
  pub handle : ℕ
  pub world : W

-- The move constructor: the handle, and what is left behind.
abbrev pub move_handle : {W : Type 0} → HandleGuard W → ℕ × HandleGuard W
move_handle g = (g.handle, record g { handle = invalid_handle })

-- The swap operation, on the two handles.
abbrev pub swap : ℕ → ℕ → ℕ × ℕ
swap a b = (b, a)

module _ {W : Type 0} (windows : Windows W) where
  unfoldable pub close_handle_guard : M (HandleGuard W) Bool
  close_handle_guard g =
      if g.handle == invalid_handle
      then ok true g
      else (let (result, w) = windows.close_handle g.handle g.world in
          ok (not (result == 0))
            (record { handle = if result == 0 then g.handle else invalid_handle; world = w }))

  -- The destructor, which only prints an error.
  abbrev pub destroy_handle : ℕ → M W (Unit {0})
  destroy_handle handle w = elim (close_handle_guard (record { handle = handle; world = w })) [
    | ok r g ↦ ok tt g.world
    | threw e g ↦ threw e g.world
    | terminated ↦ terminated
    | undefined ↦ undefined
    | stuck ↦ stuck
  ]

  -- The move assignment from a temporary: `tmp` gets what was guarded before, and its destructor closes that.
  unfoldable pub assign_handle : ℕ → M (HandleGuard W) (Unit {0})
  assign_handle rhs g =
      let (mine, tmp) = swap g.handle rhs in
      elim (destroy_handle tmp g.world) [
        | ok r w ↦ ok tt (record { handle = mine; world = w })
        | threw e w ↦ threw e (record { handle = mine; world = w })
        | terminated ↦ terminated
        | undefined ↦ undefined
        | stuck ↦ stuck
      ]
