-- ===== src/Tests/Pipes.antt =====
-- Named pipes on a small system.
use fcgi.Prelude.{
  ℕ, suc, length, ◌≡◌, ◌≢◌, inl, inr, refl, Bool, true, false, not, ◌&&◌, ◌||◌, [], ◌∷◌, ◌++◌, none,
  some, ◌==◌, arith, eq→==, Bool-cases, if◌then◌else◌,
}
use fcgi.Outcome.{caught, ok, ◌>>◌}
use fcgi.Outcome.Holds.{Holds}
use fcgi.Net.Handle.{Windows, invalid_handle}
use fcgi.Net.Pipe.{
  PipeOptions, PipeListener, make_pipe_options, make_pipe_listener, pipe_prefix, this_server,
}
use fcgi.Net.Pipe.Listening.{error_io_pending, pipe_wait}
use fcgi.Net.Pipe.Listening.Naming.{pipe_path-make_pipe_listener}
use fcgi.Net.Pipe.Listening.Owning.{Makes, IsKept, LeaksWith, LeaksWithout, pipe_wait-Leaks}
use fcgi.Net.Pipe.Reading.{close_pipe, destroy_pipe}
use fcgi.Net.Pipe.Reading.Closing.{Closes, close_pipe-Closes}

-- The next handle, and those that are open.
record World : Type 0 where
  next_handle : ℕ
  open_ones : ℕ → Bool

abbrev opens : ℕ → World → ℕ × World
opens bad w =
    if not (w.next_handle == bad) && not (w.open_ones w.next_handle)
    then (
      w.next_handle,
      record {
        next_handle = suc w.next_handle;
        open_ones = λ h. (h == w.next_handle) || w.open_ones h;
      },
    )
    else (bad, w)

-- No client comes in time, and a pipe cannot be flushed.
abbrev lonely : Windows World
lonely = record {
  create_event = opens 0;
  create_named_pipe = λ path w. opens invalid_handle w;
  connect_named_pipe = λ p e w. (0, w);
  get_last_error = λ w. error_io_pending;
  wait_for_single_object = λ e t w. (258, w);
  get_overlapped_result = λ p e w. (1, w);
  cancel_io = λ p w. (1, w);
  close_handle = λ h w. (1, record w { open_ones = λ k. not (k == h) && w.open_ones k });
  flush_file_buffers = λ p w. (0, w);
  disconnect_named_pipe = λ p w. (1, w);
  read_file = λ p n w. (some [], w);
  write_file = λ p bytes w. (some (length bytes), w);
}

abbrev is_open : World → ℕ → Bool
is_open w = w.open_ones

no_false : false ≢ true
no_false h = ground arith

both : (a b : Bool) → not a && not b ≡ true → (a ≡ false) × (b ≡ false)
both true b h = absurd (no_false h)
both false true h = absurd (no_false h)
both false false h = (refl, refl)

opens-Makes : (bad : ℕ) (w : World) → Makes is_open bad w (opens bad w)
opens-Makes bad w =
    elim (Bool-cases (not (w.next_handle == bad) && not (w.open_ones w.next_handle))) [
      | inr n ↦ rw n (inr (eq→== bad bad refl, λ h. refl))
      | inl y ↦
          let (v, new) = both (w.next_handle == bad) (w.open_ones w.next_handle) y in
          rw y (inl (v, new, λ h. refl))
    ]

lonely-IsKept : IsKept is_open lonely
lonely-IsKept = record {
  event_makes = λ w. opens-Makes 0 w;
  pipe_makes = λ path w. opens-Makes invalid_handle w;
  connect_same = λ p e w h. refl;
  wait_same = λ e t w h. refl;
  result_same = λ p e w h. refl;
  cancel_same = λ p w h. refl;
  flush_same = λ p w h. refl;
  disconnect_same = λ p w h. refl;
  close_succeeds = λ h w. refl;
  close_closes = λ h w k. refl;
}

abbrev start : World
start = record { next_handle = 8; open_ones = λ h. h == 4 }

abbrev options : PipeOptions
options = record {
  endpoint = record {
    wnp_pipe_name = some (97 ∷ []);
    wnp_server_name = some this_server;
    uds_path = none;
    net_address = none;
    net_port = none;
  };
  backlog = none;
}

abbrev listening : PipeListener World
listening = record {
  is_listening = true;
  pipe = invalid_handle;
  options = options;
  pipe_path = pipe_prefix ++ this_server;
  world = start;
}

pipe_path-make_pipe_listener_example :
    (o : PipeOptions) × (l : PipeListener World) × (make_pipe_options (97 ∷ []) start ≡ ok o start)
    × (o.endpoint.wnp_pipe_name ≡ some (97 ∷ []))
    × (make_pipe_listener o start ≡ ok l start)
    × (l.pipe ≡ invalid_handle)
    × (l.pipe_path ≡ pipe_prefix ++ this_server)
pipe_path-make_pipe_listener_example = pipe_path-make_pipe_listener start 97 []

pipe_wait-Leaks_example :
    Holds
      (LeaksWith is_open lonely lonely-IsKept listening)
      (LeaksWithout is_open lonely lonely-IsKept listening)
      (pipe_wait lonely 1000 listening)
pipe_wait-Leaks_example =
    pipe_wait-Leaks is_open lonely lonely-IsKept listening refl 1000 refl refl refl

close_pipe-Closes_example : Closes is_open lonely lonely-IsKept 4 start (
    ((λ d. caught (close_pipe lonely d)) >> destroy_pipe lonely)
      (record { handle = 4; world = start }))
close_pipe-Closes_example = close_pipe-Closes is_open lonely lonely-IsKept 4 start refl
