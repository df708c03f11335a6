-- ===== src/Net/Pipe/Listening/Naming.antt =====
-- The path that pipe_Listener makes of the name of a pipe.
use fcgi.Prelude.{ℕ, ◌≡◌, refl, List, ◌∷◌, ◌++◌, some}
use fcgi.Outcome.{ok}
use fcgi.Net.Handle.{invalid_handle}
use fcgi.Net.Pipe.{
  PipeOptions, PipeListener, make_server_endpoint, is_windows_endpoint_ok, is_pipe_options_ok,
  make_pipe_options, make_pipe_listener, pipe_prefix, this_server,
}

-- For every name that is not empty the options are made and keep the name, and the listener is made of them and has no
-- pipe yet, but its path is the same for all names.
pub pipe_path-make_pipe_listener :
    {W : Type 0} (w : W) (c : ℕ) (cs : List ℕ)
    → (o : PipeOptions) × (l : PipeListener W) × (make_pipe_options (c ∷ cs) w ≡ ok o w)
      × (o.endpoint.wnp_pipe_name ≡ some (c ∷ cs))
      × (make_pipe_listener o w ≡ ok l w)
      × (l.pipe ≡ invalid_handle)
      × (l.pipe_path ≡ pipe_prefix ++ this_server)
unfolding make_pipe_options make_server_endpoint is_windows_endpoint_ok is_pipe_options_ok
    make_pipe_listener
pipe_path-make_pipe_listener w c cs = (_, _, refl, refl, refl, refl, refl)
