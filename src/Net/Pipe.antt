-- ===== src/Net/Pipe.antt =====
-- The named pipes of Windows: what src/net/endpoint.hpp, src/net/listener.hpp and src/net/descriptor.hpp have of them
-- when they are compiled there. A name is a list of characters.
pub mod Listening
pub mod Reading
use fcgi.Prelude.{
  ℕ, ◌-◌, ◌%◌, ◌^◌, min, length, Bool, true, false, not, ◌&&◌, ◌||◌, List, [], ◌∷◌, ◌++◌, Option,
  none, some, leb, ◌==◌, if◌then◌else◌,
}
use fcgi.Outcome.{
  Outcome, M, ok, threw, terminated, undefined, stuck, pure, throw, guard, assert, state, modify,
  ◌>>=◌, ◌>>◌, inappropriate_mode, cannot_create_event, cannot_create_pipe, cannot_connect_pipe,
  cannot_retrieve_results, cannot_cancel_io, cannot_wait_for_pipe, cannot_read_from_pipe,
  cannot_write_to_pipe, cannot_flush_buffers, cannot_disconnect_pipe, cannot_close_pipe,
  not_listening, invalid_timeout, bad_optional_access,
}
use fcgi.Net.Descriptor.{max_read_size, max_write_size}
use fcgi.Net.Handle.{
  Windows, HandleGuard, invalid_handle, close_handle_guard, destroy_handle, assign_handle,
}
use fcgi.Net.Os.{call, is_nonneg64}

pub data WindowsMode : Type 0 where
  wnp uds net : WindowsMode

-- The endpoint, which has two members more than outside Windows.
pub record WindowsEndpoint : Type 0 where
  pub wnp_pipe_name : Option (List ℕ)
  pub wnp_server_name : Option (List ℕ)
  pub uds_path : Option (List ℕ)
  pub net_address : Option (List ℕ)
  pub net_port : Option ℕ

abbrev pub windows_mode : WindowsEndpoint → WindowsMode
windows_mode e = elim e.wnp_pipe_name [
  | some name ↦ wnp
  | none ↦ elim e.uds_path [ some path ↦ uds | none ↦ net ]
]

abbrev is_set : {A : Type 0} → Option A → Bool
is_set none = false
is_set (some a) = true

-- The text is there, and not empty.
abbrev has_text : Option (List ℕ) → Bool
has_text none = false
has_text (some []) = false
has_text (some (c ∷ cs)) = true

abbrev is_ipc : WindowsMode → Bool
is_ipc wnp = true
is_ipc uds = true
is_ipc net = false

abbrev is_net : WindowsMode → Bool
is_net wnp = false
is_net uds = false
is_net net = true

unfoldable pub is_windows_endpoint_ok : WindowsEndpoint → Bool
is_windows_endpoint_ok e =
    let wnp_ok =
      (not (is_set e.wnp_pipe_name) && not (is_set e.wnp_server_name))
      || (is_set e.wnp_pipe_name
          && is_set e.wnp_server_name
          && has_text e.wnp_pipe_name
          && has_text e.wnp_server_name) in
    let uds_ok = not (is_set e.uds_path) || has_text e.uds_path in
    let net_ok =
      (not (is_set e.net_address) && not (is_set e.net_port))
      || (is_set e.net_address && is_set e.net_port && has_text e.net_address) in
    let mode = windows_mode e in
    (wnp_ok || uds_ok)
    && net_ok
    && ((not (is_ipc mode) && is_net mode) || (is_ipc mode && not (is_net mode)))

-- `Endpoint{server_name, pipe_name}`
unfoldable pub make_server_endpoint : {S : Type 0} → List ℕ → List ℕ → M S WindowsEndpoint
make_server_endpoint server_name pipe_name = do
  let e : WindowsEndpoint = record {
    wnp_pipe_name = some pipe_name;
    wnp_server_name = some server_name;
    uds_path = none;
    net_address = none;
    net_port = none;
  }
  assert (is_windows_endpoint_ok e)
  pure e

-- A dot, for the own host.
abbrev pub this_server : List ℕ
this_server = 46 ∷ []

abbrev pub make_pipe_endpoint : {S : Type 0} → List ℕ → M S WindowsEndpoint
make_pipe_endpoint pipe_name = make_server_endpoint this_server pipe_name

pub record PipeOptions : Type 0 where
  pub endpoint : WindowsEndpoint
  pub backlog : Option ℕ

abbrev is_pipe : WindowsMode → Bool
is_pipe wnp = true
is_pipe uds = false
is_pipe net = false

unfoldable pub is_pipe_options_ok : PipeOptions → Bool
is_pipe_options_ok o =
    (not (is_pipe (windows_mode o.endpoint)) && is_set o.backlog) || not (is_set o.backlog)

unfoldable pub make_pipe_options : {S : Type 0} → List ℕ → M S PipeOptions
make_pipe_options pipe_name = do
  e ← make_pipe_endpoint pipe_name
  let o : PipeOptions = record { endpoint = e; backlog = none }
  assert (is_pipe_options_ok o)
  pure o

-- A listener in the world; `pipe` is the handle that its guard `pipe_` has.
pub record PipeListener (W : Type 0) : Type 0 where
  pub is_listening : Bool
  pub pipe : ℕ
  pub options : PipeOptions
  pub pipe_path : List ℕ
  pub world : W

-- \\.\pipe\
abbrev pub pipe_prefix : List ℕ
pipe_prefix = 92 ∷ 92 ∷ 46 ∷ 92 ∷ 112 ∷ 105 ∷ 112 ∷ 101 ∷ 92 ∷ []

-- Whether a server name is there and is a dot.
abbrev pub is_this_server : Option (List ℕ) → Bool
is_this_server none = false
is_this_server (some []) = false
is_this_server (some (c ∷ [])) = c == 46
is_this_server (some (c ∷ d ∷ cs)) = false

abbrev value_of : {S A : Type 0} → Option A → M S A
value_of none s = threw bad_optional_access s
value_of (some a) s = ok a s

unfoldable pub make_pipe_listener : {W : Type 0} → PipeOptions → M W (PipeListener W)
make_pipe_listener options = do
  guard (is_pipe (windows_mode options.endpoint)) inappropriate_mode
  name ← value_of options.endpoint.wnp_server_name
  assert (is_this_server options.endpoint.wnp_server_name)
  w ← state
  pure (record {
    is_listening = false;
    pipe = invalid_handle;
    options = options;
    pipe_path = pipe_prefix ++ name;
    world = w;
  })
