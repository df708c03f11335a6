-- ===== src/Outcome.antt =====
-- What a call does to a state: it returns, throws, ends the process or is undefined. Assertions
-- (base/assert.hpp), exceptions and the state that they leave behind are values here.
pub mod Holds
use fcgi.Prelude.{Bool, true, false}

-- What the modelled code throws, by the text of the exception.
pub data Exception : Type 0 where
  -- math::padding, math::aligned
  padding_not_power_of_2 aligned_not_power_of_2 invalid_interval : Exception
  -- "FastCGI protocol violation"
  protocol_violation : Exception
  -- Names_values
  cannot_read_length cannot_read_parameters : Exception
  -- server_Istream
  unexpected_stream_state : Exception
  -- server_Streambuf
  pending_data filter_stdin_unread : Exception
  -- Listener::accept
  unknown_role : Exception
  -- Server_connection::parameter
  invalid_parameter_index cannot_get_parameter : Exception
  -- net::Descriptor
  cannot_read_from_socket cannot_write_to_socket cannot_shutdown_gracefully : Exception
  -- net::Socket_guard and the functions on sockets
  cannot_create_socket cannot_bind_socket cannot_connect_socket : Exception
  cannot_poll_invalid_socket cannot_poll_socket cannot_close_socket : Exception
  -- net::Ip_address, net::Socket_address, net::Endpoint
  cannot_convert_text cannot_convert_binary path_too_long bad_optional_access : Exception
  -- net::Listener_options, net::Listener
  invalid_port invalid_backlog : Exception
  cannot_reuse_address cannot_listen not_listening invalid_timeout cannot_accept : Exception
  -- the named pipes of net::Listener and net::Descriptor
  inappropriate_mode cannot_create_event cannot_create_pipe cannot_connect_pipe : Exception
  cannot_retrieve_results cannot_cancel_io cannot_wait_for_pipe : Exception
  cannot_read_from_pipe cannot_write_to_pipe cannot_flush_buffers : Exception
  cannot_disconnect_pipe cannot_close_pipe : Exception
  -- rnd::cpp_pl_3rd
  invalid_random_interval : Exception
  -- net::copy
  copy_to_null copy_from_null copy_would_not_fit : Exception

-- `terminated` is a failed DMITIGR_ASSERT, `undefined` is behaviour that C++ leaves undefined, and
-- `stuck` is no behaviour of the code: a loop of the model ran out of fuel.
pub data Outcome (S A : Type 0) : Type 0 where
  ok : A → S → Outcome S A
  threw : Exception → S → Outcome S A
  terminated undefined stuck : Outcome S A

abbrev pub M : Type 0 → Type 0 → Type 0
M S A = S → Outcome S A

-- `try { ... } catch (...) {}`, with a message to the log.
abbrev pub caught : {S : Type 0} → Outcome S (Unit {0}) → Outcome S (Unit {0})
caught (ok a s) = ok tt s
caught (threw e s) = ok tt s
caught terminated = terminated
caught undefined = undefined
caught stuck = stuck

abbrev pub pure : {S A : Type 0} → A → M S A
pure a s = ok a s

infixl 5 ◌>>=◌ ◌>>◌
abbrev pub ◌>>=◌ : {S A B : Type 0} → M S A → (A → M S B) → M S B
◌>>=◌ m f s = elim (m s) [
  | ok a s' ↦ f a s'
  | threw e s' ↦ threw e s'
  | terminated ↦ terminated
  | undefined ↦ undefined
  | stuck ↦ stuck
]

abbrev pub ◌>>◌ : {S B : Type 0} → M S (Unit {0}) → M S B → M S B
m >> k = m >>= λ _. k

abbrev pub throw : {S A : Type 0} → Exception → M S A
throw e s = threw e s

-- `if (!test) throw e;`
abbrev pub guard : {S : Type 0} → Bool → Exception → M S (Unit {0})
guard true e s = ok tt s
guard false e s = threw e s

-- DMITIGR_ASSERT
abbrev pub assert : {S : Type 0} → Bool → M S (Unit {0})
assert true s = ok tt s
assert false s = terminated

abbrev pub state : {S : Type 0} → M S S
state s = ok s s

abbrev pub modify : {S : Type 0} → (S → S) → M S (Unit {0})
modify f s = ok tt (f s)
