-- ===== src/Server.antt =====
-- src/fcgi/streams.cpp, src/fcgi/server_connection_stacked.cpp and Listener::accept of
-- src/fcgi/listener.cpp: a connection with its three streams, from the first byte to its closing.
pub mod Sends
pub mod Parameters
pub mod Filtering
pub mod Session
pub mod Closing
pub mod Destroying
pub mod Retrying
pub mod Unread
pub mod Lookup
pub mod Accept
pub mod Serving
use fcgi.Prelude.{
  ℕ, ◌+◌, ◌-◌, Bool, true, false, not, ◌&&◌, ◌||◌, List, [], ◌∷◌, ◌++◌, Option, none, some, length,
  ltb, ◌==◌, if◌then◌else◌,
}
use fcgi.Outcome.{
  caught, Outcome, M, ok, threw, terminated, undefined, stuck, pure, state, modify, throw, ◌>>=◌,
  ◌>>◌, guard, assert, protocol_violation, unknown_role, unexpected_stream_state,
  invalid_parameter_index, cannot_get_parameter,
}
use fcgi.Net.Descriptor.{Io, write}
use fcgi.Istream.{Stream, Flags, goodbit, on}
use fcgi.Basics.{
  ProtocolStatus, unknown_role_status, cant_mpx_conn, params, input, out, err, responder,
  authorizer, filter, begin_request,
}
use fcgi.Basics.Header.{Header, read_header, request_id, content_length, is_management_record}
use fcgi.Basics.Bodies.{
  BeginRequestBody, read_begin_request_body, begin_request_body_size, role, is_keep_conn,
  end_request_record,
}
use fcgi.NamesValues.{NameValue, value, names_values, pair_count, pair_index, pair}
use fcgi.Connection.{Connection}
use fcgi.Streambuf.{Streambuf, St, set_buf, is_closed, make_streambuf, reset_reader}
use fcgi.Streambuf.ProcessHeader.{sbumpc}
use fcgi.Streambuf.Reader.{underflow}
use fcgi.Streambuf.Writer.{close, destroy_streambuf}

abbrev pub in_buffer_size : ℕ
in_buffer_size = 16384

abbrev pub out_buffer_size : ℕ
out_buffer_size = 65528

abbrev pub err_buffer_size : ℕ
err_buffer_size = 65528

-- `in_flags` is the state of the stream `in_`.
pub record ServerConnection : Type 0 where
  pub connection : Connection
  pub in_streambuf : Streambuf
  pub in_flags : Flags
  pub out_streambuf : Streambuf
  pub err_streambuf : Streambuf

abbrev set_parameters : List NameValue → St → St
set_parameters pairs s = record {
  connection = record s.connection { parameters = pairs };
  buf = s.buf;
}

-- Runs an operation that leaves a stream buffer with its connection, for the descriptor's owner.
abbrev with_io : {A B : Type 0} → Outcome St A → (A → St → Outcome Io B) → Outcome Io B
with_io (ok a s) k = k a s
with_io (threw e s) k = threw e s.connection.io
with_io terminated k = terminated
with_io undefined k = undefined
with_io stuck k = stuck

unfoldable pub refuse : Header → ProtocolStatus → M Io (Unit {0})
refuse header protocol_status = do
  bytes ← end_request_record (request_id header) 0 protocol_status
  count ← write bytes
  assert (count == length bytes)

module _ (garbage : ℕ → ℕ) where
  -- `Names_values{*this, 32}` on the input stream, with the state in which it leaves the stream.
  abbrev pub read_parameters : ℕ → M St (List NameValue × Flags)
  read_parameters fuel s =
      elim (names_values (sbumpc (underflow garbage fuel)) fuel (on goodbit s)) [
        | ok pairs r ↦ ok (pairs, r.flags) r.buffer
        | threw e r ↦ threw e r.buffer
        | terminated ↦ terminated
        | undefined ↦ undefined
        | stuck ↦ stuck
      ]

  -- The body of the constructor of server_Istream, and the state of the stream after it.
  unfoldable pub read_request : ℕ → M St Flags
  read_request fuel = do
    r ← read_parameters fuel
    modify (set_parameters r.0)
    guard (r.1.eofbit && not r.1.badbit) unexpected_stream_state
    s ← state
    if s.connection.role == responder || s.connection.role == filter
        then (reset_reader input >> pure goodbit)
        else pure r.1

  unfoldable pub make_istream : ℕ → Connection → Outcome St Flags
  make_istream fuel c = elim (make_streambuf in_buffer_size params c) [
    | ok _ s ↦ read_request fuel s
    | threw e s ↦ threw e s
    | terminated ↦ terminated
    | undefined ↦ undefined
    | stuck ↦ stuck
  ]

  -- `stack_buffers_Server_connection{io, role, request_id, is_keep_connection}`.
  unfoldable pub make_server_connection : ℕ → ℕ → ℕ → Bool → M Io ServerConnection
  make_server_connection fuel role id keep io =
      with_io
        (make_istream fuel (record {
          is_keep_connection = keep;
          role = role;
          request_id = id;
          application_status = 0;
          io = io;
          parameters = [];
        }))
        λ flags i. with_io (make_streambuf out_buffer_size out i.connection) λ _ o.
          with_io (make_streambuf err_buffer_size err o.connection) λ _ e.
            ok
              (record {
                connection = e.connection;
                in_streambuf = i.buf;
                in_flags = flags;
                out_streambuf = o.buf;
                err_streambuf = e.buf;
              })
              e.connection.io

  -- Listener::accept, on the descriptor of an accepted connection.
  unfoldable pub accept : ℕ → M Io ServerConnection
  accept fuel = do
    header ← read_header
    if header.record_type == begin_request
          && not (is_management_record header)
          && content_length header == begin_request_body_size
        then (do
          body ← read_begin_request_body
          if role body == responder || role body == authorizer || role body == filter
              then make_server_connection fuel (role body) (request_id header) (is_keep_conn body)
              else (refuse header unknown_role_status >> throw unknown_role))
        else (refuse header cant_mpx_conn >> throw protocol_violation)

abbrev pub on_err : M St (Unit {0}) → M ServerConnection (Unit {0})
on_err m k = elim (m (record { connection = k.connection; buf = k.err_streambuf })) [
  | ok a s ↦ ok a (record k { connection = s.connection; err_streambuf = s.buf })
  | threw e s ↦ threw e (record k { connection = s.connection; err_streambuf = s.buf })
  | terminated ↦ terminated
  | undefined ↦ undefined
  | stuck ↦ stuck
]

abbrev pub on_out : M St (Unit {0}) → M ServerConnection (Unit {0})
on_out m k = elim (m (record { connection = k.connection; buf = k.out_streambuf })) [
  | ok a s ↦ ok a (record k { connection = s.connection; out_streambuf = s.buf })
  | threw e s ↦ threw e (record k { connection = s.connection; out_streambuf = s.buf })
  | terminated ↦ terminated
  | undefined ↦ undefined
  | stuck ↦ stuck
]

abbrev pub on_in : M St (Unit {0}) → M ServerConnection (Unit {0})
on_in m k = elim (m (record { connection = k.connection; buf = k.in_streambuf })) [
  | ok a s ↦ ok a (record k { connection = s.connection; in_streambuf = s.buf })
  | threw e s ↦ threw e (record k { connection = s.connection; in_streambuf = s.buf })
  | terminated ↦ terminated
  | undefined ↦ undefined
  | stuck ↦ stuck
]

-- The order is important: the output stream closes the request.
unfoldable pub close_connection : M ServerConnection (Unit {0})
close_connection = do
  k ← state
  on_err (close k.in_streambuf)
  on_out (close k.in_streambuf)
  on_in (close k.in_streambuf)

-- The destructor of a connection: after its body those of the streams, the last one first.
unfoldable pub destroy_connection : M ServerConnection (Unit {0})
destroy_connection = do
  λ k. caught (close_connection k)
  k ← state
  on_err (destroy_streambuf k.in_streambuf)
  on_out (destroy_streambuf k.in_streambuf)
  on_in (destroy_streambuf k.in_streambuf)

abbrev pub connection_is_closed : ServerConnection → Bool
connection_is_closed k =
    is_closed k.err_streambuf && is_closed k.out_streambuf && is_closed k.in_streambuf

-- `parameter(index)` and `parameter(name)` of iServer_connection.
unfoldable pub parameter_at : ℕ → M Connection (List ℕ)
parameter_at index = do
  c ← state
  guard (ltb index (pair_count c.parameters)) invalid_parameter_index
  p ← pair index c.parameters
  pure (value p)

unfoldable pub parameter : List ℕ → M Connection (List ℕ)
parameter name = do
  c ← state
  elim (pair_index name c.parameters) [
    | none ↦ throw cannot_get_parameter
    | some index ↦ pair index c.parameters >>= λ p. pure (value p)
  ]
