-- ===== src/Server/Accept.antt =====
-- Listener::accept of src/fcgi/listener.cpp, on a connection whose first bytes have arrived.
use fcgi.Prelude.{
  ℕ, ◌%◌, ◌≤◌, ◌<◌, ◌≡◌, refl, Bool, true, false, not, ◌&&◌, ◌||◌, List, [], ◌∷◌, ◌++◌, map, length,
  arith, ◌==◌, eq→==, ne→==, lt→leb, min, take_all,
}
use fcgi.Outcome.{ok, threw, ◌>>=◌, ◌>>◌, protocol_violation}
use fcgi.Math.Alignment.{padding}
use fcgi.Net.Descriptor.{arrives, Io, read, write, max_write_size}
use fcgi.Istream.{goodbit}
use fcgi.Basics.{out, err, responder, authorizer, filter, begin_request, cant_mpx_conn, status_code}
use fcgi.Basics.Header.{
  Header, header_bytes, request_id, content_length, is_management_record, read_header,
  check_validity,
}
use fcgi.Basics.Bodies.{role, read_begin_request_body}
use fcgi.Basics.Codec.{Says, IsEndRequest, end_request_record-IsEndRequest}
use fcgi.NamesValues.RoundTrip.{stored}
use fcgi.Connection.{Connection}
use fcgi.Streambuf.{St, fresh, setbuf, make_streambuf, is_invariant_ok}
use fcgi.Streambuf.Delivery.View.{View, at, IsOpen}
use fcgi.Streambuf.Delivery.Frames.{Frame}
use fcgi.Streambuf.Delivery.Records.{enough}
use fcgi.Server.{
  ServerConnection, accept, refuse, make_istream, make_server_connection, connection_is_closed,
  out_buffer_size, err_buffer_size, with_io,
}
use fcgi.Server.Sends.{Sends, input_reader}
use fcgi.Server.Parameters.{make_istream-params}

-- The descriptor of a client that has sent `bytes` at once, and then what is in `io`.
abbrev pub behind : List ℕ → Io → Io
behind bytes io = record io { arrivals = arrives bytes ∷ io.arrivals }

abbrev pub begun : ℕ → ℕ → ℕ → Io → Connection
begun asked id flags io = record {
  is_keep_connection = not (flags % 2 == 0);
  role = asked;
  request_id = id;
  application_status = 0;
  io = io;
  parameters = [];
}

make_out_streambuf :
    (c : Connection)
    → make_streambuf out_buffer_size out c
      ≡ ok tt (record {
        connection = c;
        buf = record (fresh out) { buffer_size = out_buffer_size; has_put = true };
      })
unfolding make_streambuf setbuf is_invariant_ok padding
make_out_streambuf c = refl

make_err_streambuf :
    (c : Connection)
    → make_streambuf err_buffer_size err c
      ≡ ok tt (record {
        connection = c;
        buf = record (fresh err) { buffer_size = err_buffer_size; has_put = true };
      })
unfolding make_streambuf setbuf is_invariant_ok padding
make_err_streambuf c = refl

abbrev pub begin_body : ℕ → ℕ → List ℕ
begin_body asked flags = 0 ∷ asked ∷ flags ∷ 0 ∷ 0 ∷ 0 ∷ 0 ∷ 0 ∷ []

read_header-behind :
    (h : Header) (rest : List ℕ) (io : Io)
    → h.protocol_version ≡ 1
    → 0 < length rest
    → read_header (behind (header_bytes h ++ rest) io) ≡ ok h (behind rest io)
unfolding read_header read check_validity
read_header-behind h rest io v n = rw (lt→leb (length (header_bytes h ++ rest)) 8 (omega arith), v)

read_body-behind :
    (asked flags : ℕ) (io : Io)
    → read_begin_request_body (behind (begin_body asked flags) io)
      ≡ ok (record { role_b1 = 0; role_b0 = asked; flags = flags }) io
unfolding read_begin_request_body read
read_body-behind asked flags io = refl

write-all :
    (bytes : List ℕ) (io : Io)
    → io.sends ≡ []
    → length bytes ≤ max_write_size
    → write bytes io ≡ ok (length bytes) (record io { sends = []; sent = io.sent ++ bytes })
unfolding write
write-all bytes io all l =
    let whole : min (length bytes) max_write_size ≡ length bytes = omega arith in
    rw (all, whole, take_all bytes)

-- The connection whose input stream has been read up to `i`.
abbrev pub served : St → ServerConnection
served i = record {
  connection = i.connection;
  in_streambuf = i.buf;
  in_flags = goodbit;
  out_streambuf = record (fresh out) { buffer_size = out_buffer_size; has_put = true };
  err_streambuf = record (fresh err) { buffer_size = err_buffer_size; has_put = true };
}

module _ (garbage : ℕ → ℕ) where
  make_server_connection-served :
      (fuel asked id : ℕ) (keep : Bool) (io : Io) (i : St)
      → make_istream garbage fuel (record {
        is_keep_connection = keep;
        role = asked;
        request_id = id;
        application_status = 0;
        io = io;
        parameters = [];
      })
        ≡ ok goodbit i
      → make_server_connection garbage fuel asked id keep io ≡ ok (served i) i.connection.io
  unfolding make_server_connection
  make_server_connection-served fuel asked id keep io i z =
      rw (z, with_io, make_out_streambuf i.connection, make_err_streambuf i.connection)

  -- The connection that accept() returns.
  pub accept-served :
      (h : Header) (id asked flags : ℕ) (io : Io) (ps : List (List ℕ × List ℕ)) (fs : List Frame)
      (pad tail : List ℕ) (fuel : ℕ)
      → Says h begin_request id 8 0
      → (asked == responder) || (asked == filter) ≡ true
      → Sends (begun asked id flags io) ps fs pad tail
      → enough ≤ fuel
      → length ps < fuel
      → (w : View) × (accept garbage fuel (behind (header_bytes h ++ begin_body asked flags) io)
          ≡ ok
              (served (at (input_reader (begun asked id flags io) (map stored ps)) w))
              (at (input_reader (begun asked id flags io) (map stored ps)) w).connection.io)
        × IsOpen (input_reader (begun asked id flags io) (map stored ps)) w
        × (w.content ≡ 0)
        × (w.padding ≡ 0)
  unfolding accept
  accept-served h id asked flags io ps fs pad tail fuel y r s f l =
      let (w, z, p, o, e, k, n) =
        make_istream-params garbage (begun asked id flags io) ps fs pad tail fuel s r f l in
      let i = at (input_reader (begun asked id flags io) (map stored ps)) w in
      let asked_role : role (record { role_b1 = 0; role_b0 = asked; flags = flags }) ≡ asked =
        omega arith in
      let suits : (asked == responder) || (asked == authorizer) || (asked == filter) ≡ true =
        ground arith in
      (
        w,
        rw (
          read_header-behind h (begin_body asked flags) io y.says_version (omega arith),
          ◌>>=◌,
          y.says_type,
          y.says_id,
          ne→== id 0 s.named,
          y.says_content,
          read_body-behind asked flags io,
          asked_role,
          suits,
          y.says_id,
          make_server_connection-served fuel asked id (not (flags % 2 == 0)) io i z,
        ),
        o,
        k,
        n,
      )

  -- A client whose first arrival is a begin-request record, the whole of it, without padding and nothing else, for a
  -- responder or a filter and an id from 1 to 65535, and behind which come, in arrivals none of which is empty or
  -- fails, records of the params stream of at most 16384 bytes of content each, which together encode pairs whose sizes
  -- fit an int, and the record that ends the stream: with the fuel `enough`, and more than there are pairs, accept()
  -- returns a connection of that role, request and flag, with exactly these parameters, whose three streams are open
  -- and whose input stream is good.
  pub accept-serves :
      (h : Header) (id asked flags : ℕ) (io : Io) (ps : List (List ℕ × List ℕ)) (fs : List Frame)
      (pad tail : List ℕ) (fuel : ℕ)
      → Says h begin_request id 8 0
      → (asked == responder) || (asked == filter) ≡ true
      → Sends (begun asked id flags io) ps fs pad tail
      → enough ≤ fuel
      → length ps < fuel
      → (k : ServerConnection) × (accept garbage fuel
            (behind (header_bytes h ++ begin_body asked flags) io)
          ≡ ok k k.connection.io)
        × (k.connection.parameters ≡ map stored ps)
        × ((k.connection.role ≡ asked) × (k.connection.request_id ≡ id))
        × (k.connection.is_keep_connection ≡ not (flags % 2 == 0))
        × (k.in_flags ≡ goodbit)
        × (connection_is_closed k ≡ false)
  accept-serves h id asked flags io ps fs pad tail fuel y r s f l =
      let (w, z, o, k, n) = accept-served h id asked flags io ps fs pad tail fuel y r s f l in
      (
        served (at (input_reader (begun asked id flags io) (map stored ps)) w),
        z,
        refl,
        (refl, refl),
        refl,
        refl,
        refl,
      )

  -- A client whose first arrival is a header of version 1 with at least a byte behind it, and whose header is anything
  -- but that of a begin-request record of 8 bytes for a request with an id, is answered, where ::send takes all, with
  -- the end-request record that says that connections are not multiplexed, and accept() then throws.
  pub accept-refuses :
      (h : Header) (rest : List ℕ) (io : Io) (fuel : ℕ)
      → h.protocol_version ≡ 1
      → (h.record_type == begin_request) && not (is_management_record h) && (content_length h == 8)
        ≡ false
      → request_id h < 65536
      → 0 < length rest
      → io.sends ≡ []
      → (bytes : List ℕ) × (accept garbage fuel (behind (header_bytes h ++ rest) io)
          ≡ threw protocol_violation
              (record (behind rest io) { sends = []; sent = io.sent ++ bytes }))
        × IsEndRequest (request_id h) 0 (status_code cant_mpx_conn) bytes
  unfolding accept refuse
  accept-refuses h rest io fuel v bad small n all =
      let (bytes, z, says) =
        end_request_record-IsEndRequest (behind rest io) (request_id h) 0 cant_mpx_conn small
          (omega arith) in
      (
        bytes,
        rw (
          read_header-behind h rest io v n,
          ◌>>=◌,
          ◌>>◌,
          bad,
          z,
          write-all bytes (behind rest io) all (omega (arith, says.says_size)),
          eq→== (length bytes) (length bytes) refl,
        ),
        says,
      )
