-- ===== src/Streambuf/Writer.antt =====
-- overflow(), sync() and close() of src/fcgi/streambuf.cpp. `none` is `traits_type::eof()`, and the value of
-- `not_eof(eof())` is 0.
use fcgi.Prelude.{
  ℕ, ◌+◌, ◌%◌, ◌^◌, Bool, true, false, not, ◌&&◌, ◌||◌, List, [], ◌∷◌, ◌++◌, Option, none, some,
  length, replicate, ltb, leb, ◌==◌, if◌then◌else◌,
}
use fcgi.Outcome.{
  caught, M, ok, pure, state, modify, throw, ◌>>=◌, ◌>>◌, assert, filter_stdin_unread,
}
use fcgi.Math.Alignment.{padding}
use fcgi.Basics.{
  StreamType, params, input, out, err, filter_data, stream_code, authorizer, filter,
  request_complete,
}
use fcgi.Basics.Header.{make_header, header_bytes}
use fcgi.Basics.Bodies.{end_request_record}
use fcgi.Streambuf.{St, Streambuf, set_buf, is_reader, is_closed, is_invariant_ok, put_capacity}
use fcgi.Streambuf.ProcessHeader.{write_record}

-- The content with `ch` behind it, unless that is EOF. (`pptr()` may be `epptr()`.)
unfoldable pub store : Option ℕ → M St (Unit {0})
store none = pure tt
store (some ch) = do
  s ← state
  assert (leb (length s.buf.put) (put_capacity s.buf))
  modify (λ t. set_buf t (record t.buf { put = t.buf.put ++ (ch % 2 ^ 8) ∷ [] }))

-- Sends the put area as one record. The padding is put behind the content, and stays there if ::send fails.
unfoldable pub send_put_area : Option ℕ → M St (Unit {0})
send_put_area ch = do
  store ch
  s ← state
  padding_length ← padding (length s.buf.put) 8
  assert (leb (length s.buf.put + padding_length) (put_capacity s.buf + 1))
  modify (λ t. set_buf t (record t.buf { put = t.buf.put ++ replicate padding_length 0 }))
  header ←
      make_header (stream_code s.buf.type) s.connection.request_id (length s.buf.put) padding_length
  t ← state
  write_record (header_bytes header ++ t.buf.put)
  modify (λ t. set_buf t (record t.buf { is_put_area_at_least_once_consumed = true }))

-- The record of no content that ends a stream. An error stream that nothing was written to needs none.
unfoldable pub end_of_stream_record : St → M St (List ℕ)
end_of_stream_record s = elim s.buf.type [
  | err ↦
      if s.buf.is_put_area_at_least_once_consumed
      then (make_header (stream_code err) s.connection.request_id 0 0 >>= λ h.
          pure (header_bytes h))
      else pure []
  | type ↦
      (make_header (stream_code type) s.connection.request_id 0 0 >>= λ h. pure (header_bytes h))
]

-- The end-request record, which closes the request with its output stream.
unfoldable pub end_of_request_record : St → M St (List ℕ)
end_of_request_record s = elim s.buf.type [
  | out ↦
      end_request_record s.connection.request_id s.connection.application_status request_complete
  | _ ↦ pure []
]

unfoldable pub send_end_records : M St (Unit {0})
send_end_records = do
  s ← state
  ending ← end_of_stream_record s
  closing ← end_of_request_record s
  if ltb 0 (length (ending ++ closing)) then write_record (ending ++ closing) else pure tt
  modify (λ t.
      set_buf t
        (record t.buf { is_end_records_must_be_transmitted = false; is_end_of_stream = true }))

-- What `overflow` does on an open stream that has not ended.
unfoldable pub flush : Option ℕ → M St (Unit {0})
flush ch = do
  s ← state
  if ltb 0 (length s.buf.put) then send_put_area ch else pure tt
  modify (λ t. set_buf t (record t.buf { put = [] }))
  t ← state
  if t.buf.is_end_records_must_be_transmitted then send_end_records else pure tt
  u ← state
  assert (is_invariant_ok u)

abbrev not_eof : Option ℕ → Option ℕ
not_eof none = some 0
not_eof (some ch) = some ch

unfoldable pub overflow : Option ℕ → M St (Option ℕ)
overflow ch = do
  s ← state
  assert (not (is_reader s.buf) && not (is_closed s.buf))
  if s.buf.is_end_of_stream then pure none else (flush ch >> pure (not_eof ch))

-- `true` is 0, success.
unfoldable pub sync : M St Bool
sync = do ch ← overflow none; pure (elim ch [ none ↦ false | some c ↦ true ])

-- `sputc(ch)` of std::streambuf: into the put area, or through overflow() where it is full.
unfoldable pub sputc : ℕ → M St (Option ℕ)
sputc ch s =
    if ltb (length s.buf.put) (put_capacity s.buf)
    then ok (some ch) (set_buf s (record s.buf { put = s.buf.put ++ (ch % 2 ^ 8) ∷ [] }))
    else overflow (some ch) s

abbrev pub is_params : StreamType → Bool
is_params params = true
is_params input = false
is_params out = false
is_params err = false
is_params filter_data = false

abbrev pub is_filter_data : StreamType → Bool
is_filter_data params = false
is_filter_data input = false
is_filter_data out = false
is_filter_data err = false
is_filter_data filter_data = true

-- The part of close() for a writer. `inbuf` is the buffer of the input stream.
unfoldable pub end_writing : Streambuf → M St (Unit {0})
end_writing inbuf = do
  assert (is_reader inbuf && not (is_closed inbuf))
  s ← state
  let role = s.connection.role
  assert (role == authorizer || not (is_params inbuf.type))
  if not (role == filter) || is_filter_data inbuf.type || inbuf.unread_content_length == 0
      then (do
        modify (λ t. set_buf t (record t.buf { is_end_records_must_be_transmitted = true }))
        sync >>= λ _. pure tt)
      else throw filter_stdin_unread
  t ← state
  assert (t.buf.is_end_of_stream && not t.buf.is_end_records_must_be_transmitted)

unfoldable pub close : Streambuf → M St (Unit {0})
close inbuf = do
  s ← state
  if is_closed s.buf then pure tt else (do
    if is_reader s.buf then pure tt else end_writing inbuf
    modify (λ t. set_buf t (record t.buf { has_get = false; has_put = false }))
    t ← state
    assert (is_closed t.buf)
    assert (is_invariant_ok t))

-- The destructor of a stream buffer.
unfoldable pub destroy_streambuf : Streambuf → M St (Unit {0})
destroy_streambuf inbuf s = caught (close inbuf s)
