-- ===== src/Streambuf/ProcessHeader.antt =====
-- process_header() of src/fcgi/streambuf.cpp. Its reading of a get-values record goes through the buffer's
-- own underflow(), which is here the argument `underflow`.
use fcgi.Prelude.{
  ℕ, zero, suc, ◌+◌, ◌-◌, ◌%◌, ◌^◌, not, List, [], ◌∷◌, ◌++◌, Option, none, some, length, ltb, leb,
  ◌==◌, if◌then◌else◌,
}
use fcgi.Outcome.{
  M, ok, threw, terminated, undefined, stuck, pure, state, modify, throw, ◌>>=◌, ◌>>◌, assert,
  protocol_violation,
}
use fcgi.Math.Alignment.{padding}
use fcgi.Net.Descriptor.{write}
use fcgi.Istream.{goodbit, on}
use fcgi.Basics.{
  ProtocolStatus, cant_mpx_conn, stream_code, begin_request, get_values, get_values_result,
}
use fcgi.Basics.Header.{
  Header, make_header, header_bytes, header_size, check_validity, request_id, content_length,
  is_management_record, null_request_id,
}
use fcgi.Basics.Bodies.{end_request_record, unknown_type_record}
use fcgi.NamesValues.{NameValue, name, same, names_values}
use fcgi.Streambuf.{St, set_buf, on_io, gbump, is_invariant_ok}

pub data ProcessHeaderResult : Type 0 where
  request_rejected management_processed content_must_be_consumed content_must_be_discarded :
      ProcessHeaderResult

-- `sbumpc()` of std::streambuf: the next byte of the get area, which `underflow` fills.
abbrev take_next : M St (Option ℕ)
take_next s = elim s.buf.unread [
  | [] ↦ ok none s
  | b ∷ rest ↦ ok (some b) (set_buf s (gbump 1 s.buf))
]

unfoldable pub sbumpc : M St (Option ℕ) → M St (Option ℕ)
sbumpc underflow s =
    if ltb s.buf.gptr s.buf.egptr
    then take_next s
    else (underflow >>= λ c. elim c [ none ↦ pure none | some b ↦ take_next ]) s

-- Writes a whole record, or ends the process.
unfoldable pub write_record : List ℕ → M St (Unit {0})
write_record record_bytes = do
  count ← on_io (write record_bytes)
  assert (count == length record_bytes)

unfoldable pub reply_end_request : Header → ProtocolStatus → M St (Unit {0})
reply_end_request header protocol_status = do
  bytes ← end_request_record (request_id header) 0 protocol_status
  write_record bytes

unfoldable pub end_request_protocol_violation : {A : Type 0} → Header → M St A
end_request_protocol_violation header = do
  reply_end_request header cant_mpx_conn
  throw protocol_violation

abbrev pub max_conns : List ℕ
max_conns =
    b'F' ∷ b'C' ∷ b'G' ∷ b'I' ∷ b'_' ∷ b'M' ∷ b'A' ∷ b'X' ∷ b'_' ∷ b'C' ∷ b'O' ∷ b'N' ∷ b'N' ∷ b'S'
    ∷ []

abbrev pub max_reqs : List ℕ
max_reqs =
    b'F' ∷ b'C' ∷ b'G' ∷ b'I' ∷ b'_' ∷ b'M' ∷ b'A' ∷ b'X' ∷ b'_' ∷ b'R' ∷ b'E' ∷ b'Q' ∷ b'S' ∷ []

abbrev pub mpxs_conns : List ℕ
mpxs_conns =
    b'F' ∷ b'C' ∷ b'G' ∷ b'I' ∷ b'_' ∷ b'M' ∷ b'P' ∷ b'X' ∷ b'S' ∷ b'_' ∷ b'C' ∷ b'O' ∷ b'N' ∷ b'N'
    ∷ b'S' ∷ []

-- The value that is answered for a variable; the others are ignored.
unfoldable pub variable_value : List ℕ → Option ℕ
variable_value n =
    if same n max_conns
    then some b'1'
    else if same n max_reqs
    then some b'1'
    else if same n mpxs_conns
    then some b'0'
    else none

-- The room for content in the array `record`: aligned(8 + 3 * (1 + 1 + 15 + 1), 8) - 8.
abbrev pub result_room : ℕ
result_room = 56

-- The loop that fills the content; `filled` is what stands before `p`.
unfoldable pub fill_result : Header → List NameValue → List ℕ → M St (List ℕ)
fill_result header [] filled s = ok filled s
fill_result header (v ∷ variables) filled s = elim (variable_value (name v)) [
  | none ↦ fill_result header variables filled s
  | some value ↦
      ((if ltb 255 (length (name v)) then end_request_protocol_violation header else pure tt)
          >> assert (leb (length (name v) + 3) (result_room - length filled))
          >> fill_result header variables
              (filled ++ ((length (name v) % 2 ^ 8) ∷ 1 ∷ name v ++ value ∷ [])))
        s
]

-- The bytes of the array that nothing has written yet.
abbrev pub stale : (ℕ → ℕ) → ℕ → ℕ → List ℕ
stale garbage from zero = []
stale garbage from (suc n) = garbage from ∷ stale garbage (suc from) n

-- `Names_values{stream, 3}` over a temporary stream of this buffer.
abbrev pub read_variables : M St (Option ℕ) → ℕ → M St (List NameValue)
read_variables underflow fuel s = elim (names_values (sbumpc underflow) fuel (on goodbit s)) [
  | ok pairs r ↦ ok pairs r.buffer
  | threw e r ↦ threw e r.buffer
  | terminated ↦ terminated
  | undefined ↦ undefined
  | stuck ↦ stuck
]

-- `garbage` is what the uninitialised array `record` holds.
unfoldable pub process_get_values : (ℕ → ℕ) → M St (Option ℕ) → ℕ → Header → M St (Unit {0})
process_get_values garbage underflow fuel header = do
  variables ← read_variables underflow fuel
  s ← state
  if ltb 0 s.buf.unread_content_length then end_request_protocol_violation header else pure tt
  content ← fill_result header variables []
  padding_length ← padding (length content) 8
  h ← make_header get_values_result null_request_id (length content) padding_length
  write_record
      (header_bytes h ++ (content ++ stale garbage (header_size + length content) padding_length))

unfoldable pub process_management_record :
    (ℕ → ℕ) → M St (Option ℕ) → ℕ → Header → M St ProcessHeaderResult
process_management_record garbage underflow fuel header =
    if header.record_type == get_values
    then (process_get_values garbage underflow fuel header >> pure management_processed)
    else (unknown_type_record header.record_type >>= λ bytes.
        write_record bytes >> pure management_processed)

unfoldable pub process_header : (ℕ → ℕ) → M St (Option ℕ) → ℕ → Header → M St ProcessHeaderResult
process_header garbage underflow fuel header = do
  check_validity header
  modify (λ t. set_buf t (record t.buf {
    unread_content_length = content_length header;
    unread_padding_length = header.padding_length;
  }))
  s ← state
  result ←
      (if header.record_type == begin_request
        then (reply_end_request header cant_mpx_conn >> pure content_must_be_discarded)
        else if is_management_record header
        then process_management_record garbage underflow fuel header
        else if not (request_id header == s.connection.request_id)
        then pure content_must_be_discarded
        else if header.record_type == stream_code s.buf.type
        then pure content_must_be_consumed
        else end_request_protocol_violation header)
  t ← state
  assert (is_invariant_ok t)
  pure result
