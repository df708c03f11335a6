-- ===== src/Streambuf.antt =====
-- server_Streambuf of src/fcgi/streambuf.cpp: its state, its invariant, and setting it up. The
-- children have the reading side (Reader, ProcessHeader) and the writing side (Writer).
pub mod ProcessHeader
pub mod Reader
pub mod Writer
pub mod Setup
pub mod Setting
pub mod Oversized
pub mod Stale
pub mod Delivery
pub mod Sending
pub mod Managing
use fcgi.Prelude.{
  ℕ, ◌+◌, ◌-◌, ◌%◌, Bool, true, false, not, ◌&&◌, ◌||◌, List, [], ◌∷◌, length, drop, leb, ◌==◌,
  if◌then◌else◌,
}
use fcgi.Outcome.{
  Outcome, M, ok, threw, terminated, undefined, stuck, pure, state, modify, ◌>>=◌, ◌>>◌, guard,
  assert, pending_data,
}
use fcgi.Math.Alignment.{padding}
use fcgi.Net.Descriptor.{Io}
use fcgi.Basics.{StreamType, params, input, out, err, filter_data, responder, filter}
use fcgi.Basics.Header.{max_content_length, max_padding_length}
use fcgi.Connection.{Connection}

-- The pointers into `buffer_` are offsets from it. `has_get` and `has_put` say whether the pointers of the
-- get area and of the put area are set; where they are not, the offsets have no meaning. `unread` is what
-- the buffer holds between `gptr()` and `buffer_end_`, and `put` what it holds between `pbase()` and
-- `pptr()`; `pbase()` is the end of the space that is reserved for a header, and `epptr()` one byte before
-- the end of the buffer.
pub record Streambuf : Type 0 where
  pub type : StreamType
  pub is_content_must_be_discarded : Bool
  pub is_end_of_stream : Bool
  pub is_end_records_must_be_transmitted : Bool
  pub is_put_area_at_least_once_consumed : Bool
  pub buffer_size : ℕ
  pub unread_content_length : ℕ
  pub unread_padding_length : ℕ
  pub has_get : Bool
  pub eback : ℕ
  pub gptr : ℕ
  pub egptr : ℕ
  pub unread : List ℕ
  pub has_put : Bool
  pub put : List ℕ

-- A stream buffer with the connection that it points to.
pub record St : Type 0 where
  pub connection : Connection
  pub buf : Streambuf

abbrev pub set_buf : St → Streambuf → St
set_buf s b = record { connection = s.connection; buf = b }

abbrev pub set_io : St → Io → St
set_io s io = record { connection = record s.connection { io = io }; buf = s.buf }

-- An operation of `connection_->io_`.
abbrev pub on_io : {A : Type 0} → M Io A → M St A
on_io m s = elim (m s.connection.io) [
  | ok a io ↦ ok a (set_io s io)
  | threw e io ↦ threw e (set_io s io)
  | terminated ↦ terminated
  | undefined ↦ undefined
  | stuck ↦ stuck
]

abbrev pub reads : StreamType → Bool
reads params = true
reads input = true
reads out = false
reads err = false
reads filter_data = true

abbrev pub is_reader : Streambuf → Bool
is_reader b = reads b.type

abbrev pub is_closed : Streambuf → Bool
is_closed b = if is_reader b then not b.has_get else not b.has_put

abbrev pub is_input : StreamType → Bool
is_input params = false
is_input input = true
is_input out = false
is_input err = false
is_input filter_data = false

abbrev pub is_ready_to_filter_data : St → Bool
is_ready_to_filter_data s =
    not (is_closed s.buf)
    && (s.connection.role == filter)
    && is_input s.buf.type
    && s.buf.is_end_of_stream

-- The offset of `epptr()` from `pbase()`.
abbrev pub put_capacity : Streambuf → ℕ
put_capacity b = b.buffer_size - 9

-- The offset of `buffer_end_`.
abbrev pub buffer_end : Streambuf → ℕ
buffer_end b = b.gptr + length b.unread

abbrev pub reader_ok : ℕ → StreamType → Bool
reader_ok role params = true
reader_ok role input = role == 0 || role == responder || role == filter
reader_ok role out = true
reader_ok role err = true
reader_ok role filter_data = role == 0 || role == filter

unfoldable pub is_invariant_ok : St → Bool
is_invariant_ok s =
    (not (is_reader s.buf) || leb (buffer_end s.buf) s.buf.buffer_size)
    && (leb 2048 s.buf.buffer_size && leb s.buf.buffer_size 65528 && s.buf.buffer_size % 8 == 0)
    && (leb s.buf.unread_content_length s.buf.buffer_size
        && leb s.buf.unread_content_length max_content_length)
    && (leb s.buf.unread_padding_length s.buf.buffer_size
        && leb s.buf.unread_padding_length max_padding_length)
    && reader_ok s.connection.role s.buf.type
    && ((is_closed s.buf
          && (is_reader s.buf || s.buf.is_end_of_stream)
          && not s.buf.has_get
          && not s.buf.has_put)
        || (is_reader s.buf && s.buf.has_get && not s.buf.has_put)
        || (not (is_reader s.buf) && not s.buf.has_get && s.buf.has_put))
    && (is_reader s.buf || is_closed s.buf || leb (length s.buf.put) (put_capacity s.buf))
    && (not (is_reader s.buf)
        || is_closed s.buf
        || (leb s.buf.eback s.buf.gptr
            && leb s.buf.gptr s.buf.egptr
            && leb s.buf.egptr (buffer_end s.buf)))

-- `setg(gptr() + from, gptr() + from, gptr() + to)` and `gbump(n)`.
abbrev pub setg_ahead : ℕ → Streambuf → Streambuf
setg_ahead n b = record b { eback = b.gptr; egptr = b.gptr + n }

abbrev pub gbump : ℕ → Streambuf → Streambuf
gbump n b = record b { gptr = b.gptr + n; unread = drop n b.unread }

abbrev pub get_set_up : ℕ → Streambuf → Streambuf
get_set_up size b = record b {
  buffer_size = size;
  has_get = true;
  eback = 0;
  gptr = 0;
  egptr = 0;
  unread = [];
  has_put = false;
}

abbrev pub put_set_up : ℕ → Streambuf → Streambuf
put_set_up size b = record b { buffer_size = size; has_get = false; has_put = true; put = [] }

unfoldable pub setbuf : ℕ → M St (Unit {0})
setbuf size = do
  assert (leb 2048 size && leb size 65528)
  s ← state
  guard (not (s.buf.has_get && not (s.buf.eback == 0))) pending_data
  p ← padding size 8
  let n = size - (8 - p) % 8
  modify (λ t. set_buf t (if is_reader t.buf then get_set_up n t.buf else put_set_up n t.buf))
  t ← state
  assert (is_invariant_ok t)

-- The members of a new instance, before the body of the constructor.
abbrev pub fresh : StreamType → Streambuf
fresh type = record {
  type = type;
  is_content_must_be_discarded = false;
  is_end_of_stream = false;
  is_end_records_must_be_transmitted = false;
  is_put_area_at_least_once_consumed = false;
  buffer_size = 0;
  unread_content_length = 0;
  unread_padding_length = 0;
  has_get = false;
  eback = 0;
  gptr = 0;
  egptr = 0;
  unread = [];
  has_put = false;
  put = [];
}

-- The constructor, on the connection's state.
unfoldable pub make_streambuf : ℕ → StreamType → Connection → Outcome St (Unit {0})
make_streambuf size type c =
    (do setbuf size; t ← state; assert (is_invariant_ok t))
      (record { connection = c; buf = fresh type })

unfoldable pub reset_reader : StreamType → M St (Unit {0})
reset_reader type = do
  s ← state
  assert (is_reader s.buf && not (is_closed s.buf))
  modify (λ t. set_buf t (record t.buf {
    type = type;
    is_end_of_stream = false;
    is_content_must_be_discarded = false;
    unread_content_length = 0;
    unread_padding_length = 0;
  }))
  t ← state
  assert (is_invariant_ok t)
