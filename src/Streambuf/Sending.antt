-- ===== src/Streambuf/Sending.antt =====
-- What a writer of src/fcgi/streambuf.cpp sends, where ::send takes all that it is given: records of its
-- stream, as Streambuf/Delivery/Frames describes them.
pub mod Records
pub mod Puts
pub mod Writes
pub mod Ending
pub mod Closing
pub mod Failing
pub mod Retrying
use fcgi.Prelude.{
  ℕ, ◌+◌, ◌%◌, ◌^◌, ◌≤◌, ◌<◌, ◌≡◌, refl, Bool, true, false, List, [], ◌∷◌, ◌++◌, length, min, take,
  take_all, arith, eq→==, ◌==◌,
}
use fcgi.Outcome.{ok, ◌>>=◌}
use fcgi.Net.Descriptor.{Io, write, send_to, max_write_size}
use fcgi.Basics.{StreamType, params, input, out, err, filter_data}
use fcgi.Streambuf.{Streambuf, St, reads, is_reader, reader_ok, is_invariant_ok, put_capacity}
use fcgi.Streambuf.ProcessHeader.{write_record}

-- The writer `s`, open: whether it has sent a record, whether it is to end its stream, its put area, and all that
-- was sent on its connection.
abbrev pub writer : St → Bool → Bool → List ℕ → List ℕ → St
writer s once ending put sent = record {
  connection = record s.connection { io = record s.connection.io { sends = []; sent = sent } };
  buf = record s.buf {
    is_end_of_stream = false;
    is_end_records_must_be_transmitted = ending;
    is_put_area_at_least_once_consumed = once;
    unread_content_length = 0;
    unread_padding_length = 0;
    has_get = false;
    has_put = true;
    put = put;
  };
}

-- What does not change.
pub record IsWriter (s : St) : Type 0 where
  pub is_writing : is_reader s.buf ≡ false
  pub large : 2048 ≤ s.buf.buffer_size
  pub small : s.buf.buffer_size ≤ 65528
  pub whole : s.buf.buffer_size % 8 ≡ 0
  pub short : s.connection.request_id < 65536
  pub status : s.connection.application_status < 2 ^ 32

pub writer_suits : (role : ℕ) (t : StreamType) → reads t ≡ false → reader_ok role t ≡ true
writer_suits role params h = absurd (ground arith)
writer_suits role input h = absurd (ground arith)
writer_suits role out h = refl
writer_suits role err h = refl
writer_suits role filter_data h = absurd (ground arith)

pub writer-is_invariant_ok :
    (s : St) (once ending : Bool) (put sent : List ℕ)
    → IsWriter s
    → length put ≤ put_capacity s.buf
    → is_invariant_ok (writer s once ending put sent) ≡ true
unfolding is_invariant_ok
writer-is_invariant_ok s once ending put sent w l =
    let suits = writer_suits s.connection.role s.buf.type w.is_writing in ground arith

-- A record that one call of ::send can take is sent whole.
pub write_record-all :
    (s : St) (once ending : Bool) (put sent bytes : List ℕ)
    → length bytes ≤ max_write_size
    → write_record bytes (writer s once ending put sent)
      ≡ ok tt (writer s once ending put (sent ++ bytes))
unfolding write_record write
write_record-all s once ending put sent bytes l =
    let all : min (length bytes) max_write_size ≡ length bytes = omega arith in
    rw (all, take_all bytes, eq→== (length bytes) (length bytes) refl)
