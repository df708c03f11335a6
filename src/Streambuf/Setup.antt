-- ===== src/Streambuf/Setup.antt =====
-- The invariant in plain arithmetic, and the state that the constructor leaves.
use fcgi.Prelude.{◌+◌, ◌%◌, ◌≤◌, ◌≡◌, true, false, length, arith}
use fcgi.Streambuf.{St, is_reader, is_invariant_ok, reader_ok}

-- A reader that can be read from.
pub record IsReading (s : St) : Type 0 where
  pub is_reading : is_reader s.buf ≡ true
  pub suits_role : reader_ok s.connection.role s.buf.type ≡ true
  pub get_is_set : s.buf.has_get ≡ true
  pub put_is_unset : s.buf.has_put ≡ false
  pub in_buffer : s.buf.gptr + length s.buf.unread ≤ s.buf.buffer_size
  pub large : 2048 ≤ s.buf.buffer_size
  pub small : s.buf.buffer_size ≤ 65528
  pub whole : s.buf.buffer_size % 8 ≡ 0

pub IsReading-is_invariant_ok :
    (s : St)
    → IsReading s
    → s.buf.unread_content_length ≤ s.buf.buffer_size
    → s.buf.unread_padding_length ≤ 255
    → s.buf.eback ≤ s.buf.gptr
    → s.buf.gptr ≤ s.buf.egptr
    → s.buf.egptr ≤ s.buf.gptr + length s.buf.unread
    → is_invariant_ok s ≡ true
unfolding is_invariant_ok
IsReading-is_invariant_ok s r c p a b d = ground arith
