-- ===== src/Streambuf/Oversized.antt =====
-- A record whose content is larger than the reader's buffer.
use fcgi.Prelude.{ℕ, ◌<◌, ◌≡◌, ◌≢◌, false, arith, eq→==, ne→==, ◌==◌, Option, Bool-cases, inl, inr}
use fcgi.Outcome.{M, terminated}
use fcgi.Basics.{stream_code, begin_request}
use fcgi.Basics.Header.{Header, check_validity}
use fcgi.Basics.Codec.{Says}
use fcgi.Streambuf.{St, set_buf, is_invariant_ok}
use fcgi.Streambuf.ProcessHeader.{process_header}

too_large :
    (s : St) (n p : ℕ)
    → s.buf.buffer_size < n
    → is_invariant_ok
        (set_buf s (record s.buf { unread_content_length = n; unread_padding_length = p }))
      ≡ false
unfolding is_invariant_ok
too_large s n p h = ground arith

-- A header of version 1 of a request with an id, of the reader's own stream or of another request's, of any type but
-- begin-request, that announces more content than the buffer's size ends the process: the invariant of the class,
-- which is asserted after the header is processed, does not allow it, although the protocol allows up to 65535 bytes.
pub process_header-oversized :
    (garbage : ℕ → ℕ) (underflow : M St (Option ℕ)) (fuel : ℕ) (h : Header) (s : St)
    (record_type id len pad : ℕ)
    → Says h record_type id len pad
    → id ≢ 0
    → record_type ≢ begin_request
    → (id ≡ s.connection.request_id → record_type ≡ stream_code s.buf.type)
    → s.buf.buffer_size < len
    → process_header garbage underflow fuel h s ≡ terminated
unfolding process_header check_validity
process_header-oversized garbage underflow fuel h s t id len pad y named no_begin own large =
    elim (Bool-cases (id == s.connection.request_id)) [
      | inl mine ↦ rw (
        y.says_version,
        y.says_type,
        ne→== t 1 no_begin,
        y.says_id,
        ne→== id 0 named,
        mine,
        eq→== t (stream_code s.buf.type) (own (ground arith)),
        y.says_content,
        y.says_padding,
        too_large s len pad large,
      )
      | inr other ↦ rw (
        y.says_version,
        y.says_type,
        ne→== t 1 no_begin,
        y.says_id,
        ne→== id 0 named,
        other,
        y.says_content,
        y.says_padding,
        too_large s len pad large,
      )
    ]
