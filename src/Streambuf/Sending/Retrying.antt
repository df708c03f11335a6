-- ===== src/Streambuf/Sending/Retrying.antt =====
-- close() of src/fcgi/streambuf.cpp where ::send fails, and close() again, as in the destructors.
use fcgi.Prelude.{
  some, ℕ, suc, ◌≤◌, ◌≡◌, refl, Bool, true, false, List, [], ◌∷◌, ◌++◌, none, length, arith, lt→ltb,
  if◌then◌else◌,
}
use fcgi.Outcome.{ok, threw, ◌>>=◌, ◌>>◌, cannot_write_to_socket}
use fcgi.Net.Descriptor.{Send, send_fails}
use fcgi.Basics.{out, err, stream_code, request_complete}
use fcgi.Basics.Codec.{end_request_record-IsEndRequest}
use fcgi.Streambuf.{Streambuf, St, put_capacity, is_invariant_ok}
use fcgi.Streambuf.Writer.{send_end_records, flush, overflow, sync, end_writing, close}
use fcgi.Streambuf.Delivery.Frames.{header_for}
use fcgi.Streambuf.Sending.{writer, writer_suits, IsWriter}
use fcgi.Streambuf.Sending.Records.{padded}
use fcgi.Streambuf.Sending.Ending.{
  end_of_stream_record-out, end_of_request_record-out, end_of_stream_record-err,
  end_of_request_record-err, ended_writer,
}
use fcgi.Streambuf.Sending.Closing.{Lets, closed_writer}
use fcgi.Streambuf.Sending.Failing.{facing, write_record-fails, overflow-fails}

-- An open writer whose next ::send fails, while all others take all that they are given.
abbrev pub hindered : St → Bool → Bool → List ℕ → List ℕ → St
hindered s once ending put sent = facing s once ending put (send_fails ∷ []) sent

module _ (s : St) (w : IsWriter s) where
  send_end_records-out_fails :
      (once : Bool) (put sent : List ℕ)
      → s.buf.type ≡ out
      → send_end_records (hindered s once true put sent)
        ≡ threw cannot_write_to_socket (writer s once true put sent)
  unfolding send_end_records
  send_end_records-out_fails once put sent e =
      let t = hindered s once true put sent in
      let (closing, z, says) =
        end_request_record-IsEndRequest t s.connection.request_id s.connection.application_status
          request_complete w.short w.status in
      let ending = header_for (stream_code out) s.connection.request_id 0 0 ++ closing in
      rw (
        end_of_stream_record-out t t e,
        ◌>>=◌,
        ◌>>◌,
        end_of_request_record-out t t e,
        z,
        lt→ltb 0 (length ending) (omega (arith, says.says_size)),
        write_record-fails s w once true put [] sent ending,
      )

  send_end_records-err_fails :
      (put sent : List ℕ)
      → s.buf.type ≡ err
      → send_end_records (hindered s true true put sent)
        ≡ threw cannot_write_to_socket (writer s true true put sent)
  unfolding send_end_records
  send_end_records-err_fails put sent e =
      let t = hindered s true true put sent in
      let ending = header_for (stream_code err) s.connection.request_id 0 0 in
      rw (
        end_of_stream_record-err t t true refl e,
        ◌>>=◌,
        ◌>>◌,
        end_of_request_record-err t t e,
        write_record-fails s w true true put [] sent ending,
      )

  -- close() throws, with nothing sent, and the put area keeps the padding.
  abbrev pub Fails : Bool → List ℕ → List ℕ → Streambuf → Type 0
  Fails once put sent inbuf =
      close inbuf (hindered s once false put sent)
      ≡ threw cannot_write_to_socket (writer s once true (padded put) sent)

  fails :
      (once : Bool) (put sent : List ℕ) (inbuf : Streambuf)
      → Lets s inbuf
      → overflow none (hindered s once true put sent)
        ≡ threw cannot_write_to_socket (writer s once true (padded put) sent)
      → Fails once put sent inbuf
  unfolding close end_writing sync
  fails once put sent inbuf h z = rw (
    w.is_writing, ◌>>=◌, ◌>>◌, if◌then◌else◌, h.reader, h.is_open, h.past_params, h.past_input, z,
  )

  pub close-Fails :
      (once : Bool) (b : ℕ) (bs sent : List ℕ) (inbuf : Streambuf)
      → Lets s inbuf
      → suc (length bs) ≤ put_capacity s.buf
      → Fails once (b ∷ bs) sent inbuf
  close-Fails once b bs sent inbuf h l =
      fails once (b ∷ bs) sent inbuf h (overflow-fails s w once true b bs [] sent l)

  pub close-out-Fails :
      (once : Bool) (sent : List ℕ) (inbuf : Streambuf)
      → s.buf.type ≡ out
      → Lets s inbuf
      → Fails once [] sent inbuf
  unfolding overflow flush
  close-out-Fails once sent inbuf e h =
      fails once [] sent inbuf h
        (rw (w.is_writing, send_end_records-out_fails once [] sent e, ◌>>=◌, ◌>>◌))

  pub close-err-Fails :
      (sent : List ℕ) (inbuf : Streambuf)
      → s.buf.type ≡ err
      → Lets s inbuf
      → Fails true [] sent inbuf
  unfolding overflow flush
  close-err-Fails sent inbuf e h =
      fails true [] sent inbuf h
        (rw (w.is_writing, send_end_records-err_fails [] sent e, ◌>>=◌, ◌>>◌))

  -- To close it again is to close it for the first time.
  pub close-again :
      (once : Bool) (put sent : List ℕ) (inbuf : Streambuf)
      → Lets s inbuf
      → close inbuf (writer s once true put sent) ≡ close inbuf (writer s once false put sent)
  unfolding close end_writing
  close-again once put sent inbuf h =
      rw
        (w.is_writing, ◌>>=◌, ◌>>◌, if◌then◌else◌, h.reader, h.is_open, h.past_params, h.past_input)

  ended-is_invariant_ok :
      (sends : List Send) (sent : List ℕ)
      → is_invariant_ok (record (ended_writer s false [] sent) {
        connection = (facing s false false [] sends sent).connection;
      })
        ≡ true
  unfolding is_invariant_ok
  ended-is_invariant_ok sends sent =
      let suits = writer_suits s.connection.role s.buf.type w.is_writing in ground arith

  gone-is_invariant_ok :
      (sends : List Send) (sent : List ℕ)
      → is_invariant_ok (record (closed_writer s false sent) {
        connection = (facing s false false [] sends sent).connection;
      })
        ≡ true
  unfolding is_invariant_ok
  gone-is_invariant_ok sends sent =
      let suits = writer_suits s.connection.role s.buf.type w.is_writing in ground arith

  overflow-err_silent :
      (sends : List Send) (sent : List ℕ)
      → s.buf.type ≡ err
      → overflow none (facing s false true [] sends sent)
        ≡ ok (some 0) (record (ended_writer s false [] sent) {
          connection = (facing s false false [] sends sent).connection;
        })
  unfolding overflow flush send_end_records
  overflow-err_silent sends sent e =
      let t = facing s false true [] sends sent in
      rw (
        w.is_writing,
        end_of_stream_record-err t t false refl e,
        ◌>>=◌,
        ◌>>◌,
        end_of_request_record-err t t e,
        ended-is_invariant_ok sends sent,
      )

  -- An error stream that nothing was written to is closed without a call of ::send.
  pub close-err_silent :
      (sends : List Send) (sent : List ℕ) (inbuf : Streambuf)
      → s.buf.type ≡ err
      → Lets s inbuf
      → close inbuf (facing s false false [] sends sent)
        ≡ ok tt (record (closed_writer s false sent) {
          connection = (facing s false false [] sends sent).connection;
        })
  unfolding close end_writing sync
  close-err_silent sends sent inbuf e h = rw (
    w.is_writing,
    ◌>>=◌,
    ◌>>◌,
    if◌then◌else◌,
    h.reader,
    h.is_open,
    h.past_params,
    h.past_input,
    overflow-err_silent sends sent e,
    w.is_writing,
    gone-is_invariant_ok sends sent,
  )
