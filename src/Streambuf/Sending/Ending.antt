-- ===== src/Streambuf/Sending/Ending.antt =====
-- How a writer ends its stream: sync() with the flag that close() sets.
use fcgi.Prelude.{
  ℕ, ◌≡◌, refl, Bool, true, false, List, [], ◌++◌, length, arith, lt→ltb, append-nil,
}
use fcgi.Outcome.{ok, ◌>>=◌, ◌>>◌}
use fcgi.Basics.{out, err, stream_code, request_complete, status_code}
use fcgi.Basics.Codec.{IsEndRequest, end_request_record-IsEndRequest}
use fcgi.Basics.Header.{make_header}
use fcgi.Basics.Bodies.{end_request_record}
use fcgi.Streambuf.{St, set_buf, is_invariant_ok}
use fcgi.Streambuf.Writer.{end_of_stream_record, end_of_request_record, send_end_records}
use fcgi.Streambuf.Delivery.Frames.{header_for}
use fcgi.Streambuf.Sending.{writer, IsWriter, writer_suits, write_record-all}

-- A writer that has ended its stream and sent `sent`.
abbrev pub ended_writer : St → Bool → List ℕ → List ℕ → St
ended_writer s once put sent =
    let t = writer s once false put sent in set_buf t (record t.buf { is_end_of_stream = true })

-- What ends a stream of type err: nothing, where nothing was sent.
abbrev pub err_ending : St → Bool → List ℕ
err_ending s true = header_for (stream_code err) s.connection.request_id 0 0
err_ending s false = []

module _ (u t : St) where
  pub end_of_stream_record-out :
      u.buf.type ≡ out
      → end_of_stream_record u t ≡ ok (header_for (stream_code out) u.connection.request_id 0 0) t
  unfolding end_of_stream_record make_header
  end_of_stream_record-out e = rw e

  pub end_of_request_record-out :
      u.buf.type ≡ out
      → end_of_request_record u t
        ≡ end_request_record u.connection.request_id u.connection.application_status
            request_complete t
  unfolding end_of_request_record
  end_of_request_record-out e = rw e

  pub end_of_stream_record-err :
      (once : Bool)
      → u.buf.is_put_area_at_least_once_consumed ≡ once
      → u.buf.type ≡ err
      → end_of_stream_record u t ≡ ok (err_ending u once) t
  unfolding end_of_stream_record make_header
  end_of_stream_record-err true o e = rw (e, o)
  end_of_stream_record-err false o e = rw (e, o)

  pub end_of_request_record-err : u.buf.type ≡ err → end_of_request_record u t ≡ ok [] t
  unfolding end_of_request_record
  end_of_request_record-err e = rw e

module _ (s : St) (w : IsWriter s) where
  -- The bytes that end a stream of type out: the end of the stream and the end of the request.
  abbrev pub IsOutEnding : List ℕ → Type 0
  IsOutEnding ending =
      (closing : List ℕ) × (ending
        ≡ header_for (stream_code out) s.connection.request_id 0 0 ++ closing)
      × IsEndRequest s.connection.request_id s.connection.application_status
          (status_code request_complete) closing

  pub send_end_records-out :
      (once : Bool) (put sent : List ℕ)
      → s.buf.type ≡ out
      → (ending : List ℕ) × (send_end_records (writer s once true put sent)
          ≡ ok tt (ended_writer s once put (sent ++ ending)))
        × IsOutEnding ending
  unfolding send_end_records
  send_end_records-out once put sent e =
      let t = writer s once true put sent in
      let (closing, z, says) =
        end_request_record-IsEndRequest t s.connection.request_id s.connection.application_status
          request_complete w.short w.status in
      let ending = header_for (stream_code out) s.connection.request_id 0 0 ++ closing in
      let size : length ending ≡ 24 = omega (arith, says.says_size) in
      (
        ending,
        rw (
          end_of_stream_record-out t t e,
          ◌>>=◌,
          ◌>>◌,
          end_of_request_record-out t t e,
          z,
          lt→ltb 0 (length ending) (omega (arith, size)),
          write_record-all s once true put sent ending (omega (arith, size)),
        ),
        (closing, refl, says),
      )

  pub send_end_records-err :
      (once : Bool) (put sent : List ℕ)
      → s.buf.type ≡ err
      → send_end_records (writer s once true put sent)
        ≡ ok tt (ended_writer s once put (sent ++ err_ending s once))
  unfolding send_end_records
  send_end_records-err true put sent e =
      let t = writer s true true put sent in
      rw (
        end_of_stream_record-err t t true refl e,
        ◌>>=◌,
        ◌>>◌,
        end_of_request_record-err t t e,
        write_record-all s true true put sent (err_ending s true) (omega arith),
      )
  send_end_records-err false put sent e =
      let t = writer s false true put sent in
      rw (
        end_of_stream_record-err t t false refl e,
        ◌>>=◌,
        ◌>>◌,
        end_of_request_record-err t t e,
        append-nil sent,
      )

  pub ended_writer-is_invariant_ok :
      (once : Bool) (sent : List ℕ) → is_invariant_ok (ended_writer s once [] sent) ≡ true
  unfolding is_invariant_ok
  ended_writer-is_invariant_ok once sent =
      let suits = writer_suits s.connection.role s.buf.type w.is_writing in ground arith
