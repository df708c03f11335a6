-- ===== src/Streambuf/Sending/Closing.antt =====
-- Writing and closing a stream: all that the peer gets of it.
use mathlib.Core.Path.{subst}
use fcgi.Prelude.{
  ℕ, suc, ◌+◌, ◌≤◌, ◌≡◌, refl, sym, ap, ◌∙◌, Bool, true, false, not, ◌||◌, List, [], ◌∷◌, ◌++◌,
  none, some, map, length, arith, lt→ltb, append-nil, append_assoc, ◌==◌, if◌then◌else◌,
}
use fcgi.Outcome.{ok, ◌>>=◌, ◌>>◌}
use fcgi.Basics.{out, err, stream_code, authorizer, filter}
use fcgi.Streambuf.{Streambuf, St, set_buf, put_capacity, is_invariant_ok, is_reader}
use fcgi.Streambuf.Writer.{
  send_end_records, flush, overflow, sync, end_writing, close, is_params, is_filter_data,
}
use fcgi.Streambuf.Delivery.Frames.{
  Frame, contents, AreFrames, frames_bytes-append, contents-append, AreFrames-append,
}
use fcgi.Streambuf.Sending.{writer, IsWriter, writer_suits}
use fcgi.Streambuf.Sending.Records.{record_of, send_put_area-none}
use fcgi.Streambuf.Sending.Puts.{
  some_sent, some_sent-append, own_frames, frame_of, frame_of-fits, record_of-append, put_all, low,
  puts,
}
use fcgi.Streambuf.Sending.Ending.{
  ended_writer, ended_writer-is_invariant_ok, err_ending, IsOutEnding, send_end_records-out,
  send_end_records-err,
}

-- The input stream's buffer lets the output be closed: it is an open reader, not at its params unless the role is
-- authorizer, and for a filter it has come to the data or has no unread content.
pub record Lets (s : St) (inbuf : Streambuf) : Type 0 where
  pub reader : is_reader inbuf ≡ true
  pub is_open : inbuf.has_get ≡ true
  pub past_params : (s.connection.role == authorizer) || not (is_params inbuf.type) ≡ true
  pub past_input :
      not (s.connection.role == filter)
        || is_filter_data inbuf.type
        || inbuf.unread_content_length == 0
      ≡ true

-- A closed writer.
abbrev pub closed_writer : St → Bool → List ℕ → St
closed_writer s once sent =
    let t = ended_writer s once [] sent in
    set_buf t (record t.buf { has_get = false; has_put = false })

module _ (s : St) (w : IsWriter s) (E : Bool → List ℕ → Type 0)
    (ends : (once : Bool) (put sent : List ℕ)
      → (ending : List ℕ) × (send_end_records (writer s once true put sent)
          ≡ ok tt (ended_writer s once put (sent ++ ending)))
        × E once ending) where
  abbrev Syncs : Bool → List ℕ → List ℕ → Type 0
  Syncs once put sent =
      (fs : List Frame) × (ending : List ℕ) × (overflow none (writer s once true put sent)
        ≡ ok (some 0)
            (ended_writer s (once || some_sent fs) [] (sent ++ (own_frames s fs ++ ending))))
      × (contents fs ≡ put)
      × AreFrames s.buf.buffer_size fs
      × E (once || some_sent fs) ending

  one_frame :
      (b : ℕ) (bs sent ending : List ℕ)
      → (sent ++ record_of s b bs) ++ ending ≡ sent ++ (own_frames s (frame_of b bs ∷ []) ++ ending)
  one_frame b bs sent ending =
      append_assoc sent (record_of s b bs) ending
      ∙ ap (λ xs. sent ++ (xs ++ ending))
          (sym (append-nil (record_of s b bs)) ∙ record_of-append s b bs [])

  overflow_sends :
      (once : Bool) (b : ℕ) (bs sent : List ℕ)
      → suc (length bs) ≤ put_capacity s.buf + 1
      → (ending : List ℕ) × (overflow none (writer s once true (b ∷ bs) sent)
          ≡ ok
              (some 0)
              (ended_writer s true [] (sent ++ (own_frames s (frame_of b bs ∷ []) ++ ending))))
        × E true ending
  unfolding overflow flush
  overflow_sends once b bs sent l =
      let (ending, z, e) = ends true [] (sent ++ record_of s b bs) in
      (
        ending,
        rw (
          w.is_writing,
          lt→ltb 0 (suc (length bs)) (omega arith),
          send_put_area-none s w once true b bs sent (omega arith),
          ◌>>=◌,
          ◌>>◌,
          z,
          one_frame b bs sent ending,
          ended_writer-is_invariant_ok s w true
              (sent ++ (own_frames s (frame_of b bs ∷ []) ++ ending)),
        ),
        e,
      )

  one_frame-fits :
      (b : ℕ) (bs : List ℕ)
      → suc (length bs) ≤ put_capacity s.buf + 1
      → AreFrames s.buf.buffer_size (frame_of b bs ∷ [])
  one_frame-fits b bs l = frame_of-fits s b bs [] (omega (arith, w.large)) tt

  overflow_ends :
      (once : Bool) (put sent : List ℕ) → length put ≤ put_capacity s.buf + 1 → Syncs once put sent
  unfolding overflow flush
  overflow_ends true [] sent l =
      let (ending, z, e) = ends true [] sent in
      (
        [],
        ending,
        rw (w.is_writing, z, ◌>>=◌, ended_writer-is_invariant_ok s w true (sent ++ ending)),
        refl,
        tt,
        e,
      )
  overflow_ends false [] sent l =
      let (ending, z, e) = ends false [] sent in
      (
        [],
        ending,
        rw (w.is_writing, z, ◌>>=◌, ended_writer-is_invariant_ok s w false (sent ++ ending)),
        refl,
        tt,
        e,
      )
  overflow_ends true (b ∷ bs) sent l =
      let (ending, z, e) = overflow_sends true b bs sent l in
      (frame_of b bs ∷ [], ending, z, append-nil (b ∷ bs), one_frame-fits b bs l, e)
  overflow_ends false (b ∷ bs) sent l =
      let (ending, z, e) = overflow_sends false b bs sent l in
      (frame_of b bs ∷ [], ending, z, append-nil (b ∷ bs), one_frame-fits b bs l, e)

  closed-is_invariant_ok :
      (once : Bool) (sent : List ℕ) → is_invariant_ok (closed_writer s once sent) ≡ true
  unfolding is_invariant_ok
  closed-is_invariant_ok once sent =
      let suits = writer_suits s.connection.role s.buf.type w.is_writing in ground arith

  end_writing_ok :
      (once : Bool) (put sent : List ℕ) (inbuf : Streambuf) (ending : List ℕ) (fs : List Frame)
      → Lets s inbuf
      → overflow none (writer s once true put sent)
        ≡ ok
            (some 0)
            (ended_writer s (once || some_sent fs) [] (sent ++ (own_frames s fs ++ ending)))
      → end_writing inbuf (writer s once false put sent)
        ≡ ok tt (ended_writer s (once || some_sent fs) [] (sent ++ (own_frames s fs ++ ending)))
  unfolding end_writing sync
  end_writing_ok once put sent inbuf ending fs h z =
      rw (h.reader, h.is_open, ◌>>=◌, ◌>>◌, if◌then◌else◌, h.past_params, h.past_input, z)

  -- close() on an open writer, whose put area may be full and have the padding of a record besides.
  abbrev pub Closes : Bool → List ℕ → List ℕ → Streambuf → Type 0
  Closes once put sent inbuf =
      (fs : List Frame) × (ending : List ℕ) × (close inbuf (writer s once false put sent)
        ≡ ok tt (closed_writer s (once || some_sent fs) (sent ++ (own_frames s fs ++ ending))))
      × (contents fs ≡ put)
      × AreFrames s.buf.buffer_size fs
      × E (once || some_sent fs) ending

  pub close_ends :
      (once : Bool) (put sent : List ℕ) (inbuf : Streambuf)
      → Lets s inbuf
      → length put ≤ put_capacity s.buf + 1
      → Closes once put sent inbuf
  unfolding close
  close_ends once put sent inbuf h l =
      let (fs, ending, z, e, a, k) = overflow_ends once put sent l in
      let all = sent ++ (own_frames s fs ++ ending) in
      (
        fs,
        ending,
        rw (
          w.is_writing,
          ◌>>=◌,
          ◌>>◌,
          if◌then◌else◌,
          end_writing_ok once put sent inbuf ending fs h z,
          w.is_writing,
          closed-is_invariant_ok (once || some_sent fs) all,
        ),
        e,
        a,
        k,
      )

  -- Writing to a new stream, and closing it.
  abbrev pub Delivers : List ℕ → List ℕ → Streambuf → Type 0
  Delivers bs sent inbuf =
      (fs : List Frame) × (ending : List ℕ) × ((put_all bs >> close inbuf)
          (writer s false false [] sent)
        ≡ ok tt (closed_writer s (some_sent fs) (sent ++ (own_frames s fs ++ ending))))
      × (contents fs ≡ map low bs)
      × AreFrames s.buf.buffer_size fs
      × E (some_sent fs) ending

  pub delivers : (bs sent : List ℕ) (inbuf : Streambuf) → Lets s inbuf → Delivers bs sent inbuf
  delivers bs sent inbuf h =
      let (fs, rest, z, c, a, l) = puts s w bs false [] sent (omega arith) in
      let (gs, ending, z', c', a', k) =
        close_ends (some_sent fs) rest (sent ++ own_frames s fs) inbuf h (omega arith) in
      let all =
        append_assoc sent (own_frames s fs) (own_frames s gs ++ ending)
        ∙ ap (λ xs. sent ++ xs)
            (sym (append_assoc (own_frames s fs) (own_frames s gs) ending)
              ∙ ap (λ xs. xs ++ ending)
                  (sym (
                    frames_bytes-append (stream_code s.buf.type) s.connection.request_id fs gs))) in
      let both : (put_all bs >> close inbuf) (writer s false false [] sent)
          ≡ ok tt (
              closed_writer s (some_sent fs || some_sent gs)
                ((sent ++ own_frames s fs) ++ (own_frames s gs ++ ending))) =
        rw (z, ◌>>◌, ◌>>=◌, z') in
      (
        fs ++ gs,
        ending,
        both ∙ (λ i. ok tt (closed_writer s (some_sent-append fs gs i) (all i))),
        contents-append fs gs ∙ ap (λ xs. contents fs ++ xs) c' ∙ c,
        AreFrames-append s.buf.buffer_size fs gs a a',
        subst (λ once. E once ending) (some_sent-append fs gs) k,
      )

module _ (s : St) (w : IsWriter s) where
  -- Where ::send takes all, the id and the status fit their fields, and the input stream lets the output be closed,
  -- writing any characters to a new output stream and closing it succeeds, and the peer gets: records of the stream,
  -- each with at most as much content as the buffer and padded, whose content is exactly these characters; a record
  -- that ends the stream; and an end-request record with the status of the application. The stream is then closed.
  pub out-delivered :
      (bs sent : List ℕ) (inbuf : Streambuf)
      → s.buf.type ≡ out
      → Lets s inbuf
      → (fs : List Frame) × (ending : List ℕ) × ((put_all bs >> close inbuf)
            (writer s false false [] sent)
          ≡ ok tt (closed_writer s (some_sent fs) (sent ++ (own_frames s fs ++ ending))))
        × (contents fs ≡ map low bs)
        × AreFrames s.buf.buffer_size fs
        × IsOutEnding s w ending
  out-delivered bs sent inbuf e h =
      delivers s w (λ _ ending. IsOutEnding s w ending)
        (λ once put sent. send_end_records-out s w once put sent e) bs sent inbuf h

  -- Where ::send takes all, the id and the status fit their fields, and the input stream lets the output be closed,
  -- writing any characters to a new error stream and closing it sends records whose content is exactly these characters, and leaves the stream closed; a record that
  -- ends the stream is sent only if a record was sent, and there is no end-request record.
  pub err-delivered :
      (bs sent : List ℕ) (inbuf : Streambuf)
      → s.buf.type ≡ err
      → Lets s inbuf
      → (fs : List Frame) × ((put_all bs >> close inbuf) (writer s false false [] sent)
          ≡ ok tt (
              closed_writer s
                (some_sent fs)
                (sent ++ (own_frames s fs ++ err_ending s (some_sent fs)))))
        × (contents fs ≡ map low bs)
        × AreFrames s.buf.buffer_size fs
  err-delivered bs sent inbuf e h =
      let (fs, ending, z, c, a, k) =
        delivers s w (λ once ending. ending ≡ err_ending s once)
          (λ once put sent. (err_ending s once, send_end_records-err s w once put sent e, refl)) bs
          sent inbuf h in
      (
        fs,
        z ∙ (λ i. ok tt (closed_writer s (some_sent fs) (sent ++ (own_frames s fs ++ k i)))),
        c,
        a,
      )
