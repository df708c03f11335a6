-- ===== src/Streambuf/Sending/Writes.antt =====
-- One operation of an application on an output stream: writing a character, or flushing.
use fcgi.Prelude.{
  ℕ, ◌≤◌, ◌≡◌, refl, sym, ◌∙◌, Bool, false, ◌||◌, List, [], ◌∷◌, ◌++◌, none, some, length, arith,
  append-nil,
}
use fcgi.Outcome.{M, ok, pure, ◌>>=◌, ◌>>◌}
use fcgi.Streambuf.{St, put_capacity}
use fcgi.Streambuf.Writer.{flush, overflow, sync}
use fcgi.Streambuf.Delivery.Frames.{Frame, contents, AreFrames}
use fcgi.Streambuf.Sending.{writer, IsWriter, writer-is_invariant_ok}
use fcgi.Streambuf.Sending.Records.{record_of, overflow-none}
use fcgi.Streambuf.Sending.Puts.{
  put_all, low, some_sent, frame_of, frame_of-fits, own_frames, or-true, or-false, record_of-append,
  puts,
}

pub data Write : Type 0 where
  put : ℕ → Write
  flushed : Write

abbrev pub do_write : Write → M St (Unit {0})
do_write (put c) = put_all (c ∷ [])
do_write flushed = sync >>= λ _. pure tt

-- The characters that an operation writes.
abbrev pub written : Write → List ℕ
written (put c) = low c ∷ []
written flushed = []

module _ (s : St) (w : IsWriter s) where
  -- What comes of an operation: records, and a put area.
  abbrev pub Writes : Bool → List ℕ → List ℕ → Write → Type 0
  Writes once area sent op =
      (fs : List Frame) × (rest : List ℕ) × (do_write op (writer s once false area sent)
        ≡ ok tt (writer s (once || some_sent fs) false rest (sent ++ own_frames s fs)))
      × (contents fs ++ rest ≡ area ++ written op)
      × AreFrames s.buf.buffer_size fs
      × (length rest ≤ put_capacity s.buf)

  flush_empty :
      (once : Bool) (sent : List ℕ)
      → overflow none (writer s once false [] sent) ≡ ok (some 0) (writer s once false [] sent)
  unfolding overflow flush
  flush_empty once sent =
      rw (w.is_writing, ◌>>=◌, ◌>>◌, writer-is_invariant_ok s once false [] sent w (omega arith))

  pub writes :
      (op : Write) (once : Bool) (area sent : List ℕ)
      → length area ≤ put_capacity s.buf
      → Writes once area sent op
  unfolding sync
  writes (put c) once area sent l = puts s w (c ∷ []) once area sent l
  writes flushed once [] sent l = (
    [],
    [],
    rw (flush_empty once sent, ◌>>=◌)
        (λ i. ok tt (writer s (or-false once i) false [] (sym (append-nil sent) i))),
    refl,
    tt,
    omega arith,
  )
  writes flushed once (b ∷ bs) sent l =
      let sent_all = sym (append-nil (record_of s b bs)) ∙ record_of-append s b bs [] in
      (
        frame_of b bs ∷ [],
        [],
        rw (overflow-none s w once b bs sent l, ◌>>=◌)
            (λ i. ok tt (writer s (or-true once i) false [] (sent ++ sent_all i))),
        append-nil ((b ∷ bs) ++ []),
        frame_of-fits s b bs [] (omega (arith, w.large)) tt,
        omega arith,
      )
