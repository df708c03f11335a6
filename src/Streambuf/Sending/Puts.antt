-- ===== src/Streambuf/Sending/Puts.antt =====
-- A sequence of sputc(): the records it sends, and what it leaves in the put area.
use fcgi.Prelude.{
  ℕ, suc, ◌+◌, ◌%◌, ◌≤◌, ◌<◌, ◌≡◌, refl, sym, ap, ◌∙◌, Bool, true, false, ◌||◌, List, [], ◌∷◌, ◌++◌,
  map, length, length-append, length-replicate, arith, ltb, lt→ltb, le→ltb, inl, inr, Bool-cases,
  append-nil, append_assoc,
}
use fcgi.Outcome.{M, ok, pure, ◌>>=◌}
use fcgi.Math.Alignment.Laws.{pad, pad_lt}
use fcgi.Basics.{stream_code}
use fcgi.Streambuf.{St, put_capacity}
use fcgi.Streambuf.Writer.{sputc}
use fcgi.Streambuf.Delivery.Frames.{Frame, frame, header_for, frames_bytes, contents, AreFrames}
use fcgi.Streambuf.Sending.{writer, IsWriter}
use fcgi.Streambuf.Sending.Records.{zeros, record_of, overflow-some}

-- The characters are written one by one, as sputn() does.
abbrev pub put_all : List ℕ → M St (Unit {0})
put_all [] = pure tt
put_all (c ∷ cs) = sputc c >>= λ _. put_all cs

abbrev pub low : ℕ → ℕ
low c = c % 256

abbrev pub some_sent : List Frame → Bool
some_sent [] = false
some_sent (f ∷ fs) = true

pub some_sent-append : (fs gs : List Frame) → some_sent fs || some_sent gs ≡ some_sent (fs ++ gs)
some_sent-append [] gs = refl
some_sent-append (f ∷ fs) gs = refl

abbrev pub frame_of : ℕ → List ℕ → Frame
frame_of b bs = frame b bs (zeros (suc (length bs)))

abbrev pub own_frames : St → List Frame → List ℕ
own_frames s fs = frames_bytes (stream_code s.buf.type) s.connection.request_id fs

pub or-true : (once : Bool) → true ≡ once || true
or-true true = refl
or-true false = refl

pub or-false : (once : Bool) → once ≡ once || false
or-false true = refl
or-false false = refl

pub record_of-append :
    (s : St) (b : ℕ) (bs : List ℕ) (fs : List Frame)
    → record_of s b bs ++ own_frames s fs ≡ own_frames s (frame_of b bs ∷ fs)
record_of-append s b bs fs =
    let p = zeros (suc (length bs)) in
    let h =
      header_for (stream_code s.buf.type) s.connection.request_id (suc (length bs)) (length p) in
    append_assoc h ((b ∷ bs) ++ p) (own_frames s fs)
    ∙ ap (λ xs. h ++ xs) (append_assoc (b ∷ bs) p (own_frames s fs))

pub frame_of-fits :
    (s : St) (b : ℕ) (bs : List ℕ) (fs : List Frame)
    → suc (length bs) ≤ s.buf.buffer_size
    → AreFrames s.buf.buffer_size fs
    → AreFrames s.buf.buffer_size (frame_of b bs ∷ fs)
frame_of-fits s b bs fs l a =
    let n = suc (length bs) in
    (l, omega (arith, pad_lt n 3, length-replicate {A = ℕ} (pad n 3) 0), a)

module _ (s : St) (w : IsWriter s) where
  -- What comes of writing `bs`: records, and a put area, which together hold what stood in the put area and `bs`.
  abbrev pub Puts : Bool → List ℕ → List ℕ → List ℕ → Type 0
  Puts once put sent bs =
      (fs : List Frame) × (rest : List ℕ) × (put_all bs (writer s once false put sent)
        ≡ ok tt (writer s (once || some_sent fs) false rest (sent ++ own_frames s fs)))
      × (contents fs ++ rest ≡ put ++ map low bs)
      × AreFrames s.buf.buffer_size fs
      × (length rest ≤ put_capacity s.buf)

  Puts-room :
      (once : Bool) (put sent : List ℕ) (c : ℕ) (bs : List ℕ)
      → length put < put_capacity s.buf
      → Puts once (put ++ low c ∷ []) sent bs
      → Puts once put sent (c ∷ bs)
  unfolding sputc
  Puts-room once put sent c bs l (fs, rest, z, e, a, k) = (
    fs,
    rest,
    rw (lt→ltb (length put) (put_capacity s.buf) l, ◌>>=◌, z),
    e ∙ append_assoc put (low c ∷ []) (map low bs),
    a,
    k,
  )

  Puts-full :
      (once : Bool) (b : ℕ) (put sent : List ℕ) (c : ℕ) (bs : List ℕ)
      → suc (length put) ≡ put_capacity s.buf
      → Puts true [] (sent ++ record_of s b (put ++ low c ∷ [])) bs
      → Puts once (b ∷ put) sent (c ∷ bs)
  unfolding sputc
  Puts-full once b put sent c bs l (fs, rest, z, e, a, k) =
      let cs = put ++ low c ∷ [] in
      let n : length cs ≡ length put + 1 = length-append put (low c ∷ []) in
      let sent_all =
        append_assoc sent (record_of s b cs) (own_frames s fs)
        ∙ ap (λ xs. sent ++ xs) (record_of-append s b cs fs) in
      let step : put_all (c ∷ bs) (writer s once false (b ∷ put) sent)
          ≡ put_all bs (writer s true false [] (sent ++ record_of s b cs)) =
        rw (
          le→ltb (suc (length put)) (put_capacity s.buf) (omega (arith, l)),
          overflow-some s w once b c put sent (omega (arith, l)),
          ◌>>=◌,
        ) in
      (
        frame_of b cs ∷ fs,
        rest,
        step ∙ z ∙ (λ i. ok tt (writer s (or-true once i) false rest (sent_all i))),
        append_assoc (b ∷ cs) (contents fs) rest
            ∙ ap (λ xs. (b ∷ cs) ++ xs) e
            ∙ append_assoc (b ∷ put) (low c ∷ []) (map low bs),
        frame_of-fits s b cs fs (omega (arith, n, l, w.large)) a,
        k,
      )

  Puts-at_end :
      (once : Bool) (put sent : List ℕ) (c : ℕ) (bs : List ℕ)
      → length put ≡ put_capacity s.buf
      → ((sent' : List ℕ) → Puts true [] sent' bs)
      → Puts once put sent (c ∷ bs)
  Puts-at_end once [] sent c bs l rest = absurd (omega (arith, l, w.large))
  Puts-at_end once (b ∷ put) sent c bs l rest =
      Puts-full once b put sent c bs l (rest (sent ++ record_of s b (put ++ low c ∷ [])))

  pub puts :
      (bs : List ℕ) (once : Bool) (put sent : List ℕ)
      → length put ≤ put_capacity s.buf
      → Puts once put sent bs
  puts [] once put sent l = (
    [],
    put,
    (λ i. ok tt (writer s (or-false once i) false put (sym (append-nil sent) i))),
    sym (append-nil put),
    tt,
    l,
  )
  puts (c ∷ bs) once put sent l = elim (Bool-cases (ltb (length put) (put_capacity s.buf))) [
    | inl room ↦
        let more : length put < put_capacity s.buf = ground arith in
        let fits : length (put ++ low c ∷ []) ≤ put_capacity s.buf =
          omega (arith, length-append put (low c ∷ []), more) in
        Puts-room once put sent c bs more (puts bs once (put ++ low c ∷ []) sent fits)
    | inr full ↦
        Puts-at_end once put sent c bs (ground arith) (λ sent'. puts bs true [] sent' (omega arith))
  ]
