-- ===== src/Streambuf/Sending/Records.antt =====
-- The record that overflow() sends, and the records that a sequence of sputc() sends.
use fcgi.Prelude.{
  ℕ, suc, ◌+◌, ◌%◌, ◌≤◌, ◌≡◌, Bool, true, false, List, [], ◌∷◌, ◌++◌, none, some, length,
  length-append, replicate, arith, lt→ltb, le→leb, length-replicate,
}
use fcgi.Outcome.{ok, ◌>>=◌, ◌>>◌}
use fcgi.Math.Alignment.Laws.{pad, padding-pow, pad_lt, pad_aligns}
use fcgi.Basics.{stream_code}
use fcgi.Basics.Header.{make_header}
use fcgi.Streambuf.{St, put_capacity}
use fcgi.Streambuf.Writer.{store, send_put_area, flush, overflow}
use fcgi.Streambuf.Delivery.Frames.{header_for}
use fcgi.Streambuf.Sending.{writer, IsWriter, writer-is_invariant_ok, write_record-all}

-- The padding of a record, as the protocol recommends it.
abbrev pub zeros : ℕ → List ℕ
zeros n = replicate (pad n 3) 0

-- A put area whose record was to be sent.
abbrev pub padded : List ℕ → List ℕ
padded put = put ++ zeros (length put)

-- The record of the content `b ∷ bs`.
abbrev pub record_of : St → ℕ → List ℕ → List ℕ
record_of s b bs =
    header_for (stream_code s.buf.type) s.connection.request_id (suc (length bs))
      (length (zeros (suc (length bs))))
    ++ ((b ∷ bs) ++ zeros (suc (length bs)))

module _ (s : St) (w : IsWriter s) where
  pub record_of-fits : (n : ℕ) → n ≤ put_capacity s.buf + 1 → n + pad n 3 ≤ put_capacity s.buf + 1
  record_of-fits n l = omega (
    arith,
    w.large,
    w.whole,
    w.small,
    pad_lt n 3,
    pad_aligns n 3 (omega arith) (omega (arith, w.small)),
  )

  -- The put area is sent as one record.
  pub send_put_area-none :
      (once ending : Bool) (b : ℕ) (bs sent : List ℕ)
      → suc (length bs) ≤ put_capacity s.buf + 1
      → send_put_area none (writer s once ending (b ∷ bs) sent)
        ≡ ok tt (writer s true ending (padded (b ∷ bs)) (sent ++ record_of s b bs))
  unfolding send_put_area store make_header
  send_put_area-none once ending b bs sent l =
      let n = suc (length bs) in
      let p = pad n 3 in
      let bytes =
        header_for (stream_code s.buf.type) s.connection.request_id n p
        ++ ((b ∷ bs) ++ replicate p 0) in
      let size : length bytes ≡ 8 + (n + p) =
        omega (arith, length-append bs (replicate p 0), length-replicate {A = ℕ} p 0) in
      rw (
        padding-pow {S = St} (writer s once ending (b ∷ bs) sent) n 3 (omega arith),
        ◌>>=◌,
        ◌>>◌,
        le→leb (n + p) (put_capacity s.buf + 1) (record_of-fits n l),
        le→leb n 65535 (omega (arith, w.small)),
        le→leb p 255 (omega (arith, pad_lt n 3)),
        write_record-all s once ending (padded (b ∷ bs)) sent bytes
            (omega (arith, size, record_of-fits n l, w.small)),
        length-replicate {A = ℕ} p 0,
      )

  send_put_area-some :
      (once ending : Bool) (b c : ℕ) (bs sent : List ℕ)
      → suc (length bs) ≤ put_capacity s.buf
      → send_put_area (some c) (writer s once ending (b ∷ bs) sent)
        ≡ send_put_area none (writer s once ending (b ∷ (bs ++ (c % 256) ∷ [])) sent)
  unfolding send_put_area store
  send_put_area-some once ending b c bs sent l =
      rw (le→leb (suc (length bs)) (put_capacity s.buf) l, ◌>>=◌, ◌>>◌)

  -- overflow(ch) on a put area that is not empty.
  pub overflow-some :
      (once : Bool) (b c : ℕ) (bs sent : List ℕ)
      → suc (length bs) ≤ put_capacity s.buf
      → overflow (some c) (writer s once false (b ∷ bs) sent)
        ≡ ok (some c) (writer s true false [] (sent ++ record_of s b (bs ++ (c % 256) ∷ [])))
  unfolding overflow flush
  overflow-some once b c bs sent l =
      let n : length (bs ++ (c % 256) ∷ []) ≡ length bs + 1 = length-append bs ((c % 256) ∷ []) in
      rw (
        w.is_writing,
        lt→ltb 0 (suc (length bs)) (omega arith),
        send_put_area-some once false b c bs sent l,
        ◌>>=◌,
        send_put_area-none once false b (bs ++ (c % 256) ∷ []) sent (omega (arith, n, l)),
        writer-is_invariant_ok s true false [] (sent ++ record_of s b (bs ++ (c % 256) ∷ [])) w
            (omega arith),
      )

  -- The same with no character: sync() and close().
  pub overflow-none :
      (once : Bool) (b : ℕ) (bs sent : List ℕ)
      → suc (length bs) ≤ put_capacity s.buf
      → overflow none (writer s once false (b ∷ bs) sent)
        ≡ ok (some 0) (writer s true false [] (sent ++ record_of s b bs))
  unfolding overflow flush
  overflow-none once b bs sent l = rw (
    w.is_writing,
    lt→ltb 0 (suc (length bs)) (omega arith),
    send_put_area-none once false b bs sent (omega arith),
    ◌>>=◌,
    writer-is_invariant_ok s true false [] (sent ++ record_of s b bs) w (omega arith),
  )
