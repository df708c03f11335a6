-- ===== src/Streambuf/Sending/Failing.antt =====
-- overflow() of src/fcgi/streambuf.cpp where ::send fails, or takes a part of a record.
use fcgi.Prelude.{
  le_or_lt, Option, ℕ, suc, ◌+◌, ◌≤◌, ◌<◌, ◌≡◌, ◌⊎◌, inl, inr, Bool, true, false, List, [], ◌∷◌,
  ◌++◌, none, some, length, length-append, replicate, min, take_all, arith, lt→ltb, le→leb,
  length-replicate, ◌==◌, eq→==, refl,
}
use fcgi.Outcome.{Outcome, ok, threw, terminated, modify, ◌>>=◌, ◌>>◌, cannot_write_to_socket}
use fcgi.Net.Descriptor.{Send, takes, send_fails, write, max_write_size}
use fcgi.Math.Alignment.Laws.{pad, padding-pow, pad_lt}
use fcgi.Basics.Header.{make_header}
use fcgi.Streambuf.{St, set_buf, put_capacity, is_invariant_ok}
use fcgi.Streambuf.ProcessHeader.{write_record}
use fcgi.Streambuf.Writer.{store, send_put_area, flush, overflow}
use fcgi.Streambuf.Sending.{writer, writer_suits, IsWriter}
use fcgi.Streambuf.Sending.Records.{padded, record_of, record_of-fits}

-- An open writer, as `writer` is, and what its next calls of ::send will do.
abbrev pub facing : St → Bool → Bool → List ℕ → List Send → List ℕ → St
facing s once ending put sends sent = record {
  connection = record s.connection { io = record s.connection.io { sends = sends; sent = sent } };
  buf = (writer s once ending put sent).buf;
}

module _ (s : St) (w : IsWriter s) where
  -- All that send_put_area() does besides sending.
  send_put_area-write :
      (once ending : Bool) (b : ℕ) (bs : List ℕ) (sends : List Send) (sent : List ℕ)
      → suc (length bs) ≤ put_capacity s.buf + 1
      → send_put_area none (facing s once ending (b ∷ bs) sends sent)
        ≡ (write_record (record_of s b bs)
              >> modify
                  (λ t. set_buf t (record t.buf { is_put_area_at_least_once_consumed = true })))
            (facing s once ending (padded (b ∷ bs)) sends sent)
  unfolding send_put_area store make_header
  send_put_area-write once ending b bs sends sent l =
      let n = suc (length bs) in
      let p = pad n 3 in
      rw (
        padding-pow {S = St} (facing s once ending (b ∷ bs) sends sent) n 3 (omega arith),
        ◌>>=◌,
        ◌>>◌,
        le→leb (n + p) (put_capacity s.buf + 1) (record_of-fits s w n l),
        le→leb n 65535 (omega (arith, w.small)),
        le→leb p 255 (omega (arith, pad_lt n 3)),
        length-replicate {A = ℕ} p 0,
      )

  record-length :
      (b : ℕ) (bs : List ℕ)
      → length (record_of s b bs) ≡ 8 + (suc (length bs) + pad (suc (length bs)) 3)
  record-length b bs =
      let p = pad (suc (length bs)) 3 in
      omega (arith, length-append bs (replicate p 0), length-replicate {A = ℕ} p 0)

  -- One ::send of a record: it fails, it takes the record, or it takes less.
  pub write_record-fails :
      (once ending : Bool) (put : List ℕ) (rest : List Send) (sent bytes : List ℕ)
      → write_record bytes (facing s once ending put (send_fails ∷ rest) sent)
        ≡ threw cannot_write_to_socket (facing s once ending put rest sent)
  unfolding write_record write
  write_record-fails once ending put rest sent bytes = refl

  write_record-takes :
      (once ending : Bool) (put : List ℕ) (n : ℕ) (rest : List Send) (sent bytes : List ℕ)
      → length bytes ≤ max_write_size
      → length bytes ≤ n
      → write_record bytes (facing s once ending put (takes n ∷ rest) sent)
        ≡ ok tt (facing s once ending put rest (sent ++ bytes))
  unfolding write_record write
  write_record-takes once ending put n rest sent bytes l k =
      let all : min n (min (length bytes) max_write_size) ≡ length bytes = omega arith in
      rw (all, take_all bytes, eq→== (length bytes) (length bytes) refl)

  write_record-less :
      (once ending : Bool) (put : List ℕ) (n : ℕ) (rest : List Send) (sent bytes : List ℕ)
      → n < length bytes
      → write_record bytes (facing s once ending put (takes n ∷ rest) sent) ≡ terminated
  unfolding write_record write
  write_record-less once ending put n rest sent bytes k =
      let few : (min n (min (length bytes) max_write_size) == length bytes) ≡ false =
        ground arith in
      rw few

  -- The put area is not sent, and keeps the padding.
  pub overflow-fails :
      (once ending : Bool) (b : ℕ) (bs : List ℕ) (rest : List Send) (sent : List ℕ)
      → suc (length bs) ≤ put_capacity s.buf
      → overflow none (facing s once ending (b ∷ bs) (send_fails ∷ rest) sent)
        ≡ threw cannot_write_to_socket (facing s once ending (padded (b ∷ bs)) rest sent)
  unfolding overflow flush
  overflow-fails once ending b bs rest sent l = rw (
    w.is_writing,
    lt→ltb 0 (suc (length bs)) (omega arith),
    send_put_area-write once ending b bs (send_fails ∷ rest) sent (omega arith),
    ◌>>=◌,
    ◌>>◌,
    write_record-fails once ending (padded (b ∷ bs)) rest sent (record_of s b bs),
  )

  facing-is_invariant_ok :
      (rest : List Send) (sent : List ℕ) → is_invariant_ok (facing s true false [] rest sent) ≡ true
  unfolding is_invariant_ok
  facing-is_invariant_ok rest sent =
      let suits = writer_suits s.connection.role s.buf.type w.is_writing in
      let large = w.large in
      let small = w.small in let whole = w.whole in let is_writing = w.is_writing in ground arith

  -- What becomes of the record of the put area `b ∷ bs`.
  abbrev pub Outcomes :
      Bool → ℕ → List ℕ → Send → List Send → List ℕ → Outcome St (Option ℕ) → Type 0
  Outcomes once b bs send_fails rest sent m =
      m ≡ threw cannot_write_to_socket (facing s once false (padded (b ∷ bs)) rest sent)
  Outcomes once b bs (takes n) rest sent m =
      ((length (record_of s b bs) ≤ n)
        × (m ≡ ok (some 0) (facing s true false [] rest (sent ++ record_of s b bs))))
      ⊎ ((n < length (record_of s b bs)) × (m ≡ terminated))

  -- overflow() without a character, as sync() calls it, on an open writer that has something in its put area: where
  -- ::send fails it throws, with nothing sent, and the put area has the padding of the record as content behind what
  -- was in it; where ::send takes the whole record the put area is empty afterwards; where it takes less the process
  -- ends.
  pub overflow-Outcomes :
      (once : Bool) (b : ℕ) (bs : List ℕ) (send : Send) (rest : List Send) (sent : List ℕ)
      → suc (length bs) ≤ put_capacity s.buf
      → Outcomes once b bs send rest sent
          (overflow none (facing s once false (b ∷ bs) (send ∷ rest) sent))
  unfolding overflow flush
  overflow-Outcomes once b bs send_fails rest sent l = overflow-fails once false b bs rest sent l
  overflow-Outcomes once b bs (takes n) rest sent l =
      elim (le_or_lt (length (record_of s b bs)) n) [
        | inl k ↦ inl (
          k,
          rw (
            w.is_writing,
            lt→ltb 0 (suc (length bs)) (omega arith),
            send_put_area-write once false b bs (takes n ∷ rest) sent (omega arith),
            ◌>>=◌,
            ◌>>◌,
            write_record-takes once false (padded (b ∷ bs)) n rest sent (record_of s b bs)
                (omega (
                  arith,
                  record-length b bs,
                  record_of-fits s w (suc (length bs)) (omega arith),
                  w.small,
                ))
                k,
            facing-is_invariant_ok rest (sent ++ record_of s b bs),
          ),
        )
        | inr k ↦ inr (
          k,
          rw (
            w.is_writing,
            lt→ltb 0 (suc (length bs)) (omega arith),
            send_put_area-write once false b bs (takes n ∷ rest) sent (omega arith),
            ◌>>=◌,
            ◌>>◌,
            write_record-less once false (padded (b ∷ bs)) n rest sent (record_of s b bs) k,
          ),
        )
      ]
