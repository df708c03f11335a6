-- ===== src/Streambuf/Managing/Answering.antt =====
-- The handling of a get-values record once its variables have been read.
use fcgi.Prelude.{
  ℕ, zero, suc, ap, ◌+◌, ◌%◌, ◌≤◌, ◌<◌, ◌≡◌, refl, ◌⊎◌, inl, inr, min, List, [], ◌++◌, Option, none,
  length, length-append, take_all, All, arith, le→ltb, eq→==, le→leb,
}
use fcgi.Outcome.{Outcome, M, ok, terminated, ◌>>=◌}
use fcgi.Math.Alignment.Laws.{pad, padding-pow, pad_lt, pad_aligns}
use fcgi.Net.Descriptor.{write, max_write_size}
use fcgi.Istream.{Stream, goodbit, on, get}
use fcgi.Basics.{get_values_result}
use fcgi.Basics.Header.{Header, header_bytes, header_of, header_fields, make_header}
use fcgi.Basics.Codec.{Says, header_fields-Says}
use fcgi.NamesValues.Yields.{Yields}
use fcgi.NamesValues.Encode.{encode}
use fcgi.NamesValues.RoundTrip.{Fits, names_values-stops}
use fcgi.Streambuf.{St, set_io}
use fcgi.Streambuf.ProcessHeader.{sbumpc, result_room, stale, write_record, process_get_values}
use fcgi.Streambuf.Managing.{answers, fill_result-Filled}

-- A get-values-result record that tells `qs`: version 1, type 10, no request; the encoding of `qs`, and then as many
-- bytes of padding as complete a multiple of 8.
pub record IsResult (qs : List (List ℕ × List ℕ)) (bytes : List ℕ) : Type 0 where
  pub padding_bytes : List ℕ
  pub laid_out : bytes ≡ header_bytes (header_of bytes) ++ (encode qs ++ padding_bytes)
  pub says_header :
      Says (header_of bytes) get_values_result 0 (length (encode qs)) (length padding_bytes)
  pub padding_short : length padding_bytes < 8
  pub aligned_to_8 : length bytes % 8 ≡ 0

length-stale : (garbage : ℕ → ℕ) (from n : ℕ) → length (stale garbage from n) ≡ n
length-stale garbage from zero = refl
length-stale garbage from (suc n) = ap suc (length-stale garbage (suc from) n)

-- What the peer has been sent more.
abbrev pub sent_more : St → List ℕ → St
sent_more u bytes =
    set_io u (record u.connection.io { sends = []; sent = u.connection.io.sent ++ bytes })

write_record-all :
    (u : St) (bytes : List ℕ)
    → u.connection.io.sends ≡ []
    → length bytes ≤ max_write_size
    → write_record bytes u ≡ ok tt (sent_more u bytes)
unfolding write_record write
write_record-all u bytes e l =
    let all : min (length bytes) max_write_size ≡ length bytes = omega arith in
    rw (e, all, take_all bytes, eq→== (length bytes) (length bytes) refl)

module _ (garbage : ℕ → ℕ) where
  abbrev result_bytes : List ℕ → List ℕ
  result_bytes content =
      let p = pad (length content) 3 in
      header_bytes (header_fields get_values_result 0 (length content) p)
      ++ (content ++ stale garbage (8 + length content) p)

  length-result_bytes :
      (content : List ℕ)
      → length (result_bytes content) ≡ 8 + (length content + pad (length content) 3)
  length-result_bytes content =
      let p = pad (length content) 3 in
      omega (
        arith,
        length-append content (stale garbage (8 + length content) p),
        length-stale garbage (8 + length content) p,
      )

  result_bytes-IsResult :
      (qs : List (List ℕ × List ℕ))
      → length (encode qs) ≤ result_room
      → IsResult qs (result_bytes (encode qs))
  result_bytes-IsResult qs l =
      let n = length (encode qs) in
      let p = pad n 3 in
      let some_bytes = length-stale garbage (8 + n) p in
      record {
        padding_bytes = stale garbage (8 + n) p;
        laid_out = refl;
        says_header = rw some_bytes (
            header_fields-Says get_values_result 0 n p (omega arith) (omega arith) (omega arith)
              (omega (arith, pad_lt n 3)));
        padding_short = omega (arith, some_bytes, pad_lt n 3);
        aligned_to_8 =
            omega
              (arith, length-result_bytes (encode qs), pad_aligns n 3 (omega arith) (omega arith));
      }

  -- What becomes of a get-values record whose variables `ps` have been read, in the state `u`.
  abbrev pub Answered : List (List ℕ × List ℕ) → St → Outcome St (Unit {0}) → Type 0
  Answered ps u o =
      ((length (encode (answers ps)) ≤ result_room)
        × (bytes : List ℕ) × IsResult (answers ps) bytes
        × (o ≡ ok tt (sent_more u bytes)))
      ⊎ ((result_room < length (encode (answers ps))) × (o ≡ terminated))

  -- The variables are all that the buffer delivers, to where it stops.
  pub process_get_values-Answered :
      (underflow : M St (Option ℕ)) (fuel : ℕ) (header : Header) (ps : List (List ℕ × List ℕ))
      (s t : St) (r : Stream St)
      → All Fits ps
      → length ps < fuel
      → Yields (sbumpc underflow) s (encode ps) t
      → get (sbumpc underflow) (on goodbit t) ≡ ok none r
      → r.buffer.buf.unread_content_length ≡ 0
      → r.buffer.connection.io.sends ≡ []
      → Answered ps r.buffer (process_get_values garbage underflow fuel header s)
  unfolding process_get_values make_header
  process_get_values-Answered underflow fuel header ps s t r f l y e c all =
      let n = length (encode (answers ps)) in
      let read = names_values-stops (sbumpc underflow) ps fuel s t r f l y e in
      elim (fill_result-Filled header r.buffer ps [] (omega arith)) [
        | inl (fits, z) ↦ inl (
          omega arith,
          result_bytes (encode (answers ps)),
          result_bytes-IsResult (answers ps) (omega arith),
          rw
              (
                read,
                ◌>>=◌,
                le→ltb 0 r.buffer.buf.unread_content_length (omega arith),
                z,
                padding-pow r.buffer n 3 (omega arith),
                le→leb n 65535 (omega arith),
                le→leb (pad n 3) 255 (omega (arith, pad_lt n 3)),
              )
              (write_record-all r.buffer (result_bytes (encode (answers ps))) all
                (omega (arith, length-result_bytes (encode (answers ps)), pad_lt n 3))),
        )
        | inr (none_left, z) ↦ inr (
          omega arith,
          rw (read, ◌>>=◌, le→ltb 0 r.buffer.buf.unread_content_length (omega arith), z),
        )
      ]
