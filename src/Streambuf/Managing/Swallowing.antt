-- ===== src/Streambuf/Managing/Swallowing.antt =====
-- process_header() at a get-values record: Names_values reads on behind the record, to the end of the reader's stream.
use fcgi.Prelude.{
  ℕ, ◌+◌, ◌≤◌, ◌<◌, ◌≡◌, refl, ◌⊎◌, inl, inr, false, ◌&&◌, List, ◌++◌, length, All, arith, ◌==◌,
}
use fcgi.Outcome.{Outcome, ok, terminated, protocol_violation, ◌>>=◌, ◌>>◌}
use fcgi.Net.Descriptor.{Arrival}
use fcgi.Istream.{at_end, broken, on}
use fcgi.Basics.{filter, get_values, stream_code}
use fcgi.Basics.Header.{Header, check_validity}
use fcgi.Basics.Codec.{Says}
use fcgi.NamesValues.Yields.{get-none, get-threw}
use fcgi.NamesValues.Encode.{encode}
use fcgi.NamesValues.RoundTrip.{Fits}
use fcgi.Streambuf.{St, is_input}
use fcgi.Streambuf.Setup.{IsReading, IsReading-is_invariant_ok}
use fcgi.Streambuf.ProcessHeader.{
  ProcessHeaderResult, management_processed, process_management_record, sbumpc, result_room,
  process_get_values, process_header,
}
use fcgi.Streambuf.Reader.{underflow}
use fcgi.Streambuf.Delivery.View.{View, view, at, IsReader, incoming, pending, IsOpen}
use fcgi.Streambuf.Delivery.Headers.{ended}
use fcgi.Streambuf.Delivery.Frames.{Frame, frames_bytes, contents, AreFrames}
use fcgi.Streambuf.Delivery.Bytes.{Holds}
use fcgi.Streambuf.Delivery.Records.{enough, IsNamed}
use fcgi.Streambuf.Delivery.Stream.{own_stream, frames, streams}
use fcgi.Streambuf.Delivery.Cut.{cut-Throws}
use fcgi.Streambuf.Delivery.Foreign.{hearing, hearing-IsReader}
use fcgi.Streambuf.Managing.{answers}
use fcgi.Streambuf.Managing.Answering.{IsResult, sent_more, Answered, process_get_values-Answered}

-- The reader with the content and the padding of the get-values record still to come.
abbrev begun : List Arrival → ℕ → List ℕ → List ℕ → List ℕ → View
begun ar g u cont pad = view ar g g (g + 0) u (length cont) (length pad)

begun-Holds :
    (s : St) (ar : List Arrival) (g : ℕ) (u cont pad rest : List ℕ)
    → IsOpen s (view ar g g (g + 0) u 0 0)
    → u ++ incoming ar ≡ cont ++ (pad ++ rest)
    → length cont ≤ s.buf.buffer_size
    → length pad ≤ 255
    → Holds s (begun ar g u cont pad) cont pad rest
begun-Holds s ar g u cont pad rest o w l q = record {
  is_open = record { in_buffer = o.in_buffer; live = o.live };
  wire = w;
  area = omega arith;
  area_read = omega arith;
  amount = omega arith;
  padded = refl;
  content_fits = l;
  padding_fits = q;
}

module _ (garbage : ℕ → ℕ) (s : St) (r : IsReader s) (i : IsNamed s) where
  hearing-IsNamed : (sent : List ℕ) → IsNamed (hearing s sent)
  hearing-IsNamed sent = record { named = i.named; short = i.short }

  -- The stream's own records `fs`, up to its end, are read as variables too.
  values-of_stream :
      (fuel : ℕ) (h : Header) (fs : List Frame) (ps : List (List ℕ × List ℕ))
      (cont pad pad' tail sent : List ℕ) (ar : List Arrival) (g : ℕ) (u : List ℕ)
      → Holds (hearing s sent) (begun ar g u cont pad) cont pad (own_stream s fs pad' tail)
      → AreFrames s.buf.buffer_size fs
      → length pad' ≤ 255
      → (s.connection.role == filter) && is_input s.buf.type ≡ false
      → cont ++ contents fs ≡ encode ps
      → All Fits ps
      → length ps < fuel
      → enough ≤ fuel
      → (w : View) × Answered garbage ps (ended (hearing s sent) w) (
          process_get_values garbage
            (underflow garbage fuel)
            fuel
            h
            (at (hearing s sent) (begun ar g u cont pad)))
        × (pending w ≡ pad' ++ tail)
        × IsOpen s w
        × (w.eback ≡ w.gptr)
        × (w.gptr ≡ w.egptr)
        × (w.content ≡ 0)
        × (w.padding ≡ length pad')
  values-of_stream fuel h fs ps cont pad pad' tail sent ar g u o a q n e fit l f =
      let t = hearing s sent in
      let (v, y, (w, z, p, o', b, x, k, c)) =
        streams garbage t (hearing-IsReader s r sent) (hearing-IsNamed sent) fuel fs cont pad pad'
          tail (begun ar g u cont pad) o a f q n in
      (
        w,
        process_get_values-Answered garbage (underflow garbage fuel) fuel h ps
            (at t (begun ar g u cont pad)) (at t v) (on at_end (ended t w)) fit l (rw e at y)
            (get-none (sbumpc (underflow garbage fuel)) (at t v) (ended t w) z) c refl,
        p,
        record { in_buffer = o'.in_buffer; live = o'.live },
        b,
        x,
        c,
        k,
      )

  -- What process_header() makes of it: an answer to all the variables, or the end of the process.
  abbrev pub Told : List (List ℕ × List ℕ) → List ℕ → View → Outcome St ProcessHeaderResult → Type 0
  Told ps sent w o =
      ((length (encode (answers ps)) ≤ result_room)
        × (bytes : List ℕ) × IsResult (answers ps) bytes
        × (o ≡ ok management_processed (sent_more (ended (hearing s sent) w) bytes)))
      ⊎ ((result_room < length (encode (answers ps))) × (o ≡ terminated))

  Told-Answered :
      (fuel : ℕ) (h : Header) (ps : List (List ℕ × List ℕ)) (cont pad sent : List ℕ)
      (ar : List Arrival) (g : ℕ) (u : List ℕ) (c p : ℕ) (w : View)
      → Says h get_values 0 (length cont) (length pad)
      → IsOpen s w
      → w.eback ≡ w.gptr
      → w.gptr ≡ w.egptr
      → w.content ≡ 0
      → w.padding ≤ 255
      → Answered garbage ps (ended (hearing s sent) w) (
          process_get_values garbage
            (underflow garbage fuel)
            fuel
            h
            (at (hearing s sent) (begun ar g u cont pad)))
      → Told ps sent w (
          process_header garbage
            (underflow garbage fuel)
            fuel
            h
            (at (hearing s sent) (view ar g g (g + 0) u c p)))
  unfolding process_header check_validity process_management_record process_get_values
  Told-Answered fuel h ps cont pad sent ar g u c p w y o a b n q (inl (k, bytes, says, z)) =
      let t = sent_more (ended (hearing s sent) w) bytes in
      let reading : IsReading t = record {
        is_reading = r.is_reading;
        suits_role = r.suits_role;
        get_is_set = refl;
        put_is_unset = refl;
        in_buffer = o.in_buffer;
        large = r.large;
        small = r.small;
        whole = r.whole;
      } in
      inl (
        k,
        bytes,
        says,
        rw (
          y.says_version,
          ◌>>=◌,
          ◌>>◌,
          y.says_content,
          y.says_padding,
          y.says_type,
          y.says_id,
          z,
          IsReading-is_invariant_ok t reading (omega arith) q (omega arith) (omega arith)
              (omega arith),
        ),
      )
  Told-Answered fuel h ps cont pad sent ar g u c p w y o a b n q (inr (k, z)) = inr (
    k,
    rw (y.says_version, ◌>>=◌, ◌>>◌, y.says_content, y.says_padding, y.says_type, y.says_id, z),
  )

  -- An open reader, other than that of a filter at its stdin, on a connection whose ::send takes all, and the header of a get-values record, not larger than the
  -- buffer; behind its content and padding come records of the reader's own stream and the end of that stream. Where
  -- the content of all of these together encodes pairs, process_header() takes all the pairs for variables that are
  -- asked for: it answers the known ones among them in one get-values-result record and leaves the reader at the end
  -- of its stream, of which nothing is delivered; or, if the answer is longer than 56 bytes, it ends the process.
  pub get_values-Told :
      (fuel : ℕ) (h : Header) (fs : List Frame) (ps : List (List ℕ × List ℕ))
      (cont pad pad' tail sent : List ℕ) (ar : List Arrival) (g : ℕ) (u : List ℕ) (c p : ℕ)
      → Says h get_values 0 (length cont) (length pad)
      → length cont ≤ s.buf.buffer_size
      → length pad ≤ 255
      → IsOpen s (view ar g g (g + 0) u 0 0)
      → u ++ incoming ar ≡ cont ++ (pad ++ own_stream s fs pad' tail)
      → AreFrames s.buf.buffer_size fs
      → length pad' ≤ 255
      → (s.connection.role == filter) && is_input s.buf.type ≡ false
      → cont ++ contents fs ≡ encode ps
      → All Fits ps
      → length ps < fuel
      → enough ≤ fuel
      → (w : View) × Told ps sent w (
          process_header garbage
            (underflow garbage fuel)
            fuel
            h
            (at (hearing s sent) (view ar g g (g + 0) u c p)))
        × (pending w ≡ pad' ++ tail)
  get_values-Told fuel h fs ps cont pad pad' tail sent ar g u c p y l q o w a k n e fit m f =
      let (x, z, left, o', b, d, c', p') =
        values-of_stream fuel h fs ps cont pad pad' tail sent ar g u
          (begun-Holds (hearing s sent) ar g u cont pad (own_stream s fs pad' tail)
            (record { in_buffer = o.in_buffer; live = o.live }) w l q)
          a k n e fit m f in
      (x, Told-Answered fuel h ps cont pad sent ar g u c p x y o' b d c' (omega arith) z, left)

  -- A reader in the midst of the content of a get-values record, on a connection whose ::send takes all and that ends,
  -- behind some records of the reader's own stream, with less than a header: once the connection has ended,
  -- process_get_values() answers the known ones of all the pairs that the content of these records together encodes,
  -- or ends the process if the answer is longer than 56 bytes.
  pub get_values-Answered :
      (fuel : ℕ) (h : Header) (fs : List Frame) (ps : List (List ℕ × List ℕ))
      (cont pad part sent : List ℕ) (v : View)
      → Holds s v cont pad
          (frames_bytes (stream_code s.buf.type) s.connection.request_id fs ++ part)
      → AreFrames s.buf.buffer_size fs
      → length part < 8
      → cont ++ contents fs ≡ encode ps
      → All Fits ps
      → length ps < fuel
      → enough ≤ fuel
      → (w : View) × Answered garbage ps
          (at (hearing s sent) w)
          (process_get_values garbage (underflow garbage fuel) fuel h (at (hearing s sent) v))
  get_values-Answered fuel h fs ps cont pad part sent v o a l e fit m f =
      let t = hearing s sent in
      let o' : Holds t v cont pad
          (frames_bytes (stream_code s.buf.type) s.connection.request_id fs ++ part) =
        record {
          is_open = record { in_buffer = o.is_open.in_buffer; live = o.is_open.live };
          wire = o.wire;
          area = o.area;
          area_read = o.area_read;
          amount = o.amount;
          padded = o.padded;
          content_fits = o.content_fits;
          padding_fits = o.padding_fits;
        } in
      let (x, last, y, k) =
        frames garbage t (hearing-IsReader s r sent) (hearing-IsNamed sent) fuel fs cont pad part v
          o' a f in
      let (w, z, c) =
        cut-Throws garbage t (hearing-IsReader s r sent) fuel last part x.arrivals x.eback x.gptr
          x.egptr x.unread x.content x.padding k l f in
      (
        w,
        process_get_values-Answered garbage (underflow garbage fuel) fuel h ps (at t v) (at t x)
            (on broken (at t w)) fit m (rw e at y)
            (get-threw (sbumpc (underflow garbage fuel)) (at t x) (at t w) protocol_violation z) c
            refl,
      )
