-- ===== src/Server/Parameters.antt =====
-- The constructor of server_Istream: from the bytes of a request's params stream to the parameters.
use fcgi.Prelude.{
  ℕ, ◌≤◌, ◌<◌, ◌≡◌, refl, true, ◌||◌, List, [], ◌++◌, none, map, length, arith, ◌==◌,
}
use mathlib.Core.Path.{subst}
use fcgi.Outcome.{ok, ◌>>=◌, ◌>>◌}
use fcgi.Istream.{goodbit, at_end}
use fcgi.Basics.{input, responder, filter}
use fcgi.NamesValues.{NameValue}
use fcgi.NamesValues.Yields.{Yields}
use fcgi.NamesValues.RoundTrip.{stored, names_values-encode}
use fcgi.Connection.{Connection}
use fcgi.Streambuf.{St, reset_reader}
use fcgi.Streambuf.Setup.{IsReading-is_invariant_ok}
use fcgi.Streambuf.ProcessHeader.{sbumpc}
use fcgi.Streambuf.Reader.{underflow}
use fcgi.Streambuf.Delivery.View.{View, view, at, pending, IsOpen, at-IsReading}
use fcgi.Streambuf.Delivery.Headers.{ended}
use fcgi.Streambuf.Delivery.Frames.{Frame, contents, AreFrames}
use fcgi.Streambuf.Delivery.Bytes.{Holds}
use fcgi.Streambuf.Delivery.Records.{enough}
use fcgi.Streambuf.Delivery.Stream.{own_stream, streams, Holds-begin}
use fcgi.Server.{read_parameters, read_request, make_istream, in_buffer_size}
use fcgi.Server.Sends.{
  params_reader, input_reader, first, params_reader-IsReader, input_reader-IsReader,
  make_params_streambuf, Sends,
}

module _ (garbage : ℕ → ℕ) where
  -- What the constructor of the input stream reads: the parameters, and the end of the params stream.
  read_parameters-Sends :
      (c : Connection) (ps : List (List ℕ × List ℕ)) (fs : List Frame) (pad tail : List ℕ)
      (fuel : ℕ)
      → Sends c ps fs pad tail
      → enough ≤ fuel
      → length ps < fuel
      → (w : View) × (read_parameters garbage fuel (at (params_reader c) (first c))
          ≡ ok (map stored ps, at_end) (ended (params_reader c) w))
        × (pending w ≡ pad ++ tail)
        × IsOpen (params_reader c) w
        × (w.eback ≡ w.gptr)
        × (w.gptr ≡ w.egptr)
        × (w.padding ≡ length pad)
  read_parameters-Sends c ps fs pad tail fuel h f l =
      let s = params_reader c in
      let holds : Holds s (first c) [] [] (own_stream s fs pad tail) = record {
        is_open = record { in_buffer = omega arith; live = h.live };
        wire = h.wire;
        area = omega arith;
        area_read = omega arith;
        amount = refl;
        padded = refl;
        content_fits = omega arith;
        padding_fits = omega arith;
      } in
      let (v, y, (w, z, p, o, a, e, q, _)) =
        streams garbage s (params_reader-IsReader c) (record { named = h.named; short = h.short })
          fuel fs [] [] pad tail (first c) holds h.are_frames f h.padding_fits (ground arith) in
      (
        w,
        rw (
          names_values-encode (sbumpc (underflow garbage fuel)) ps fuel (at s (first c)) (at s v)
              (ended s w) h.fit l
              (subst (λ bs. Yields (sbumpc (underflow garbage fuel)) (at s (first c)) bs (at s v))
                h.are_pairs y)
              z,
          read_parameters,
        ),
        p,
        o,
        a,
        e,
        q,
      )

  reset_ended :
      (c : Connection) (pairs : List NameValue) (w : View)
      → IsOpen (params_reader c) w
      → w.eback ≡ w.gptr
      → w.gptr ≡ w.egptr
      → (c.role == responder) || (c.role == filter) ≡ true
      → reset_reader input (record {
        connection = record (at (params_reader c) w).connection { parameters = pairs };
        buf = (ended (params_reader c) w).buf;
      })
        ≡ ok tt (at (input_reader c pairs) (view w.arrivals w.eback w.gptr w.egptr w.unread 0 0))
  unfolding reset_reader
  reset_ended c pairs w o a e role =
      let v = view w.arrivals w.eback w.gptr w.egptr w.unread 0 0 in
      rw (
        IsReading-is_invariant_ok (at (input_reader c pairs) v)
          (at-IsReading (input_reader c pairs) v (input_reader-IsReader c pairs role)
            (record { in_buffer = o.in_buffer; live = o.live }))
          (omega arith) (omega arith) (omega arith) (omega arith) (omega arith))

  -- The whole state after the constructor: the connection with the parameters, and its buffer at stdin.
  pub make_istream-params :
      (c : Connection) (ps : List (List ℕ × List ℕ)) (fs : List Frame) (pad tail : List ℕ)
      (fuel : ℕ)
      → Sends c ps fs pad tail
      → (c.role == responder) || (c.role == filter) ≡ true
      → enough ≤ fuel
      → length ps < fuel
      → (w : View) × (make_istream garbage fuel c
          ≡ ok goodbit (at (input_reader c (map stored ps)) w))
        × (pending w ≡ pad ++ tail)
        × IsOpen (input_reader c (map stored ps)) w
        × (w.gptr ≡ w.egptr)
        × (w.content ≡ 0)
        × (w.padding ≡ 0)
  unfolding make_istream read_request
  make_istream-params c ps fs pad tail fuel h role f l =
      let (w, z, p, o, a, e, q) = read_parameters-Sends c ps fs pad tail fuel h f l in
      (
        view w.arrivals w.eback w.gptr w.egptr w.unread 0 0,
        rw (
          make_params_streambuf c,
          make_istream,
          z,
          read_request,
          ◌>>=◌,
          ◌>>◌,
          role,
          reset_ended c (map stored ps) w o a e role,
        ),
        p,
        record { in_buffer = o.in_buffer; live = o.live },
        e,
        refl,
        refl,
      )

  -- For a responder or a filter, and a request, arrivals and pairs as `Sends` has them (an id from 1 to 65535, no
  -- arrival that is empty or fails, pairs whose sizes fit an int), a params stream that encodes pairs of names and
  -- values, cut into records of at most 16384 bytes of content, the size of the buffer, in any arrivals, makes exactly
  -- these pairs the parameters of the connection, in order, with the fuel `enough`, and more than there are pairs; the
  -- input stream is then good, and what the stream's last record has as padding, and all that follows it, is still to
  -- be read, while no padding is left to be skipped.
  pub make_istream-Sends :
      (c : Connection) (ps : List (List ℕ × List ℕ)) (fs : List Frame) (pad tail : List ℕ)
      (fuel : ℕ)
      → Sends c ps fs pad tail
      → (c.role == responder) || (c.role == filter) ≡ true
      → enough ≤ fuel
      → length ps < fuel
      → (w : View) × (make_istream garbage fuel c
          ≡ ok goodbit (at (input_reader c (map stored ps)) w))
        × (pending w ≡ pad ++ tail)
        × (w.padding ≡ 0)
  make_istream-Sends c ps fs pad tail fuel h role f l =
      let (w, z, p, o, e, k, n) = make_istream-params c ps fs pad tail fuel h role f l in
      (w, z, p, n)

  -- A responder whose client sends, as `Sends` has it, params that encode `ps`, ended by a record without padding, and then stdin, in
  -- records of any sizes up to the buffer's and in any arrivals: the constructor of the input stream succeeds with
  -- the parameters `ps`, the buffer then delivers exactly the content of the records of stdin, byte by byte, and
  -- after it the end of the stream.
  pub request-delivered :
      (c : Connection) (ps : List (List ℕ × List ℕ)) (fs gs : List Frame) (pad tail : List ℕ)
      (fuel : ℕ)
      → Sends c ps fs [] (own_stream (input_reader c []) gs pad tail)
      → c.role ≡ responder
      → AreFrames in_buffer_size gs
      → length pad ≤ 255
      → enough ≤ fuel
      → length ps < fuel
      → (t : St) × (u : St) × (w : View) × (make_istream garbage fuel c ≡ ok goodbit t)
        × (t.connection.parameters ≡ map stored ps)
        × Yields (sbumpc (underflow garbage fuel)) t (contents gs) u
        × (sbumpc (underflow garbage fuel) u ≡ ok none (ended (input_reader c (map stored ps)) w))
        × (pending w ≡ pad ++ tail)
  request-delivered c ps fs gs pad tail fuel h role a q f l =
      let pairs = map stored ps in
      let s = input_reader c pairs in
      let suits : (c.role == responder) || (c.role == filter) ≡ true = ground arith in
      let (w, z, p, o, e, no_content, no_padding) =
        make_istream-params c ps fs [] _ fuel h suits f l in
      let (v, y, (x, end, left, o', a', e', k', _)) =
        streams garbage s (input_reader-IsReader c pairs suits)
          (record { named = h.named; short = h.short }) fuel gs [] [] pad tail w
          (Holds-begin s w (own_stream s gs pad tail) o p e no_content no_padding) a f q
          (ground arith) in
      (at s w, at s v, x, z, refl, y, end, left)
