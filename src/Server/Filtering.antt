-- ===== src/Server/Filtering.antt =====
-- A filter: after the parameters it reads stdin, and then the data that it filters.
use fcgi.Prelude.{
  ℕ, ◌≤◌, ◌<◌, ◌≡◌, refl, true, ◌||◌, List, [], ◌++◌, none, map, length, arith, ◌==◌,
}
use fcgi.Outcome.{ok}
use fcgi.Istream.{goodbit}
use fcgi.Basics.{responder, filter, filter_data}
use fcgi.NamesValues.Yields.{Yields}
use fcgi.NamesValues.RoundTrip.{stored}
use fcgi.Connection.{Connection}
use fcgi.Streambuf.{St}
use fcgi.Streambuf.ProcessHeader.{sbumpc}
use fcgi.Streambuf.Reader.{underflow}
use fcgi.Streambuf.Delivery.View.{View, view, at, pending}
use fcgi.Streambuf.Delivery.Headers.{ended}
use fcgi.Streambuf.Delivery.Ends.{data_reader, data_begun, data_reader-IsReader}
use fcgi.Streambuf.Delivery.Frames.{Frame, contents, AreFrames}
use fcgi.Streambuf.Delivery.Records.{enough}
use fcgi.Streambuf.Delivery.Stream.{own_stream, streams, one_after_the_other, Holds-begin}
use fcgi.Server.{make_istream, in_buffer_size}
use fcgi.Server.Sends.{input_reader, input_reader-IsReader, Sends}
use fcgi.Server.Parameters.{make_istream-params}

-- What a filter's client sends behind the parameters: stdin, and then the data.
abbrev pub filter_streams : Connection → List Frame → List Frame → List ℕ → List ℕ → List ℕ
filter_streams c gs ds pad tail =
    own_stream (input_reader c []) gs [] (own_stream (data_reader (input_reader c [])) ds pad tail)

module _ (garbage : ℕ → ℕ) where
  -- A filter whose client sends, as `Sends` has it, params that encode `ps`, then stdin, both ended by a record
  -- without padding, and then the data stream, in records of any sizes up to the buffer's and in any arrivals: the
  -- constructor of the input stream succeeds with the parameters `ps`; the buffer then delivers exactly the content of
  -- the records of stdin, byte by byte, and its end; it is then at the data stream, delivers exactly the content
  -- of the records of the data, and the end.
  pub filter-delivered :
      (c : Connection) (ps : List (List ℕ × List ℕ)) (fs gs ds : List Frame) (pad tail : List ℕ)
      (fuel : ℕ)
      → Sends c ps fs [] (filter_streams c gs ds pad tail)
      → c.role ≡ filter
      → AreFrames in_buffer_size gs
      → AreFrames in_buffer_size ds
      → length pad ≤ 255
      → enough ≤ fuel
      → length ps < fuel
      → (t : St) × (u : St) × (d : St) × (e : St) × (w : View) × (make_istream garbage fuel c
          ≡ ok goodbit t)
        × (t.connection.parameters ≡ map stored ps)
        × Yields (sbumpc (underflow garbage fuel)) t (contents gs) u
        × (sbumpc (underflow garbage fuel) u ≡ ok none d)
        × (d.buf.type ≡ filter_data)
        × Yields (sbumpc (underflow garbage fuel)) d (contents ds) e
        × (sbumpc (underflow garbage fuel) e
            ≡ ok none (ended (data_reader (input_reader c (map stored ps))) w))
        × (pending w ≡ pad ++ tail)
  filter-delivered c ps fs gs ds pad tail fuel h role a b q f l =
      let pairs = map stored ps in
      let s = input_reader c pairs in
      let suits : (c.role == responder) || (c.role == filter) ≡ true = ground arith in
      let reader = input_reader-IsReader c pairs suits in
      let data_reader' = data_reader-IsReader s reader role in
      let data_bytes = own_stream (data_reader s) ds pad tail in
      let (w, z, p, o, e, no_content, no_padding) =
        make_istream-params garbage c ps fs [] _ fuel h suits f l in
      let (v, y, (x, end, left, o', a', e', k, _)) =
        one_after_the_other garbage s reader (record { named = h.named; short = h.short }) fuel gs
          [] [] [] data_bytes w
          (Holds-begin s w (own_stream s gs [] data_bytes) o p e no_content no_padding) a f
          (omega arith) role refl in
      let x' = view x.arrivals x.eback x.gptr x.egptr x.unread 0 0 in
      let (v', y', (x'', end', left', o'', a'', e'', k', _)) =
        streams garbage (data_reader s) data_reader' (record { named = h.named; short = h.short })
          fuel ds [] [] pad tail x'
          (Holds-begin (data_reader s) x' data_bytes
            (record { in_buffer = o'.in_buffer; live = o'.live }) left e' refl refl)
          b f q (ground arith) in
      (
        at s w,
        at s v,
        data_begun s x,
        at (data_reader s) v',
        x'',
        z,
        refl,
        y,
        end,
        refl,
        y',
        end',
        left',
      )
