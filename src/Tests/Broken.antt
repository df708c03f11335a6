-- ===== src/Tests/Broken.antt =====
-- Connections that break: a client that goes away, and a peer that takes no more.
use fcgi.Prelude.{ℕ, ◌≡◌, refl, true, false, List, [], ◌∷◌, ◌++◌, none, arith}
use fcgi.Outcome.{threw, protocol_violation}
use fcgi.Net.Descriptor.{send_fails, arrives}
use fcgi.Basics.{out, stream_code}
use fcgi.NamesValues.Yields.{Yields}
use fcgi.Streambuf.{St, fresh}
use fcgi.Streambuf.ProcessHeader.{sbumpc}
use fcgi.Streambuf.Reader.{underflow}
use fcgi.Streambuf.Writer.{overflow}
use fcgi.Streambuf.Delivery.View.{View, view, at}
use fcgi.Streambuf.Delivery.Frames.{Frame, frame, frames_bytes}
use fcgi.Streambuf.Delivery.Bytes.{Holds}
use fcgi.Streambuf.Delivery.Records.{enough}
use fcgi.Streambuf.Delivery.Stream.{Holds-begin}
use fcgi.Streambuf.Delivery.Cut.{cut-delivered}
use fcgi.Streambuf.Sending.{IsWriter}
use fcgi.Streambuf.Sending.Failing.{facing, Outcomes, overflow-Outcomes}
use fcgi.Streambuf.Delivery.Torn.{IsTorn, torn-delivered}
use fcgi.Tests.Serving.{serving, reader, reader-IsReader, reader-IsNamed, garbage}
use fcgi.Basics.Header.{Header, header_fields}
use fcgi.Streambuf.ProcessHeader.{process_header}
use fcgi.Streambuf.Delivery.Foreign.{hearing, Judged, process_header-Judged}

-- One record, and half of the next header.
abbrev sent_frames : List Frame
sent_frames = frame 104 (105 ∷ []) (0 ∷ []) ∷ []

abbrev half_header : List ℕ
half_header = 1 ∷ 5 ∷ 1 ∷ []

abbrev came : List ℕ
came = frames_bytes (stream_code reader.buf.type) 258 sent_frames ++ half_header

abbrev start : View
start = view (arrives came ∷ []) 0 0 0 [] 0 0

start-Holds : Holds reader start [] [] came
start-Holds =
    Holds-begin reader start came (record { in_buffer = omega arith; live = (omega arith, tt) })
      refl refl refl refl

cut-delivered_example :
    (w : View) × (t : View) × Yields
      (sbumpc (underflow garbage enough))
      (at reader start)
      (104 ∷ 105 ∷ [])
      (at reader w)
    × (sbumpc (underflow garbage enough) (at reader w) ≡ threw protocol_violation (at reader t))
cut-delivered_example =
    cut-delivered garbage reader reader-IsReader reader-IsNamed enough sent_frames [] [] half_header
      start start-Holds (omega arith, omega arith, tt) (omega arith) (omega arith)

abbrev printer : St
printer = record {
  connection = serving;
  buf = record (fresh out) { buffer_size = 2048; has_put = true };
}

printer-IsWriter : IsWriter printer
printer-IsWriter = record {
  is_writing = refl;
  large = omega arith;
  small = omega arith;
  whole = refl;
  short = omega arith;
  status = omega arith;
}

overflow-Outcomes_example :
    Outcomes printer printer-IsWriter false 104
      (105 ∷ [])
      send_fails
      []
      []
      (overflow none (facing printer false false (104 ∷ 105 ∷ []) (send_fails ∷ []) []))
overflow-Outcomes_example =
    overflow-Outcomes printer printer-IsWriter false 104 (105 ∷ []) send_fails [] [] (omega arith)

-- A record of the parameters, of 8 bytes, of another request.
abbrev others : Header
others = header_fields 4 259 8 0

process_header-Judged_example :
    Judged reader reader-IsReader garbage
      (underflow garbage enough)
      enough
      4
      259
      []
      (view [] 0 0 0 [] 8 0)
      (process_header garbage
        (underflow garbage enough)
        enough
        others
        (at (hearing reader []) (view [] 0 0 0 [] 0 0)))
process_header-Judged_example =
    process_header-Judged reader reader-IsReader garbage (underflow garbage enough) enough others []
      [] 0 [] 0 0 (record { in_buffer = omega arith; live = tt }) refl (λ h. absurd (omega arith))
      (omega arith) (omega arith) (omega arith)

-- Two bytes of a content of five.
abbrev torn : View
torn = view (arrives (104 ∷ 105 ∷ []) ∷ []) 0 0 0 [] 5 0

torn-IsTorn : IsTorn reader torn (104 ∷ 105 ∷ [])
torn-IsTorn = record {
  is_open = record { in_buffer = omega arith; live = (omega arith, tt) };
  wire = refl;
  area = omega arith;
  area_read = omega arith;
  torn = omega arith;
  content_fits = omega arith;
  padding_fits = omega arith;
}

torn-delivered_example :
    (w : View) × Yields
      (sbumpc (underflow garbage 1))
      (at reader torn)
      (104 ∷ 105 ∷ [])
      (at reader w)
    × (sbumpc (underflow garbage 1) (at reader w) ≡ threw protocol_violation (at reader w))
torn-delivered_example =
    torn-delivered garbage reader reader-IsReader 0 (104 ∷ 105 ∷ []) torn torn-IsTorn
