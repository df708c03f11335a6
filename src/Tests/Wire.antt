-- ===== src/Tests/Wire.antt =====
-- A request of a web server for a responder, in two arrivals.
use fcgi.Prelude.{ℕ, ◌≡◌, refl, false, List, [], ◌∷◌, ◌++◌, none, map, take, drop, arith}
use fcgi.Outcome.{ok, terminated}
use fcgi.Net.Descriptor.{Io, arrives}
use fcgi.Istream.{goodbit}
use fcgi.Basics.{responder}
use fcgi.Basics.Header.{header_fields}
use fcgi.Basics.Codec.{header_fields-Says}
use fcgi.NamesValues.Yields.{Yields}
use fcgi.NamesValues.RoundTrip.{stored}
use fcgi.Connection.{Connection}
use fcgi.Streambuf.{St}
use fcgi.Streambuf.ProcessHeader.{sbumpc, process_header}
use fcgi.Streambuf.Reader.{underflow}
use fcgi.Streambuf.Oversized.{process_header-oversized}
use fcgi.Streambuf.Delivery.View.{View, at, pending}
use fcgi.Streambuf.Delivery.Headers.{ended}
use fcgi.Streambuf.Delivery.Frames.{Frame, frame}
use fcgi.Streambuf.Delivery.Stream.{own_stream}
use fcgi.Server.{make_istream}
use fcgi.Server.Sends.{Sends, params_reader, input_reader}
use fcgi.Server.Parameters.{make_istream-Sends, request-delivered}

abbrev garbage : ℕ → ℕ
garbage n = 170

abbrev pairs : List (List ℕ × List ℕ)
pairs = (65 ∷ [], 66 ∷ 67 ∷ []) ∷ []

-- The pair's encoding in two records, the second with padding.
abbrev params_frames : List Frame
params_frames = frame 1 (2 ∷ []) [] ∷ frame 65 (66 ∷ 67 ∷ []) (0 ∷ 0 ∷ 0 ∷ 0 ∷ 0 ∷ []) ∷ []

abbrev input_frames : List Frame
input_frames = frame 104 (105 ∷ []) (0 ∷ []) ∷ []

abbrev waiting : Io → Connection
waiting io = record {
  is_keep_connection = false;
  role = responder;
  request_id = 258;
  application_status = 0;
  io = io;
  parameters = [];
}

abbrev silent : Io
silent = record { arrivals = []; sends = []; sent = [] }

abbrev input_wire : List ℕ
input_wire = own_stream (input_reader (waiting silent) []) input_frames [] []

abbrev wire : List ℕ
wire = own_stream (params_reader (waiting silent)) params_frames [] input_wire

abbrev client : Connection
client = waiting (record {
  arrivals = arrives (take 13 wire) ∷ arrives (drop 13 wire) ∷ [];
  sends = [];
  sent = [];
})

client-Sends : Sends client pairs params_frames [] input_wire
client-Sends = record {
  named = omega arith;
  short = omega arith;
  live = (omega arith, (omega arith, tt));
  wire = refl;
  are_frames = (omega arith, omega arith, (omega arith, omega arith, tt));
  are_pairs = refl;
  fit = (omega arith, tt);
  padding_fits = omega arith;
}

make_istream-Sends_example :
    (w : View) × (make_istream garbage 300 client
      ≡ ok goodbit (at (input_reader client (map stored pairs)) w))
    × (pending w ≡ [] ++ input_wire)
    × (w.padding ≡ 0)
make_istream-Sends_example =
    make_istream-Sends garbage client pairs params_frames [] input_wire 300 client-Sends refl
      (omega arith) (omega arith)

request-delivered_example :
    (t : St) × (u : St) × (w : View) × (make_istream garbage 300 client ≡ ok goodbit t)
    × (t.connection.parameters ≡ map stored pairs)
    × Yields (sbumpc (underflow garbage 300)) t (104 ∷ 105 ∷ []) u
    × (sbumpc (underflow garbage 300) u
        ≡ ok none (ended (input_reader client (map stored pairs)) w))
    × (pending w ≡ [])
request-delivered_example =
    request-delivered garbage client pairs params_frames input_frames [] [] 300 client-Sends refl
      (omega arith, omega arith, tt) (omega arith) (omega arith) (omega arith)

-- 16385 bytes announced to a buffer of 16384.
process_header-oversized_example :
    process_header garbage
      (underflow garbage 300)
      300
      (header_fields 4 258 16385 7)
      (params_reader client)
    ≡ terminated
process_header-oversized_example =
    process_header-oversized garbage (underflow garbage 300) 300 (header_fields 4 258 16385 7)
      (params_reader client) 4 258 16385 7
      (header_fields-Says 4 258 16385 7 (omega arith) (omega arith) (omega arith) (omega arith))
      (omega arith) (omega arith) (λ e. refl) (omega arith)
