-- ===== src/Tests/Sessions.antt =====
-- A session that writes to both streams, and a filter.
use fcgi.Prelude.{ℕ, ◌≡◌, refl, true, false, List, [], ◌∷◌, ◌++◌, none, map, arith}
use fcgi.Outcome.{ok, ◌>>◌}
use fcgi.Net.Descriptor.{Io, arrives}
use fcgi.Istream.{goodbit}
use fcgi.Basics.{input, filter_data, responder, filter}
use fcgi.NamesValues.Yields.{Yields}
use fcgi.NamesValues.RoundTrip.{stored}
use fcgi.Connection.{Connection}
use fcgi.Streambuf.{Streambuf, St, fresh}
use fcgi.Streambuf.ProcessHeader.{sbumpc}
use fcgi.Streambuf.Reader.{underflow}
use fcgi.Streambuf.Delivery.View.{View, pending}
use fcgi.Streambuf.Delivery.Headers.{ended}
use fcgi.Streambuf.Delivery.Ends.{data_reader}
use fcgi.Streambuf.Delivery.Frames.{Frame, frame, contents, AreFrames}
use fcgi.Streambuf.Delivery.Stream.{own_stream}
use fcgi.Streambuf.Sending.Ending.{IsOutEnding}
use fcgi.Streambuf.Sending.Closing.{Lets}
use fcgi.Streambuf.Sending.Writes.{Write, put, flushed}
use fcgi.Server.{ServerConnection, make_istream, close_connection, connection_is_closed}
use fcgi.Server.Sends.{Sends, params_reader, input_reader}
use fcgi.Server.Filtering.{filter_streams, filter-delivered}
use fcgi.Server.Session.{
  Side, to_out, to_err, side_writer, side_writer-IsWriter, new_area, serving, do_writes, pick,
}
use fcgi.Server.Closing.{IsClosable, wire, session-delivered}

abbrev garbage : ℕ → ℕ
garbage n = 170

abbrev pub of_role : ℕ → Io → Connection
of_role role io = record {
  is_keep_connection = false;
  role = role;
  request_id = 5;
  application_status = 1;
  io = io;
  parameters = [];
}

abbrev pub silent : Io
silent = record { arrivals = []; sends = []; sent = [] }

abbrev pub stdin : Streambuf
stdin = record (fresh input) { buffer_size = 16384; has_get = true }

pub lets : (side : Side) → Lets (side_writer (of_role responder silent) side) stdin
lets to_out = record { reader = refl; is_open = refl; past_params = refl; past_input = refl }
lets to_err = record { reader = refl; is_open = refl; past_params = refl; past_input = refl }

pub closable :
    (c : Connection) → c.role ≡ responder → IsClosable (record { connection = c; buf = stdin })
closable c e = record {
  is_reading = record {
    is_reading = refl;
    suits_role = ground arith;
    get_is_set = refl;
    put_is_unset = refl;
    in_buffer = omega arith;
    large = omega arith;
    small = omega arith;
    whole = refl;
  };
  content_fits = omega arith;
  padding_fits = omega arith;
}

abbrev pub ops : List (Side × Write)
ops = (to_out, put 104) ∷ (to_err, put 33) ∷ (to_out, flushed) ∷ (to_out, put 105) ∷ []

session-delivered_example :
    (ts : List (Side × List Frame)) × (fs : List Frame) × (gs : List Frame) × (ending : List ℕ)
    × (k : ServerConnection) × ((do_writes ops >> close_connection)
          (serving (of_role responder silent) stdin goodbit new_area new_area [])
        ≡ ok tt k)
    × (connection_is_closed k ≡ true)
    × (k.connection.io.sent
        ≡ []
          ++ wire
              (of_role responder silent)
              stdin
              goodbit
              (omega arith)
              (omega arith)
              lets
              closable
              ts
              fs
              gs
              ending)
    × (contents (pick to_err ts ++ fs) ≡ 33 ∷ [])
    × (contents (pick to_out ts ++ gs) ≡ 104 ∷ 105 ∷ [])
    × (AreFrames 65528 (pick to_err ts ++ fs) × AreFrames 65528 (pick to_out ts ++ gs))
    × IsOutEnding
        (side_writer (of_role responder silent) to_out)
        (side_writer-IsWriter (of_role responder silent) to_out (omega arith) (omega arith))
        ending
session-delivered_example =
    session-delivered (of_role responder silent) stdin goodbit (omega arith) (omega arith) lets
      closable ops []

abbrev gs : List Frame
gs = frame 104 (105 ∷ []) (0 ∷ []) ∷ []

abbrev ds : List Frame
ds = frame 1 (2 ∷ 3 ∷ []) [] ∷ frame 4 [] (0 ∷ []) ∷ []

abbrev fs : List Frame
fs = frame 1 (0 ∷ 65 ∷ []) [] ∷ []

abbrev filter_wire : List ℕ
filter_wire =
    own_stream (params_reader (of_role filter silent)) fs []
      (filter_streams (of_role filter silent) gs ds [] [])

abbrev filtering : Connection
filtering = of_role filter (record { arrivals = arrives filter_wire ∷ []; sends = []; sent = [] })

filtering-Sends : Sends filtering ((65 ∷ [], []) ∷ []) fs [] (filter_streams filtering gs ds [] [])
filtering-Sends = record {
  named = omega arith;
  short = omega arith;
  live = (omega arith, tt);
  wire = refl;
  are_frames = (omega arith, omega arith, tt);
  are_pairs = refl;
  fit = (omega arith, tt);
  padding_fits = omega arith;
}

filter-delivered_example :
    (t : St) × (u : St) × (d : St) × (e : St) × (w : View) × (make_istream garbage 300 filtering
      ≡ ok goodbit t)
    × (t.connection.parameters ≡ map stored ((65 ∷ [], []) ∷ []))
    × Yields (sbumpc (underflow garbage 300)) t (104 ∷ 105 ∷ []) u
    × (sbumpc (underflow garbage 300) u ≡ ok none d)
    × (d.buf.type ≡ filter_data)
    × Yields (sbumpc (underflow garbage 300)) d (1 ∷ 2 ∷ 3 ∷ 4 ∷ []) e
    × (sbumpc (underflow garbage 300) e
        ≡ ok none
            (ended (data_reader (input_reader filtering (map stored ((65 ∷ [], []) ∷ [])))) w))
    × (pending w ≡ [] ++ [])
filter-delivered_example =
    filter-delivered garbage filtering ((65 ∷ [], []) ∷ []) fs gs ds [] [] 300 filtering-Sends refl
      (omega arith, omega arith, tt) (omega arith, omega arith, (omega arith, omega arith, tt))
      (omega arith) (omega arith) (omega arith)
