-- ===== src/Tests/Accepted.antt =====
-- A request that is served, and one that is refused.
use fcgi.Prelude.{ℕ, ◌≡◌, refl, true, false, List, [], ◌∷◌, ◌++◌, map, arith}
use fcgi.Outcome.{◌>>◌, ok, threw, protocol_violation}
use fcgi.Net.Descriptor.{Io, arrives}
use fcgi.Istream.{goodbit}
use fcgi.Basics.{responder, begin_request, cant_mpx_conn, status_code}
use fcgi.Basics.Header.{Header, header_bytes, header_fields}
use fcgi.Basics.Codec.{header_fields-Says, IsEndRequest}
use fcgi.NamesValues.RoundTrip.{stored}
use fcgi.Streambuf.Delivery.Frames.{Frame, frame}
use fcgi.Streambuf.Delivery.Stream.{own_stream}
use fcgi.Streambuf.Sending.Writes.{Write, put, flushed}
use fcgi.Server.{ServerConnection, accept, close_connection, connection_is_closed}
use fcgi.Server.Session.{Side, to_out, to_err, do_writes}
use fcgi.Server.Serving.{Answers, accept-answers}
use fcgi.Server.Sends.{Sends, params_reader}
use fcgi.Server.Accept.{behind, begun, begin_body, accept-serves, accept-refuses}

abbrev garbage : ℕ → ℕ
garbage n = 170

abbrev pairs : List (List ℕ × List ℕ)
pairs = (65 ∷ [], []) ∷ []

abbrev params_frames : List Frame
params_frames = frame 1 (0 ∷ 65 ∷ []) [] ∷ []

abbrev opening : Header
opening = header_fields begin_request 1 8 0

abbrev silent : Io
silent = record { arrivals = []; sends = []; sent = [] }

abbrev caller : Io
caller = record {
  arrivals =
      arrives (own_stream (params_reader (begun responder 1 1 silent)) params_frames [] []) ∷ [];
  sends = [];
  sent = [];
}

caller-Sends : Sends (begun responder 1 1 caller) pairs params_frames [] []
caller-Sends = record {
  named = omega arith;
  short = omega arith;
  live = (omega arith, tt);
  wire = refl;
  are_frames = (omega arith, omega arith, tt);
  are_pairs = refl;
  fit = (omega arith, tt);
  padding_fits = omega arith;
}

accept-serves_example :
    (k : ServerConnection) × (accept garbage 300
        (behind (header_bytes opening ++ begin_body responder 1) caller)
      ≡ ok k k.connection.io)
    × (k.connection.parameters ≡ map stored pairs)
    × ((k.connection.role ≡ responder) × (k.connection.request_id ≡ 1))
    × (k.connection.is_keep_connection ≡ true)
    × (k.in_flags ≡ goodbit)
    × (connection_is_closed k ≡ false)
accept-serves_example =
    accept-serves garbage opening 1 responder 1 caller pairs params_frames [] [] 300
      (header_fields-Says begin_request 1 8 0 (omega arith) (omega arith) (omega arith)
        (omega arith))
      refl caller-Sends (omega arith) (omega arith)

abbrev ops : List (Side × Write)
ops = (to_out, put 104) ∷ (to_err, put 33) ∷ (to_out, flushed) ∷ (to_out, put 105) ∷ []

accept-answers_example :
    (j : ServerConnection) × (k : ServerConnection) × (accept garbage 300
        (behind (header_bytes opening ++ begin_body responder 1) caller)
      ≡ ok j j.connection.io)
    × (j.connection.parameters ≡ map stored pairs)
    × ((j.connection.request_id ≡ 1) × (j.connection.application_status ≡ 0))
    × ((do_writes ops >> close_connection) j ≡ ok tt k)
    × (connection_is_closed k ≡ true)
    × Answers j.connection k ops []
accept-answers_example =
    accept-answers garbage opening 1 responder 1 caller pairs params_frames [] [] 300 ops
      (header_fields-Says begin_request 1 8 0 (omega arith) (omega arith) (omega arith)
        (omega arith))
      refl refl caller-Sends (omega arith) (omega arith)

-- A record of stdin that no request was begun for.
accept-refuses_example :
    (bytes : List ℕ) × (accept garbage 300
        (behind (header_bytes (header_fields 5 1 2 0) ++ 104 ∷ 105 ∷ []) silent)
      ≡ threw protocol_violation
          (record (behind (104 ∷ 105 ∷ []) silent) { sends = []; sent = [] ++ bytes }))
    × IsEndRequest 1 0 (status_code cant_mpx_conn) bytes
accept-refuses_example =
    accept-refuses garbage (header_fields 5 1 2 0) (104 ∷ 105 ∷ []) silent 300 refl refl
      (omega arith) (omega arith) refl
