-- ===== src/Server/Serving.antt =====
-- A request from the first byte that arrives to the last byte that is sent.
use fcgi.Prelude.{
  ℕ, ◌≤◌, ◌<◌, ◌≡◌, refl, ap, ◌∙◌, true, ◌||◌, List, [], ◌++◌, map, length, arith, ◌==◌,
}
use fcgi.Outcome.{ok, ◌>>◌}
use fcgi.Istream.{goodbit}
use fcgi.Net.Descriptor.{Io, Send}
use fcgi.Basics.{out, stream_code, status_code, request_complete, responder, filter, begin_request}
use fcgi.Basics.Header.{Header, header_bytes}
use fcgi.Basics.Codec.{Says, IsEndRequest}
use fcgi.NamesValues.{NameValue}
use fcgi.NamesValues.RoundTrip.{stored}
use fcgi.Connection.{Connection}
use fcgi.Streambuf.{Streambuf, St}
use fcgi.Streambuf.Delivery.View.{View, at, IsOpen, at-IsReading}
use fcgi.Streambuf.Delivery.Frames.{Frame, contents, AreFrames, header_for}
use fcgi.Streambuf.Delivery.Records.{enough}
use fcgi.Streambuf.Sending.Closing.{Lets}
use fcgi.Streambuf.Sending.Ending.{err_ending}
use fcgi.Streambuf.Sending.Puts.{some_sent, own_frames}
use fcgi.Streambuf.Sending.Writes.{Write}
use fcgi.Server.{ServerConnection, accept, close_connection, connection_is_closed}
use fcgi.Server.Accept.{behind, begun, begin_body, served, accept-served}
use fcgi.Server.Closing.{IsClosable, session-delivered}
use fcgi.Server.Sends.{Sends, input_reader, input_reader-IsReader}
use fcgi.Server.Session.{
  Side, to_out, to_err, side_writer, new_area, serving, do_writes, chars, pick, wire_bytes,
}

module _ (c : Connection) (pairs : List NameValue)
    (suits : (c.role == responder) || (c.role == filter) ≡ true) (w : View)
    (o : IsOpen (input_reader c pairs) w) (done : w.content ≡ 0) (skipped : w.padding ≡ 0) where
  abbrev stdin : Streambuf
  stdin = (at (input_reader c pairs) w).buf

  stdin-Lets : (d : Connection) → d.role ≡ c.role → (side : Side) → Lets (side_writer d side) stdin
  stdin-Lets d e to_out = record {
    reader = refl;
    is_open = refl;
    past_params = ground arith;
    past_input = ground arith;
  }
  stdin-Lets d e to_err = record {
    reader = refl;
    is_open = refl;
    past_params = ground arith;
    past_input = ground arith;
  }

  stdin-IsClosable :
      (d : Connection) → d.role ≡ c.role → IsClosable (record { connection = d; buf = stdin })
  stdin-IsClosable d e =
      let r = at-IsReading (input_reader c pairs) w (input_reader-IsReader c pairs suits) o in
      record {
        is_reading = record {
          is_reading = refl;
          suits_role = ground arith;
          get_is_set = refl;
          put_is_unset = refl;
          in_buffer = r.in_buffer;
          large = omega arith;
          small = omega arith;
          whole = refl;
        };
        content_fits = omega arith;
        padding_fits = omega arith;
      }

-- What a connection has sent besides `sent`: the records of both streams as they were sent, what was left of the error
-- stream and its end, and what was left of the output, its end and that of the request.
abbrev pub Answers : Connection → ServerConnection → List (Side × Write) → List ℕ → Type 0
Answers c k ops sent =
    (ts : List (Side × List Frame)) × (fs : List Frame) × (gs : List Frame) × (closing : List ℕ)
    × (k.connection.io.sent
        ≡ sent
          ++ (wire_bytes c ts
              ++ ((own_frames (side_writer c to_err) fs
                    ++ err_ending (side_writer c to_err) (some_sent (pick to_err ts ++ fs)))
                  ++ (own_frames (side_writer c to_out) gs
                      ++ (header_for (stream_code out) c.request_id 0 0 ++ closing)))))
    × (contents (pick to_err ts ++ fs) ≡ chars to_err ops)
    × (contents (pick to_out ts ++ gs) ≡ chars to_out ops)
    × (AreFrames 65528 (pick to_err ts ++ fs) × AreFrames 65528 (pick to_out ts ++ gs))
    × IsEndRequest c.request_id c.application_status (status_code request_complete) closing

-- A connection that was just made is one in use that has sent nothing, where ::send takes all.
served-serving :
    (i : St)
    → i.connection.io.sends ≡ []
    → served i ≡ serving i.connection i.buf goodbit new_area new_area i.connection.io.sent
served-serving i e =
    ap
      (λ (xs : List Send). record (served i) {
        connection = record i.connection { io = record i.connection.io { sends = xs } };
      })
      e

-- A client whose first arrival is a begin-request record, the whole of it, without padding and nothing else, for a
-- responder or a filter and an id from 1 to 65535, and behind which come, in arrivals none of which is empty or fails,
-- records of the params stream of at most 16384 bytes of content each, which together encode pairs whose sizes fit an
-- int, and the record that ends the stream, on a descriptor whose ::send takes all: with the fuel `enough`, and more
-- than there are pairs, accept() returns a connection of this request with these parameters, and after any sequence of
-- writing characters to its output and its error stream and flushing them, in any order, closing it succeeds and closes
-- its three streams; the client gets records whose content is exactly what was written to each stream, in order, the
-- end of the error stream if any of it was sent, and last the end of the output and an end-request record for this
-- request with the status 0.
pub accept-answers :
    (garbage : ℕ → ℕ) (h : Header) (id asked flags : ℕ) (io : Io) (ps : List (List ℕ × List ℕ))
    (fs : List Frame) (pad tail : List ℕ) (fuel : ℕ) (ops : List (Side × Write))
    → Says h begin_request id 8 0
    → (asked == responder) || (asked == filter) ≡ true
    → io.sends ≡ []
    → Sends (begun asked id flags io) ps fs pad tail
    → enough ≤ fuel
    → length ps < fuel
    → (j : ServerConnection) × (k : ServerConnection) × (accept garbage fuel
          (behind (header_bytes h ++ begin_body asked flags) io)
        ≡ ok j j.connection.io)
      × (j.connection.parameters ≡ map stored ps)
      × ((j.connection.request_id ≡ id) × (j.connection.application_status ≡ 0))
      × ((do_writes ops >> close_connection) j ≡ ok tt k)
      × (connection_is_closed k ≡ true)
      × Answers j.connection k ops io.sent
accept-answers garbage h id asked flags io ps fs pad tail fuel ops y r all s f l =
    let c = begun asked id flags io in
    let (w, z, o, no_content, no_padding) =
      accept-served garbage h id asked flags io ps fs pad tail fuel y r s f l in
    let i = at (input_reader c (map stored ps)) w in
    let (ts, es, gs, ending, k, runs, closed, sent, errs, outs, fit, (closing, split, says)) =
      session-delivered i.connection i.buf goodbit s.short (omega arith)
        (stdin-Lets c (map stored ps) r w o no_content no_padding i.connection refl)
        (λ d e. stdin-IsClosable c (map stored ps) r w o no_content no_padding d e) ops io.sent in
    (
      served i,
      k,
      z,
      refl,
      (refl, refl),
      ap (do_writes ops >> close_connection) (served-serving i all) ∙ runs,
      closed,
      (
        ts,
        es,
        gs,
        closing,
        sent
            ∙ ap
                (λ xs.
                  io.sent
                  ++ (wire_bytes i.connection ts
                      ++ ((own_frames (side_writer i.connection to_err) es
                            ++ err_ending (side_writer i.connection to_err)
                                (some_sent (pick to_err ts ++ es)))
                          ++ (own_frames (side_writer i.connection to_out) gs ++ xs))))
                split,
        errs,
        outs,
        fit,
        says,
      ),
    )
