-- ===== src/Server/Closing.antt =====
-- close() of src/fcgi/server_connection_stacked.cpp, after any writing to the streams.
use fcgi.Prelude.{
  ℕ, ◌≤◌, ◌<◌, ◌^◌, ◌≡◌, refl, ap, ◌∙◌, Bool, true, false, ◌||◌, List, ◌++◌, length, arith,
  append_assoc, if◌then◌else◌,
}
use fcgi.Outcome.{Outcome, ok, ◌>>=◌, ◌>>◌}
use fcgi.Istream.{Flags}
use fcgi.Connection.{Connection}
use fcgi.Streambuf.{Streambuf, St, set_buf, is_invariant_ok, is_reader}
use fcgi.Streambuf.Setup.{IsReading}
use fcgi.Streambuf.Writer.{close}
use fcgi.Streambuf.Delivery.Frames.{Frame, contents, AreFrames, contents-append, AreFrames-append}
use fcgi.Streambuf.Sending.{IsWriter}
use fcgi.Streambuf.Sending.Puts.{some_sent, some_sent-append, own_frames}
use fcgi.Streambuf.Sending.Ending.{
  err_ending, IsOutEnding, send_end_records-out, send_end_records-err,
}
use fcgi.Streambuf.Sending.Closing.{Lets, closed_writer, close_ends}
use fcgi.Streambuf.Sending.Writes.{Write}
use fcgi.Server.{ServerConnection, close_connection, connection_is_closed}
use fcgi.Server.Session.{
  Side, to_out, to_err, side_writer, side_writer-IsWriter, Area, new_area, serving, do_writes,
  chars, wire_bytes, pick,
}
use fcgi.Server.Session.Wire.{serves}

-- An open reader whose unread content and padding fit.
pub record IsClosable (s : St) : Type 0 where
  pub is_reading : IsReading s
  pub content_fits : s.buf.unread_content_length ≤ s.buf.buffer_size
  pub padding_fits : s.buf.unread_padding_length ≤ 255

abbrev pub shut : Streambuf → Streambuf
shut b = record b { has_get = false; has_put = false }

shut-is_invariant_ok : (s : St) → IsClosable s → is_invariant_ok (set_buf s (shut s.buf)) ≡ true
unfolding is_invariant_ok
shut-is_invariant_ok s h = let r = h.is_reading in ground arith

pub close-reader :
    (s : St) (inbuf : Streambuf) → IsClosable s → close inbuf s ≡ ok tt (set_buf s (shut s.buf))
unfolding close
close-reader s inbuf h = rw (
  h.is_reading.is_reading,
  h.is_reading.get_is_set,
  ◌>>=◌,
  ◌>>◌,
  if◌then◌else◌,
  h.is_reading.is_reading,
  shut-is_invariant_ok s h,
)

-- A closed connection, which has sent `sent`.
abbrev pub over : Connection → Streambuf → Flags → Bool → Bool → List ℕ → ServerConnection
over c i flags o e sent = record {
  connection = (closed_writer (side_writer c to_out) o sent).connection;
  in_streambuf = shut i;
  in_flags = flags;
  out_streambuf = (closed_writer (side_writer c to_out) o sent).buf;
  err_streambuf = (closed_writer (side_writer c to_err) e sent).buf;
}

over-is_closed :
    (c : Connection) (i : Streambuf) (flags : Flags) (o e : Bool) (sent : List ℕ)
    → is_reader i ≡ true
    → connection_is_closed (over c i flags o e sent) ≡ true
over-is_closed c i flags o e sent h = rw h

module _ (c : Connection) (i : Streambuf) (flags : Flags) (short : c.request_id < 65536)
    (status : c.application_status < 2 ^ 32) (lets : (side : Side) → Lets (side_writer c side) i)
    (closable : (c' : Connection)
      → c'.role ≡ c.role
      → IsClosable (record { connection = c'; buf = i })) where
  abbrev out_writes : IsWriter (side_writer c to_out)
  out_writes = side_writer-IsWriter c to_out short status

  -- The bytes that closing sends: what is left of the error stream and its end, then the output stream's.
  abbrev Closings : Area → Area → List ℕ → Type 0
  Closings o e sent =
      (fs : List Frame) × (gs : List Frame) × (ending : List ℕ) × (close_connection
          (serving c i flags o e sent)
        ≡ ok tt (
            over c i flags (o.once || some_sent gs) (e.once || some_sent fs) (
              (sent
                ++ (own_frames (side_writer c to_err) fs
                    ++ err_ending (side_writer c to_err) (e.once || some_sent fs)))
              ++ (own_frames (side_writer c to_out) gs ++ ending))))
      × (contents fs ≡ e.area)
      × (contents gs ≡ o.area)
      × AreFrames 65528 fs
      × AreFrames 65528 gs
      × IsOutEnding (side_writer c to_out) out_writes ending

  closings :
      (o e : Area) (sent : List ℕ)
      → length o.area ≤ 65520
      → length e.area ≤ 65520
      → Closings o e sent
  unfolding close_connection close
  closings o e sent l k =
      let se = side_writer c to_err in
      let so = side_writer c to_out in
      let we = side_writer-IsWriter c to_err short status in
      let (fs, end, z, p, a, q) =
        close_ends se we (λ once ending. ending ≡ err_ending se once)
          (λ once put sent.
            (err_ending se once, send_end_records-err se we once put sent refl, refl))
          e.once e.area sent i (lets to_err) k in
      let sent₁ = sent ++ (own_frames se fs ++ end) in
      let (gs, ending, z', p', a', q') =
        close_ends so out_writes (λ _ ending. IsOutEnding so out_writes ending)
          (λ once put sent. send_end_records-out so out_writes once put sent refl) o.once o.area
          sent₁ i (lets to_out) l in
      let sent₂ = sent₁ ++ (own_frames so gs ++ ending) in
      let done =
        close-reader (record { connection = (closed_writer so true sent₂).connection; buf = i }) i
          (closable _ refl) in
      (
        fs,
        gs,
        ending,
        rw (z, ◌>>=◌, ◌>>◌, z', done)
            (λ j. ok tt (
              over c i flags (o.once || some_sent gs) (e.once || some_sent fs)
                ((sent ++ (own_frames se fs ++ q j)) ++ (own_frames so gs ++ ending)))),
        p,
        p',
        a,
        a',
        q',
      )

  -- What a peer gets of a session: the records of both streams in the order of sending, `ts`, then those that closing
  -- sends of the error stream, `fs`, and its end, and of the output stream, `gs`, and its end.
  abbrev pub wire : List (Side × List Frame) → List Frame → List Frame → List ℕ → List ℕ
  wire ts fs gs ending =
      wire_bytes c ts
      ++ ((own_frames (side_writer c to_err) fs
            ++ err_ending (side_writer c to_err) (some_sent (pick to_err ts ++ fs)))
          ++ (own_frames (side_writer c to_out) gs ++ ending))

  -- What a peer gets of a session that has sent `ts`: the contents of both streams, of the error stream first.
  abbrev pub Delivered :
      List ℕ
      → List ℕ
      → List (Side × List Frame)
      → List ℕ
      → Outcome ServerConnection (Unit {0})
      → Type 0
  Delivered errs outs ts sent m =
      (fs : List Frame) × (gs : List Frame) × (ending : List ℕ) × (k : ServerConnection) × (m
        ≡ ok tt k)
      × (connection_is_closed k ≡ true)
      × (k.connection.io.sent ≡ sent ++ wire ts fs gs ending)
      × (contents (pick to_err ts ++ fs) ≡ errs)
      × (contents (pick to_out ts ++ gs) ≡ outs)
      × (AreFrames 65528 (pick to_err ts ++ fs) × AreFrames 65528 (pick to_out ts ++ gs))
      × IsOutEnding (side_writer c to_out) out_writes ending

  -- To close a connection that has sent `ts`, with the rest in its put areas.
  pub close-Delivered :
      (ts : List (Side × List Frame)) (o e : Area) (sent errs outs : List ℕ)
      → contents (pick to_err ts) ++ e.area ≡ errs
      → contents (pick to_out ts) ++ o.area ≡ outs
      → AreFrames 65528 (pick to_err ts)
      → AreFrames 65528 (pick to_out ts)
      → e.once ≡ some_sent (pick to_err ts)
      → length o.area ≤ 65520
      → length e.area ≤ 65520
      → Delivered errs outs ts sent
          (close_connection (serving c i flags o e (sent ++ wire_bytes c ts)))
  close-Delivered ts o e sent errs outs err_all out_all err_fit out_fit used l m =
      let (fs, gs, ending, z, p, p', a, a', q) = closings o e (sent ++ wire_bytes c ts) l m in
      let any : e.once || some_sent fs ≡ some_sent (pick to_err ts ++ fs) =
        ap (λ b. b || some_sent fs) used ∙ some_sent-append (pick to_err ts) fs in
      let last = own_frames (side_writer c to_out) gs ++ ending in
      let rest = own_frames (side_writer c to_err) fs in
      let ended : List ℕ = rest ++ err_ending (side_writer c to_err) (e.once || some_sent fs) in
      (
        fs,
        gs,
        ending,
        over c i flags (o.once || some_sent gs) (e.once || some_sent fs)
            (((sent ++ wire_bytes c ts) ++ ended) ++ last),
        z,
        over-is_closed c i flags (o.once || some_sent gs) (e.once || some_sent fs)
            (((sent ++ wire_bytes c ts) ++ ended) ++ last) (lets to_out).reader,
        append_assoc (sent ++ wire_bytes c ts) ended last
            ∙ append_assoc sent (wire_bytes c ts) (ended ++ last)
            ∙ (λ j.
                sent
                ++ (wire_bytes c ts
                    ++ ((rest ++ err_ending (side_writer c to_err) (any j)) ++ last))),
        contents-append (pick to_err ts) fs
            ∙ ap (λ xs. contents (pick to_err ts) ++ xs) p
            ∙ err_all,
        contents-append (pick to_out ts) gs
            ∙ ap (λ xs. contents (pick to_out ts) ++ xs) p'
            ∙ out_all,
        (
          AreFrames-append 65528 (pick to_err ts) fs err_fit a,
          AreFrames-append 65528 (pick to_out ts) gs out_fit a',
        ),
        q,
      )

  -- Where ::send takes all, the id and the status fit their fields, and the input stream can be closed and lets the
  -- output be closed: after any sequence of writing characters to the output and the error stream and flushing them,
  -- in any order, closing the connection succeeds and closes its three streams. The peer gets records of both streams,
  -- the content of the error stream's being exactly what was written to it, and of the output stream's likewise, each
  -- in order and with at most as much content as a buffer; the error stream is ended before the rest of the output,
  -- and only if any of it was sent; last comes the end of the output, with the end-request record that has the status.
  pub session-delivered :
      (ops : List (Side × Write)) (sent : List ℕ)
      → (ts : List (Side × List Frame)) × (fs : List Frame) × (gs : List Frame) × (ending : List ℕ)
        × (k : ServerConnection) × ((do_writes ops >> close_connection)
              (serving c i flags new_area new_area sent)
            ≡ ok tt k)
        × (connection_is_closed k ≡ true)
        × (k.connection.io.sent ≡ sent ++ wire ts fs gs ending)
        × (contents (pick to_err ts ++ fs) ≡ chars to_err ops)
        × (contents (pick to_out ts ++ gs) ≡ chars to_out ops)
        × (AreFrames 65528 (pick to_err ts ++ fs) × AreFrames 65528 (pick to_out ts ++ gs))
        × IsOutEnding (side_writer c to_out) out_writes ending
  session-delivered ops sent =
      let (ts, o, e, y, ko, ke) =
        serves c i flags short status ops new_area new_area sent (omega arith) (omega arith) in
      let (fs, gs, ending, k, z, closed, gone, errs, outs, fit, says) =
        close-Delivered ts o e sent (chars to_err ops) (chars to_out ops) ke.chars_kept
          ko.chars_kept ke.fit ko.fit ke.any (omega (arith, ko.room)) (omega (arith, ke.room)) in
      (ts, fs, gs, ending, k, rw (y, ◌>>=◌, ◌>>◌, z), closed, gone, errs, outs, fit, says)
