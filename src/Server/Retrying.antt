-- ===== src/Server/Retrying.antt =====
-- A session whose connection is destroyed while a ::send fails.
use mathlib.Core.Path.{subst}
use fcgi.Prelude.{ℕ, ◌<◌, ◌^◌, ◌≡◌, sym, ap, ◌∙◌, append_assoc, List, ◌++◌, length, arith}
use fcgi.Outcome.{ok}
use fcgi.Istream.{Flags}
use fcgi.Connection.{Connection}
use fcgi.Streambuf.{Streambuf}
use fcgi.Streambuf.Delivery.Frames.{Frame, contents}
use fcgi.Streambuf.Sending.Records.{zeros, padded}
use fcgi.Streambuf.Sending.Closing.{Lets}
use fcgi.Streambuf.Sending.Writes.{Write}
use fcgi.Server.{destroy_connection}
use fcgi.Server.Session.{
  Side, to_out, to_err, side_writer, Area, new_area, serving, do_writes, chars, pick, wire_bytes,
}
use fcgi.Server.Session.Wire.{serves}
use fcgi.Server.Closing.{IsClosable, Delivered, close-Delivered}
use fcgi.Server.Destroying.{
  hinder, out_area, out_nuls, out_area-nuls, padded-room, out_area-room, hindered-ends,
}

module _ (c : Connection) (i : Streambuf) (flags : Flags) (short : c.request_id < 65536)
    (status : c.application_status < 2 ^ 32) (lets : (side : Side) → Lets (side_writer c side) i)
    (closable : (c' : Connection)
      → c'.role ≡ c.role
      → IsClosable (record { connection = c'; buf = i })) where
  -- Where the id and the status fit their fields, and the input stream can be closed and lets the output be closed:
  -- after any sequence of writing characters to the output and the error stream and flushing them, with ::send taking
  -- all, in any order, if the next ::send fails and all later ones take all, the destructor of the connection, which
  -- catches the exception of close() and then destroys the streams, leaves the three streams closed, and the peer gets
  -- all that was written to both streams, each in order, the end of the error stream if any of it was sent, and the
  -- end of the output with the end-request record. But behind the characters of the stream whose ::send failed, which
  -- is the error stream if it has anything to send, it gets as content the NULs that padded the failed record.
  pub session-retried :
      (ops : List (Side × Write)) (sent : List ℕ)
      → (ts : List (Side × List Frame)) × (o : Area) × (e : Area) × (do_writes ops
            (serving c i flags new_area new_area sent)
          ≡ ok tt (serving c i flags o e (sent ++ wire_bytes c ts)))
        × Delivered c i flags short status lets closable
            (chars to_err ops ++ zeros (length e.area))
            (chars to_out ops ++ out_nuls e.once e.area o.area)
            ts
            sent
            (destroy_connection (hinder (serving c i flags o e (sent ++ wire_bytes c ts))))
  session-retried ops sent =
      let (ts, o, e, y, ko, ke) =
        serves c i flags short status ops new_area new_area sent (omega arith) (omega arith) in
      let o' : Area = record o { area = out_area e.once e.area o.area } in
      let e' : Area = record e { area = padded e.area } in
      (
        ts,
        o,
        e,
        y,
        subst
            (Delivered c i flags short status lets closable
              (chars to_err ops ++ zeros (length e.area))
              (chars to_out ops ++ out_nuls e.once e.area o.area) ts sent)
            (sym (
              hindered-ends c i flags short status lets closable o e.once e.area
                (sent ++ wire_bytes c ts) ko.room ke.room))
            (close-Delivered c i flags short status lets closable ts o' e' sent
              (chars to_err ops ++ zeros (length e.area))
              (chars to_out ops ++ out_nuls e.once e.area o.area)
              (sym (append_assoc (contents (pick to_err ts)) e.area (zeros (length e.area)))
                ∙ ap (λ xs. xs ++ zeros (length e.area)) ke.chars_kept)
              (out_area-nuls e.once e.area o.area (contents (pick to_out ts)) (chars to_out ops)
                ko.chars_kept)
              ke.fit ko.fit ke.any
              (out_area-room c i flags short status lets closable e.once e.area o.area ko.room)
              (padded-room c i flags short status lets closable e.area ke.room)),
      )
