-- ===== src/Server/Session.antt =====
-- What an application writes to the output and the error stream of one connection, in any order.
pub mod Wire
use fcgi.Prelude.{
  ℕ, ◌≤◌, ◌<◌, ◌^◌, ◌≡◌, refl, sym, ap, ◌∙◌, Bool, true, false, ◌||◌, List, [], ◌∷◌, ◌++◌, length,
  arith, append-nil, append_assoc, if◌then◌else◌,
}
use fcgi.Outcome.{M, ok, pure, ◌>>=◌, ◌>>◌}
use fcgi.Istream.{Flags}
use fcgi.Basics.{StreamType, out, err, stream_code}
use fcgi.Connection.{Connection}
use fcgi.Streambuf.{Streambuf, St, fresh, put_capacity}
use fcgi.Streambuf.Delivery.Frames.{
  Frame, frames_bytes, contents, AreFrames, frames_bytes-append, contents-append, AreFrames-append,
}
use fcgi.Streambuf.Sending.{writer, IsWriter}
use fcgi.Streambuf.Sending.Puts.{some_sent, some_sent-append, own_frames}
use fcgi.Streambuf.Sending.Writes.{Write, do_write, written, Writes, writes}
use fcgi.Server.{ServerConnection, on_err, on_out, out_buffer_size, err_buffer_size}

pub data Side : Type 0 where
  to_out to_err : Side

abbrev pub side_type : Side → StreamType
side_type to_out = out
side_type to_err = err

-- The writers of a connection.
abbrev pub side_writer : Connection → Side → St
side_writer c to_out = record {
  connection = c;
  buf = record (fresh out) { buffer_size = out_buffer_size; has_put = true };
}
side_writer c to_err = record {
  connection = c;
  buf = record (fresh err) { buffer_size = err_buffer_size; has_put = true };
}

pub side_writer-IsWriter :
    (c : Connection) (side : Side)
    → c.request_id < 65536
    → c.application_status < 2 ^ 32
    → IsWriter (side_writer c side)
side_writer-IsWriter c to_out i a = record {
  is_writing = refl;
  large = omega arith;
  small = omega arith;
  whole = refl;
  short = i;
  status = a;
}
side_writer-IsWriter c to_err i a = record {
  is_writing = refl;
  large = omega arith;
  small = omega arith;
  whole = refl;
  short = i;
  status = a;
}

-- Whether a writer has sent a record, and its put area.
pub record Area : Type 0 where
  pub once : Bool
  pub area : List ℕ

abbrev pub new_area : Area
new_area = record { once = false; area = [] }

-- A connection in use, which has sent `sent`.
abbrev pub serving : Connection → Streambuf → Flags → Area → Area → List ℕ → ServerConnection
serving c i flags o e sent = record {
  connection = (writer (side_writer c to_out) o.once false o.area sent).connection;
  in_streambuf = i;
  in_flags = flags;
  out_streambuf = (writer (side_writer c to_out) o.once false o.area sent).buf;
  err_streambuf = (writer (side_writer c to_err) e.once false e.area sent).buf;
}

abbrev pub do_side : Side → M St (Unit {0}) → M ServerConnection (Unit {0})
do_side to_out m = on_out m
do_side to_err m = on_err m

-- The operations of an application, one after another.
abbrev pub do_writes : List (Side × Write) → M ServerConnection (Unit {0})
do_writes [] = pure tt
do_writes ((side, op) ∷ ops) = do_side side (do_write op) >> do_writes ops

abbrev pub same_side : Side → Side → Bool
same_side to_out to_out = true
same_side to_out to_err = false
same_side to_err to_out = false
same_side to_err to_err = true

-- The characters that the operations on one side write.
abbrev pub chars : Side → List (Side × Write) → List ℕ
chars side [] = []
chars side ((side', op) ∷ ops) = (if same_side side side' then written op else []) ++ chars side ops

-- The records of both streams as they follow one another on the wire.
abbrev pub wire_bytes : Connection → List (Side × List Frame) → List ℕ
wire_bytes c [] = []
wire_bytes c ((side, fs) ∷ rest) = own_frames (side_writer c side) fs ++ wire_bytes c rest

abbrev pub pick : Side → List (Side × List Frame) → List Frame
pick side [] = []
pick side ((side', fs) ∷ rest) = (if same_side side side' then fs else []) ++ pick side rest
