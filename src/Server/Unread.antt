-- ===== src/Server/Unread.antt =====
-- The destructor of src/fcgi/server_connection_stacked.cpp for a filter that has not read all of its stdin.
use fcgi.Prelude.{ℕ, ◌≡◌, refl, Bool, true, false, List, ◌==◌}
use fcgi.Outcome.{ok, threw, ◌>>=◌, ◌>>◌, filter_stdin_unread}
use fcgi.Istream.{Flags}
use fcgi.Basics.{input, filter}
use fcgi.Connection.{Connection}
use fcgi.Streambuf.{Streambuf}
use fcgi.Streambuf.Writer.{end_writing, close, destroy_streambuf}
use fcgi.Streambuf.Sending.{writer}
use fcgi.Server.{close_connection, destroy_connection}
use fcgi.Server.Session.{Side, to_out, to_err, side_writer, Area, serving}
use fcgi.Server.Closing.{IsClosable, shut, close-reader}

-- The input stream of a filter that has not been read to its end, open and with unread content.
pub record IsUnread (c : Connection) (i : Streambuf) : Type 0 where
  pub filters : c.role ≡ filter
  pub at_input : i.type ≡ input
  pub is_open : i.has_get ≡ true
  pub unread : (i.unread_content_length == 0) ≡ false

module _ (c : Connection) (i : Streambuf) (flags : Flags) (h : IsUnread c i)
    (closable : (c' : Connection)
      → c'.role ≡ c.role
      → IsClosable (record { connection = c'; buf = i })) where
  refuses :
      (side : Side) (once : Bool) (put sent : List ℕ)
      → close i (writer (side_writer c side) once false put sent)
        ≡ threw filter_stdin_unread (writer (side_writer c side) once false put sent)
  unfolding close end_writing
  refuses to_out once put sent =
      rw
        (h.at_input, h.is_open, h.filters, ◌>>=◌, ◌>>◌, h.at_input, h.filters, h.unread, h.at_input)
  refuses to_err once put sent =
      rw
        (h.at_input, h.is_open, h.filters, ◌>>=◌, ◌>>◌, h.at_input, h.filters, h.unread, h.at_input)

  -- A filter's connection whose stdin has unread content and can itself be closed, whatever is in the put areas of its output and error stream:
  -- the destructor sends nothing, neither what is in the put areas nor the end-request record, and of the streams it
  -- closes the input stream alone.
  pub destroy-unread :
      (o e : Area) (sent : List ℕ)
      → destroy_connection (serving c i flags o e sent)
        ≡ ok tt (record (serving c i flags o e sent) { in_streambuf = shut i })
  unfolding destroy_connection close_connection destroy_streambuf close
  destroy-unread o e sent = rw (
    refuses to_err e.once e.area sent,
    ◌>>=◌,
    ◌>>◌,
    refuses to_err e.once e.area sent,
    refuses to_out o.once o.area sent,
    close-reader
        (record {
          connection = (writer (side_writer c to_out) o.once false o.area sent).connection;
          buf = i;
        })
        i (closable _ refl),
  )
