-- ===== src/Tests/Destroyed.antt =====
-- Connections that are destroyed.
use fcgi.Prelude.{List, ◌++◌, length, ◌≡◌, refl, true, false, [], ◌∷◌, arith}
use fcgi.Outcome.{ok}
use fcgi.Istream.{goodbit}
use fcgi.Basics.{input, filter, responder}
use fcgi.Connection.{Connection}
use fcgi.Streambuf.{Streambuf, fresh}
use fcgi.Server.{destroy_connection}
use fcgi.Server.Session.{Side, wire_bytes, Area, new_area, serving, do_writes}
use fcgi.Server.Closing.{Delivered, IsClosable, shut}
use fcgi.Streambuf.Delivery.Frames.{Frame}
use fcgi.Streambuf.Sending.Records.{zeros}
use fcgi.Server.Destroying.{hinder, out_nuls}
use fcgi.Server.Retrying.{session-retried}
use fcgi.Server.Unread.{IsUnread, destroy-unread}
use fcgi.Tests.Sessions.{of_role, silent, stdin, lets, closable, ops}

session-retried_example :
    (ts : List (Side × List Frame)) × (o : Area) × (e : Area) × (do_writes ops
        (serving (of_role responder silent) stdin goodbit new_area new_area [])
      ≡ ok tt (
          serving
            (of_role responder silent)
            stdin
            goodbit
            o
            e
            ([] ++ wire_bytes (of_role responder silent) ts)))
    × Delivered
        (of_role responder silent)
        stdin
        goodbit
        (omega arith)
        (omega arith)
        lets
        closable
        (33 ∷ zeros (length e.area))
        (104 ∷ 105 ∷ out_nuls e.once e.area o.area)
        ts
        []
        (destroy_connection (
          hinder (
            serving
              (of_role responder silent)
              stdin
              goodbit
              o
              e
              ([] ++ wire_bytes (of_role responder silent) ts))))
session-retried_example =
    session-retried (of_role responder silent) stdin goodbit (omega arith) (omega arith) lets
      closable ops []

-- Seven bytes of a record of stdin are still to come.
abbrev midway : Streambuf
midway = record (fresh input) { buffer_size = 16384; has_get = true; unread_content_length = 7 }

midway-IsUnread : IsUnread (of_role filter silent) midway
midway-IsUnread = record { filters = refl; at_input = refl; is_open = refl; unread = refl }

midway-IsClosable :
    (c : Connection) → c.role ≡ filter → IsClosable (record { connection = c; buf = midway })
midway-IsClosable c e = record {
  is_reading = record {
    is_reading = refl;
    suits_role = ground arith;
    get_is_set = refl;
    put_is_unset = refl;
    in_buffer = omega arith;
    large = omega arith;
    small = omega arith;
    whole = refl;
  };
  content_fits = omega arith;
  padding_fits = omega arith;
}

-- Two characters of the output have not been sent.
abbrev waiting : Area
waiting = record { once = false; area = 104 ∷ 105 ∷ [] }

destroy-unread_example :
    destroy_connection (serving (of_role filter silent) midway goodbit waiting new_area [])
    ≡ ok tt (record (serving (of_role filter silent) midway goodbit waiting new_area []) {
      in_streambuf = shut midway;
    })
destroy-unread_example =
    destroy-unread (of_role filter silent) midway goodbit midway-IsUnread midway-IsClosable waiting
      new_area []
