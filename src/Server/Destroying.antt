-- ===== src/Server/Destroying.antt =====
-- The destructors of src/fcgi/server_connection_stacked.cpp and src/fcgi/streambuf.cpp.
use fcgi.Prelude.{
  ℕ, ◌≤◌, ◌<◌, ◌^◌, ◌≡◌, refl, sym, ap, ◌∙◌, append_assoc, append-nil, length-append,
  length-replicate, Bool, true, false, List, [], ◌∷◌, ◌++◌, length, arith,
}
use fcgi.Outcome.{ok, ◌>>=◌, ◌>>◌}
use fcgi.Istream.{Flags}
use fcgi.Net.Descriptor.{send_fails}
use fcgi.Connection.{Connection}
use fcgi.Streambuf.{Streambuf, set_buf}
use fcgi.Streambuf.Writer.{close, destroy_streambuf}
use fcgi.Math.Alignment.Laws.{pad}
use fcgi.Streambuf.Sending.{writer}
use fcgi.Streambuf.Sending.Records.{zeros, padded, record_of-fits}
use fcgi.Streambuf.Sending.Ending.{
  err_ending, IsOutEnding, send_end_records-out, send_end_records-err,
}
use fcgi.Streambuf.Sending.Closing.{Lets, closed_writer, close_ends}
use fcgi.Streambuf.Sending.Retrying.{
  Fails, close-Fails, close-out-Fails, close-err-Fails, close-again, close-err_silent,
}
use fcgi.Server.{ServerConnection, close_connection, destroy_connection}
use fcgi.Server.Session.{
  Side, to_out, to_err, side_writer, side_writer-IsWriter, Area, new_area, serving,
}
use fcgi.Server.Closing.{IsClosable, shut, close-reader}

-- The next ::send will fail.
abbrev pub hinder : ServerConnection → ServerConnection
hinder k = record k {
  connection = record k.connection { io = record k.connection.io { sends = send_fails ∷ [] } };
}

-- The put area of the output stream after a failed ::send: with padding where the error stream, which has `once` and
-- `put`, has nothing to send.
abbrev pub out_area : Bool → List ℕ → List ℕ → List ℕ
out_area once (b ∷ bs) area = area
out_area true [] area = area
out_area false [] area = padded area

-- The NULs that become content of the output stream.
abbrev pub out_nuls : Bool → List ℕ → List ℕ → List ℕ
out_nuls once (b ∷ bs) area = []
out_nuls true [] area = []
out_nuls false [] area = zeros (length area)

pub out_area-nuls :
    (once : Bool) (put area front all : List ℕ)
    → front ++ area ≡ all
    → front ++ out_area once put area ≡ all ++ out_nuls once put area
out_area-nuls once (b ∷ bs) area front all h = h ∙ sym (append-nil all)
out_area-nuls true [] area front all h = h ∙ sym (append-nil all)
out_area-nuls false [] area front all h =
    sym (append_assoc front area (zeros (length area))) ∙ ap (λ xs. xs ++ zeros (length area)) h

module _ (c : Connection) (i : Streambuf) (flags : Flags) (short : c.request_id < 65536)
    (status : c.application_status < 2 ^ 32) (lets : (side : Side) → Lets (side_writer c side) i)
    (closable : (c' : Connection)
      → c'.role ≡ c.role
      → IsClosable (record { connection = c'; buf = i })) where
  abbrev Ends : Side → Bool → List ℕ → List ℕ → Type 0
  Ends side once put sent =
      (b : Bool) × (gone : List ℕ) × (close i (writer (side_writer c side) once false put sent)
        ≡ ok tt (closed_writer (side_writer c side) b gone))

  err-Ends : (e : Area) (sent : List ℕ) → length e.area ≤ 65520 → Ends to_err e.once e.area sent
  err-Ends e sent l =
      let s = side_writer c to_err in
      let w = side_writer-IsWriter c to_err short status in
      let (fs, end, z, p, a, q) =
        close_ends s w (λ once ending. ending ≡ err_ending s once)
          (λ once put sent. (err_ending s once, send_end_records-err s w once put sent refl, refl))
          e.once e.area sent i (lets to_err) l in
      (_, _, z)

  out-Ends : (o : Area) (sent : List ℕ) → length o.area ≤ 65520 → Ends to_out o.once o.area sent
  out-Ends o sent l =
      let s = side_writer c to_out in
      let w = side_writer-IsWriter c to_out short status in
      let (fs, end, z, p, a, q) =
        close_ends s w (λ _ ending. IsOutEnding s w ending)
          (λ once put sent. send_end_records-out s w once put sent refl) o.once o.area sent i
          (lets to_out) l in
      (_, _, z)

  in-ends :
      (side : Side) (b : Bool) (sent : List ℕ)
      → close i
          (record { connection = (closed_writer (side_writer c side) b sent).connection; buf = i })
        ≡ ok tt (
            set_buf
              (record {
                connection = (closed_writer (side_writer c side) b sent).connection;
                buf = i;
              })
              (shut i))
  in-ends to_out b sent = close-reader _ i (closable _ refl)
  in-ends to_err b sent = close-reader _ i (closable _ refl)

  pub padded-room : (put : List ℕ) → length put ≤ 65519 → length (padded put) ≤ 65520
  padded-room put l =
      let n = length put in
      let s = side_writer c to_out in
      omega (
        arith,
        length-append put (zeros n),
        length-replicate {A = ℕ} (pad n 3) 0,
        record_of-fits s (side_writer-IsWriter c to_out short status) n (omega arith),
      )

  -- close() throws at the error stream, and the destructors close all.
  err-hindered :
      (o : Area) (once : Bool) (put sent : List ℕ)
      → length o.area ≤ 65519
      → length put ≤ 65519
      → Fails (side_writer c to_err) (side_writer-IsWriter c to_err short status) once put sent i
      → destroy_connection (hinder (serving c i flags o (record { once = once; area = put }) sent))
        ≡ close_connection (serving c i flags o (record { once = once; area = padded put }) sent)
  unfolding destroy_connection close_connection destroy_streambuf close
  err-hindered o once put sent l k f =
      let se = side_writer c to_err in
      let we = side_writer-IsWriter c to_err short status in
      let (b, gone, z) =
        err-Ends (record { once = once; area = padded put }) sent (padded-room put k) in
      let (d, gone', z') = out-Ends o gone (omega arith) in
      rw
        (
          f,
          ◌>>=◌,
          ◌>>◌,
          close-again se we once (padded put) sent i (lets to_err),
          z,
          z',
          in-ends to_out d gone',
        )
        refl

  -- The error stream is closed without a call of ::send, and close() throws at the output stream.
  out-hindered :
      (once : Bool) (put sent : List ℕ)
      → length put ≤ 65519
      → Fails (side_writer c to_out) (side_writer-IsWriter c to_out short status) once put sent i
      → destroy_connection
          (hinder (serving c i flags (record { once = once; area = put }) new_area sent))
        ≡ close_connection
            (serving c i flags (record { once = once; area = padded put }) new_area sent)
  unfolding destroy_connection close_connection destroy_streambuf close
  out-hindered once put sent l f =
      let se = side_writer c to_err in
      let we = side_writer-IsWriter c to_err short status in
      let so = side_writer c to_out in
      let wo = side_writer-IsWriter c to_out short status in
      let (d, gone, z) =
        out-Ends (record { once = once; area = padded put }) sent (padded-room put l) in
      rw (
        close-err_silent se we (send_fails ∷ []) sent i refl (lets to_err),
        ◌>>=◌,
        ◌>>◌,
        f,
        close-again so wo once (padded put) sent i (lets to_out),
        z,
        in-ends to_out d gone,
        close-err_silent se we [] sent i refl (lets to_err),
        z,
        in-ends to_out d gone,
      )

  out-Fails :
      (once : Bool) (area sent : List ℕ)
      → length area ≤ 65519
      → Fails (side_writer c to_out) (side_writer-IsWriter c to_out short status) once area sent i
  out-Fails once [] sent l =
      close-out-Fails (side_writer c to_out) (side_writer-IsWriter c to_out short status) once sent
        i refl (lets to_out)
  out-Fails once (b ∷ bs) sent l =
      close-Fails (side_writer c to_out) (side_writer-IsWriter c to_out short status) once b bs sent
        i (lets to_out) (omega arith)

  pub out_area-room :
      (once : Bool) (put area : List ℕ)
      → length area ≤ 65519
      → length (out_area once put area) ≤ 65520
  out_area-room once (b ∷ bs) area l = omega arith
  out_area-room true [] area l = omega arith
  out_area-room false [] area l = padded-room area l

  -- The destructors leave what close() leaves of a connection with this padding in its put areas.
  pub hindered-ends :
      (o : Area) (once : Bool) (put sent : List ℕ)
      → length o.area ≤ 65519
      → length put ≤ 65519
      → destroy_connection (hinder (serving c i flags o (record { once = once; area = put }) sent))
        ≡ close_connection (
            serving c i flags
              (record o { area = out_area once put o.area })
              (record { once = once; area = padded put })
              sent)
  hindered-ends o once (b ∷ bs) sent l k = err-hindered o once (b ∷ bs) sent l k (
      close-Fails (side_writer c to_err) (side_writer-IsWriter c to_err short status) once b bs sent
        i (lets to_err) (omega arith))
  hindered-ends o true [] sent l k = err-hindered o true [] sent l k (
      close-err-Fails (side_writer c to_err) (side_writer-IsWriter c to_err short status) sent i
        refl (lets to_err))
  hindered-ends o false [] sent l k =
      out-hindered o.once o.area sent l (out-Fails o.once o.area sent l)
