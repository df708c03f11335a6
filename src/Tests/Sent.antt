-- ===== src/Tests/Sent.antt =====
-- A small output that is written and closed.
use fcgi.Prelude.{ℕ, ◌+◌, ◌%◌, ◌≤◌, ◌<◌, ◌≡◌, refl, true, false, List, [], ◌∷◌, ◌++◌, arith}
use fcgi.Outcome.{ok, ◌>>◌}
use fcgi.Basics.{StreamType, input, out, err, responder}
use fcgi.Connection.{Connection}
use fcgi.Streambuf.{Streambuf, St, fresh, make_streambuf, is_invariant_ok, is_closed}
use fcgi.Streambuf.Setting.{make_streambuf-rounds}
use fcgi.Streambuf.Writer.{close}
use fcgi.Streambuf.Delivery.Frames.{Frame, contents, AreFrames}
use fcgi.Streambuf.Sending.{writer, IsWriter}
use fcgi.Streambuf.Sending.Puts.{put_all, some_sent, own_frames}
use fcgi.Streambuf.Sending.Ending.{IsOutEnding, err_ending}
use fcgi.Streambuf.Sending.Closing.{Lets, closed_writer, out-delivered, err-delivered}

abbrev serving : Connection
serving = record {
  is_keep_connection = true;
  role = responder;
  request_id = 7;
  application_status = 3;
  io = record { arrivals = []; sends = []; sent = [] };
  parameters = [];
}

abbrev printer : StreamType → St
printer type = record {
  connection = serving;
  buf = record (fresh type) { buffer_size = 2048; has_put = true };
}

abbrev stdin : Streambuf
stdin = record (fresh input) { buffer_size = 16384; has_get = true }

out-IsWriter : IsWriter (printer out)
out-IsWriter = record {
  is_writing = refl;
  large = omega arith;
  small = omega arith;
  whole = refl;
  short = omega arith;
  status = omega arith;
}

err-IsWriter : IsWriter (printer err)
err-IsWriter = record {
  is_writing = refl;
  large = omega arith;
  small = omega arith;
  whole = refl;
  short = omega arith;
  status = omega arith;
}

lets : (type : StreamType) → Lets (printer type) stdin
lets type = record { reader = refl; is_open = refl; past_params = refl; past_input = refl }

abbrev hi : List ℕ
hi = 104 ∷ 105 ∷ []

out-delivered_example :
    (fs : List Frame) × (ending : List ℕ) × ((put_all hi >> close stdin)
        (writer (printer out) false false [] [])
      ≡ ok tt (
          closed_writer
            (printer out)
            (some_sent fs)
            ([] ++ (own_frames (printer out) fs ++ ending))))
    × (contents fs ≡ hi)
    × AreFrames 2048 fs
    × IsOutEnding (printer out) out-IsWriter ending
out-delivered_example = out-delivered (printer out) out-IsWriter hi [] stdin refl (lets out)

err-delivered_example :
    (fs : List Frame) × ((put_all hi >> close stdin) (writer (printer err) false false [] [])
      ≡ ok tt (
          closed_writer
            (printer err)
            (some_sent fs)
            ([] ++ (own_frames (printer err) fs ++ err_ending (printer err) (some_sent fs)))))
    × (contents fs ≡ hi)
    × AreFrames 2048 fs
err-delivered_example = err-delivered (printer err) err-IsWriter hi [] stdin refl (lets err)

make_streambuf-rounds_example :
    (s : St) × (make_streambuf 2055 out serving ≡ ok tt s)
    × (is_invariant_ok s ≡ true)
    × (is_closed s.buf ≡ false)
    × (s.buf.buffer_size % 8 ≡ 0)
    × (s.buf.buffer_size ≤ 2055)
    × (2055 < s.buf.buffer_size + 8)
make_streambuf-rounds_example =
    make_streambuf-rounds 2055 out serving (omega arith) (omega arith) refl
