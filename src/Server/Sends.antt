-- ===== src/Server/Sends.antt =====
-- A client that sends the parameters of a request, and the states of the input stream's buffer before and after they
-- are read.
use fcgi.Prelude.{ℕ, ◌≤◌, ◌<◌, ◌≡◌, refl, ◌≢◌, true, ◌||◌, List, [], length, arith, ◌==◌, All}
use fcgi.Outcome.{ok}
use fcgi.Math.Alignment.{padding}
use fcgi.Basics.{params, input, responder, filter}
use fcgi.NamesValues.{NameValue}
use fcgi.NamesValues.Encode.{encode}
use fcgi.NamesValues.RoundTrip.{Fits}
use fcgi.Connection.{Connection}
use fcgi.Streambuf.{St, setbuf, fresh, make_streambuf, is_invariant_ok}
use fcgi.Streambuf.Delivery.View.{View, view, at, IsReader, incoming, IsLive}
use fcgi.Streambuf.Delivery.Frames.{Frame, contents, AreFrames}
use fcgi.Streambuf.Delivery.Stream.{own_stream}
use fcgi.Server.{in_buffer_size}

-- A connection just before its input stream is constructed.
abbrev pub params_reader : Connection → St
params_reader c = record {
  connection = c;
  buf = record (fresh params) { buffer_size = in_buffer_size; has_get = true };
}

-- The same connection with its parameters, and the buffer at its input stream.
abbrev pub input_reader : Connection → List NameValue → St
input_reader c pairs = record {
  connection = record c { parameters = pairs };
  buf = record (fresh input) { buffer_size = in_buffer_size; has_get = true };
}

abbrev pub first : Connection → View
first c = view c.io.arrivals 0 0 0 [] 0 0

pub params_reader-IsReader : (c : Connection) → IsReader (params_reader c)
params_reader-IsReader c = record {
  is_reading = refl;
  suits_role = refl;
  large = omega arith;
  small = omega arith;
  whole = refl;
}

pub input_reader-IsReader :
    (c : Connection) (pairs : List NameValue)
    → (c.role == responder) || (c.role == filter) ≡ true
    → IsReader (input_reader c pairs)
input_reader-IsReader c pairs role = record {
  is_reading = refl;
  suits_role = ground arith;
  large = omega arith;
  small = omega arith;
  whole = refl;
}

pub make_params_streambuf :
    (c : Connection)
    → make_streambuf in_buffer_size params c ≡ ok tt (at (params_reader c) (first c))
unfolding make_streambuf setbuf is_invariant_ok padding
make_params_streambuf c = refl

-- A client's params stream, of a request with an id from 1 to 65535, in arrivals none of which is empty or fails: the
-- encoding of `ps`, whose sizes fit an int, in records with at most as much content as the buffer, ended by a record
-- with the padding `pad`, and `tail` behind it.
pub record Sends (c : Connection) (ps : List (List ℕ × List ℕ)) (fs : List Frame)
    (pad tail : List ℕ) : Type 0 where
  pub named : c.request_id ≢ 0
  pub short : c.request_id < 65536
  pub live : IsLive c.io.arrivals
  pub wire : incoming c.io.arrivals ≡ own_stream (params_reader c) fs pad tail
  pub are_frames : AreFrames in_buffer_size fs
  pub are_pairs : contents fs ≡ encode ps
  pub fit : All Fits ps
  pub padding_fits : length pad ≤ 255
