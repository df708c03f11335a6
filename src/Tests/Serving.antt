-- ===== src/Tests/Serving.antt =====
-- A responder in the midst of a request, for the tests of broken and mixed connections.
use fcgi.Prelude.{ℕ, refl, false, [], arith}
use fcgi.Basics.{responder}
use fcgi.Connection.{Connection}
use fcgi.Streambuf.{St}
use fcgi.Streambuf.Delivery.View.{IsReader}
use fcgi.Streambuf.Delivery.Records.{IsNamed}
use fcgi.Server.Sends.{input_reader}

abbrev pub serving : Connection
serving = record {
  is_keep_connection = false;
  role = responder;
  request_id = 258;
  application_status = 0;
  io = record { arrivals = []; sends = []; sent = [] };
  parameters = [];
}

abbrev pub reader : St
reader = input_reader serving []

pub reader-IsReader : IsReader reader
reader-IsReader = record {
  is_reading = refl;
  suits_role = refl;
  large = omega arith;
  small = omega arith;
  whole = refl;
}

pub reader-IsNamed : IsNamed reader
reader-IsNamed = record { named = λ h. absurd (omega arith); short = omega arith }

-- What uninitialised memory holds.
abbrev pub garbage : ℕ → ℕ
garbage n = 170
