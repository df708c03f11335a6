-- ===== src/Connection.antt =====
-- src/fcgi/server_connection.cpp: the state that the streams of a connection share.
use fcgi.Prelude.{ℕ, Bool, List}
use fcgi.Net.Descriptor.{Io}
use fcgi.NamesValues.{NameValue}

-- iServer_connection. An `int` stands by its bit pattern.
pub record Connection : Type 0 where
  pub is_keep_connection : Bool
  pub role : ℕ
  pub request_id : ℕ
  pub application_status : ℕ
  pub io : Io
  pub parameters : List NameValue

unfoldable pub set_application_status : Connection → ℕ → Connection
set_application_status c status = record c { application_status = status }
