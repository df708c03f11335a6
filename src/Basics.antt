-- ===== src/Basics.antt =====
-- src/fcgi/basics.hpp and src/fcgi/basics.cpp: the numbers of the protocol and its records.
pub mod Header
pub mod Bodies
pub mod Codec
use fcgi.Prelude.{ℕ}

-- `in` and `data` of the source are `input` and `filter_data`, since both words are reserved here.
pub data StreamType : Type 0 where
  params input out err filter_data : StreamType

-- `static_cast<int>(type)`
abbrev pub stream_code : StreamType → ℕ
stream_code params = 4
stream_code input = 5
stream_code out = 6
stream_code err = 7
stream_code filter_data = 8

-- A role and a record type are read from the wire, where any number can stand.
abbrev pub responder : ℕ
responder = 1

abbrev pub authorizer : ℕ
authorizer = 2

abbrev pub filter : ℕ
filter = 3

abbrev pub begin_request : ℕ
begin_request = 1

abbrev pub end_request : ℕ
end_request = 3

abbrev pub get_values : ℕ
get_values = 9

abbrev pub get_values_result : ℕ
get_values_result = 10

abbrev pub unknown_type : ℕ
unknown_type = 11

pub data ProtocolStatus : Type 0 where
  request_complete cant_mpx_conn overloaded unknown_role_status : ProtocolStatus

-- `static_cast<unsigned char>(protocol_status)`
abbrev pub status_code : ProtocolStatus → ℕ
status_code request_complete = 0
status_code cant_mpx_conn = 1
status_code overloaded = 2
status_code unknown_role_status = 3
