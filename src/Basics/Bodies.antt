-- ===== src/Basics/Bodies.antt =====
-- The other records of src/fcgi/basics.cpp: begin-request, end-request and unknown-type.
use fcgi.Prelude.{ℕ, ◌+◌, ◌*◌, ◌%◌, ◌^◌, Bool, List, [], ◌∷◌, ◌++◌, ◌==◌, not, length, get_or}
use fcgi.Outcome.{M, pure, ◌>>=◌, ◌>>◌, guard, protocol_violation}
use fcgi.Net.Descriptor.{Io, read}
use fcgi.Basics.{ProtocolStatus, status_code, end_request, unknown_type}
use fcgi.Basics.Header.{byte_at, make_header, header_bytes, null_request_id}

-- The five reserved bytes of the body are not kept.
pub record BeginRequestBody : Type 0 where
  pub role_b1 : ℕ
  pub role_b0 : ℕ
  pub flags : ℕ

-- `sizeof(Begin_request_body)`
abbrev pub begin_request_body_size : ℕ
begin_request_body_size = 8

abbrev pub begin_request_body_of : List ℕ → BeginRequestBody
begin_request_body_of bs = record {
  role_b1 = get_or bs 0 0;
  role_b0 = get_or bs 1 0;
  flags = get_or bs 2 0;
}

unfoldable pub read_begin_request_body : M Io BeginRequestBody
read_begin_request_body = do
  bs ← read begin_request_body_size
  guard (length bs == begin_request_body_size) protocol_violation
  pure (begin_request_body_of bs)

abbrev pub role : BeginRequestBody → ℕ
role body = body.role_b1 * 2 ^ 8 + body.role_b0

-- `flags_ & keep_conn`, where `keep_conn` is 1.
abbrev pub is_keep_conn : BeginRequestBody → Bool
is_keep_conn body = not (body.flags % 2 == 0)

-- An `int` stands by its bit pattern, a number below 2^32.
pub record EndRequestBody : Type 0 where
  pub application_status_b3 : ℕ
  pub application_status_b2 : ℕ
  pub application_status_b1 : ℕ
  pub application_status_b0 : ℕ
  pub protocol_status : ℕ

abbrev pub end_request_body : ℕ → ProtocolStatus → EndRequestBody
end_request_body application_status protocol_status = record {
  application_status_b3 = byte_at application_status 24;
  application_status_b2 = byte_at application_status 16;
  application_status_b1 = byte_at application_status 8;
  application_status_b0 = byte_at application_status 0;
  protocol_status = status_code protocol_status;
}

-- The object representation, with three reserved bytes.
abbrev pub end_request_body_bytes : EndRequestBody → List ℕ
end_request_body_bytes b =
    b.application_status_b3 ∷ b.application_status_b2 ∷ b.application_status_b1
    ∷ b.application_status_b0 ∷ b.protocol_status ∷ 0 ∷ 0 ∷ 0 ∷ []

-- `End_request_record{request_id, application_status, protocol_status}`, as the bytes of the object.
unfoldable pub end_request_record : {S : Type 0} → ℕ → ℕ → ProtocolStatus → M S (List ℕ)
unfolding make_header
end_request_record request_id application_status protocol_status = do
  header ← make_header end_request request_id 8 0
  pure (
      header_bytes header
      ++ end_request_body_bytes (end_request_body application_status protocol_status))

-- `Unknown_type_record{record_type}`, as the bytes of the object.
unfoldable pub unknown_type_record : {S : Type 0} → ℕ → M S (List ℕ)
unfolding make_header
unknown_type_record record_type = do
  header ← make_header unknown_type null_request_id 8 0
  pure (header_bytes header ++ (record_type % 2 ^ 8) ∷ 0 ∷ 0 ∷ 0 ∷ 0 ∷ 0 ∷ 0 ∷ 0 ∷ [])
