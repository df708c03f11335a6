-- ===== src/Basics/Codec.antt =====
-- What the records say on the wire: fields that are read back, and the layout of the replies.
use fcgi.Prelude.{
  ℕ, ◌+◌, ◌*◌, ◌^◌, ◌≤◌, ◌<◌, ◌≡◌, refl, List, arith, length, le→leb, lt→leb, get_or,
}
use fcgi.Outcome.{ok, terminated}
use fcgi.Basics.{ProtocolStatus, status_code, end_request}
use fcgi.Basics.Header.{
  Header, make_header, header_fields, header_bytes, header_of, request_id, content_length,
}
use fcgi.Basics.Bodies.{end_request_record}

-- What a reader of the protocol finds in a header.
pub record Says (h : Header) (record_type id content_len padding_len : ℕ) : Type 0 where
  pub says_version : h.protocol_version ≡ 1
  pub says_type : h.record_type ≡ record_type
  pub says_id : request_id h ≡ id
  pub says_content : content_length h ≡ content_len
  pub says_padding : h.padding_length ≡ padding_len

pub header_fields-Says :
    (record_type id content_len padding_len : ℕ)
    → record_type < 256
    → id < 65536
    → content_len < 65536
    → padding_len < 256
    → Says
        (header_fields record_type id content_len padding_len)
        record_type
        id
        content_len
        padding_len
header_fields-Says record_type id content_len padding_len a b c d = omega arith

-- The constructor of a header returns for a type below 256, an id below 65536, a content of at most 65535
-- and a padding of at most 255 bytes. The header then takes eight bytes, and read back from these it gives
-- version 1 and the four arguments.
header_of-make_header :
    {S : Type 0} (s : S) (record_type id content_len padding_len : ℕ)
    → record_type < 256
    → id < 65536
    → content_len ≤ 65535
    → padding_len ≤ 255
    → (h : Header) × (make_header record_type id content_len padding_len s ≡ ok h s)
      × (length (header_bytes h) ≡ 8)
      × Says (header_of (header_bytes h)) record_type id content_len padding_len
unfolding make_header
header_of-make_header s record_type id content_len padding_len a b c d = (
  header_fields record_type id content_len padding_len,
  rw (le→leb _ _ c, le→leb _ _ d),
  refl,
  header_fields-Says record_type id content_len padding_len a b (omega arith) (omega arith),
)

-- A content of more than 65535 bytes ends the process.
pub make_header-terminates :
    {S : Type 0} (s : S) (record_type id content_len padding_len : ℕ)
    → 65535 < content_len
    → make_header record_type id content_len padding_len s ≡ terminated
unfolding make_header
make_header-terminates s record_type id content_len padding_len h = rw (lt→leb _ _ h)

-- The number that four bytes give, the first the highest.
abbrev pub big_endian : ℕ → ℕ → ℕ → ℕ → ℕ
big_endian b3 b2 b1 b0 = b3 * 2 ^ 24 + b2 * 2 ^ 16 + b1 * 2 ^ 8 + b0

-- An end-request record as the protocol defines it: version 1, type 3, the id, eight bytes of content and
-- no padding; then the status of the application, that of the protocol and three zero bytes.
pub record IsEndRequest (id status protocol_status : ℕ) (bytes : List ℕ) : Type 0 where
  pub says_size : length bytes ≡ 16
  pub says_header : Says (header_of bytes) end_request id 8 0
  pub says_application :
      big_endian (get_or bytes 8 0) (get_or bytes 9 0) (get_or bytes 10 0) (get_or bytes 11 0)
      ≡ status
  pub says_protocol : get_or bytes 12 0 ≡ protocol_status

-- For every id below 65536 and status below 2^32 the end-request record is built, and its sixteen bytes are
-- that record.
pub end_request_record-IsEndRequest :
    {S : Type 0} (s : S) (id status : ℕ) (p : ProtocolStatus)
    → id < 65536
    → status < 2 ^ 32
    → (bytes : List ℕ) × (end_request_record id status p s ≡ ok bytes s)
      × IsEndRequest id status (status_code p) bytes
unfolding end_request_record
end_request_record-IsEndRequest s id status p a b = (
  _,
  refl,
  record {
    says_size = refl;
    says_header = header_fields-Says end_request id 8 0 (omega arith) a (omega arith) (omega arith);
    says_application = omega arith;
    says_protocol = refl;
  },
)
