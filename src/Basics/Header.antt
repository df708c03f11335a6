-- ===== src/Basics/Header.antt =====
-- The record header of src/fcgi/basics.cpp, its object representation and its reading.
use fcgi.Prelude.{ℕ, ◌+◌, ◌*◌, ◌/◌, ◌%◌, ◌^◌, Bool, ◌&&◌, List, [], ◌∷◌, leb, ◌==◌, length, get_or}
use fcgi.Outcome.{M, pure, ◌>>=◌, ◌>>◌, guard, assert, protocol_violation}
use fcgi.Math.Alignment.{padding}
use fcgi.Net.Descriptor.{Io, read}

pub record Header : Type 0 where
  pub protocol_version : ℕ
  pub record_type : ℕ
  pub request_id_b1 : ℕ
  pub request_id_b0 : ℕ
  pub content_length_b1 : ℕ
  pub content_length_b0 : ℕ
  pub padding_length : ℕ
  pub reserved : ℕ

-- `sizeof(Header)`
abbrev pub header_size : ℕ
header_size = 8

abbrev pub null_request_id : ℕ
null_request_id = 0

abbrev pub max_content_length : ℕ
max_content_length = 65535

abbrev pub max_padding_length : ℕ
max_padding_length = 255

-- `(value >> shift) & 0xff`
abbrev pub byte_at : ℕ → ℕ → ℕ
byte_at value shift = value / 2 ^ shift % 2 ^ 8

-- The fields that the constructor sets, before its assertion.
abbrev pub header_fields : ℕ → ℕ → ℕ → ℕ → Header
header_fields record_type request_id content_len padding_len = record {
  protocol_version = 1;
  record_type = record_type % 2 ^ 8;
  request_id_b1 = byte_at request_id 8;
  request_id_b0 = byte_at request_id 0;
  content_length_b1 = byte_at content_len 8;
  content_length_b0 = byte_at content_len 0;
  padding_length = padding_len % 2 ^ 8;
  reserved = 0;
}

unfoldable pub make_header : {S : Type 0} → ℕ → ℕ → ℕ → ℕ → M S Header
make_header record_type request_id content_len padding_len = do
  assert (leb content_len max_content_length && leb padding_len max_padding_length)
  pure (header_fields record_type request_id content_len padding_len)

-- The constructor that computes the padding itself.
unfoldable pub make_padded_header : {S : Type 0} → ℕ → ℕ → ℕ → M S Header
unfolding make_header
make_padded_header record_type request_id content_len = do
  padding_len ← padding content_len 8
  make_header record_type request_id content_len padding_len

abbrev pub request_id : Header → ℕ
request_id h = h.request_id_b1 * 2 ^ 8 + h.request_id_b0

abbrev pub content_length : Header → ℕ
content_length h = h.content_length_b1 * 2 ^ 8 + h.content_length_b0

abbrev pub is_management_record : Header → Bool
is_management_record h = request_id h == null_request_id

unfoldable pub check_validity : {S : Type 0} → Header → M S (Unit {0})
check_validity h = guard (h.protocol_version == 1) protocol_violation

-- The object representation: eight unsigned chars in the order of declaration.
abbrev pub header_bytes : Header → List ℕ
header_bytes h =
    h.protocol_version ∷ h.record_type ∷ h.request_id_b1 ∷ h.request_id_b0 ∷ h.content_length_b1
    ∷ h.content_length_b0 ∷ h.padding_length ∷ h.reserved ∷ []

-- A header whose first bytes are overwritten by `bs`; the others keep their default values.
abbrev pub header_of : List ℕ → Header
header_of bs = record {
  protocol_version = get_or bs 0 1;
  record_type = get_or bs 1 0;
  request_id_b1 = get_or bs 2 0;
  request_id_b0 = get_or bs 3 0;
  content_length_b1 = get_or bs 4 0;
  content_length_b0 = get_or bs 5 0;
  padding_length = get_or bs 6 0;
  reserved = get_or bs 7 0;
}

-- `Header{io}`: one read, which must give the whole header.
unfoldable pub read_header : M Io Header
unfolding check_validity
read_header = do
  bs ← read header_size
  guard (length bs == header_size) protocol_violation
  check_validity (header_of bs)
  pure (header_of bs)
