-- ===== src/Net/Address.antt =====
-- src/net/address.hpp. The functions ::inet_pton and ::inet_ntop are not part of the repository: an `Inet` is what they
-- answer. A text is a list of characters, a binary address a list of bytes in the order of the network.
pub mod Leaving
pub mod Texts
use fcgi.Prelude.{
  zeros, ℕ, zero, suc, ◌++◌, ◌-◌, ◌+◌, ◌*◌, ◌/◌, ◌%◌, ◌^◌, ◌≡◌, Bool, true, false, ◌||◌, List, [],
  ◌∷◌, Option, none, some, length, take, ltb, leb, ◌==◌, if◌then◌else◌,
}
use fcgi.Outcome.{
  M, ok, threw, pure, throw, assert, ◌>>=◌, ◌>>◌, cannot_convert_text, cannot_convert_binary,
  path_too_long,
}

-- A value of AF_UNIX, AF_INET, AF_INET6, or AF_UNSPEC, which the source also makes a Protocol_family.
pub data ProtocolFamily : Type 0 where
  unspec local ipv4 ipv6 : ProtocolFamily

-- The bytes of an in_addr or an in6_addr.
pub data Binary : Type 0 where
  in_addr in6_addr : List ℕ → Binary

-- `inet_pton af text` is 1 with the bytes, 0 for another text, or negative; `inet_ntop af binary size` gives the text that fits the size with a NUL, or fails.
pub record Inet : Type 0 where
  pub inet_pton : ProtocolFamily → List ℕ → ℕ × List ℕ
  pub inet_ntop : ProtocolFamily → Binary → ℕ → Option (List ℕ)

-- The address where `is_valid_` is set.
pub record IpAddress : Type 0 where
  pub is_valid_ : Bool
  pub binary_ : Binary

pub data SocketAddress : Type 0 where
  sockaddr_un : ProtocolFamily → List ℕ → SocketAddress
  sockaddr_in : List ℕ → List ℕ → SocketAddress
  sockaddr_in6 : List ℕ → List ℕ → SocketAddress

abbrev pub is_inet : ProtocolFamily → Bool
is_inet unspec = false
is_inet local = false
is_inet ipv4 = true
is_inet ipv6 = true

-- sizeof(::in_addr), sizeof(::in6_addr)
abbrev pub address_size : ProtocolFamily → ℕ
address_size unspec = 0
address_size local = 0
address_size ipv4 = 4
address_size ipv6 = 16

abbrev pub binary_of : ProtocolFamily → List ℕ → Binary
binary_of unspec bytes = in_addr bytes
binary_of local bytes = in_addr bytes
binary_of ipv4 bytes = in_addr bytes
binary_of ipv6 bytes = in6_addr bytes

-- A default in_addr.
abbrev pub invalid_address : IpAddress
invalid_address = record { is_valid_ = false; binary_ = in_addr [] }

abbrev pub binary_family : Binary → ProtocolFamily
binary_family (in_addr bytes) = ipv4
binary_family (in6_addr bytes) = ipv6

abbrev pub family : IpAddress → ProtocolFamily
family ip = if ip.is_valid_ then binary_family ip.binary_ else unspec

-- `result_max_size`
abbrev pub text_size : ProtocolFamily → ℕ
text_size unspec = 46
text_size local = 46
text_size ipv4 = 16
text_size ipv6 = 46

-- A positive int.
abbrev pub is_positive : ℕ → Bool
is_positive n = if n == 0 then false else ltb n (2 ^ 31)

-- The text in front of the first NUL.
abbrev pub until_nul : List ℕ → List ℕ
until_nul [] = []
until_nul (c ∷ cs) = if c == 0 then [] else c ∷ until_nul cs

unfoldable pub init : {S : Type 0} → ProtocolFamily → List ℕ → M S IpAddress
init family bin = do
  assert (address_size family == length bin)
  pure (record { is_valid_ = true; binary_ = binary_of family bin })

module _ (inet : Inet) where
  unfoldable pub do_inet_pton : {S : Type 0} → ProtocolFamily → List ℕ → M S (ℕ × List ℕ)
  do_inet_pton af src = do
    assert (is_inet af)
    if ltb (inet.inet_pton af src).0 (2 ^ 31)
        then pure (inet.inet_pton af src)
        else throw cannot_convert_text

  unfoldable pub do_inet_ntop : {S : Type 0} → ProtocolFamily → Binary → ℕ → M S (List ℕ)
  do_inet_ntop af src dst_size = do
    assert (is_inet af)
    assert (leb 16 dst_size)
    elim (inet.inet_ntop af src dst_size) [
      | none ↦ throw cannot_convert_binary
      | some text ↦ pure text
    ]

  -- The loop over the families.
  unfoldable pub try_families : {S : Type 0} → List ProtocolFamily → List ℕ → M S IpAddress
  try_families [] str = pure invalid_address
  try_families (fam ∷ fams) str = do
    r ← do_inet_pton fam str
    if is_positive r.0
        then (do ip ← init fam (take (address_size fam) r.1); assert ip.is_valid_; pure ip)
        else try_families fams str

  unfoldable pub from_text : {S : Type 0} → List ℕ → M S IpAddress
  from_text str = try_families (ipv4 ∷ ipv6 ∷ []) str

  unfoldable pub is_valid_text : {S : Type 0} → List ℕ → M S Bool
  is_valid_text str = do
    r ← do_inet_pton ipv4 str
    if is_positive r.0 then pure true else (do q ← do_inet_pton ipv6 str; pure (is_positive q.0))

  unfoldable pub to_string : {S : Type 0} → IpAddress → M S (List ℕ)
  to_string ip =
      if ip.is_valid_
      then (do
        text ← do_inet_ntop (family ip) ip.binary_ (text_size (family ip))
        pure (until_nul (text ++ zeros (text_size (family ip) - length text))))
      else pure []

unfoldable pub from_binary : {S : Type 0} → List ℕ → M S IpAddress
from_binary bin =
    if length bin == 4
    then init ipv4 bin
    else (if length bin == 16 then init ipv6 bin else pure invalid_address)

abbrev pub bytes_of : Binary → List ℕ
bytes_of (in_addr bytes) = bytes
bytes_of (in6_addr bytes) = bytes

-- An unsigned short in the order of the network.
abbrev pub htons : ℕ → List ℕ
htons port = port % 2 ^ 16 / 256 ∷ port % 2 ^ 16 % 256 ∷ []

-- `Socket_address{ip, port}`; for an address that is not valid the variant keeps its default, a zeroed sockaddr_un.
abbrev pub make_tcp_address : IpAddress → ℕ → SocketAddress
make_tcp_address ip port = elim (family ip) [
  | ipv4 ↦ sockaddr_in (bytes_of ip.binary_) (htons port)
  | ipv6 ↦ sockaddr_in6 (bytes_of ip.binary_) (htons port)
  | unspec ↦ sockaddr_un unspec []
  | local ↦ sockaddr_un unspec []
]

-- sizeof(::sockaddr_un::sun_path) - 1, of Linux.
abbrev pub max_path_size : ℕ
max_path_size = 107

-- `Socket_address{path}`
unfoldable pub make_uds_address : {S : Type 0} → List ℕ → M S SocketAddress
make_uds_address path =
    if leb (length path) max_path_size
    then pure (sockaddr_un local (take max_path_size (until_nul path)))
    else throw path_too_long

-- `Socket_address::family()`
abbrev pub address_family : SocketAddress → ProtocolFamily
address_family (sockaddr_un family path) = local
address_family (sockaddr_in address port) = ipv4
address_family (sockaddr_in6 address port) = ipv6
