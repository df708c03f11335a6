-- ===== src/Net/Descriptor.antt =====
-- src/net/descriptor.hpp: reads and writes of `socket_Descriptor`. The system calls ::recv and
-- ::send are not part of the repository. Their answers are data of the model: `arrivals` is what the
-- peer's bytes come in, one entry for each piece, and `sends` is how much each ::send takes.
use fcgi.Prelude.{
  ℕ, List, [], ◌∷◌, ◌++◌, Option, none, some, length, take, drop, leb, min, if◌then◌else◌,
}
use fcgi.Outcome.{M, ok, threw, cannot_read_from_socket, cannot_write_to_socket}

pub data Arrival : Type 0 where
  arrives : List ℕ → Arrival
  recv_fails : Arrival

pub data Send : Type 0 where
  takes : ℕ → Send
  send_fails : Send

-- After the last arrival the peer has shut its side; after the last entry of `sends` every ::send
-- takes all that it is given. `sent` is what the peer was sent, oldest first.
pub record Io : Type 0 where
  pub arrivals : List Arrival
  pub sends : List Send
  pub sent : List ℕ

-- ::recv hands over at most `len` bytes of the first piece, none at the end, `none` is an error.
abbrev pub recv_from : List Arrival → ℕ → Option (List ℕ) × List Arrival
recv_from [] len = (some [], [])
recv_from (recv_fails ∷ rest) len = (none, rest)
recv_from (arrives bs ∷ rest) len =
    (some (take len bs), (if leb (length bs) len then rest else arrives (drop len bs) ∷ rest))

-- ::send takes a number of bytes from the front, `none` is an error.
abbrev pub send_to : List Send → ℕ → Option ℕ × List Send
send_to [] len = (some len, [])
send_to (send_fails ∷ rest) len = (none, rest)
send_to (takes n ∷ rest) len = (some (min n len), rest)

abbrev pub max_read_size : ℕ
max_read_size = 2147479552

abbrev pub max_write_size : ℕ
max_write_size = 2147479552

-- The bytes read stand for the count that the source returns and the buffer that it fills.
unfoldable pub read : ℕ → M Io (List ℕ)
read len io =
    let (answer, rest) = recv_from io.arrivals (min len max_read_size) in
    elim answer [
      | none ↦ threw cannot_read_from_socket (record io { arrivals = rest })
      | some bs ↦ ok bs (record io { arrivals = rest })
    ]

unfoldable pub write : List ℕ → M Io ℕ
write bs io =
    let (answer, rest) = send_to io.sends (min (length bs) max_write_size) in
    elim answer [
      | none ↦ threw cannot_write_to_socket (record io { sends = rest })
      | some n ↦ ok n (record io { sends = rest; sent = io.sent ++ take n bs })
    ]
