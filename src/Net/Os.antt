-- ===== src/Net/Os.antt =====
-- The system calls that src/net/socket.hpp, src/net/listener.hpp, src/net/descriptor.hpp and src/net/client.hpp make.
-- They are not part of the repository: an `Os` is what a system answers, with its own state `W`, the world.
-- An int is the number of its bit pattern.
use fcgi.Prelude.{ℕ, ◌^◌, Bool, List, Option, ltb}
use fcgi.Outcome.{M, ok}
use fcgi.Net.Address.{ProtocolFamily, SocketAddress}

-- Whether the one socket that the code polls is in the set of ::select.
pub record Sets : Type 0 where
  pub read_mask : Bool
  pub write_mask : Bool
  pub except_mask : Bool

pub record Timeval : Type 0 where
  pub tv_sec : ℕ
  pub tv_usec : ℕ

-- `select n s sets tv` is ::select with n as its first argument and sets that have s or nothing; `recv s n` hands over
-- at most n bytes, which the code here drops, and returns how many, or an error, as 64 bits; the other results are the
-- ints that the calls return. `is_not_connected` is whether errno is ENOTCONN.
pub record Os (W : Type 0) : Type 0 where
  pub socket : ProtocolFamily → ℕ → ℕ → W → ℕ × W
  pub set_reuse_address : ℕ → W → ℕ × W
  pub bind : ℕ → SocketAddress → W → ℕ × W
  pub connect : ℕ → SocketAddress → W → ℕ × W
  pub listen : ℕ → ℕ → W → ℕ × W
  pub accept : ℕ → W → ℕ × W
  pub shutdown_send : ℕ → W → ℕ × W
  pub close : ℕ → W → ℕ × W
  pub select : ℕ → ℕ → Sets → Option Timeval → W → ℕ × Sets × W
  pub recv : ℕ → ℕ → W → ℕ × W
  pub unlink : List ℕ → W → W
  pub is_not_connected : W → Bool

-- A system call of a program whose state is the world.
abbrev pub call : {W : Type 0} → (W → ℕ × W) → M W ℕ
call f w = let (r, w') = f w in ok r w'

-- Signed numbers of 32 and of 64 bits that are not negative.
abbrev pub is_nonneg : ℕ → Bool
is_nonneg n = ltb n (2 ^ 31)

abbrev pub is_nonneg64 : ℕ → Bool
is_nonneg64 n = ltb n (2 ^ 63)
