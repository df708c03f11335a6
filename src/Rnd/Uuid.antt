-- ===== src/Rnd/Uuid.antt =====
-- src/rnd/uuid.hpp.
pub mod Versions
use Prim.Native.Nat.{bit_and, bit_or}
use fcgi.Prelude.{
  ℕ, zero, suc, ◌+◌, ◌*◌, ◌/◌, ◌%◌, Bool, true, false, not, ◌||◌, List, [], ◌∷◌, ◌++◌, length, take,
  drop, get_or, ltb, ◌==◌, if◌then◌else◌,
}
use fcgi.Outcome.{M, pure, assert, ◌>>=◌, ◌>>◌}
use fcgi.Net.Conversions.{Endianness, big, little}
use fcgi.Rnd.{Rand, random_bytes}

-- `data_`, by the fields of `rep_`.
pub record Uuid : Type 0 where
  pub time_low : ℕ
  pub time_mid : ℕ
  pub time_hi_and_version : ℕ
  pub clock_seq_hi_and_reserved : ℕ
  pub clock_seq_low : ℕ
  pub node : List ℕ

abbrev from_big : ℕ → List ℕ → ℕ
from_big n [] = n
from_big n (b ∷ bs) = from_big (n * 256 + b) bs

abbrev from_little : List ℕ → ℕ
from_little [] = 0
from_little (b ∷ bs) = b + 256 * from_little bs

-- A field over these bytes of the host's memory.
abbrev field : Endianness → List ℕ → ℕ
field big bytes = from_big 0 bytes
field little bytes = from_little bytes

-- `rep_` over the bytes of `raw_`.
abbrev pub rep_of : Endianness → List ℕ → Uuid
rep_of host raw = record {
  time_low = field host (take 4 raw);
  time_mid = field host (take 2 (drop 4 raw));
  time_hi_and_version = field host (take 2 (drop 6 raw));
  clock_seq_hi_and_reserved = get_or raw 8 0;
  clock_seq_low = get_or raw 9 0;
  node = drop 10 raw;
}

abbrev some_nonzero : List ℕ → Bool
some_nonzero [] = false
some_nonzero (b ∷ bs) = not (b == 0) || some_nonzero bs

-- A field is not zero if one of its bytes is not.
abbrev pub is_uuid_ok : Uuid → Bool
is_uuid_ok u =
    not (u.time_low == 0)
    || not (u.time_mid == 0)
    || not (u.time_hi_and_version == 0)
    || not (u.clock_seq_hi_and_reserved == 0)
    || not (u.clock_seq_low == 0)
    || some_nonzero u.node

abbrev pub set_version : Uuid → Uuid
set_version u = record u {
  time_hi_and_version = bit_or (bit_and u.time_hi_and_version 4095) 16384;
  clock_seq_hi_and_reserved = bit_or (bit_and u.clock_seq_hi_and_reserved 63) 128;
}

unfoldable pub make_v4 : {R : Type 0} → Endianness → Rand R → M R Uuid
make_v4 host rand = do
  raw ← random_bytes rand 16
  assert (is_uuid_ok (set_version (rep_of host raw)))
  pure (set_version (rep_of host raw))

abbrev pub digit : ℕ → ℕ
digit d = if ltb d 10 then 48 + d else 87 + d

-- %02x, %04x and %08x of a number of 8, 16 and 32 bits.
abbrev pub hex2 : ℕ → List ℕ
hex2 n = digit (n / 16 % 16) ∷ digit (n % 16) ∷ []

abbrev pub hex4 : ℕ → List ℕ
hex4 n = hex2 (n / 256 % 256) ++ hex2 (n % 256)

abbrev pub hex8 : ℕ → List ℕ
hex8 n = hex4 (n / 65536 % 65536) ++ hex4 (n % 65536)

abbrev pub node_hex : List ℕ → List ℕ
node_hex [] = []
node_hex (b ∷ bs) = hex2 b ++ node_hex bs

unfoldable pub uuid_to_string : {S : Type 0} → Uuid → M S (List ℕ)
uuid_to_string u = do
  let buf =
      hex8 u.time_low
      ++ (45 ∷ hex4 u.time_mid
          ++ (45 ∷ hex4 u.time_hi_and_version
              ++ (45 ∷ hex2 u.clock_seq_hi_and_reserved
                  ++ hex2 u.clock_seq_low
                  ++ (45 ∷ node_hex u.node))))
  assert (length buf == 36)
  pure buf
