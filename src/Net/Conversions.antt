-- ===== src/Net/Conversions.antt =====
-- src/net/conversions.hpp and src/util/endianness.hpp. What a pointer points to is a list of bytes, a null pointer is
-- `none`; a value of a type is the list of its bytes in the host's memory.
pub mod Copies
use fcgi.Prelude.{
  zeros, ℕ, zero, suc, ◌+◌, ◌-◌, Bool, true, false, List, [], ◌∷◌, Option, none, some, length, leb,
  ◌==◌, if◌then◌else◌,
}
use fcgi.Outcome.{
  M, pure, throw, guard, ◌>>=◌, ◌>>◌, copy_to_null, copy_from_null, copy_would_not_fit,
}

pub data Endianness : Type 0 where
  big little : Endianness

-- From the bytes of the number 1.
abbrev pub endianness : List ℕ → Endianness
endianness [] = big
endianness (b ∷ bs) = if b == 1 then little else big

-- `dest[i] = b`
abbrev pub set : List ℕ → ℕ → ℕ → List ℕ
set [] i b = []
set (x ∷ xs) zero b = b ∷ xs
set (x ∷ xs) (suc i) b = x ∷ set xs i b

-- The loops, from `i` on, over what is left of `src`.
unfoldable pub copy_big : ℕ → ℕ → ℕ → List ℕ → List ℕ → List ℕ
copy_big dest_size src_size i [] dest = dest
copy_big dest_size src_size i (b ∷ src) dest =
    copy_big dest_size src_size (suc i) src (set dest (dest_size - src_size + i) b)

unfoldable pub copy_little : ℕ → ℕ → List ℕ → List ℕ → List ℕ
copy_little dest_size i [] dest = dest
copy_little dest_size i (b ∷ src) dest =
    copy_little dest_size (suc i) src (set dest (dest_size - 1 - i) b)

-- The bytes of `dest` after it; in front of `dest` and behind it nothing is written.
unfoldable pub copy : {S : Type 0} → Endianness → Option (List ℕ) → Option (List ℕ) → M S (List ℕ)
copy host none src = throw copy_to_null
copy host (some dest) none = throw copy_from_null
copy host (some dest) (some src) = do
  guard (leb (length src) (length dest)) copy_would_not_fit
  elim host [
    | big ↦ pure (copy_big (length dest) (length src) 0 src dest)
    | little ↦ pure (copy_little (length dest) 0 src dest)
  ]

-- `conv<Dest>(data, data_size)`, for a type of `size` bytes.
unfoldable pub conv : {S : Type 0} → Endianness → ℕ → Option (List ℕ) → M S (List ℕ)
conv host size src = copy host (some (zeros size)) src
