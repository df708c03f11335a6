-- ===== src/NamesValues/Encode.antt =====
-- How the protocol writes names and values: an independent description of the bytes, and the
-- reading of one length.
use fcgi.Prelude.{
  ℕ, ◌+◌, ◌/◌, ◌%◌, ◌^◌, ◌≤◌, ◌<◌, ◌≡◌, ap, inl, inr, List, [], ◌∷◌, ◌++◌, Option, some, length,
  arith, ltb, if◌then◌else◌, Bool-cases, eq→==, ne→==,
}
use fcgi.Outcome.{M, ok, ◌>>=◌}
use fcgi.Istream.{goodbit, on}
use fcgi.NamesValues.{read_length}
use fcgi.NamesValues.Yields.{Yields, get-some, read-Yields}

-- A length of at most 127 is one byte; a longer one is four bytes, the highest first, with the top bit set.
abbrev pub encode_length : ℕ → List ℕ
encode_length n =
    if ltb n 128
    then n ∷ []
    else (n / 2 ^ 24 + 128) ∷ (n / 2 ^ 16 % 256) ∷ (n / 2 ^ 8 % 256) ∷ (n % 256) ∷ []

abbrev pub encode_pair : List ℕ × List ℕ → List ℕ
encode_pair (n, v) = encode_length (length n) ++ (encode_length (length v) ++ (n ++ v))

abbrev pub encode : List (List ℕ × List ℕ) → List ℕ
encode [] = []
encode (p ∷ ps) = encode_pair p ++ encode ps

module _ {S : Type 0} (bump : M S (Option ℕ)) where
  read_one :
      (n : ℕ) (s t : S)
      → n < 128
      → Yields bump s (n ∷ []) t
      → read_length bump (on goodbit s) ≡ ok (some n) (on goodbit t)
  unfolding read_length
  read_one n s t h (u, e, y) =
      rw (get-some bump s u n e, read_length, ◌>>=◌, eq→== (n / 128 % 2) 0 (omega arith), y)

  read_four :
      (n : ℕ) (s t : S)
      → 128 ≤ n
      → n < 2 ^ 31
      → Yields bump s
          ((n / 2 ^ 24 + 128) ∷ (n / 2 ^ 16 % 256) ∷ (n / 2 ^ 8 % 256) ∷ (n % 256) ∷ [])
          t
      → read_length bump (on goodbit s) ≡ ok (some n) (on goodbit t)
  unfolding read_length
  read_four n s t h l (u, e, y) =
      rw
        (
          get-some bump s u (n / 2 ^ 24 + 128) e,
          read_length,
          ◌>>=◌,
          ne→== ((n / 2 ^ 24 + 128) / 128 % 2) 0 (omega arith),
          read-Yields bump ((n / 2 ^ 16 % 256) ∷ (n / 2 ^ 8 % 256) ∷ (n % 256) ∷ []) u t y,
        )
        (ap (λ (m : ℕ). ok (some m) (on goodbit t)) (omega arith))

  pub read_length-encode_length :
      (n : ℕ) (s t : S)
      → n < 2 ^ 31
      → Yields bump s (encode_length n) t
      → read_length bump (on goodbit s) ≡ ok (some n) (on goodbit t)
  read_length-encode_length n s t h y = elim (Bool-cases (ltb n 128)) [
    | inl small ↦ read_one n s t (ground arith) (rw small at y)
    | inr large ↦ read_four n s t (ground arith) h (rw large at y)
  ]
