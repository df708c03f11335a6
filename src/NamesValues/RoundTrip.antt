-- ===== src/NamesValues/RoundTrip.antt =====
-- Names_values reads back what the protocol's encoding of names and values says.
use fcgi.Prelude.{
  ℕ, zero, suc, ◌+◌, ◌^◌, ◌<◌, ◌≡◌, sym, ◌∙◌, List, [], ◌∷◌, ◌++◌, Option, none, map, length,
  length-append, take-append, drop-append, take_all, arith, append-nil, append_assoc, lt→ltb, eq→==,
  All,
}
use fcgi.Outcome.{M, ok, ◌>>=◌}
use fcgi.Istream.{Stream, goodbit, at_end, on, get}
use fcgi.NamesValues.{
  NameValue, name, value, pair_of, read_length, read_data, read_pairs, names_values,
}
use fcgi.NamesValues.Yields.{Yields, Yields-append, get-none, read-Yields}
use fcgi.NamesValues.Encode.{encode_length, encode_pair, encode, read_length-encode_length}

-- The sizes of a pair and their sum fit an `int`.
abbrev pub Fits : List ℕ × List ℕ → Type 0
Fits (n, v) = length n + length v < 2 ^ 31

-- The pair as it is stored: the name and the value in one piece of memory.
abbrev pub stored : List ℕ × List ℕ → NameValue
stored (n, v) = pair_of (n ++ v) (length n) (length v)

pub name-stored : (n v : List ℕ) → name (stored (n, v)) ≡ n
name-stored n v = take-append n v

pub value-stored : (n v : List ℕ) → value (stored (n, v)) ≡ v
value-stored n v = rw (drop-append n v) (take_all v)

module _ {S : Type 0} (bump : M S (Option ℕ)) where
  read_data-Yields :
      (bs : List ℕ) (count : ℕ) (s t : S)
      → count ≡ length bs
      → Yields bump s bs t
      → read_data bump count (on goodbit s) ≡ ok bs (on goodbit t)
  unfolding read_data
  read_data-Yields bs count s t e y =
      rw (e, read_data, ◌>>=◌, read-Yields bump bs s t y, eq→== (length bs) count (sym e))

  read_pairs_end :
      (fuel : ℕ) (pairs : List NameValue) (s : S) (r : Stream S)
      → get bump (on goodbit s) ≡ ok none r
      → read_pairs bump (suc fuel) pairs (on goodbit s) ≡ ok pairs r
  unfolding read_pairs read_length
  read_pairs_end fuel pairs s r e = rw (e, read_pairs, read_length, ◌>>=◌)

  read_pairs_step :
      (n v : List ℕ) (fuel : ℕ) (pairs : List NameValue) (s t : S)
      → Fits (n, v)
      → Yields bump s (encode_pair (n, v)) t
      → read_pairs bump (suc fuel) pairs (on goodbit s)
        ≡ read_pairs bump fuel (pairs ++ stored (n, v) ∷ []) (on goodbit t)
  unfolding read_pairs
  read_pairs_step n v fuel pairs s t h y =
      let (s₁, y₁, z₁) = Yields-append bump (encode_length (length n)) _ s t y in
      let (s₂, y₂, z₂) = Yields-append bump (encode_length (length v)) (n ++ v) s₁ t z₁ in
      rw (
        read_length-encode_length bump (length n) s s₁ (omega arith) y₁,
        read_pairs,
        ◌>>=◌,
        read_length-encode_length bump (length v) s₁ s₂ (omega arith) y₂,
        lt→ltb (length n + length v) (2 ^ 31) h,
        read_data-Yields (n ++ v) (length n + length v) s₂ t (sym (length-append n v)) z₂,
      )

  read_pairs-encode :
      (ps : List (List ℕ × List ℕ)) (fuel : ℕ) (pairs : List NameValue) (s t : S) (r : Stream S)
      → All Fits ps
      → length ps < fuel
      → Yields bump s (encode ps) t
      → get bump (on goodbit t) ≡ ok none r
      → read_pairs bump fuel pairs (on goodbit s) ≡ ok (pairs ++ map stored ps) r
  read_pairs-encode ps zero pairs s t r f h y e = absurd (omega arith)
  read_pairs-encode [] (suc fuel) pairs s t r f h y e =
      rw (append-nil, y) (read_pairs_end fuel pairs t r e)
  read_pairs-encode ((n, v) ∷ ps) (suc fuel) pairs s t r (f, fs) h y e =
      let (m, y₁, y₂) = Yields-append bump (encode_pair (n, v)) (encode ps) s t y in
      read_pairs_step n v fuel pairs s m f y₁
      ∙ read_pairs-encode ps fuel (pairs ++ stored (n, v) ∷ []) m t r fs (omega arith) y₂ e
      ∙ rw (append_assoc pairs (stored (n, v) ∷ []) (map stored ps))

  -- However the stream stops behind the encoding of pairs, whose sizes fit an int, it is read into these pairs.
  pub names_values-stops :
      (ps : List (List ℕ × List ℕ)) (fuel : ℕ) (s t : S) (r : Stream S)
      → All Fits ps
      → length ps < fuel
      → Yields bump s (encode ps) t
      → get bump (on goodbit t) ≡ ok none r
      → names_values bump fuel (on goodbit s) ≡ ok (map stored ps) r
  unfolding names_values
  names_values-stops ps fuel s t r f h y e = read_pairs-encode ps fuel [] s t r f h y e

  -- A stream that delivers the encoding of pairs of names and values whose sizes fit an int, and then ends,
  -- is read into exactly these pairs, in order; the stream is then at its end with badbit unset.
  pub names_values-encode :
      (ps : List (List ℕ × List ℕ)) (fuel : ℕ) (s t u : S)
      → All Fits ps
      → length ps < fuel
      → Yields bump s (encode ps) t
      → bump t ≡ ok none u
      → names_values bump fuel (on goodbit s) ≡ ok (map stored ps) (on at_end u)
  names_values-encode ps fuel s t u f h y e =
      names_values-stops ps fuel s t (on at_end u) f h y (get-none bump t u e)
