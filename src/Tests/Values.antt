-- ===== src/Tests/Values.antt =====
-- Names and values, headers and alignments at concrete numbers.
use fcgi.Prelude.{
  ℕ, ◌+◌, ◌%◌, ◌^◌, ◌<◌, ◌≡◌, refl, ◌⊎◌, List, [], ◌∷◌, Option, none, some, map, arith,
}
use fcgi.Outcome.{M, ok}
use fcgi.Math.Alignment.{padding}
use fcgi.Math.Alignment.Laws.{padding_completes}
use fcgi.Istream.{goodbit, at_end, on}
use fcgi.NamesValues.{names_values, pair_index}
use fcgi.NamesValues.Encode.{encode}
use fcgi.NamesValues.RoundTrip.{stored, names_values-encode}
use fcgi.NamesValues.Pairs.{Lacks, IsFirst, pair_index-IsFirst}

-- A stream buffer that holds all of its bytes.
abbrev pop : M (List ℕ) (Option ℕ)
pop [] = ok none []
pop (b ∷ bs) = ok (some b) bs

abbrev query : List (List ℕ × List ℕ)
query = (65 ∷ [], 66 ∷ 67 ∷ []) ∷ ([], []) ∷ []

names_values-encode_example :
    names_values pop 3 (on goodbit (encode query)) ≡ ok (map stored query) (on at_end [])
names_values-encode_example =
    names_values-encode pop query 3 (encode query) [] [] (omega arith, (omega arith, tt))
      (omega arith)
      (_, refl, (_, refl, (_, refl, (_, refl, (_, refl, (_, refl, (_, refl, refl))))))) refl

pair_index-IsFirst_example :
    ((pair_index (65 ∷ []) (map stored query) ≡ none) × Lacks (65 ∷ []) (map stored query))
    ⊎ ((i : ℕ) × (pair_index (65 ∷ []) (map stored query) ≡ some i)
        × IsFirst i (65 ∷ []) (map stored query))
pair_index-IsFirst_example = pair_index-IsFirst (65 ∷ []) (map stored query)

padding_completes_example :
    (p : ℕ) × (padding 13 (2 ^ 3) tt ≡ ok p tt) × (p < 2 ^ 3) × ((13 + p) % 2 ^ 3 ≡ 0)
padding_completes_example = padding_completes tt 13 3 (omega arith) (omega arith)
