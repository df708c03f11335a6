-- ===== src/NamesValues.antt =====
-- Names_values and Name_value of src/fcgi/basics.cpp, over any stream buffer.
pub mod Yields
pub mod Encode
pub mod RoundTrip
pub mod Pairs
use fcgi.Prelude.{
  ℕ, zero, suc, ◌+◌, ◌*◌, ◌/◌, ◌%◌, ◌^◌, Bool, true, false, not, ◌&&◌, ◌||◌, List, [], ◌∷◌, ◌++◌,
  Option, none, some, length, take, drop, get_or, ltb, ◌==◌, if◌then◌else◌,
}
use fcgi.Outcome.{
  Outcome, M, ok, undefined, stuck, pure, state, ◌>>=◌, ◌>>◌, throw, guard, assert,
  protocol_violation, cannot_read_length, cannot_read_parameters,
}
use fcgi.Istream.{Stream, fail, get, read}

pub record NameValue : Type 0 where
  pub chars : List ℕ
  pub name_size : ℕ
  pub value_size : ℕ

abbrev pub name : NameValue → List ℕ
name p = take p.name_size p.chars

abbrev pub value : NameValue → List ℕ
value p = take p.value_size (drop p.name_size p.chars)

-- The sum of two values of type `int`, undefined where it does not fit.
abbrev pub add_int : {S : Type 0} → ℕ → ℕ → M S ℕ
add_int a b s = if ltb (a + b) (2 ^ 31) then ok (a + b) s else undefined

abbrev pub pair_of : List ℕ → ℕ → ℕ → NameValue
pair_of chars name_size value_size = record {
  chars = chars;
  name_size = name_size;
  value_size = value_size;
}

module _ {S : Type 0} (bump : M S (Option ℕ)) where
  -- `read_length`: a length takes one byte, or four if the top bit of the first is set.
  unfoldable pub read_length : M (Stream S) (Option ℕ)
  read_length = do
    result ← get bump
    elim result [
      | none ↦ pure none
      | some r ↦ if r / 128 % 2 == 0 then pure (some r) else do
        buf ← read bump 3
        guard (length buf == 3) cannot_read_length
        pure (
            some (
              r % 128 * 2 ^ 24 + get_or buf 0 0 * 2 ^ 16 + get_or buf 1 0 * 2 ^ 8 + get_or buf 2 0))
    ]

  unfoldable pub read_data : ℕ → M (Stream S) (List ℕ)
  read_data count = do
    result ← read bump count
    guard (length result == count) cannot_read_parameters
    pure result

  -- The loop of the constructor; `pairs` is `pairs_`. One unit of fuel for each pair, and one more.
  unfoldable pub read_pairs : ℕ → List NameValue → M (Stream S) (List NameValue)
  read_pairs zero pairs r = stuck
  read_pairs (suc fuel) pairs r =
      (do
        name_length ← read_length
        elim name_length [
          | none ↦ pure pairs
          | some n ↦ do
            value_length ← read_length
            elim value_length [
              | none ↦ throw protocol_violation
              | some v ↦ do
                count ← add_int n v
                chars ← read_data count
                read_pairs fuel (pairs ++ pair_of chars n v ∷ [])
            ]
        ])
        r

  -- `Names_values{stream, reserve}`; `reserve` only allocates.
  unfoldable pub names_values : ℕ → M (Stream S) (List NameValue)
  names_values fuel = do r ← state; assert (not (fail r.flags)); read_pairs fuel []

abbrev pub pair_count : List NameValue → ℕ
pair_count = length

-- `std::string_view::operator==`
abbrev pub same : List ℕ → List ℕ → Bool
same [] [] = true
same [] (b ∷ bs) = false
same (a ∷ xs) [] = false
same (a ∷ xs) (b ∷ bs) = (a == b) && same xs bs

-- `find_if` from a pair that stands at index `i`.
unfoldable pub find_from : ℕ → List ℕ → List NameValue → Option ℕ
find_from i n [] = none
find_from i n (p ∷ ps) = if same (name p) n then some i else find_from (suc i) n ps

unfoldable pub pair_index : List ℕ → List NameValue → Option ℕ
unfolding find_from
pair_index n pairs = find_from 0 n pairs

-- `pairs_[index]`, behind the assertion that it is in range.
unfoldable pub pair : {S : Type 0} → ℕ → List NameValue → M S NameValue
pair index pairs = do
  assert (ltb index (pair_count pairs))
  pure (get_or pairs index (pair_of [] 0 0))

abbrev pub add : List ℕ → ℕ → ℕ → List NameValue → List NameValue
add chars name_size value_size pairs = pairs ++ pair_of chars name_size value_size ∷ []

-- `add(name, value)`: `memory` is what this call of `new char[n]` finds in the memory that it gives, n bytes, which
-- nothing says; the texts are not copied into it.
abbrev pub add_text : List ℕ → List ℕ → List ℕ → List NameValue → List NameValue
add_text memory n v pairs = add memory (length n) (length v) pairs
