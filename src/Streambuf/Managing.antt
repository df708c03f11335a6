-- ===== src/Streambuf/Managing.antt =====
-- The answer of process_header() to a get-values record (src/fcgi/streambuf.cpp): what it has to say, and the loop that
-- fills it in.
pub mod Answering
pub mod Swallowing
use mathlib.Core.Bool.{false≢true}
use fcgi.Prelude.{
  ℕ, ◌+◌, ◌-◌, ◌≤◌, ◌<◌, ◌≡◌, refl, ◌≢◌, ◌⊎◌, inl, inr, sym, ◌∙◌, ap, true, false, List, [], ◌∷◌,
  ◌++◌, Option, none, some, map, length, length-append, append-nil, append_assoc, arith, ltb, leb,
  le→leb, lt→leb, lt→ltb, le→ltb, le_or_lt, ◌%◌, ◌^◌, if◌then◌else◌, Bool-cases,
}
use fcgi.Outcome.{Outcome, M, ok, terminated, assert, ◌>>=◌, ◌>>◌}
use fcgi.Basics.Header.{Header}
use fcgi.NamesValues.{same, name}
use fcgi.NamesValues.Pairs.{same→eq, same→ne, same_self}
use fcgi.NamesValues.Encode.{encode_pair, encode}
use fcgi.NamesValues.RoundTrip.{stored, name-stored}
use fcgi.Streambuf.{St}
use fcgi.Streambuf.ProcessHeader.{
  max_conns, max_reqs, mpxs_conns, variable_value, result_room, fill_result,
}

-- The variables of the protocol, with what this server says of each: one connection, one request, no multiplexing.
abbrev pub IsKnown : List ℕ → ℕ → Type 0
IsKnown n v =
    ((n ≡ max_conns) × (v ≡ b'1')) ⊎ ((n ≡ max_reqs) × (v ≡ b'1')) ⊎ ((n ≡ mpxs_conns) × (v ≡ b'0'))

-- To each pair of a known name belongs the name with its value, in the same order; the others are passed over.
pub data Answers : List (List ℕ × List ℕ) → List (List ℕ × List ℕ) → Type 0 where
  over : Answers [] []
  told :
      {n x : List ℕ} {v : ℕ} {ps qs : List (List ℕ × List ℕ)}
      → IsKnown n v
      → Answers ps qs
      → Answers ((n, x) ∷ ps) ((n, v ∷ []) ∷ qs)
  passed :
      {n x : List ℕ} {ps qs : List (List ℕ × List ℕ)}
      → ((v : ℕ) → ¬ IsKnown n v)
      → Answers ps qs
      → Answers ((n, x) ∷ ps) qs

variable_value-Known : (n : List ℕ) (v : ℕ) → variable_value n ≡ some v → IsKnown n v
unfolding variable_value
variable_value-Known n v h = elim (Bool-cases (same n max_conns)) [
  | inl a ↦ inl (same→eq n max_conns a, cc (rw a at h))
  | inr a ↦ elim (Bool-cases (same n max_reqs)) [
    | inl b ↦ inr (inl (same→eq n max_reqs b, cc (rw (a, b) at h)))
    | inr b ↦ elim (Bool-cases (same n mpxs_conns)) [
      | inl c ↦ inr (inr (same→eq n mpxs_conns c, cc (rw (a, b, c) at h)))
      | inr c ↦ cc (rw (a, b, c) at h)
    ]
  ]
]

Known-variable_value : (n : List ℕ) (v : ℕ) → IsKnown n v → variable_value n ≡ some v
unfolding variable_value
Known-variable_value n v (inl (a, b)) = rw (a, b)
Known-variable_value n v (inr (inl (a, b))) = rw (a, b)
Known-variable_value n v (inr (inr (a, b))) = rw (a, b)

Known-short : (n : List ℕ) (v : ℕ) → IsKnown n v → length n ≤ 15
Known-short n v (inl (a, b)) = omega (arith, ap length a)
Known-short n v (inr (inl (a, b))) = omega (arith, ap length a)
Known-short n v (inr (inr (a, b))) = omega (arith, ap length a)

-- What a name adds to the answer.
abbrev answer : Option ℕ → List ℕ → List (List ℕ × List ℕ) → List (List ℕ × List ℕ)
answer none n qs = qs
answer (some v) n qs = (n, v ∷ []) ∷ qs

abbrev pub answers : List (List ℕ × List ℕ) → List (List ℕ × List ℕ)
answers [] = []
answers ((n, x) ∷ ps) = answer (variable_value n) n (answers ps)

pub answers-Answers : (ps : List (List ℕ × List ℕ)) → Answers ps (answers ps)
answers-Answers [] = over
answers-Answers ((n, x) ∷ ps) = go (variable_value n) refl (answers-Answers ps)
  where
    go :
        (o : Option ℕ)
        → variable_value n ≡ o
        → Answers ps (answers ps)
        → Answers ((n, x) ∷ ps) (answer o n (answers ps))
    go none e a = passed (λ v k. cc (e, Known-variable_value n v k)) a
    go (some v) e a = told (variable_value-Known n v e) a

encode_pair-told :
    (n : List ℕ) (v : ℕ) → length n ≤ 15 → encode_pair (n, v ∷ []) ≡ length n ∷ 1 ∷ n ++ v ∷ []
encode_pair-told n v l = rw (lt→ltb (length n) 128 (omega arith))

module _ (header : Header) (s : St) where
  -- What is filled in behind `filled`, if there is room for it.
  abbrev pub Filled : List (List ℕ × List ℕ) → List ℕ → Outcome St (List ℕ) → Type 0
  Filled qs filled o =
      ((length filled + length (encode qs) ≤ result_room) × (o ≡ ok (filled ++ encode qs) s))
      ⊎ ((result_room < length filled + length (encode qs)) × (o ≡ terminated))

  fill_told :
      (n : List ℕ) (v : ℕ) (qs : List (List ℕ × List ℕ)) (filled : List ℕ)
      (rest : List ℕ → M St (List ℕ))
      → length n ≤ 15
      → length filled ≤ result_room
      → ((more : List ℕ) → length more ≤ result_room → Filled qs more (rest more s))
      → Filled ((n, v ∷ []) ∷ qs) filled (
          (assert (leb (length n + 3) (result_room - length filled))
              >> rest (filled ++ ((length n % 2 ^ 8) ∷ 1 ∷ n ++ v ∷ [])))
            s)
  fill_told n v qs filled rest short l ih =
      let more = filled ++ (length n ∷ 1 ∷ n ++ v ∷ []) in
      let byte : filled ++ ((length n % 2 ^ 8) ∷ 1 ∷ n ++ v ∷ []) ≡ more =
        let small : length n % 2 ^ 8 ≡ length n = omega arith in rw small in
      let size : length more ≡ length filled + (length n + 3) =
        omega
          (arith, length-append filled (length n ∷ 1 ∷ n ++ v ∷ []), length-append n (v ∷ [])) in
      let sizes : length (encode ((n, v ∷ []) ∷ qs)) ≡ length n + 3 + length (encode qs) =
        rw (encode_pair-told n v short) (
          omega (
            arith,
            length-append (length n ∷ 1 ∷ n ++ v ∷ []) (encode qs),
            length-append n (v ∷ []),
          )) in
      elim (le_or_lt (length n + 3) (result_room - length filled)) [
        | inl fits ↦ elim (ih more (omega arith)) [
          | inl (k, z) ↦ inl (
            omega arith,
            rw (le→leb (length n + 3) (result_room - length filled) fits, ◌>>=◌, byte, z)
                (ap (λ xs. ok xs s) (append_assoc filled (length n ∷ 1 ∷ n ++ v ∷ []) (encode qs))
                  ∙ ap (λ xs. ok (filled ++ (xs ++ encode qs)) s)
                      (sym (encode_pair-told n v short))),
          )
          | inr (k, z) ↦ inr (
            omega arith,
            rw (le→leb (length n + 3) (result_room - length filled) fits, ◌>>=◌, byte, z),
          )
        ]
        | inr none_left ↦
            inr (
              omega arith,
              rw (lt→leb (length n + 3) (result_room - length filled) none_left, ◌>>=◌),
            )
      ]

  pub fill_result-Filled :
      (ps : List (List ℕ × List ℕ)) (filled : List ℕ)
      → length filled ≤ result_room
      → Filled (answers ps) filled (fill_result header (map stored ps) filled s)
  unfolding fill_result
  fill_result-Filled [] filled l = inl (omega arith, rw append-nil)
  fill_result-Filled ((n, x) ∷ ps) filled l =
      go (variable_value n) refl (λ more k. fill_result-Filled ps more k)
    where
      go :
          (o : Option ℕ)
          → variable_value n ≡ o
          → ((more : List ℕ)
              → length more ≤ result_room
              → Filled (answers ps) more (fill_result header (map stored ps) more s))
          → Filled
              (answer o n (answers ps))
              filled
              (fill_result header (map stored ((n, x) ∷ ps)) filled s)
      go none e ih = rw (name-stored n x, e, fill_result) (ih filled l)
      go (some v) e ih =
          rw
            (
              name-stored n x,
              e,
              fill_result,
              name-stored n x,
              le→ltb 255 (length n) (omega (arith, Known-short n v (variable_value-Known n v e))),
            )
            (fill_told n v (answers ps) filled (λ more. fill_result header (map stored ps) more)
              (Known-short n v (variable_value-Known n v e)) l ih)
