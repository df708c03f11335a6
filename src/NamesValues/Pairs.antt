-- ===== src/NamesValues/Pairs.antt =====
-- Looking a pair up by its name, and adding one.
use fcgi.Prelude.{
  ℕ, zero, suc, ◌+◌, ◌<◌, ◌≡◌, refl, ap, ◌≢◌, ◌⊎◌, inl, inr, true, false, List, [], ◌∷◌, Option,
  none, some, length, arith, get_or, All, Bool-cases,
}
use fcgi.NamesValues.{NameValue, name, same, find_from, pair_index}

pub same→eq : (xs ys : List ℕ) → same xs ys ≡ true → xs ≡ ys
same→eq [] [] h = refl
same→eq [] (y ∷ ys) h = cc
same→eq (x ∷ xs) [] h = cc
same→eq (x ∷ xs) (y ∷ ys) h = ground (arith, same→eq xs ys)

pub same_self : (xs : List ℕ) → same xs xs ≡ true
same_self [] = refl
same_self (x ∷ xs) = ground (arith, same_self xs)

abbrev pub Lacks : List ℕ → List NameValue → Type 0
Lacks n = All (λ p. name p ≢ n)

-- `i` is the index of the first pair of that name.
abbrev pub IsFirst : ℕ → List ℕ → List NameValue → Type 0
IsFirst i n [] = ⊥
IsFirst zero n (p ∷ ps) = name p ≡ n
IsFirst (suc i) n (p ∷ ps) = (name p ≢ n) × IsFirst i n ps

pub same→ne : (xs ys : List ℕ) → same xs ys ≡ false → xs ≢ ys
same→ne xs ys h e = cc (h, ap (same xs) e, same_self xs)

-- What a search from index `i` finds.
abbrev Finds : ℕ → List ℕ → List NameValue → Option ℕ → Type 0
Finds i n ps r = ((r ≡ none) × Lacks n ps) ⊎ ((j : ℕ) × (r ≡ some (i + j)) × IsFirst j n ps)

find_from-Finds : (i : ℕ) (n : List ℕ) (ps : List NameValue) → Finds i n ps (find_from i n ps)
unfolding find_from
find_from-Finds i n [] = inl (refl, tt)
find_from-Finds i n (p ∷ ps) = elim (Bool-cases (same (name p) n)) [
  | inl e ↦ inr (0, rw e (ap some (omega arith)), same→eq (name p) n e)
  | inr e ↦ elim (find_from-Finds (suc i) n ps) [
    | inl (r, l) ↦ inl (rw (e, r), (same→ne (name p) n e, l))
    | inr (j, r, f) ↦ inr (suc j, rw (e, r) (ap some (omega arith)), (same→ne (name p) n e, f))
  ]
]

-- `pair_index` returns nothing when no pair has the name, and otherwise the index of the first that has it.
pub pair_index-IsFirst :
    (n : List ℕ) (ps : List NameValue)
    → ((pair_index n ps ≡ none) × Lacks n ps)
      ⊎ ((i : ℕ) × (pair_index n ps ≡ some i) × IsFirst i n ps)
unfolding pair_index
pair_index-IsFirst n ps = elim (find_from-Finds 0 n ps) [
  | inl x ↦ inl x
  | inr (j, r, f) ↦ inr (j, rw r (ap some (omega arith)), f)
]

pub IsFirst-lt : (i : ℕ) (n : List ℕ) (ps : List NameValue) → IsFirst i n ps → i < length ps
IsFirst-lt i n [] h = absurd h
IsFirst-lt zero n (p ∷ ps) h = omega arith
IsFirst-lt (suc i) n (p ∷ ps) (a, h) = omega (arith, IsFirst-lt i n ps h)

pub IsFirst-name :
    (i : ℕ) (n : List ℕ) (ps : List NameValue) (d : NameValue)
    → IsFirst i n ps
    → name (get_or ps i d) ≡ n
IsFirst-name i n [] d h = absurd h
IsFirst-name zero n (p ∷ ps) d h = h
IsFirst-name (suc i) n (p ∷ ps) d (a, h) = IsFirst-name i n ps d h
