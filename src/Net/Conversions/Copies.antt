-- ===== src/Net/Conversions/Copies.antt =====
-- What copy() writes, and that conv() is its own inverse.
use fcgi.Prelude.{
  le_or_lt, zeros, take_all, append-nil, ℕ, zero, suc, ◌+◌, ◌-◌, ◌≤◌, ◌<◌, ◌≡◌, ◌⊎◌, inl, inr, refl,
  ap, sym, ◌∙◌, List, [], ◌∷◌, ◌++◌, Option, none, some, length, length-take, take, arith,
  append_assoc, le→leb, lt→leb,
}
use fcgi.Outcome.{Outcome, ok, threw, copy_to_null, copy_from_null, copy_would_not_fit}
use fcgi.Net.Conversions.{Endianness, big, little, set, copy_big, copy_little, copy, conv}

abbrev reverse_onto : List ℕ → List ℕ → List ℕ
reverse_onto [] ys = ys
reverse_onto (x ∷ xs) ys = reverse_onto xs (x ∷ ys)

-- The order of the network, from the host's.
abbrev pub in_network_order : Endianness → List ℕ → List ℕ
in_network_order big bytes = bytes
in_network_order little bytes = reverse_onto bytes []

reverse_twice :
    (xs ys zs : List ℕ) → reverse_onto (reverse_onto xs ys) zs ≡ reverse_onto ys (xs ++ zs)
reverse_twice [] ys zs = refl
reverse_twice (x ∷ xs) ys zs = reverse_twice xs (x ∷ ys) zs

length-reverse : (xs ys : List ℕ) → length (reverse_onto xs ys) ≡ length xs + length ys
length-reverse [] ys = omega arith
length-reverse (x ∷ xs) ys = rw (length-reverse xs (x ∷ ys)) (omega arith)

length-set : (xs : List ℕ) (i b : ℕ) → length (set xs i b) ≡ length xs
length-set [] i b = refl
length-set (x ∷ xs) zero b = refl
length-set (x ∷ xs) (suc i) b = rw (length-set xs i b)

take-set :
    (xs : List ℕ) (i b : ℕ) → i < length xs → take (suc i) (set xs i b) ≡ take i xs ++ (b ∷ [])
take-set [] i b h = absurd (omega arith)
take-set (x ∷ xs) zero b h = refl
take-set (x ∷ xs) (suc i) b h = rw (take-set xs i b (omega arith))

copy_big-writes :
    (d s i : ℕ) (src dest : List ℕ)
    → length dest ≡ d
    → s ≤ d
    → length src + i ≡ s
    → copy_big d s i src dest ≡ take (d - s + i) dest ++ src
unfolding copy_big
copy_big-writes d s i [] dest l k h = sym (
    append-nil (take (d - s + i) dest)
    ∙ ap (λ (n : ℕ). take n dest) (omega (arith, l))
    ∙ take_all dest)
copy_big-writes d s i (b ∷ src) dest l k h =
    let p = d - s + i in
    let next : d - s + suc i ≡ suc p = omega arith in
    copy_big-writes d s (suc i) src (set dest p b) (length-set dest p b ∙ l) k (omega arith)
    ∙ ap (λ (n : ℕ). take n (set dest p b) ++ src) next
    ∙ ap (λ (xs : List ℕ). xs ++ src) (take-set dest p b (omega arith))
    ∙ append_assoc (take p dest) (b ∷ []) src

-- The last of `xs` is replaced.
set-last :
    (n : ℕ) (xs ys : List ℕ) (b : ℕ)
    → length xs ≡ suc n
    → set (xs ++ ys) n b ≡ take n xs ++ (b ∷ ys)
set-last n [] ys b h = absurd (omega arith)
set-last zero (x ∷ []) ys b h = refl
set-last zero (x ∷ y ∷ xs) ys b h = absurd (omega arith)
set-last (suc n) (x ∷ xs) ys b h = rw (set-last n xs ys b (omega arith))

take-take : (m n : ℕ) (xs : List ℕ) → m ≤ n → take m (take n xs) ≡ take m xs
take-take zero n xs h = refl
take-take (suc m) zero xs h = absurd (omega arith)
take-take (suc m) (suc n) [] h = refl
take-take (suc m) (suc n) (x ∷ xs) h = rw (take-take m n xs (omega arith))

copy_little-writes :
    (d i : ℕ) (src xs ys : List ℕ)
    → length xs + i ≡ d
    → length src ≤ length xs
    → copy_little d i src (xs ++ ys) ≡ take (length xs - length src) xs ++ reverse_onto src ys
unfolding copy_little
copy_little-writes d i [] xs ys l h =
    ap (λ (zs : List ℕ). zs ++ ys) (sym (ap (λ (n : ℕ). take n xs) (omega arith) ∙ take_all xs))
copy_little-writes d i (b ∷ src) xs ys l h =
    let n = length xs - 1 in
    let size : length xs ≡ suc n = omega arith in
    let place : d - 1 - i ≡ n = omega arith in
    let short : length (take n xs) ≡ n = length-take n xs ∙ omega arith in
    ap (λ (k : ℕ). copy_little d (suc i) src (set (xs ++ ys) k b)) place
    ∙ ap (copy_little d (suc i) src) (set-last n xs ys b size)
    ∙ copy_little-writes d (suc i) src (take n xs) (b ∷ ys) (omega (arith, short))
        (omega (arith, short))
    ∙ ap (λ (k : ℕ). take (k - length src) (take n xs) ++ reverse_onto src (b ∷ ys)) short
    ∙ ap (λ (zs : List ℕ). zs ++ reverse_onto src (b ∷ ys))
        (take-take (n - length src) n xs (omega arith))
    ∙ ap (λ (k : ℕ). take k xs ++ reverse_onto src (b ∷ ys)) (omega arith)

length-zeros : (n : ℕ) → length (zeros n) ≡ n
length-zeros zero = refl
length-zeros (suc n) = rw (length-zeros n)

abbrev pub Copied :
    {S : Type 0} → Endianness → Option (List ℕ) → Option (List ℕ) → S → Outcome S (List ℕ) → Type 0
Copied host none src s m = m ≡ threw copy_to_null s
Copied host (some dest) none s m = m ≡ threw copy_from_null s
Copied host (some dest) (some src) s m =
    ((length dest < length src) × (m ≡ threw copy_would_not_fit s))
    ⊎ ((length src ≤ length dest)
        × (m ≡ ok (take (length dest - length src) dest ++ in_network_order host src) s))

copy-writes :
    {S : Type 0} (host : Endianness) (dest src : List ℕ) (s : S)
    → length src ≤ length dest
    → copy host (some dest) (some src) s
      ≡ ok (take (length dest - length src) dest ++ in_network_order host src) s
unfolding copy
copy-writes big dest src s h = rw (le→leb (length src) (length dest) h) (
    ap (λ (xs : List ℕ). ok xs s)
      (copy_big-writes (length dest) (length src) 0 src dest refl h (omega arith)
        ∙ ap (λ (n : ℕ). take n dest ++ src) (omega arith)))
copy-writes little dest src s h = rw (le→leb (length src) (length dest) h) (
    ap (λ (xs : List ℕ). ok xs s)
      (ap (copy_little (length dest) 0 src) (sym (append-nil dest))
        ∙ copy_little-writes (length dest) 0 src dest [] (omega arith) h))

copy-large :
    {S : Type 0} (host : Endianness) (dest src : List ℕ) (s : S)
    → length dest < length src
    → copy host (some dest) (some src) s ≡ threw copy_would_not_fit s
unfolding copy
copy-large host dest src s h = rw (lt→leb (length src) (length dest) h)

copy-nulls :
    {S : Type 0} (host : Endianness) (dest : List ℕ) (src : Option (List ℕ)) (s : S)
    → (copy host none src s ≡ threw copy_to_null s)
      × (copy host (some dest) none s ≡ threw copy_from_null s)
unfolding copy
copy-nulls host dest src s = (refl, refl)

-- copy() throws for a null destination, then for a null source, then for a source larger than the destination;
-- otherwise it keeps the front of the destination and writes the source to its end, in the order of the network.
pub copy-Copied :
    {S : Type 0} (host : Endianness) (dest src : Option (List ℕ)) (s : S)
    → Copied host dest src s (copy host dest src s)
copy-Copied host none src s = (copy-nulls host [] src s).0
copy-Copied host (some dest) none s = (copy-nulls host dest none s).1
copy-Copied host (some dest) (some src) s = elim (le_or_lt (length src) (length dest)) [
  | inl h ↦ inr (h, copy-writes host dest src s h)
  | inr h ↦ inl (h, copy-large host dest src s h)
]

order_twice :
    (host : Endianness) (bytes : List ℕ)
    → in_network_order host (in_network_order host bytes) ≡ bytes
order_twice big bytes = refl
order_twice little bytes = reverse_twice bytes [] [] ∙ append-nil bytes

order-length :
    (host : Endianness) (bytes : List ℕ) → length (in_network_order host bytes) ≡ length bytes
order-length big bytes = refl
order-length little bytes = length-reverse bytes [] ∙ omega arith

conv-orders :
    {S : Type 0} (host : Endianness) (size : ℕ) (bytes : List ℕ) (s : S)
    → length bytes ≡ size
    → conv host size (some bytes) s ≡ ok (in_network_order host bytes) s
unfolding conv
conv-orders host size bytes s h =
    let none_left : length (zeros size) - length bytes ≡ 0 = omega (arith, length-zeros size) in
    copy-writes host (zeros size) bytes s (omega (arith, length-zeros size))
    ∙ ap (λ (n : ℕ). ok (take n (zeros size) ++ in_network_order host bytes) s) none_left

-- conv() to a type of the same size succeeds, and to convert its result again gives the value back.
conv-conv :
    {S : Type 0} (host : Endianness) (bytes : List ℕ) (s : S)
    → (converted : List ℕ) × (conv host (length bytes) (some bytes) s ≡ ok converted s)
      × (conv host (length bytes) (some converted) s ≡ ok bytes s)
conv-conv host bytes s = (
  in_network_order host bytes,
  conv-orders host (length bytes) bytes s refl,
  conv-orders host (length bytes) (in_network_order host bytes) s (order-length host bytes)
      ∙ ap (λ (xs : List ℕ). ok xs s) (order_twice host bytes),
)
