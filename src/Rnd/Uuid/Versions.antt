-- ===== src/Rnd/Uuid/Versions.antt =====
-- The version and the form of a random UUID.
use Prim.Native.Nat.{bit_and, bit_or}
use fcgi.Prelude.{
  length-drop, eq→==, ℕ, zero, suc, ◌+◌, ◌/◌, ◌%◌, ◌≤◌, ◌≡◌, ◌⊎◌, refl, ap, ◌∙◌, true, false, List,
  [], ◌∷◌, ◌++◌, length, get_or, arith, ◌==◌,
}
use fcgi.Prelude.Bits.{bit_and_mask, bit_or_pow}
use fcgi.Outcome.{ok, guard, ◌>>=◌, ◌>>◌}
use fcgi.Net.Conversions.{Endianness}
use fcgi.Rnd.{Rand, cpp_pl_3rd, random_bytes}
use fcgi.Rnd.Uuid.{
  Uuid, rep_of, set_version, is_uuid_ok, digit, hex2, hex4, hex8, node_hex, make_v4, uuid_to_string,
}

version_bits : (n : ℕ) → bit_or (bit_and n 4095) 16384 ≡ n % 4096 + 16384
version_bits n =
    ap (λ (m : ℕ). bit_or m 16384) (bit_and_mask 12 n) ∙ bit_or_pow 14 (n % 4096) (omega arith)

variant_bits : (n : ℕ) → bit_or (bit_and n 63) 128 ≡ n % 64 + 128
variant_bits n =
    ap (λ (m : ℕ). bit_or m 128) (bit_and_mask 6 n) ∙ bit_or_pow 7 (n % 64) (omega arith)

-- The loop makes as many bytes as it is asked for.
random_bytes-makes :
    {R : Type 0} (rand : Rand R) (n : ℕ) (r : R)
    → (bytes : List ℕ) × (s : R) × (random_bytes rand n r ≡ ok bytes s) × (length bytes ≡ n)
unfolding random_bytes cpp_pl_3rd
random_bytes-makes rand zero r = ([], r, refl, refl)
random_bytes-makes rand (suc n) r =
    let (b, s) = rand.scaled 255 r in
    let (bytes, t, p, l) = random_bytes-makes rand n s in
    (
      (b % 254 + 1) ∷ bytes,
      t,
      rw (random_bytes, ◌>>=◌, cpp_pl_3rd, ◌>>◌, guard, ◌>>=◌, p),
      omega (arith, l),
    )

length-node_hex : (node : List ℕ) → length (node_hex node) ≡ length node + length node
length-node_hex [] = refl
length-node_hex (b ∷ bs) = omega (arith, length-node_hex bs)

-- 8, 9, a or b
abbrev pub IsVariant : ℕ → Type 0
IsVariant c = (c ≡ 56) ⊎ (c ≡ 57) ⊎ (c ≡ 97) ⊎ (c ≡ 98)

digit-IsVariant : (d : ℕ) → 8 ≤ d → d ≤ 11 → IsVariant (digit d)
digit-IsVariant d h k = ground arith

abbrev pub text_of : Uuid → List ℕ
text_of u =
    hex8 u.time_low
    ++ (45 ∷ hex4 u.time_mid
        ++ (45 ∷ hex4 u.time_hi_and_version
            ++ (45 ∷ hex2 u.clock_seq_hi_and_reserved
                ++ hex2 u.clock_seq_low
                ++ (45 ∷ node_hex u.node))))

-- A text of 36 characters in five groups, of the version 4 and the variant of the standard.
abbrev pub IsVersion4 : List ℕ → Type 0
IsVersion4 text =
    (length text ≡ 36)
    × (get_or text 8 0 ≡ 45)
    × (get_or text 13 0 ≡ 45)
    × (get_or text 14 0 ≡ 52)
    × (get_or text 18 0 ≡ 45)
    × IsVariant (get_or text 19 0)
    × (get_or text 23 0 ≡ 45)

text_of-IsVersion4 :
    (u : Uuid) (n m : ℕ)
    → u.time_hi_and_version ≡ n % 4096 + 16384
    → u.clock_seq_hi_and_reserved ≡ m % 64 + 128
    → length u.node ≡ 6
    → IsVersion4 (text_of u)
text_of-IsVersion4 u n m hi clock l =
    let four : u.time_hi_and_version / 256 % 256 / 16 % 16 ≡ 4 = omega (arith, hi) in
    (
      omega (arith, length-node_hex u.node, l),
      refl,
      refl,
      ap digit four,
      refl,
      digit-IsVariant (u.clock_seq_hi_and_reserved / 16 % 16) (omega (arith, clock))
          (omega (arith, clock)),
      refl,
    )

set_version-is_uuid_ok : (u : Uuid) → is_uuid_ok (set_version u) ≡ true
set_version-is_uuid_ok u =
    let e = version_bits u.time_hi_and_version in
    let some_bit : (bit_or (bit_and u.time_hi_and_version 4095) 16384 == 0) ≡ false =
      ground (arith, version_bits u.time_hi_and_version) in
    ground arith

uuid_to_string-text :
    {S : Type 0} (u : Uuid) (s : S)
    → length (text_of u) ≡ 36
    → uuid_to_string u s ≡ ok (text_of u) s
unfolding uuid_to_string
uuid_to_string-text u s h = rw (eq→== (length (text_of u)) 36 h)

-- Whatever ::rand returns, make_v4() succeeds, and the text of its UUID, by to_string(), has 36 characters, with dashes
-- after the first 8, then 4, 4 and 4 digits, the version digit 4, and a variant digit 8, 9, a or b.
pub make_v4-IsVersion4 :
    {R : Type 0} (host : Endianness) (rand : Rand R) (r : R)
    → (u : Uuid) × (s : R) × (text : List ℕ) × (make_v4 host rand r ≡ ok u s)
      × (uuid_to_string u s ≡ ok text s)
      × IsVersion4 text
unfolding make_v4
make_v4-IsVersion4 host rand r =
    let (raw, s, p, l) = random_bytes-makes rand 16 r in
    let rep = rep_of host raw in
    let u = set_version rep in
    let six : length rep.node ≡ 6 = length-drop 10 raw ∙ omega (arith, l) in
    let good =
      text_of-IsVersion4 u rep.time_hi_and_version rep.clock_seq_hi_and_reserved
        (version_bits rep.time_hi_and_version) (variant_bits rep.clock_seq_hi_and_reserved) six in
    (
      u,
      s,
      text_of u,
      rw (p, ◌>>=◌, ◌>>◌, set_version-is_uuid_ok rep),
      uuid_to_string-text u s good.0,
      good,
    )
