-- ===== src/Math/Alignment/Laws.antt =====
-- What `padding` returns: the least number of bytes that completes a multiple of the alignment.
use native.Mathlib.Nat.{
  add-mod-mod, mod-lt, mod-eq_of_lt, div-eq_of_lt-le, div-lt_iff_lt-mul, div-add-mod', mul-sub,
}
use fcgi.Prelude.{ℕ, ◌+◌, ◌-◌, ◌*◌, ◌/◌, ◌%◌, ◌^◌, ◌≤◌, ◌<◌, ◌≡◌, true, ap, ◌∙◌, arith}
use fcgi.Prelude.Bits.{
  bit_and_mask, bit_and_pow, mod_pow-mod_pow, pow-mod_pow, pow_pos, pow_lt, pow-add, bit_and_high,
}
use fcgi.Outcome.{ok}
use fcgi.Math.Alignment.{word, mask_of, negated, is_power_of_two, padding, aligned}

mask_of-pow : (k : ℕ) → k < 64 → mask_of (2 ^ k) ≡ 2 ^ k - 1
mask_of-pow k h = omega (arith, pow_pos k, pow_lt k 64 h)

pub is_power_of_two-pow : (k : ℕ) → k < 64 → is_power_of_two (2 ^ k) ≡ true
unfolding is_power_of_two
is_power_of_two-pow k h = rw (mask_of-pow k h, bit_and_pow k)

-- The value that `padding` returns at an alignment of 2^k.
abbrev pub pad : ℕ → ℕ → ℕ
pad value k = negated value % 2 ^ k

pub padding-pow :
    {S : Type 0} (s : S) (value k : ℕ) → k < 64 → padding value (2 ^ k) s ≡ ok (pad value k) s
unfolding padding
padding-pow s value k h =
    rw (is_power_of_two-pow k h, mask_of-pow k h, bit_and_mask k (negated value))

pub pad_lt : (value k : ℕ) → pad value k < 2 ^ k
pad_lt value k = mod-lt (negated value) (pow_pos k)

pub pad_aligns : (value k : ℕ) → k < 64 → value ≤ word → (value + pad value k) % 2 ^ k ≡ 0
pad_aligns value k h l =
    rw (mod_pow-mod_pow k 64 (word - value) (omega arith), add-mod-mod, whole)
      (pow-mod_pow k 64 (omega arith))
  where
    whole : value + (word - value) ≡ word
    whole = omega arith

-- For an alignment that is a power of 2 below 2^64, `padding` returns; its result is less than the
-- alignment, and completes the value to a multiple of the alignment.
pub padding_completes :
    {S : Type 0} (s : S) (value k : ℕ)
    → k < 64
    → value ≤ word
    → (p : ℕ) × (padding value (2 ^ k) s ≡ ok p s) × (p < 2 ^ k) × ((value + p) % 2 ^ k ≡ 0)
padding_completes s value k h l =
    (pad value k, padding-pow s value k h, pad_lt value k, pad_aligns value k h l)

word_split : (k : ℕ) → k < 64 → word ≡ 2 ^ (64 - k) * 2 ^ k
word_split k h = let e : 64 ≡ (64 - k) + k = omega arith in ap (λ n. 2 ^ n) e ∙ pow-add (64 - k) k

high_mask : (k : ℕ) → k < 64 → negated (2 ^ k) ≡ (2 ^ (64 - k) - 1) * 2 ^ k
high_mask k h =
    omega (arith, pow_pos k, pow_lt k 64 h, word_split k h, mul-sub (2 ^ k) (2 ^ (64 - k)) 1)

-- The multiple of 2^k that `padding` completes is the one that the mask of `aligned` keeps.
round_up :
    (value k : ℕ)
    → k < 64
    → value + 2 ^ k ≤ word
    → (value + (2 ^ k - 1)) / 2 ^ k * 2 ^ k ≡ value + pad value k
round_up value k h l =
    let t = value + pad value k in
    let whole : t / 2 ^ k * 2 ^ k ≡ t =
      omega (arith, div-add-mod' t (2 ^ k), pad_aligns value k h (omega (arith, pow_pos k))) in
    rw
      (div-eq_of_lt-le {k = t / 2 ^ k} (2 ^ k) {m = value + (2 ^ k - 1)}
        (omega (arith, whole, pad_lt value k)) (omega (arith, whole, pow_pos k)))
      whole

-- For such an alignment `aligned` agrees with `padding`: where the sum does not wrap it returns the
-- value plus its padding.
aligned-padding :
    {S : Type 0} (s : S) (value k : ℕ)
    → k < 64
    → value + 2 ^ k ≤ word
    → aligned value (2 ^ k) s ≡ ok (value + pad value k) s
unfolding aligned
aligned-padding s value k h l =
    let x = value + (2 ^ k - 1) in
    let small : x < word = omega (arith, pow_pos k) in
    let below : x / 2 ^ k < 2 ^ (64 - k) =
      (div-lt_iff_lt-mul (pow_pos k)).1 (omega (arith, word_split k h)) in
    rw (
      is_power_of_two-pow k h,
      mask_of-pow k h,
      mod-eq_of_lt small,
      high_mask k h,
      bit_and_high k (64 - k) x,
      mod-eq_of_lt below,
      round_up value k h l,
    )
