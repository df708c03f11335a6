-- ===== src/Prelude/Bits.antt =====
-- Laws of `bit_and` at variables: a mask of low ones is a remainder.
use Prim.Native.Nat.{ℕ, zero, suc, ◌+◌, ◌-◌, ◌*◌, ◌/◌, ◌%◌, ◌^◌, ◌≤◌, ◌<◌}
use Prim.Native.Nat.{min, max, bit_and, bit_or, digits, bit_and-bitwise, bit_or-bitwise}
use mathlib.Core.Path.{◌≡◌, ap, ◌∙◌}
use native.Mathlib.Nat.{
  pow-suc, div-add-mod, div-div-eq-div-mul, mul-mod_left, mod-mod_of_dvd, dvd_of_mod-eq-zero,
  zero-add, suc-add, mod_self, mul-one, div-one, mod-eq_of_lt, zero-div,
}
use native.Mathlib.Omega.{arith}

-- The conjunction digit by digit, with fuel for the first number.
abbrev conj : ℕ → ℕ → ℕ → ℕ
conj fuel x y = digits (λ _. 0) min fuel x y

pub pow_pos : (k : ℕ) → 1 ≤ 2 ^ k
pow_pos zero = omega arith
pow_pos (suc k) = omega (arith, pow-suc 2 k, pow_pos k)

-- The remainder modulo `2 * m`, by its lowest digit.
mod_double : (a m : ℕ) → 1 ≤ m → a % (2 * m) ≡ a / 2 % m * 2 + a % 2
mod_double a m h = omega (
  arith,
  div-add-mod a (2 * m),
  div-add-mod (a / 2) m,
  ap (λ (t : ℕ). m * t) (div-div-eq-div-mul a 2 m),
)

double : (k : ℕ) → 2 ^ suc k ≡ 2 * 2 ^ k
double k = omega (arith, pow-suc 2 k)

half_mask : (k : ℕ) → ((2 ^ suc k - 1) / 2 ≡ 2 ^ k - 1) × ((2 ^ suc k - 1) % 2 ≡ 1)
half_mask k = (omega (arith, pow-suc 2 k, pow_pos k), omega (arith, pow-suc 2 k, pow_pos k))

zero-mod : (m : ℕ) → 1 ≤ m → 0 % m ≡ 0
zero-mod m h = mod-eq_of_lt (omega arith)

conj-mask : (fuel k x : ℕ) → x ≤ fuel → conj fuel x (2 ^ k - 1) ≡ x % 2 ^ k
conj-mask zero k zero h = rw (zero-mod (2 ^ k) (pow_pos k))
conj-mask zero k (suc x) h = absurd (omega arith)
conj-mask (suc fuel) k zero h = rw (zero-mod (2 ^ k) (pow_pos k))
conj-mask (suc fuel) zero (suc x) h = omega (arith, conj-mask fuel zero (suc x / 2) (omega arith))
conj-mask (suc fuel) (suc k) (suc x) h =
    let (half, odd) = half_mask k in
    rw (half, odd, conj-mask fuel k (suc x / 2) (omega arith), double)
      (omega (arith, mod_double (suc x) (2 ^ k) (pow_pos k)))

-- `x & (2^k - 1)` is `x % 2^k`.
pub bit_and_mask : (k a : ℕ) → bit_and a (2 ^ k - 1) ≡ a % 2 ^ k
bit_and_mask k a = bit_and-bitwise a (2 ^ k - 1) ∙ conj-mask a k a (omega arith)

pub pow-add : (j k : ℕ) → 2 ^ (j + k) ≡ 2 ^ j * 2 ^ k
pow-add zero k = rw zero-add (omega arith)
pow-add (suc j) k =
    rw (suc-add, double (j + k), double j) (omega (arith, ap (λ (t : ℕ). 2 * t) (pow-add j k)))

pub pow_lt : (k w : ℕ) → k < w → 2 ^ k < 2 ^ w
pow_lt k zero h = absurd (omega arith)
pow_lt zero (suc w) h = omega (arith, double w, pow_pos w)
pow_lt (suc k) (suc w) h = omega (arith, double w, double k, pow_lt k w (omega arith))

-- 2^k and 2^k - 1 have no digit in common.
pub bit_and_pow : (k : ℕ) → bit_and (2 ^ k) (2 ^ k - 1) ≡ 0
bit_and_pow k = rw (bit_and_mask k (2 ^ k)) (mod_self (2 ^ k))

-- A smaller power of 2 divides a larger one.
pub pow-mod_pow : (k w : ℕ) → k ≤ w → 2 ^ w % 2 ^ k ≡ 0
pow-mod_pow k w h =
    let e : w ≡ (w - k) + k = omega arith in
    rw (e, pow-add (w - k) k) (mul-mod_left (2 ^ (w - k)) (2 ^ k))

pub mod_pow-mod_pow : (k w a : ℕ) → k ≤ w → a % 2 ^ w % 2 ^ k ≡ a % 2 ^ k
mod_pow-mod_pow k w a h = mod-mod_of_dvd (2 ^ k) a (dvd_of_mod-eq-zero (2 ^ k) (pow-mod_pow k w h))

shifted_mask : (k m : ℕ) → m * 2 ^ suc k / 2 ≡ m * 2 ^ k
shifted_mask k m = omega (arith, ap (λ (t : ℕ). m * t) (double k))

shifted_even : (k m : ℕ) → m * 2 ^ suc k % 2 ≡ 0
shifted_even k m = omega (arith, ap (λ (t : ℕ). m * t) (double k))

conj-high :
    (fuel k j x : ℕ) → x ≤ fuel → conj fuel x ((2 ^ j - 1) * 2 ^ k) ≡ x / 2 ^ k % 2 ^ j * 2 ^ k
conj-high fuel zero j x h = rw (mul-one, conj-mask fuel j x h, div-one) (omega arith)
conj-high zero (suc k) j zero h =
    rw (zero-div (2 ^ suc k), zero-mod (2 ^ j) (pow_pos j)) (omega arith)
conj-high zero (suc k) j (suc x) h = absurd (omega arith)
conj-high (suc fuel) (suc k) j zero h =
    rw (zero-div (2 ^ suc k), zero-mod (2 ^ j) (pow_pos j)) (omega arith)
conj-high (suc fuel) (suc k) j (suc x) h =
    rw
      (
        shifted_mask k (2 ^ j - 1),
        shifted_even k (2 ^ j - 1),
        conj-high fuel k j (suc x / 2) (omega arith),
      )
      (rw (div-div-eq-div-mul, double k) (omega arith))

-- `x & (m * 2^k)` for a mask m of j low ones keeps the digits k .. k + j - 1.
pub bit_and_high : (k j a : ℕ) → bit_and a ((2 ^ j - 1) * 2 ^ k) ≡ a / 2 ^ k % 2 ^ j * 2 ^ k
bit_and_high k j a = bit_and-bitwise a ((2 ^ j - 1) * 2 ^ k) ∙ conj-high a k j a (omega arith)

disj-pow : (fuel k x : ℕ) → x ≤ fuel → x < 2 ^ k → digits (λ b. b) max fuel x (2 ^ k) ≡ x + 2 ^ k
disj-pow zero k zero h l = omega arith
disj-pow zero k (suc x) h l = absurd (omega arith)
disj-pow (suc fuel) k zero h l = omega arith
disj-pow (suc fuel) zero (suc x) h l = absurd (omega arith)
disj-pow (suc fuel) (suc k) (suc x) h l =
    let half : 2 ^ suc k / 2 ≡ 2 ^ k = omega (arith, double k) in
    let even : 2 ^ suc k % 2 ≡ 0 = omega (arith, double k) in
    rw (half, even, disj-pow fuel k (suc x / 2) (omega arith) (omega (arith, double k)))
      (omega (arith, double k))

-- `x | 2^k` for an x below 2^k.
pub bit_or_pow : (k x : ℕ) → x < 2 ^ k → bit_or x (2 ^ k) ≡ x + 2 ^ k
bit_or_pow k x h = bit_or-bitwise x (2 ^ k) ∙ disj-pow x k x (omega arith) h
