-- ===== src/Math/Alignment.antt =====
-- src/math/alignment.hpp. `T` is a 64-bit integer, given by its bit pattern: `std::size_t`, or
-- `std::streamsize` for a value that is not negative, so the first test of each function passes.
pub mod Laws
use Prim.Native.Nat.{bit_and}
use fcgi.Prelude.{ℕ, ◌+◌, ◌-◌, ◌%◌, ◌^◌, Bool, ◌==◌, if◌then◌else◌}
use fcgi.Outcome.{Outcome, M, pure, throw, padding_not_power_of_2, aligned_not_power_of_2}

abbrev pub word : ℕ
word = 2 ^ 64

-- `number - 1`, which wraps at 0.
abbrev pub mask_of : ℕ → ℕ
mask_of number = (number + (word - 1)) % word

pub is_power_of_two : ℕ → Bool
is_power_of_two number = bit_and number (mask_of number) == 0

-- `static_cast<T>(0) - value`
abbrev pub negated : ℕ → ℕ
negated value = (word - value) % word

unfoldable pub padding : {S : Type 0} → ℕ → ℕ → M S ℕ
unfolding is_power_of_two
padding value alignment =
    if is_power_of_two alignment
    then pure (bit_and (negated value) (mask_of alignment))
    else throw padding_not_power_of_2

unfoldable pub aligned : {S : Type 0} → ℕ → ℕ → M S ℕ
unfolding is_power_of_two
aligned value alignment =
    if is_power_of_two alignment
    then pure (bit_and ((value + mask_of alignment) % word) (negated alignment))
    else throw aligned_not_power_of_2
