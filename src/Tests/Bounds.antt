-- ===== src/Tests/Bounds.antt =====
-- An interval of numbers, and endpoints.
use fcgi.Prelude.{ℕ, ◌≡◌, refl, true, false, ltb, leb, arith}
use fcgi.Outcome.{ok}
use fcgi.Math.Interval.{Interval, ropen, Order, make_interval, has}
use fcgi.Math.Interval.Membership.{IsBetween, make_interval-has}

abbrev numbers : Order ℕ
numbers = record {
  le = leb;
  lt = ltb;
  le_refl = λ a. ground arith;
  lt_irrefl = λ a. ground arith;
  lt→le = λ a b h. ground arith;
  lt→not_le = λ a b h. ground arith;
  lt→not_lt = λ a b h. ground arith;
}

make_interval-has_example :
    (i : Interval ℕ) × (make_interval numbers ropen 3 7 tt ≡ ok i tt)
    × IsBetween numbers i
    × (has numbers i 3 ≡ true)
    × (has numbers i 7 ≡ false)
make_interval-has_example = make_interval-has numbers tt ropen 3 7 refl
