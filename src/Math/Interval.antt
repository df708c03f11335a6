-- ===== src/Math/Interval.antt =====
-- src/math/interval.hpp, for a type with the operators <= and < and a default value.
pub mod Membership
use fcgi.Prelude.{◌≡◌, refl, Bool, true, false, not, ◌&&◌, ◌||◌, ◌⊎◌, inl, inr, Bool-cases}
use fcgi.Outcome.{M, ok, threw, pure, guard, ◌>>=◌, ◌>>◌, invalid_interval}

pub data IntervalType : Type 0 where
  closed open_type lopen ropen : IntervalType

pub record Interval (T : Type 0) : Type 0 where
  pub type : IntervalType
  pub min : T
  pub max : T

-- The operators, with the laws of an order.
pub record Order (T : Type 0) : Type 0 where
  pub le : T → T → Bool
  pub lt : T → T → Bool
  pub le_refl : (a : T) → le a a ≡ true
  pub lt_irrefl : (a : T) → lt a a ≡ false
  pub lt→le : (a b : T) → lt a b ≡ true → le a b ≡ true
  pub lt→not_le : (a b : T) → lt a b ≡ true → le b a ≡ false
  pub lt→not_lt : (a b : T) → lt a b ≡ true → lt b a ≡ false

abbrev pub is_closed_type : IntervalType → Bool
is_closed_type closed = true
is_closed_type open_type = false
is_closed_type lopen = false
is_closed_type ropen = false

module _ {T : Type 0} (o : Order T) where
  unfoldable pub make_closed_interval : {S : Type 0} → T → T → M S (Interval T)
  make_closed_interval min max = do
    guard (o.le min max) invalid_interval
    pure (record { type = closed; min = min; max = max })

  unfoldable pub make_interval : {S : Type 0} → IntervalType → T → T → M S (Interval T)
  make_interval type min max = do
    guard ((is_closed_type type && o.le min max) || (not (is_closed_type type) && o.lt min max))
        invalid_interval
    pure (record { type = type; min = min; max = max })

  -- [min, max], (min, max), (min, max] and [min, max)
  unfoldable pub make_closed : {S : Type 0} → T → T → M S (Interval T)
  make_closed min max = make_interval closed min max

  unfoldable pub make_open : {S : Type 0} → T → T → M S (Interval T)
  make_open min max = make_interval open_type min max

  unfoldable pub make_lopen : {S : Type 0} → T → T → M S (Interval T)
  make_lopen min max = make_interval lopen min max

  unfoldable pub make_ropen : {S : Type 0} → T → T → M S (Interval T)
  make_ropen min max = make_interval ropen min max

  unfoldable pub has : Interval T → T → Bool
  has i value = elim i.type [
    | closed ↦ o.le i.min value && o.le value i.max
    | open_type ↦ o.lt i.min value && o.lt value i.max
    | lopen ↦ o.lt i.min value && o.le value i.max
    | ropen ↦ o.le i.min value && o.lt value i.max
  ]

-- The pair of the bounds, and the state of the instance after it.
abbrev pub release : {T : Type 0} → T → M (Interval T) (T × T)
release default i = ok (i.min, i.max) (record { type = closed; min = default; max = default })
