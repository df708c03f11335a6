-- ===== src/Math/Interval/Membership.antt =====
-- What belongs to an interval that was constructed.
use fcgi.Prelude.{◌≡◌, Bool, true, false, arith}
use fcgi.Outcome.{ok}
use fcgi.Math.Interval.{
  IntervalType, closed, open_type, lopen, ropen, Interval, Order, make_interval, has,
}

-- Whether a bound belongs to an interval of a type.
abbrev pub has_left : IntervalType → Bool
has_left closed = true
has_left open_type = false
has_left lopen = false
has_left ropen = true

abbrev pub has_right : IntervalType → Bool
has_right closed = true
has_right open_type = false
has_right lopen = true
has_right ropen = false

module _ {T : Type 0} (o : Order T) where
  -- What the type says of an interval between two bounds.
  pub record IsBetween (i : Interval T) : Type 0 where
    pub inside : (v : T) → o.lt i.min v ≡ true → o.lt v i.max ≡ true → has o i v ≡ true
    pub below : (v : T) → o.lt v i.min ≡ true → has o i v ≡ false
    pub above : (v : T) → o.lt i.max v ≡ true → has o i v ≡ false

  interval-IsBetween :
      (t : IntervalType) (a b : T) → IsBetween (record { type = t; min = a; max = b })
  unfolding has
  interval-IsBetween closed a b = record {
    inside = λ v l r. rw (o.lt→le a v l, o.lt→le v b r);
    below = λ v l. rw (o.lt→not_le v a l);
    above = λ v l. ground (arith, o.lt→not_le b v l);
  }
  interval-IsBetween open_type a b = record {
    inside = λ v l r. rw (l, r);
    below = λ v l. rw (o.lt→not_lt v a l);
    above = λ v l. ground (arith, o.lt→not_lt b v l);
  }
  interval-IsBetween lopen a b = record {
    inside = λ v l r. rw (l, o.lt→le v b r);
    below = λ v l. rw (o.lt→not_lt v a l);
    above = λ v l. ground (arith, o.lt→not_le b v l);
  }
  interval-IsBetween ropen a b = record {
    inside = λ v l r. rw (o.lt→le a v l, r);
    below = λ v l. rw (o.lt→not_le v a l);
    above = λ v l. ground (arith, o.lt→not_lt b v l);
  }

  bounds :
      (t : IntervalType) (a b : T)
      → o.lt a b ≡ true
      → (has o (record { type = t; min = a; max = b }) a ≡ has_left t)
        × (has o (record { type = t; min = a; max = b }) b ≡ has_right t)
  unfolding has
  bounds closed a b l = (rw (o.le_refl a, o.lt→le a b l), rw (o.le_refl b, o.lt→le a b l))
  bounds open_type a b l = (rw (o.lt_irrefl a), rw (l, o.lt_irrefl b))
  bounds lopen a b l = (rw (o.lt_irrefl a), rw (l, o.le_refl b))
  bounds ropen a b l = (rw (o.le_refl a, l), rw (o.lt→le a b l, o.lt_irrefl b))

  -- For bounds of which the first is less than the second the constructor returns an interval of the given type: all
  -- values between the bounds belong to it, none below the first and none above the second, and each bound belongs to
  -- it exactly if the type says so.
  pub make_interval-has :
      {S : Type 0} (s : S) (t : IntervalType) (a b : T)
      → o.lt a b ≡ true
      → (i : Interval T) × (make_interval o t a b s ≡ ok i s)
        × IsBetween i
        × (has o i a ≡ has_left t)
        × (has o i b ≡ has_right t)
  unfolding make_interval
  make_interval-has s t a b l =
      let (left, right) = bounds t a b l in
      (record { type = t; min = a; max = b }, made t, interval-IsBetween t a b, left, right)
    where
      made :
          (t : IntervalType)
          → make_interval o t a b s ≡ ok (record { type = t; min = a; max = b }) s
      made closed = rw (o.lt→le a b l)
      made open_type = rw l
      made lopen = rw l
      made ropen = rw l
