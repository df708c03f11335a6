-- ===== src/Rnd.antt =====
-- src/rnd: random numbers and UUIDs.
pub mod Uuid
use fcgi.Prelude.{ℕ, zero, suc, ◌+◌, ◌-◌, ◌%◌, List, [], ◌∷◌, ltb}
use fcgi.Outcome.{M, ok, pure, guard, ◌>>=◌, ◌>>◌, invalid_random_interval}

-- `scaled maximum` is what `cpp_pl_3rd(maximum)` makes of a call of ::rand, in floating point, from the state `R` of
-- the generator.
pub record Rand (R : Type 0) : Type 0 where
  pub scaled : ℕ → R → ℕ × R

module _ {R : Type 0} (rand : Rand R) where
  -- `cpp_pl_3rd(minimum, maximum)`
  unfoldable pub cpp_pl_3rd : ℕ → ℕ → M R ℕ
  cpp_pl_3rd minimum maximum = do
    guard (ltb minimum maximum) invalid_random_interval
    (λ r. ok ((rand.scaled maximum r).0 % (maximum - minimum) + minimum) (rand.scaled maximum r).1)

  -- The loop over the bytes of a UUID.
  unfoldable pub random_bytes : ℕ → M R (List ℕ)
  random_bytes zero = pure []
  random_bytes (suc n) = do b ← cpp_pl_3rd 1 255; bs ← random_bytes n; pure (b ∷ bs)
