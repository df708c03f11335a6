-- ===== src/NamesValues/Yields.antt =====
-- What a stream buffer delivers, and what the operations of a stream make of it.
use fcgi.Prelude.{ℕ, ◌≡◌, refl, List, [], ◌∷◌, ◌++◌, Option, none, some, length, eq→==}
use fcgi.Outcome.{M, Exception, ok, threw, ◌>>=◌}
use fcgi.Istream.{goodbit, at_end, broken, on, get, sgetn, read}

module _ {S : Type 0} (bump : M S (Option ℕ)) where
  -- From state `s` the buffer delivers the bytes `bs`, one at a time, and is then in state `t`.
  abbrev pub Yields : S → List ℕ → S → Type 0
  Yields s [] t = s ≡ t
  Yields s (b ∷ bs) t = (u : S) × (bump s ≡ ok (some b) u) × Yields u bs t

  pub Yields-append :
      (xs ys : List ℕ) (s t : S) → Yields s (xs ++ ys) t → (u : S) × Yields s xs u × Yields u ys t
  Yields-append [] ys s t y = (s, refl, y)
  Yields-append (x ∷ xs) ys s t (v, e, y) =
      let (u, a, b) = Yields-append xs ys v t y in (u, (v, e, a), b)

  pub get-some :
      (s u : S) (b : ℕ)
      → bump s ≡ ok (some b) u
      → get bump (on goodbit s) ≡ ok (some b) (on goodbit u)
  unfolding get
  get-some s u b e = rw (e, get)

  pub get-none : (s u : S) → bump s ≡ ok none u → get bump (on goodbit s) ≡ ok none (on at_end u)
  unfolding get
  get-none s u e = rw (e, get)

  -- An exception of the buffer is no exception of the stream.
  pub get-threw :
      (s u : S) (e : Exception)
      → bump s ≡ threw e u
      → get bump (on goodbit s) ≡ ok none (on broken u)
  unfolding get
  get-threw s u e z = rw (z, get)

  sgetn-Yields : (bs : List ℕ) (s t : S) → Yields s bs t → sgetn bump (length bs) s ≡ ok bs t
  unfolding sgetn
  sgetn-Yields [] s t e = rw e
  sgetn-Yields (b ∷ bs) s t (u, e, y) = rw (e, sgetn, ◌>>=◌, sgetn-Yields bs u t y)

  pub read-Yields :
      (bs : List ℕ) (s t : S)
      → Yields s bs t
      → read bump (length bs) (on goodbit s) ≡ ok bs (on goodbit t)
  unfolding read
  read-Yields bs s t y = rw (sgetn-Yields bs s t y, read, eq→== (length bs) (length bs) refl)
