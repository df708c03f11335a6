-- ===== src/Files/Nearest.antt =====
-- Which directory parent_directory_path finds.
use fcgi.Prelude.{
  ℕ, zero, suc, ◌<◌, ◌≡◌, ◌⊎◌, inl, inr, refl, Bool, true, false, Option, none, some, arith,
  Bool-cases,
}
use fcgi.Outcome.{ok}
use fcgi.Files.{Filesystem, search, parent_directory_path}

module _ {P : Type 0} (fs : Filesystem P) (dir : P) where
  -- So many steps up.
  abbrev pub up : ℕ → P → P
  up zero path = path
  up (suc n) path = up n (fs.parent_path path)

  abbrev pub has_dir : P → Bool
  has_dir path = fs.is_directory (fs.join path dir)

  -- The first directory on the way up from `path` that has `dir`, or nothing where none has it up to one that has no
  -- parent.
  abbrev pub IsNearest : P → Option P → Type 0
  IsNearest path found =
      (n : ℕ) × ((m : ℕ)
        → m < n
        → (has_dir (up m path) ≡ false) × (fs.has_relative_path (up m path) ≡ true))
      × (((has_dir (up n path) ≡ true) × (found ≡ some (up n path)))
          ⊎ ((has_dir (up n path) ≡ false)
              × (fs.has_relative_path (up n path) ≡ false)
              × (found ≡ none)))

  not_below : (m : ℕ) {A : Type 0} → m < 0 → A
  not_below m h = absurd (omega arith)

  step :
      (path : P) (n : ℕ)
      → has_dir path ≡ false
      → fs.has_relative_path path ≡ true
      → ((m : ℕ)
          → m < n
          → (has_dir (up m (fs.parent_path path)) ≡ false)
            × (fs.has_relative_path (up m (fs.parent_path path)) ≡ true))
      → (m : ℕ) → m < suc n
      → (has_dir (up m path) ≡ false) × (fs.has_relative_path (up m path) ≡ true)
  step path n e r h zero l = (e, r)
  step path n e r h (suc m) l = h m (omega arith)

  module _ (depth : P → ℕ)
      (shallower : (path : P)
        → fs.has_relative_path path ≡ true
        → depth (fs.parent_path path) < depth path) where
    search-IsNearest :
        {S : Type 0} (fuel : ℕ) (path : P) (s : S)
        → depth path < fuel
        → (found : Option P) × (search fs fuel dir path s ≡ ok found s) × IsNearest path found
    unfolding search
    search-IsNearest zero path s h = absurd (omega arith)
    search-IsNearest (suc fuel) path s h = elim (Bool-cases (has_dir path)) [
      | inl e ↦ (some path, rw e, (0, (λ m l. not_below m l), inl (e, refl)))
      | inr e ↦ elim (Bool-cases (fs.has_relative_path path)) [
        | inr r ↦ (none, rw (e, r), (0, (λ m l. not_below m l), inr (e, r, refl)))
        | inl r ↦
            let (found, z, (n, before, last)) =
              search-IsNearest fuel (fs.parent_path path) s (omega (arith, shallower path r)) in
            (found, rw (e, r) z, (suc n, step path n e r before, last))
      ]
    ]

    -- Where every path that has a parent is deeper than it, more fuel than the depth of the current path is enough:
    -- parent_directory_path returns the first directory from the current one upwards that has `dir`, or nothing where
    -- none of them has it.
    pub parent_directory_path-IsNearest :
        {S : Type 0} (fuel : ℕ) (s : S)
        → depth fs.current_path < fuel
        → (found : Option P) × (parent_directory_path fs fuel dir s ≡ ok found s)
          × IsNearest fs.current_path found
    unfolding parent_directory_path
    parent_directory_path-IsNearest fuel s h = search-IsNearest fuel fs.current_path s h
