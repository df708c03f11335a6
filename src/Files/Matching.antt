-- ===== src/Files/Matching.antt =====
-- What file_paths_by_extension returns.
use fcgi.Prelude.{
  ◌≡◌, refl, inl, inr, Bool, true, false, List, [], ◌∷◌, ◌++◌, All, Bool-cases, if◌then◌else◌,
}
use fcgi.Files.{Filesystem, is_match, traverse, heading_files, file_paths_by_extension}

module _ {P : Type 0} (fs : Filesystem P) (extension : P) where
  abbrev pub IsMatch : P → Type 0
  IsMatch path = is_match fs extension path ≡ true

  traverse-IsMatch : (paths : List P) → All IsMatch (traverse fs extension paths)
  unfolding traverse
  traverse-IsMatch [] = tt
  traverse-IsMatch (path ∷ paths) = elim (Bool-cases (is_match fs extension path)) [
    | inl e ↦ rw e (e, traverse-IsMatch paths)
    | inr e ↦ rw e (traverse-IsMatch paths)
  ]

  All-append : (xs ys : List P) → All IsMatch xs → All IsMatch ys → All IsMatch (xs ++ ys)
  All-append [] ys h k = k
  All-append (x ∷ xs) ys (h, hs) k = (h, All-append xs ys hs k)

  heading_files-IsMatch :
      (root : P) (include_heading : Bool)
      → fs.is_same (fs.extension (fs.replace_extension root extension)) extension ≡ true
      → All IsMatch (heading_files fs root extension include_heading)
  heading_files-IsMatch root false same = tt
  heading_files-IsMatch root true same =
      elim (Bool-cases (fs.is_regular_file (fs.replace_extension root extension))) [
        | inl e ↦ rw e (rw (e, same) (refl, tt))
        | inr e ↦ rw e tt
      ]

  found-IsMatch :
      (b : Bool) (paths : List P) → All IsMatch (if b then traverse fs extension paths else [])
  found-IsMatch true paths = traverse-IsMatch paths
  found-IsMatch false paths = tt

  -- Where a path whose extension was replaced has the new extension, file_paths_by_extension returns only regular files
  -- with the extension that it was asked for, whether it goes into the subdirectories and looks for the heading file.
  file_paths_by_extension-IsMatch :
      (root : P) (recursive include_heading : Bool)
      → fs.is_same (fs.extension (fs.replace_extension root extension)) extension ≡ true
      → All IsMatch (file_paths_by_extension fs root extension recursive include_heading)
  unfolding file_paths_by_extension
  file_paths_by_extension-IsMatch root recursive include_heading same =
      elim (Bool-cases (is_match fs extension root)) [
        | inl e ↦ rw e (e, tt)
        | inr e ↦ rw e (
            All-append (heading_files fs root extension include_heading) _
              (heading_files-IsMatch root include_heading same)
              (found-IsMatch (fs.is_directory root) _))
      ]
