-- ===== src/Files.antt =====
-- src/fs/misc.hpp: searching directories, over what std::filesystem says of paths.
pub mod Nearest
pub mod Matching
use fcgi.Prelude.{ℕ, zero, suc, Bool, ◌&&◌, List, [], ◌∷◌, ◌++◌, Option, none, some, if◌then◌else◌}
use fcgi.Outcome.{M, ok, pure, stuck}

-- The paths `P` of a file system that does not change meanwhile and whose calls do not throw. `join` is the operator /,
-- `entries` what directory_iterator gives, and `all_entries` what recursive_directory_iterator gives.
pub record Filesystem (P : Type 0) : Type 0 where
  pub current_path : P
  pub join : P → P → P
  pub parent_path : P → P
  pub has_relative_path : P → Bool
  pub is_directory : P → Bool
  pub is_regular_file : P → Bool
  pub extension : P → P
  pub replace_extension : P → P → P
  pub is_same : P → P → Bool
  pub entries : P → List P
  pub all_entries : P → List P

module _ {P : Type 0} (fs : Filesystem P) where
  -- The loop of parent_directory_path, on fuel.
  unfoldable pub search : {S : Type 0} → ℕ → P → P → M S (Option P)
  search zero dir path s = stuck
  search (suc fuel) dir path s =
      let rest = search fuel dir (fs.parent_path path) s in
      if fs.is_directory (fs.join path dir)
      then ok (some path) s
      else if fs.has_relative_path path
      then rest
      else ok none s

  unfoldable pub parent_directory_path : {S : Type 0} → ℕ → P → M S (Option P)
  parent_directory_path fuel dir = search fuel dir fs.current_path

  -- A regular file with the extension.
  abbrev pub is_match : P → P → Bool
  is_match extension path = fs.is_regular_file path && fs.is_same (fs.extension path) extension

  -- The lambda of file_paths_by_extension that goes through a directory.
  unfoldable pub traverse : P → List P → List P
  traverse extension [] = []
  traverse extension (path ∷ paths) =
      let rest = traverse extension paths in if is_match extension path then path ∷ rest else rest

  abbrev pub heading_files : P → P → Bool → List P
  heading_files root extension include_heading =
      let heading_file = fs.replace_extension root extension in
      if include_heading && fs.is_regular_file heading_file then heading_file ∷ [] else []

  unfoldable pub file_paths_by_extension : P → P → Bool → Bool → List P
  file_paths_by_extension root extension recursive include_heading =
      if is_match extension root
      then root ∷ []
      else heading_files root extension include_heading
        ++ (if fs.is_directory root
            then traverse extension (if recursive then fs.all_entries root else fs.entries root)
            else [])
