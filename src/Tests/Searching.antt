-- ===== src/Tests/Searching.antt =====
-- A directory that is found two levels up.
use fcgi.Prelude.{
  ℕ, ◌<◌, ◌≡◌, Bool, true, false, ◌&&◌, List, [], ◌∷◌, ◌++◌, Option, length, get_or, arith, ◌==◌,
}
use fcgi.Outcome.{ok}
use fcgi.Files.{Filesystem, parent_directory_path}
use fcgi.Files.Nearest.{IsNearest, parent_directory_path-IsNearest}

abbrev parent : List ℕ → List ℕ
parent [] = []
parent (name ∷ names) = names

abbrev is_below_root : List ℕ → Bool
is_below_root [] = false
is_below_root (name ∷ names) = true

-- A path is its names, the last one first; 9 in 1 is a directory.
abbrev tree : Filesystem (List ℕ)
tree = record {
  current_path = 3 ∷ 2 ∷ 1 ∷ [];
  join = λ path dir. dir ++ path;
  parent_path = parent;
  has_relative_path = is_below_root;
  is_directory = λ path. (length path == 2) && (get_or path 0 0 == 9);
  is_regular_file = λ path. false;
  extension = λ path. [];
  replace_extension = λ path extension. path;
  is_same = λ a b. length a == length b;
  entries = λ path. [];
  all_entries = λ path. [];
}

shallower : (path : List ℕ) → is_below_root path ≡ true → length (parent path) < length path
shallower [] h = absurd (ground arith)
shallower (name ∷ names) h = omega arith

parent_directory_path-IsNearest_example :
    (found : Option (List ℕ)) × (parent_directory_path tree 4 (9 ∷ []) tt ≡ ok found tt)
    × IsNearest tree (9 ∷ []) (3 ∷ 2 ∷ 1 ∷ []) found
parent_directory_path-IsNearest_example =
    parent_directory_path-IsNearest tree (9 ∷ []) length shallower 4 tt (omega arith)
