-- ===== src/Server/Lookup.antt =====
-- The parameters of a connection by their names, as src/fcgi/server_connection.cpp gives them.
use fcgi.Prelude.{ℕ, ◌<◌, ◌≡◌, ◌⊎◌, inl, inr, List, [], get_or, length, lt→ltb}
use fcgi.Outcome.{ok, threw, ◌>>=◌, ◌>>◌, cannot_get_parameter}
use fcgi.Connection.{Connection}
use fcgi.NamesValues.{name, value, pair, pair_of}
use fcgi.NamesValues.Pairs.{Lacks, IsFirst, pair_index-IsFirst, IsFirst-lt, IsFirst-name}
use fcgi.Server.{parameter, parameter_at}

-- What is found of the name n: the value of the first pair that has it, by the name and by its index.
abbrev pub IsFound : List ℕ → Connection → Type 0
IsFound n c =
    (i : ℕ) × IsFirst i n c.parameters
    × (i < length c.parameters)
    × (name (get_or c.parameters i (pair_of [] 0 0)) ≡ n)
    × (parameter n c ≡ ok (value (get_or c.parameters i (pair_of [] 0 0))) c)
    × (parameter_at i c ≡ ok (value (get_or c.parameters i (pair_of [] 0 0))) c)

pair-get_or :
    (i : ℕ) (c : Connection)
    → i < length c.parameters
    → pair i c.parameters c ≡ ok (get_or c.parameters i (pair_of [] 0 0)) c
unfolding pair
pair-get_or i c l = rw (lt→ltb i (length c.parameters) l, ◌>>=◌)

-- parameter(name) throws where no pair has the name; otherwise it returns the value of the first pair that has it, and
-- parameter(index) returns the same for the index of this pair, which is in range.
pub parameter-IsFound :
    (n : List ℕ) (c : Connection)
    → ((parameter n c ≡ threw cannot_get_parameter c) × Lacks n c.parameters) ⊎ IsFound n c
unfolding parameter parameter_at
parameter-IsFound n c = elim (pair_index-IsFirst n c.parameters) [
  | inl (e, l) ↦ inl (rw (e, ◌>>=◌), l)
  | inr (i, e, f) ↦
      let l = IsFirst-lt i n c.parameters f in
      inr (
        i,
        f,
        l,
        IsFirst-name i n c.parameters (pair_of [] 0 0) f,
        rw (e, ◌>>=◌, pair-get_or i c l),
        rw (lt→ltb i (length c.parameters) l, ◌>>=◌, ◌>>◌, pair-get_or i c l),
      )
]
