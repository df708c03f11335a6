-- ===== src/Tests/Random.antt =====
-- A UUID of a generator that counts.
use fcgi.Prelude.{ℕ, suc, ◌≡◌, List}
use fcgi.Outcome.{ok}
use fcgi.Net.Conversions.{little}
use fcgi.Rnd.{Rand}
use fcgi.Rnd.Uuid.{Uuid, make_v4, uuid_to_string}
use fcgi.Rnd.Uuid.Versions.{IsVersion4, make_v4-IsVersion4}

abbrev counting : Rand ℕ
counting = record { scaled = λ maximum r. (r, suc r) }

make_v4-IsVersion4_example :
    (u : Uuid) × (s : ℕ) × (text : List ℕ) × (make_v4 little counting 3 ≡ ok u s)
    × (uuid_to_string u s ≡ ok text s)
    × IsVersion4 text
make_v4-IsVersion4_example = make_v4-IsVersion4 little counting 3
