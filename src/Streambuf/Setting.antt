-- ===== src/Streambuf/Setting.antt =====
-- The constructor of server_Streambuf and setbuf(), for any size of the buffer.
use fcgi.Prelude.{
  ℕ, ◌+◌, ◌-◌, ◌%◌, ◌≤◌, ◌<◌, ◌≡◌, refl, ap, true, false, arith, le→leb, if◌then◌else◌,
}
use fcgi.Outcome.{ok, assert, ◌>>=◌, ◌>>◌}
use fcgi.Math.Alignment.Laws.{pad, padding-pow, pad_lt, pad_aligns}
use fcgi.Basics.{StreamType, params, input, out, err, filter_data}
use fcgi.Connection.{Connection}
use fcgi.Streambuf.{
  St, fresh, setbuf, make_streambuf, is_invariant_ok, is_closed, reader_ok, reads, get_set_up,
  put_set_up,
}

abbrev rounded : ℕ → ℕ
rounded size = size - (8 - pad size 3) % 8

rounded-whole :
    (size : ℕ)
    → 2048 ≤ size
    → size ≤ 65528
    → (rounded size % 8 ≡ 0) × (rounded size ≤ size) × (size < rounded size + 8)
rounded-whole size l h =
    let a = pad_aligns size 3 (omega arith) (omega arith) in
    let b = pad_lt size 3 in (omega (arith, a, b), omega arith, omega (arith, a, b))

-- The buffer that the constructor leaves.
abbrev set_up : ℕ → StreamType → Connection → St
set_up size type c = record {
  connection = c;
  buf =
      if reads type
      then get_set_up (rounded size) (fresh type)
      else put_set_up (rounded size) (fresh type);
}

set_up-is_invariant_ok :
    (size : ℕ) (type : StreamType) (c : Connection)
    → 2048 ≤ size
    → size ≤ 65528
    → reader_ok c.role type ≡ true
    → is_invariant_ok (set_up size type c) ≡ true
unfolding is_invariant_ok
set_up-is_invariant_ok size params c l h s = let (a, b, d) = rounded-whole size l h in ground arith
set_up-is_invariant_ok size input c l h s = let (a, b, d) = rounded-whole size l h in ground arith
set_up-is_invariant_ok size out c l h s = let (a, b, d) = rounded-whole size l h in ground arith
set_up-is_invariant_ok size err c l h s = let (a, b, d) = rounded-whole size l h in ground arith
set_up-is_invariant_ok size filter_data c l h s =
    let (a, b, d) = rounded-whole size l h in ground arith

make_streambuf-set_up :
    (size : ℕ) (type : StreamType) (c : Connection)
    → 2048 ≤ size
    → size ≤ 65528
    → reader_ok c.role type ≡ true
    → make_streambuf size type c ≡ ok tt (set_up size type c)
unfolding make_streambuf setbuf
make_streambuf-set_up size type c l h suits =
    rw
      (
        le→leb 2048 size l,
        ◌>>=◌,
        ◌>>◌,
        le→leb size 65528 h,
        padding-pow {S = St} (record { connection = c; buf = fresh type }) size 3 (omega arith),
        set_up-is_invariant_ok size type c l h suits,
      )
      (ap (λ b. assert b (set_up size type c)) (set_up-is_invariant_ok size type c l h suits))

set_up-size :
    (size : ℕ) (type : StreamType) (c : Connection)
    → (set_up size type c).buf.buffer_size ≡ rounded size
set_up-size size params c = refl
set_up-size size input c = refl
set_up-size size out c = refl
set_up-size size err c = refl
set_up-size size filter_data c = refl

set_up-is_closed :
    (size : ℕ) (type : StreamType) (c : Connection) → is_closed (set_up size type c).buf ≡ false
set_up-is_closed size params c = refl
set_up-is_closed size input c = refl
set_up-is_closed size out c = refl
set_up-is_closed size err c = refl
set_up-is_closed size filter_data c = refl

-- For a size from 2048 to 65528, on a connection whose role suits the type of the stream, the constructor succeeds:
-- the buffer's size is the given one rounded down to a multiple of 8, the stream is open, and the class's invariant
-- holds.
pub make_streambuf-rounds :
    (size : ℕ) (type : StreamType) (c : Connection)
    → 2048 ≤ size
    → size ≤ 65528
    → reader_ok c.role type ≡ true
    → (s : St) × (make_streambuf size type c ≡ ok tt s)
      × (is_invariant_ok s ≡ true)
      × (is_closed s.buf ≡ false)
      × (s.buf.buffer_size % 8 ≡ 0)
      × (s.buf.buffer_size ≤ size)
      × (size < s.buf.buffer_size + 8)
make_streambuf-rounds size type c l h suits =
    let (a, b, d) = rounded-whole size l h in
    let n = set_up-size size type c in
    (
      set_up size type c,
      make_streambuf-set_up size type c l h suits,
      set_up-is_invariant_ok size type c l h suits,
      set_up-is_closed size type c,
      omega (arith, n, a),
      omega (arith, n, b),
      omega (arith, n, d),
    )
