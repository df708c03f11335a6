-- ===== src/Streambuf/Delivery/Refill.antt =====
-- Reading more bytes into an empty buffer.
use fcgi.Prelude.{
  ℕ, ◌-◌, ◌<◌, ◌≡◌, refl, ap, inl, inr, List, [], ◌∷◌, ◌++◌, length, append_assoc, take, drop,
  take-append-drop, length-take, length-drop, take_ge, take-cons, arith, leb, Bool-cases,
}
use fcgi.Outcome.{ok}
use fcgi.Net.Descriptor.{Arrival, arrives, recv_fails, recv_from}
use fcgi.Streambuf.{St}
use fcgi.Streambuf.Reader.{refill}
use fcgi.Streambuf.Delivery.View.{View, view, at, IsReader, incoming, IsLive, pending, IsOpen}
use fcgi.Streambuf.Delivery.Steps.{refill_idle, refill_reads}

-- A view in which the buffer holds something, of the same wire.
abbrev pub Refilled : St → View → Type 0
Refilled s v =
    (ar : List Arrival) × (e : ℕ) × (g : ℕ) × (x : ℕ) × (b : ℕ) × (u : List ℕ) × (refill (at s v)
      ≡ ok tt (at s (view ar e g x (b ∷ u) v.content v.padding)))
    × IsOpen s (view ar e g x (b ∷ u) v.content v.padding)
    × ((b ∷ u) ++ incoming ar ≡ pending v)

recv-incoming :
    (n : ℕ) (xs : List ℕ) (rest : List Arrival)
    → take n xs ++ incoming (recv_from (arrives xs ∷ rest) n).1 ≡ xs ++ incoming rest
recv-incoming n xs rest = elim (Bool-cases (leb (length xs) n)) [
  | inl e ↦ rw (e, take_ge n xs (ground arith))
  | inr e ↦ rw (e, ← append_assoc (take n xs) (drop n xs) (incoming rest), take-append-drop n xs)
]

recv-IsLive :
    (n : ℕ) (xs : List ℕ) (rest : List Arrival)
    → IsLive rest
    → IsLive (recv_from (arrives xs ∷ rest) n).1
recv-IsLive n xs rest h = elim (Bool-cases (leb (length xs) n)) [
  | inl e ↦ rw e h
  | inr e ↦ rw e (ground (arith, length-drop n xs), h)
]

module _ (s : St) (r : IsReader s) where
  pub refilled :
      (ar : List Arrival) (e g x : ℕ) (u : List ℕ) (c p : ℕ)
      → IsOpen s (view ar e g x u c p)
      → 0 < length (u ++ incoming ar)
      → Refilled s (view ar e g x u c p)
  refilled ar e g x (y ∷ u) c p o w = (ar, e, g, x, y, u, refill_idle s r ar e g x y u c p, o, refl)
  refilled [] e g x [] c p o w = absurd (omega arith)
  refilled (recv_fails ∷ ar) e g x [] c p o w = absurd o.live
  refilled (arrives [] ∷ ar) e g x [] c p o w = absurd (omega (arith, o.live.0))
  refilled (arrives (y ∷ ys) ∷ ar) e g x [] c p o w =
      let n = s.buf.buffer_size in
      let front : take n (y ∷ ys) ≡ y ∷ take (n - 1) ys =
        take-cons n y ys (omega (arith, r.large)) in
      let rest = (recv_from (arrives (y ∷ ys) ∷ ar) n).1 in
      (
        rest,
        0,
        0,
        length (take n (y ∷ ys)),
        y,
        take (n - 1) ys,
        rw (← front) (refill_reads s r y ys ar e g x c p),
        record {
          in_buffer = omega (arith, ap length front, length-take n (y ∷ ys));
          live = recv-IsLive n (y ∷ ys) ar o.live.1;
        },
        rw front at (recv-incoming n (y ∷ ys) ar),
      )
