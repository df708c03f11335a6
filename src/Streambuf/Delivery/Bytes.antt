-- ===== src/Streambuf/Delivery/Bytes.antt =====
-- The bytes that sbumpc() takes from a reader of a well-behaved client.
use mathlib.Core.Path.{subst}
use fcgi.Prelude.{
  ℕ, zero, suc, ◌+◌, ◌-◌, ◌≤◌, ◌<◌, ◌≡◌, refl, sym, ap, ◌∙◌, inl, inr, min, List, [], ◌∷◌, ◌++◌,
  Option, some, length, length-append, arith, ltb, lt→ltb, le→ltb, Bool-cases,
}
use fcgi.Outcome.{Outcome, M, ok, ◌>>=◌}
use fcgi.Net.Descriptor.{Arrival}
use fcgi.Streambuf.{St}
use fcgi.Streambuf.ProcessHeader.{sbumpc}
use fcgi.Streambuf.Reader.{iteration, enter, loop, underflow}
use fcgi.Streambuf.Delivery.View.{View, view, at, IsReader, incoming, pending, IsOpen}
use fcgi.Streambuf.Delivery.Steps.{content_step_delivers}
use fcgi.Streambuf.Delivery.Refill.{refilled}

-- Of the current record the content `cont` and the padding `pad` are still to come, and then `rest`. The
-- first bytes of the content may stand in the get area.
pub record Holds (s : St) (v : View) (cont pad rest : List ℕ) : Type 0 where
  pub is_open : IsOpen s v
  pub wire : pending v ≡ cont ++ (pad ++ rest)
  pub area : v.gptr ≤ v.egptr
  pub area_read : v.egptr ≤ v.gptr + length v.unread
  pub amount : length cont + v.gptr ≡ v.egptr + v.content
  pub padded : v.padding ≡ length pad
  pub content_fits : v.content ≤ s.buf.buffer_size
  pub padding_fits : length pad ≤ 255

module _ (garbage : ℕ → ℕ) (s : St) (r : IsReader s) where
  pub enter-at : (body : M St (Option ℕ)) (v : View) → enter garbage body (at s v) ≡ body (at s v)
  unfolding enter
  enter-at body v = rw (r.is_reading)

  -- What comes of a pass that finds content: its first byte, and the rest of it in the get area.
  abbrev pub Delivered : Outcome St (Option ℕ) → List ℕ → List ℕ → List ℕ → Type 0
  Delivered o cont pad rest =
      (ar : List Arrival) × (g : ℕ) × (x : ℕ) × (b : ℕ) × (u : List ℕ) × (c : ℕ) × (o
        ≡ ok (some b) (at s (view ar g g x (b ∷ u) c (length pad))))
      × Holds s (view ar g g x (b ∷ u) c (length pad)) cont pad rest
      × (g < x)

  pub loop_delivers :
      (fuel : ℕ) (h cont pad rest : List ℕ) (ar : List Arrival) (e g x : ℕ) (u : List ℕ) (c : ℕ)
      → Holds s (view ar e g x u (suc c) (length pad)) cont pad rest
      → x ≤ g
      → Delivered
          (loop garbage (suc fuel) h (at s (view ar e g x u (suc c) (length pad))))
          cont
          pad
          rest
  unfolding loop iteration
  loop_delivers fuel h cont pad rest ar e g x u c o l =
      let nonempty : 0 < length (u ++ incoming ar) =
        omega (arith, ap length o.wire, o.amount, o.area, length-append cont (pad ++ rest)) in
      let (ar', e', g', x', b, u', z, o', w') =
        refilled s r ar e g x u (suc c) (length pad) o.is_open nonempty in
      let n = min (suc c) (suc (length u')) in
      (
        ar',
        g',
        g' + n,
        b,
        u',
        suc c - n,
        rw (
          z,
          ◌>>=◌,
          lt→ltb 0 (suc (length u')) (omega arith),
          content_step_delivers s r ar' e' g' x' b u' c (length pad)
              (record { in_buffer = o'.in_buffer; live = o'.live }) o.content_fits o.padding_fits,
        ),
        record {
          is_open = record { in_buffer = o'.in_buffer; live = o'.live };
          wire = w' ∙ o.wire;
          area = omega arith;
          area_read = omega arith;
          amount = omega (arith, o.amount, o.area);
          padded = refl;
          content_fits = omega (arith, o.content_fits);
          padding_fits = o.padding_fits;
        },
        omega arith,
      )

  -- Taking a byte that stands in the get area.
  take_area :
      (fuel : ℕ) (b : ℕ) (cont pad rest : List ℕ) (ar : List Arrival) (e g x y : ℕ) (u : List ℕ)
      (c p : ℕ)
      → Holds s (view ar e g x (y ∷ u) c p) (b ∷ cont) pad rest
      → g < x
      → (y ≡ b) × Holds s (view ar e (g + 1) x u c p) cont pad rest
  take_area fuel b cont pad rest ar e g x y u c p o l = (
    cc (o.wire),
    record {
      is_open = record { in_buffer = omega (arith, o.is_open.in_buffer); live = o.is_open.live };
      wire = cc (o.wire);
      area = omega arith;
      area_read = omega (arith, o.area_read);
      amount = omega (arith, o.amount);
      padded = o.padded;
      content_fits = o.content_fits;
      padding_fits = o.padding_fits;
    },
  )

  -- underflow(), where the get area is used up in the midst of a record.
  abbrev pub Took : ℕ → View → ℕ → List ℕ → List ℕ → List ℕ → Type 0
  Took fuel v b cont pad rest =
      (w : View) × (sbumpc (underflow garbage fuel) (at s v) ≡ ok (some b) (at s w))
      × Holds s w cont pad rest

  -- Taking the byte that underflow() leaves in the get area.
  pub Took-Delivered :
      (fuel b : ℕ) (cont pad rest : List ℕ) (v : View)
      → v.egptr ≤ v.gptr
      → Delivered (underflow garbage fuel (at s v)) (b ∷ cont) pad rest
      → Took fuel v b cont pad rest
  unfolding sbumpc
  Took-Delivered fuel b cont pad rest v l (ar, g, x, y, u, c, z, o, n) =
      let (same, o') = take_area fuel b cont pad rest ar g g x y u c (length pad) o n in
      (view ar g (g + 1) x u c (length pad), rw (le→ltb v.gptr v.egptr l, z, ◌>>=◌, same), o')

  take_more :
      (fuel b : ℕ) (cont pad rest : List ℕ) (ar : List Arrival) (e g x : ℕ) (u : List ℕ) (c p : ℕ)
      → Holds s (view ar e g x u c p) (b ∷ cont) pad rest
      → g < x
      → Took fuel (view ar e g x u c p) b cont pad rest
  unfolding sbumpc
  take_more fuel b cont pad rest ar e g x [] c p o l = absurd (omega (arith, o.area_read))
  take_more fuel b cont pad rest ar e g x (y ∷ u) c p o l =
      let (same, o') = take_area fuel b cont pad rest ar e g x y u c p o l in
      (view ar e (g + 1) x u c p, rw (lt→ltb g x l, same), o')

  take_refilled :
      (fuel b : ℕ) (cont pad rest : List ℕ) (ar : List Arrival) (e g x : ℕ) (u : List ℕ) (c : ℕ)
      → Holds s (view ar e g x u c (length pad)) (b ∷ cont) pad rest
      → x ≤ g
      → Took (suc fuel) (view ar e g x u c (length pad)) b cont pad rest
  unfolding underflow
  take_refilled fuel b cont pad rest ar e g x u zero o l = absurd (omega (arith, o.amount, o.area))
  take_refilled fuel b cont pad rest ar e g x u (suc c) o l =
      let v = view ar e g x u (suc c) (length pad) in
      let (ar', g', x', b', u', c', z, o', n) =
        loop_delivers fuel [] (b ∷ cont) pad rest ar e g x u c o l in
      Took-Delivered (suc fuel) b cont pad rest v l
        (ar', g', x', b', u', c', enter-at (loop garbage (suc fuel) []) v ∙ z, o', n)

  -- The next byte of the content of the current record.
  pub take-content :
      (fuel b : ℕ) (cont pad rest : List ℕ) (ar : List Arrival) (e g x : ℕ) (u : List ℕ) (c p : ℕ)
      → Holds s (view ar e g x u c p) (b ∷ cont) pad rest
      → Took (suc fuel) (view ar e g x u c p) b cont pad rest
  take-content fuel b cont pad rest ar e g x u c p o = elim (Bool-cases (ltb g x)) [
    | inl more ↦ take_more (suc fuel) b cont pad rest ar e g x u c p o (ground arith)
    | inr none_left ↦
        subst (λ q. Took (suc fuel) (view ar e g x u c q) b cont pad rest) (sym o.padded)
          (take_refilled fuel b cont pad rest ar e g x u c
            (subst (λ q. Holds s (view ar e g x u c q) (b ∷ cont) pad rest) o.padded o)
            (ground arith))
  ]
