-- ===== src/Streambuf/Delivery/Torn.antt =====
-- A connection that ends in the midst of a record's content.
use fcgi.Prelude.{
  ℕ, zero, suc, ◌+◌, ◌-◌, ◌≤◌, ◌<◌, ◌≡◌, refl, ap, ◌∙◌, inl, inr, min, List, [], ◌∷◌, ◌++◌, some,
  length, arith, ltb, lt→ltb, le→ltb, Bool-cases,
}
use fcgi.Outcome.{ok, threw, protocol_violation, ◌>>=◌}
use fcgi.Net.Descriptor.{Arrival, arrives, recv_fails}
use fcgi.NamesValues.Yields.{Yields}
use fcgi.Streambuf.{St}
use fcgi.Streambuf.ProcessHeader.{sbumpc}
use fcgi.Streambuf.Reader.{refill, iteration, loop, underflow}
use fcgi.Streambuf.Delivery.View.{View, view, at, IsReader, incoming, pending, IsOpen}
use fcgi.Streambuf.Delivery.Steps.{content_step_delivers}
use fcgi.Streambuf.Delivery.Refill.{refilled}
use fcgi.Streambuf.Delivery.Bytes.{enter-at}
use fcgi.Streambuf.Delivery.Cut.{refill-ends}

-- Of the current record's content, only `part` is still to come.
pub record IsTorn (s : St) (v : View) (part : List ℕ) : Type 0 where
  pub is_open : IsOpen s v
  pub wire : pending v ≡ part
  pub area : v.gptr ≤ v.egptr
  pub area_read : v.egptr ≤ v.gptr + length v.unread
  pub torn : length part + v.gptr < v.egptr + v.content
  pub content_fits : v.content ≤ s.buf.buffer_size
  pub padding_fits : v.padding ≤ 255

module _ (garbage : ℕ → ℕ) (s : St) (r : IsReader s) where
  abbrev Took : ℕ → View → ℕ → List ℕ → Type 0
  Took fuel v b part =
      (w : View) × (sbumpc (underflow garbage fuel) (at s v) ≡ ok (some b) (at s w))
      × IsTorn s w part

  -- The byte stands in the get area.
  area-IsTorn :
      (b : ℕ) (part : List ℕ) (ar : List Arrival) (e g x y : ℕ) (u : List ℕ) (c p : ℕ)
      → IsTorn s (view ar e g x (y ∷ u) c p) (b ∷ part)
      → g < x
      → (y ≡ b) × IsTorn s (view ar e (g + 1) x u c p) part
  area-IsTorn b part ar e g x y u c p o l = (
    cc (o.wire),
    record {
      is_open = record { in_buffer = omega (arith, o.is_open.in_buffer); live = o.is_open.live };
      wire = cc (o.wire);
      area = omega arith;
      area_read = omega (arith, o.area_read);
      torn = omega (arith, o.torn);
      content_fits = o.content_fits;
      padding_fits = o.padding_fits;
    },
  )

  take_more :
      (fuel b : ℕ) (part : List ℕ) (ar : List Arrival) (e g x : ℕ) (u : List ℕ) (c p : ℕ)
      → IsTorn s (view ar e g x u c p) (b ∷ part)
      → g < x
      → Took fuel (view ar e g x u c p) b part
  unfolding sbumpc
  take_more fuel b part ar e g x [] c p o l = absurd (omega (arith, o.area_read))
  take_more fuel b part ar e g x (y ∷ u) c p o l =
      let (same, o') = area-IsTorn b part ar e g x y u c p o l in
      (view ar e (g + 1) x u c p, rw (lt→ltb g x l, same), o')

  -- A pass that finds content returns its first byte.
  loop_passes :
      (fuel : ℕ) (v : View) (ar : List Arrival) (e g x b : ℕ) (u : List ℕ) (c p : ℕ)
      → refill (at s v) ≡ ok tt (at s (view ar e g x (b ∷ u) (suc c) p))
      → IsOpen s (view ar e g x (b ∷ u) c p)
      → suc c ≤ s.buf.buffer_size
      → p ≤ 255
      → loop garbage (suc fuel) [] (at s v)
        ≡ ok (some b) (
            at s (
              view ar g g
                (g + min (suc c) (suc (length u)))
                (b ∷ u)
                (suc c - min (suc c) (suc (length u)))
                p))
  unfolding loop iteration
  loop_passes fuel v ar e g x b u c p z o l q = rw (
    z,
    ◌>>=◌,
    lt→ltb 0 (suc (length u)) (omega arith),
    content_step_delivers s r ar e g x b u c p o l q,
  )

  take_refilled :
      (fuel b : ℕ) (part : List ℕ) (ar : List Arrival) (e g x : ℕ) (u : List ℕ) (c p : ℕ)
      → IsTorn s (view ar e g x u c p) (b ∷ part)
      → x ≤ g
      → Took (suc fuel) (view ar e g x u c p) b part
  unfolding sbumpc underflow
  take_refilled fuel b part ar e g x u zero p o l = absurd (omega (arith, o.torn))
  take_refilled fuel b part ar e g x u (suc c) p o l =
      let nonempty : 0 < length (u ++ incoming ar) = omega (arith, ap length o.wire) in
      let (ar', e', g', x', b', u', z, o', w') =
        refilled s r ar e g x u (suc c) p o.is_open nonempty in
      let n = min (suc c) (suc (length u')) in
      let w = view ar' g' g' (g' + n) (b' ∷ u') (suc c - n) p in
      let held : IsTorn s w (b ∷ part) = record {
        is_open = record { in_buffer = o'.in_buffer; live = o'.live };
        wire = w' ∙ o.wire;
        area = omega arith;
        area_read = omega arith;
        torn = omega (arith, o.torn, o.area);
        content_fits = omega (arith, o.content_fits);
        padding_fits = o.padding_fits;
      } in
      let (same, o'') =
        area-IsTorn b part ar' g' g' (g' + n) b' u' (suc c - n) p held (omega arith) in
      (
        view ar' g' (g' + 1) (g' + n) u' (suc c - n) p,
        rw (
          le→ltb g x l,
          enter-at garbage s r (loop garbage (suc fuel) []) (view ar e g x u (suc c) p),
          loop_passes fuel (view ar e g x u (suc c) p) ar' e' g' x' b' u' c p z
              (record { in_buffer = o'.in_buffer; live = o'.live }) o.content_fits o.padding_fits,
          ◌>>=◌,
          same,
        ),
        o'',
      )

  take_torn :
      (fuel b : ℕ) (part : List ℕ) (v : View) → IsTorn s v (b ∷ part) → Took (suc fuel) v b part
  take_torn fuel b part v o = elim (Bool-cases (ltb v.gptr v.egptr)) [
    | inl more ↦
        take_more (suc fuel) b part v.arrivals v.eback v.gptr v.egptr v.unread v.content v.padding o
          (ground arith)
    | inr none_left ↦
        take_refilled fuel b part v.arrivals v.eback v.gptr v.egptr v.unread v.content v.padding o
          (ground arith)
  ]

  -- Nothing is left of what arrived.
  torn-throws :
      (fuel : ℕ) (ar : List Arrival) (e g x : ℕ) (u : List ℕ) (c p : ℕ)
      → IsTorn s (view ar e g x u c p) []
      → sbumpc (underflow garbage (suc fuel)) (at s (view ar e g x u c p))
        ≡ threw protocol_violation (at s (view ar e g x u c p))
  unfolding sbumpc underflow loop iteration
  torn-throws fuel ar e g x (y ∷ u) c p o = absurd (omega (arith, ap length o.wire))
  torn-throws fuel (recv_fails ∷ ar) e g x [] c p o = absurd o.is_open.live
  torn-throws fuel (arrives [] ∷ ar) e g x [] c p o = absurd (omega (arith, o.is_open.live.0))
  torn-throws fuel (arrives (y ∷ ys) ∷ ar) e g x [] c p o = absurd (omega (arith, ap length o.wire))
  torn-throws fuel [] e g x [] c p o = rw (
    le→ltb g x (omega (arith, o.area_read)),
    enter-at garbage s r (loop garbage (suc fuel) []) (view [] e g x [] c p),
    refill-ends garbage s r e g x c p,
    ◌>>=◌,
  )

  -- A reader in the midst of a record's content of which only `part` still arrives, in any pieces, before the
  -- connection ends: sbumpc() returns exactly the bytes of `part`, and then throws a protocol violation, with no more
  -- fuel than one pass of the loop.
  pub torn-delivered :
      (fuel : ℕ) (part : List ℕ) (v : View)
      → IsTorn s v part
      → (w : View) × Yields (sbumpc (underflow garbage (suc fuel))) (at s v) part (at s w)
        × (sbumpc (underflow garbage (suc fuel)) (at s w) ≡ threw protocol_violation (at s w))
  torn-delivered fuel [] v o =
      (v, refl, torn-throws fuel v.arrivals v.eback v.gptr v.egptr v.unread v.content v.padding o)
  torn-delivered fuel (b ∷ part) v o =
      let (w, z, o') = take_torn fuel b part v o in
      let (t, y, e) = torn-delivered fuel part w o' in (t, (at s w, z, y), e)
