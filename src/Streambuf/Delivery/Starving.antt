-- ===== src/Streambuf/Delivery/Starving.antt =====
-- The loop of underflow() behind the header of another request's record: the header stays collected, so that whatever
-- follows is taken for the content of further records of the other request.
use fcgi.Prelude.{
  ℕ, zero, suc, ◌+◌, ◌-◌, ◌≤◌, ◌<◌, ◌≡◌, refl, ap, Bool, true, false, inl, inr, List, [], ◌∷◌, ◌++◌,
  Option, none, some, length, length-append, length-drop, drop, arith, lt→ltb, le→ltb, eq→==,
  le_or_lt,
}
use mathlib.Core.Bool.{false≢true}
use fcgi.Outcome.{Outcome, M, ok, threw, pure, protocol_violation, ◌>>=◌}
use fcgi.Net.Descriptor.{Arrival, arrives, recv_fails}
use fcgi.Basics.Header.{header_of, content_length}
use fcgi.Streambuf.{St}
use fcgi.Streambuf.Reader.{
  Flow, again, content_step, after_content, after_padding, iteration, enter, loop,
}
use fcgi.Streambuf.Delivery.View.{View, view, IsReader, incoming, IsLive, IsOpen, pending}
use fcgi.Streambuf.Delivery.Refill.{refilled}
use fcgi.Streambuf.Delivery.Cut.{refill-ends}
use fcgi.Streambuf.Delivery.Discarding.{
  skip, IsForeign, refill-skip, content-part, content-whole, content-none, padding-part,
  padding-whole, header-whole, dispatch-foreign,
}

-- What is left of the record at hand: not nothing, and content only to be discarded.
pub record IsStarving (s : St) (d : Bool) (v : View) : Type 0 where
  pub is_open : IsOpen s v
  pub some_left : 0 < v.content + v.padding
  pub discarded : 0 < v.content → d ≡ true
  pub content_small : v.content ≤ s.buf.buffer_size
  pub padding_small : v.padding ≤ 255

module _ (garbage : ℕ → ℕ) (s : St) (r : IsReader s) (h : List ℕ) (n : length h ≡ 8)
    (f : IsForeign s (header_of h)) where
  -- A pass goes on with the same header, and of the buffer at most `most` bytes are left.
  abbrev Goes : List Arrival → ℕ → Outcome St (Flow × List ℕ) → Type 0
  Goes ar most o =
      (d : Bool) × (w : View) × (o ≡ ok (again, h) (skip d s w))
      × IsStarving s d w
      × (w.arrivals ≡ ar)
      × (length w.unread ≤ most)

  pub after_padding-foreign :
      (underflow : M St (Option ℕ)) (fuel : ℕ) (d : Bool) (ar : List Arrival) (e g x : ℕ)
      (u : List ℕ)
      → IsOpen s (view ar e g x u 0 0)
      → after_padding garbage underflow fuel h (skip d s (view ar e g x u 0 0))
        ≡ ok
            (again, h)
            (skip true s (
              view ar
                (g + 0)
                (g + 0)
                (g + 0 + 0)
                u
                (content_length (header_of h))
                (header_of h).padding_length))
  unfolding after_padding
  after_padding-foreign underflow fuel d ar e g x u o = rw (
    header-whole s r d h ar e g x u n,
    ◌>>=◌,
    le→ltb (length h) 8 (omega arith),
    eq→== (length h) 8 n,
    dispatch-foreign s r garbage underflow fuel (header_of h) d ar e (g + 0) x u f
        (record { in_buffer = omega (arith, o.in_buffer); live = o.live }),
  )

  after_content-Goes :
      (underflow : M St (Option ℕ)) (fuel : ℕ) (d : Bool) (ar : List Arrival) (e g x : ℕ)
      (u : List ℕ) (p : ℕ)
      → 0 < content_length (header_of h) + (header_of h).padding_length
      → IsOpen s (view ar e g x u 0 p)
      → p ≤ 255
      → Goes ar
          (length u - p)
          (after_content garbage underflow fuel h (skip d s (view ar e g x u 0 p)))
  unfolding after_content
  after_content-Goes underflow fuel d ar e g x u p q o l = elim (le_or_lt p (length u)) [
    | inl k ↦
        let short : length (drop p u) ≡ length u - p = length-drop p u in
        let at_header : IsOpen s (view ar e (g + p) x (drop p u) 0 0) = record {
          in_buffer = omega (arith, o.in_buffer);
          live = o.live;
        } in
        (
          true,
          view ar (g + p + 0) (g + p + 0) (g + p + 0 + 0) (drop p u) (content_length (header_of h))
              (header_of h).padding_length,
          rw (
            padding-whole s r d ar e g x u p k,
            ◌>>=◌,
            after_padding-foreign underflow fuel d ar e (g + p) x (drop p u) at_header,
          ),
          record {
            is_open = record { in_buffer = omega (arith, o.in_buffer); live = o.live };
            some_left = q;
            discarded = λ _. refl;
            content_small = f.content_fits;
            padding_small = f.padding_fits;
          },
          refl,
          omega arith,
        )
    | inr k ↦ (
      d,
      view ar e (g + length u) x [] 0 (p - length u),
      rw (padding-part s r d ar e g x u p k, ◌>>=◌),
      record {
        is_open = record { in_buffer = omega (arith, o.in_buffer); live = o.live };
        some_left = omega arith;
        discarded = λ z. absurd (omega arith);
        content_small = omega arith;
        padding_small = omega arith;
      },
      refl,
      omega arith,
    )
  ]

  -- One pass, once the buffer holds something.
  filled-Goes :
      (underflow : M St (Option ℕ)) (fuel : ℕ) (d : Bool) (ar : List Arrival) (e g x b : ℕ)
      (u : List ℕ) (c p : ℕ)
      → 0 < content_length (header_of h) + (header_of h).padding_length
      → IsStarving s d (view ar e g x (b ∷ u) c p)
      → Goes ar (length u) (
          (content_step >>= λ content. elim content [
            | some flow ↦ pure (flow, h)
            | none ↦ after_content garbage underflow fuel h
          ])
            (skip d s (view ar e g x (b ∷ u) c p)))
  filled-Goes underflow fuel d ar e g x b u zero p q o =
      let (d', w, z, o', a, l) =
        after_content-Goes underflow fuel d ar e g x (b ∷ u) p q o.is_open o.padding_small in
      (
        d',
        w,
        rw (content-none s r d ar e g x (b ∷ u) p, ◌>>=◌) z,
        o',
        a,
        omega (arith, o.some_left),
      )
  filled-Goes underflow fuel false ar e g x b u (suc c) p q o =
      absurd (false≢true (o.discarded (omega arith)))
  filled-Goes underflow fuel true ar e g x b u (suc c) p q o =
      elim (le_or_lt (suc c) (length (b ∷ u))) [
        | inl k ↦
            let short = length-drop (suc c) (b ∷ u) in
            let (d', w, z, o', a, l) =
              after_content-Goes underflow fuel false ar e (g + suc c) x (drop (suc c) (b ∷ u)) p q
                (record { in_buffer = omega (arith, o.is_open.in_buffer); live = o.is_open.live })
                o.padding_small in
            (d', w, rw (content-whole s r ar e g x (b ∷ u) c p k, ◌>>=◌) z, o', a, omega arith)
        | inr k ↦ (
          true,
          view ar e (g + length (b ∷ u)) x [] (suc c - length (b ∷ u)) p,
          rw (content-part s r ar e g x (b ∷ u) (suc c) p k, ◌>>=◌),
          record {
            is_open = record {
              in_buffer = omega (arith, o.is_open.in_buffer);
              live = o.is_open.live;
            };
            some_left = omega arith;
            discarded = λ _. refl;
            content_small = omega (arith, o.content_small);
            padding_small = o.padding_small;
          },
          refl,
          omega arith,
        )
      ]

  -- One pass from any such view takes at least a byte of what is pending.
  abbrev Passes : Bool → View → Outcome St (Flow × List ℕ) → Type 0
  Passes d v o =
      (d' : Bool) × (w : View) × (o ≡ ok (again, h) (skip d' s w))
      × IsStarving s d' w
      × (length (pending w) < length (pending v))

  iteration-Passes :
      (underflow : M St (Option ℕ)) (fuel : ℕ) (d : Bool) (ar : List Arrival) (e g x : ℕ)
      (u : List ℕ) (c p : ℕ)
      → 0 < content_length (header_of h) + (header_of h).padding_length
      → IsStarving s d (view ar e g x u c p)
      → 0 < length (u ++ incoming ar)
      → Passes d
          (view ar e g x u c p)
          (iteration garbage underflow fuel h (skip d s (view ar e g x u c p)))
  unfolding iteration
  iteration-Passes underflow fuel d ar e g x u c p q o more =
      let (ar', e', g', x', b, u', z, o', same) = refilled s r ar e g x u c p o.is_open more in
      let (d', w, y, k, a, l) = filled-Goes underflow fuel d ar' e' g' x' b u' c p q (record {
        is_open = o';
        some_left = o.some_left;
        discarded = o.discarded;
        content_small = o.content_small;
        padding_small = o.padding_small;
      }) in
      (
        d',
        w,
        rw (refill-skip s r d ar e g x u c p, z, ◌>>=◌, lt→ltb 0 (suc (length u')) (omega arith)) y,
        k,
        omega (
          arith,
          ap length same,
          length-append (b ∷ u') (incoming ar'),
          length-append w.unread (incoming w.arrivals),
          ap (λ xs. length (incoming xs)) a,
        ),
      )

  iteration-ends :
      (underflow : M St (Option ℕ)) (fuel : ℕ) (d : Bool) (e g x c p : ℕ)
      → iteration garbage underflow fuel h (skip d s (view [] e g x [] c p))
        ≡ threw protocol_violation (skip d s (view [] e g x [] c p))
  unfolding iteration
  iteration-ends underflow fuel d e g x c p =
      rw (refill-skip s r d [] e g x [] c p, refill-ends garbage s r e g x c p, ◌>>=◌)

  -- The loop throws, once all that arrives is used up.
  abbrev Starves : ℕ → Bool → View → Type 0
  Starves fuel d v =
      (d' : Bool) × (w : View) × (loop garbage fuel h (skip d s v)
        ≡ threw protocol_violation (skip d' s w))

  loop_ends :
      (fuel : ℕ) (d : Bool) (ar : List Arrival) (e g x : ℕ) (u : List ℕ) (c p : ℕ)
      → IsLive ar
      → length (u ++ incoming ar) ≤ 0
      → Starves (suc fuel) d (view ar e g x u c p)
  unfolding loop
  loop_ends fuel d ar e g x (b ∷ u) c p o l = absurd (omega arith)
  loop_ends fuel d (recv_fails ∷ ar) e g x [] c p o l = absurd o
  loop_ends fuel d (arrives bs ∷ ar) e g x [] c p o l =
      absurd (omega (arith, o.0, length-append bs (incoming ar)))
  loop_ends fuel d [] e g x [] c p o l = (
    d,
    view [] e g x [] c p,
    rw (iteration-ends (enter garbage (loop garbage fuel [])) fuel d e g x c p, ◌>>=◌),
  )

  -- A pass, and the rest of the loop.
  loop_more :
      (fuel : ℕ)
      → ((d : Bool) (v : View) → IsStarving s d v → length (pending v) < fuel → Starves fuel d v)
      → (d : Bool) (v : View) → 0 < content_length (header_of h) + (header_of h).padding_length
      → IsStarving s d v
      → length (pending v) < suc fuel
      → 0 < length (pending v)
      → Starves (suc fuel) d v
  unfolding loop
  loop_more fuel ih d v q o l more =
      let (d', w, z, o', k) =
        iteration-Passes (enter garbage (loop garbage fuel [])) fuel d v.arrivals v.eback v.gptr
          v.egptr v.unread v.content v.padding q o more in
      let (d'', t, y) = ih d' w o' (omega arith) in (d'', t, rw (z, ◌>>=◌) y)

  pub loop-Starves :
      (fuel : ℕ) (d : Bool) (v : View)
      → 0 < content_length (header_of h) + (header_of h).padding_length
      → IsStarving s d v
      → length (pending v) < fuel
      → Starves fuel d v
  loop-Starves zero d v q o l = absurd (omega arith)
  loop-Starves (suc fuel) d v q o l = elim (le_or_lt (length (pending v)) 0) [
    | inr more ↦ loop_more fuel (λ d' w k m. loop-Starves fuel d' w q k m) d v q o l more
    | inl none_left ↦
        loop_ends fuel d v.arrivals v.eback v.gptr v.egptr v.unread v.content v.padding
          o.is_open.live none_left
  ]
