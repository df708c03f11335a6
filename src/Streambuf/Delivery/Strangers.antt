-- ===== src/Streambuf/Delivery/Strangers.antt =====
-- A reader at the first record of another request: underflow() does not come back to the records of its own.
use mathlib.Core.Path.{subst₂}
use fcgi.Prelude.{
  ℕ, zero, suc, ◌+◌, ◌≤◌, ◌<◌, ◌≡◌, refl, sym, ap, ◌∙◌, Bool, true, false, List, [], ◌∷◌, ◌++◌,
  length, arith, lt→ltb, le→ltb,
}
use fcgi.Outcome.{threw, stuck, protocol_violation, ◌>>=◌}
use fcgi.Net.Descriptor.{Arrival}
use fcgi.Basics.{stream_code}
use fcgi.Basics.Header.{header_of, content_length}
use fcgi.NamesValues.Yields.{Yields}
use fcgi.Streambuf.{St}
use fcgi.Streambuf.ProcessHeader.{sbumpc}
use fcgi.Streambuf.Reader.{after_content, iteration, enter, loop, underflow}
use fcgi.Streambuf.Delivery.View.{View, view, at, IsReader, incoming, IsOpen}
use fcgi.Streambuf.Delivery.Refill.{refilled}
use fcgi.Streambuf.Delivery.Passes.{finish}
use fcgi.Streambuf.Delivery.Collect.{loop-Reaches}
use fcgi.Streambuf.Delivery.Frames.{Frame, frames_bytes, contents, AreFrames}
use fcgi.Streambuf.Delivery.Bytes.{Holds, enter-at}
use fcgi.Streambuf.Delivery.Records.{enough, IsNamed}
use fcgi.Streambuf.Delivery.Stream.{frames}
use fcgi.Streambuf.Delivery.Discarding.{
  skip, IsForeign, refill-skip, content-none, padding-whole, dispatch-foreign,
}
use fcgi.Streambuf.Delivery.Starving.{after_padding-foreign, loop-Starves}

module _ (garbage : ℕ → ℕ) (s : St) (r : IsReader s) (h : List ℕ) (n : length h ≡ 8)
    (f : IsForeign s (header_of h)) where
  -- From the header's end, in the state of the discarded record.
  finish-foreign :
      (m : ℕ) (ar : List Arrival) (e g x : ℕ) (u : List ℕ)
      → IsOpen s (view ar e g x u 0 0)
      → finish garbage s r m h (at s (view ar e g x u 0 0))
        ≡ loop garbage m h (
            skip true s
              (view ar g g (g + 0) u (content_length (header_of h)) (header_of h).padding_length))
  finish-foreign m ar e g x u o = rw (
    dispatch-foreign s r garbage (enter garbage (loop garbage m [])) m (header_of h) false ar e g x
        u f o,
    ◌>>=◌,
  )

  -- The state in which the record's content is about to be discarded.
  abbrev discarding : List Arrival → ℕ → List ℕ → St
  discarding ar g u =
      skip true s
        (view ar g g (g + 0) u (content_length (header_of h)) (header_of h).padding_length)

  -- The header is reached.
  abbrev Discards : ℕ → List ℕ → List ℕ → View → Type 0
  Discards fuel pad rest v =
      (m : ℕ) × (ar : List Arrival) × (g : ℕ) × (u : List ℕ) × (underflow garbage fuel (at s v)
        ≡ loop garbage m h (discarding ar g u))
      × IsOpen s (view ar g g (g + 0) u 0 0)
      × (u ++ incoming ar ≡ rest)
      × (fuel ≤ m + (length pad + 8))

  underflow-Discards :
      (fuel : ℕ) (pad rest : List ℕ) (ar : List Arrival) (e g x : ℕ) (u : List ℕ)
      → Holds s (view ar e g x u 0 (length pad)) [] pad (h ++ rest)
      → enough ≤ fuel
      → Discards fuel pad rest (view ar e g x u 0 (length pad))
  unfolding underflow
  underflow-Discards fuel pad rest ar e g x u o k =
      let v = view ar e g x u 0 (length pad) in
      let (m, ar', e', g', x', ts, z, o', w, l) =
        loop-Reaches garbage s r fuel [] h pad rest ar e g x u o.is_open o.wire (omega arith)
          (omega arith) (omega (arith, o.padding_fits)) in
      (
        m,
        ar',
        g',
        ts,
        enter-at garbage s r (loop garbage fuel []) v ∙ (z ∙ finish-foreign m ar' e' g' x' ts o'),
        record { in_buffer = o'.in_buffer; live = o'.live },
        w,
        omega arith,
      )

  -- From any view at the end of a record.
  view-Discards :
      (fuel : ℕ) (pad rest : List ℕ) (v : View)
      → Holds s v [] pad (h ++ rest)
      → enough ≤ fuel
      → Discards fuel pad rest v
  view-Discards fuel pad rest v o k =
      let empty : v.content ≡ 0 = omega (arith, o.amount, o.area) in
      let w = λ (c p : ℕ). view v.arrivals v.eback v.gptr v.egptr v.unread c p in
      subst₂ (λ c p. Discards fuel pad rest (w c p)) (sym empty) (sym o.padded)
        (underflow-Discards fuel pad rest v.arrivals v.eback v.gptr v.egptr v.unread
          (subst₂ (λ c p. Holds s (w c p) [] pad (h ++ rest)) empty o.padded o) k)

  -- With no content and no padding each pass comes back to the same bytes.
  loop-stuck :
      (m : ℕ) (d : Bool) (ar : List Arrival) (e g x : ℕ) (u : List ℕ)
      → content_length (header_of h) ≡ 0
      → (header_of h).padding_length ≡ 0
      → IsOpen s (view ar e g x u 0 0)
      → 0 < length (u ++ incoming ar)
      → loop garbage m h (skip d s (view ar e g x u 0 0)) ≡ stuck
  unfolding loop iteration after_content
  loop-stuck zero d ar e g x u c p o l = refl
  loop-stuck (suc m) d ar e g x u c p o l =
      let (ar', e', g', x', b, u', z, o', w) = refilled s r ar e g x u 0 0 o l in
      let next : IsOpen s (view ar' (g' + 0 + 0) (g' + 0 + 0) (g' + 0 + 0 + 0) (b ∷ u') 0 0) =
        record { in_buffer = omega (arith, o'.in_buffer); live = o'.live } in
      rw
        (
          refill-skip s r d ar e g x u 0 0,
          z,
          ◌>>=◌,
          lt→ltb 0 (suc (length u')) (omega arith),
          content-none s r d ar' e' g' x' (b ∷ u') 0,
          padding-whole s r d ar' e' g' x' (b ∷ u') 0 (omega arith),
          after_padding-foreign garbage s r h n f (enter garbage (loop garbage m [])) m d ar' e'
              (g' + 0) x' (b ∷ u')
              (record { in_buffer = omega (arith, o'.in_buffer); live = o'.live }),
          c,
          p,
        )
        (loop-stuck m true ar' (g' + 0 + 0) (g' + 0 + 0) (g' + 0 + 0 + 0) (b ∷ u') c p next
          (omega arith))

  -- What is left when the record has content or padding: it throws in the end.
  starved :
      (fuel : ℕ) (pad rest : List ℕ) (v : View)
      → 0 < content_length (header_of h) + (header_of h).padding_length
      → Holds s v [] pad (h ++ rest)
      → enough + length rest ≤ fuel
      → (d : Bool) × (w : View) × (sbumpc (underflow garbage fuel) (at s v)
          ≡ threw protocol_violation (skip d s w))
  unfolding sbumpc
  starved fuel pad rest v q o k =
      let (m, ar, g, u, z, o', same, l) = view-Discards fuel pad rest v o (omega arith) in
      let (d, w, y) =
        loop-Starves garbage s r h n f m true
          (view ar g g (g + 0) u (content_length (header_of h)) (header_of h).padding_length) q
          (record {
            is_open = record { in_buffer = o'.in_buffer; live = o'.live };
            some_left = q;
            discarded = λ _. refl;
            content_small = f.content_fits;
            padding_small = f.padding_fits;
          })
          (omega (arith, ap length same, o.padding_fits)) in
      (d, w, rw (le→ltb v.gptr v.egptr (omega (arith, o.amount, o.area)), z, ◌>>=◌, y))

  never :
      (fuel : ℕ) (pad rest : List ℕ) (v : View)
      → content_length (header_of h) ≡ 0
      → (header_of h).padding_length ≡ 0
      → 0 < length rest
      → Holds s v [] pad (h ++ rest)
      → enough ≤ fuel
      → sbumpc (underflow garbage fuel) (at s v) ≡ stuck
  unfolding sbumpc
  never fuel pad rest v c p more o k =
      let (m, ar, g, u, z, o', same, l) = view-Discards fuel pad rest v o k in
      rw (
        le→ltb v.gptr v.egptr (omega (arith, o.amount, o.area)),
        z,
        ◌>>=◌,
        c,
        p,
        loop-stuck m true ar g g (g + 0) u c p o' (omega (arith, ap length same)),
      )

module _ (garbage : ℕ → ℕ) (s : St) (r : IsReader s) (i : IsNamed s) where
  -- The records `fs` of the reader's own stream, then a header, then whatever else.
  abbrev pub Behind : View → List ℕ → List ℕ → List Frame → List ℕ → List ℕ → Type 0
  Behind v cont pad fs h rest =
      Holds s v cont pad
        (frames_bytes (stream_code s.buf.type) s.connection.request_id fs ++ (h ++ rest))

  -- A reader in the midst of its stream meets, behind the records `fs`, a record of another request that has content
  -- or padding: sbumpc() returns exactly what stands before that record, and then, however the bytes go on, it returns
  -- nothing more and throws a protocol violation when the connection ends; a unit of fuel for each byte that follows
  -- is enough.
  pub stranger-starves :
      (fuel : ℕ) (fs : List Frame) (cont pad h rest : List ℕ) (v : View)
      → length h ≡ 8
      → IsForeign s (header_of h)
      → 0 < content_length (header_of h) + (header_of h).padding_length
      → Behind v cont pad fs h rest
      → AreFrames s.buf.buffer_size fs
      → enough + length rest ≤ fuel
      → (w : View) × (d : Bool) × (t : View) × Yields
          (sbumpc (underflow garbage fuel))
          (at s v)
          (cont ++ contents fs)
          (at s w)
        × (sbumpc (underflow garbage fuel) (at s w) ≡ threw protocol_violation (skip d s t))
  stranger-starves fuel fs cont pad h rest v n f q o a k =
      let (w, last, y, o') =
        frames garbage s r i fuel fs cont pad (h ++ rest) v o a (omega arith) in
      let (d, t, z) = starved garbage s r h n f fuel last rest w q o' k in (w, d, t, y, z)

  -- A reader in the midst of its stream that meets, behind records of its own, a record of another request with neither
  -- content nor padding, behind which at least a byte follows, delivers exactly what stands before that record; then,
  -- however many passes are allowed, the loop of underflow() does not end.
  pub empty_stranger-never :
      (fuel : ℕ) (fs : List Frame) (cont pad h rest : List ℕ) (v : View)
      → length h ≡ 8
      → IsForeign s (header_of h)
      → content_length (header_of h) ≡ 0
      → (header_of h).padding_length ≡ 0
      → 0 < length rest
      → Behind v cont pad fs h rest
      → AreFrames s.buf.buffer_size fs
      → enough ≤ fuel
      → (w : View) × Yields
          (sbumpc (underflow garbage fuel))
          (at s v)
          (cont ++ contents fs)
          (at s w)
        × (sbumpc (underflow garbage fuel) (at s w) ≡ stuck)
  empty_stranger-never fuel fs cont pad h rest v n f c p more o a k =
      let (w, last, y, o') = frames garbage s r i fuel fs cont pad (h ++ rest) v o a k in
      (w, y, never garbage s r h n f fuel last rest w c p more o' k)
