-- ===== src/Streambuf/Delivery/Cut.antt =====
-- A connection that ends before its stream does.
use fcgi.Prelude.{
  ℕ, zero, suc, ◌+◌, ◌≤◌, ◌<◌, ◌≡◌, refl, sym, ap, ◌∙◌, inl, inr, List, [], ◌∷◌, ◌++◌, length,
  length-append, append-split, arith, ltb, le→ltb, Bool-cases,
}
use fcgi.Outcome.{threw, protocol_violation, ◌>>=◌}
use fcgi.Net.Descriptor.{Arrival, arrives, recv_fails, read}
use fcgi.Basics.{stream_code}
use fcgi.NamesValues.Yields.{Yields}
use fcgi.Streambuf.{St}
use fcgi.Streambuf.ProcessHeader.{sbumpc}
use fcgi.Streambuf.Reader.{refill, iteration, loop, underflow}
use fcgi.Streambuf.Delivery.View.{View, view, at, IsReader, incoming, IsOpen}
use fcgi.Streambuf.Delivery.Refill.{refilled}
use fcgi.Streambuf.Delivery.Passes.{pass_all, pass_short}
use fcgi.Streambuf.Delivery.Frames.{Frame, frames_bytes, contents, AreFrames}
use fcgi.Streambuf.Delivery.Bytes.{Holds, enter-at}
use fcgi.Streambuf.Delivery.Records.{enough, IsNamed}
use fcgi.Streambuf.Delivery.Stream.{frames}

module _ (garbage : ℕ → ℕ) (s : St) (r : IsReader s) where
  pub refill-ends :
      (e g x c p : ℕ)
      → refill (at s (view [] e g x [] c p))
        ≡ threw protocol_violation (at s (view [] e g x [] c p))
  unfolding refill read
  refill-ends e g x c p = refl

  loop-ends :
      (fuel : ℕ) (h : List ℕ) (e g x p : ℕ)
      → loop garbage (suc fuel) h (at s (view [] e g x [] 0 p))
        ≡ threw protocol_violation (at s (view [] e g x [] 0 p))
  unfolding loop iteration
  loop-ends fuel h e g x p = rw (refill-ends e g x 0 p, ◌>>=◌)

  abbrev Throws : ℕ → List ℕ → View → Type 0
  Throws fuel h v =
      (w : View) × (loop garbage fuel h (at s v) ≡ threw protocol_violation (at s w))
      × (w.content ≡ 0)

  abbrev Claim : ℕ → Type 0
  Claim fuel =
      (h pad part : List ℕ) (ar : List Arrival) (e g x : ℕ) (u : List ℕ)
      → IsOpen s (view ar e g x u 0 (length pad))
      → u ++ incoming ar ≡ pad ++ part
      → length h + length part < 8
      → length pad + length part < fuel
      → Throws fuel h (view ar e g x u 0 (length pad))

  -- Something is still to come.
  loop_more :
      (fuel : ℕ)
      → Claim fuel
      → (h pad part : List ℕ) (ar : List Arrival) (e g x : ℕ) (u : List ℕ)
      → IsOpen s (view ar e g x u 0 (length pad))
      → u ++ incoming ar ≡ pad ++ part
      → length h + length part < 8
      → length pad + length part < suc fuel
      → 0 < length (u ++ incoming ar)
      → Throws (suc fuel) h (view ar e g x u 0 (length pad))
  loop_more fuel ih h pad part ar e g x u o w l f some_left =
      let (ar', e', g', x', b, u', z, o', w') =
        refilled s r ar e g x u 0 (length pad) o some_left in
      let v = view ar e g x u 0 (length pad) in
      elim (Bool-cases (ltb (length (b ∷ u')) (length pad))) [
        | inl fewer ↦
            let (pad', q, q') =
              append-split (b ∷ u') (incoming ar') pad part (w' ∙ w) (ground arith) in
            let size : length pad ≡ length (b ∷ u') + length pad' =
              omega (arith, ap length q, length-append (b ∷ u') pad') in
            let left : 0 < length pad' = ground (arith, size) in
            let (t, y, n) =
              ih h pad' part ar' e' (g' + length (b ∷ u')) x' []
                (record { in_buffer = omega (arith, o'.in_buffer); live = o'.live }) q' l
                (omega (arith, size)) in
            (
              t,
              pass_all garbage s r fuel h v ar' e' g' x' b u' (length pad) (length pad') z size left
                  ∙ y,
              n,
            )
        | inr more ↦
            let (ts, q, q') =
              append-split pad part (b ∷ u') (incoming ar') (sym (w' ∙ w)) (ground arith) in
            let size : suc (length u') ≡ length pad + length ts =
              omega (arith, ap length q, length-append pad ts) in
            let sizes : length part ≡ length ts + length (incoming ar') =
              omega (arith, ap length q', length-append ts (incoming ar')) in
            let (t, y, n) =
              ih (h ++ ts) [] (incoming ar') ar' e' (g' + length pad + length ts) x' []
                (record { in_buffer = omega (arith, o'.in_buffer); live = o'.live }) refl
                (omega (arith, length-append h ts)) (omega arith) in
            (t, pass_short garbage s r fuel h v ar' e' g' x' b u' pad ts z q (omega arith) ∙ y, n)
      ]

  -- From the padding of a record to a part of the next header, and then to the end of the connection.
  loop-Throws : (fuel : ℕ) → Claim fuel
  loop-Throws zero h pad part ar e g x u o w l f = absurd (omega arith)
  loop-Throws (suc fuel) h pad part [] e g x [] o w l f =
      (view [] e g x [] 0 (length pad), loop-ends fuel h e g x (length pad), refl)
  loop-Throws (suc fuel) h pad part (recv_fails ∷ ar) e g x [] o w l f = absurd o.live
  loop-Throws (suc fuel) h pad part (arrives [] ∷ ar) e g x [] o w l f =
      absurd (omega (arith, o.live.0))
  loop-Throws (suc fuel) h pad part (arrives (y ∷ ys) ∷ ar) e g x [] o w l f =
      loop_more fuel (loop-Throws fuel) h pad part (arrives (y ∷ ys) ∷ ar) e g x [] o w l f
        (omega arith)
  loop-Throws (suc fuel) h pad part ar e g x (y ∷ ys) o w l f =
      loop_more fuel (loop-Throws fuel) h pad part ar e g x (y ∷ ys) o w l f (omega arith)

  -- From any view between two records.
  pub cut-Throws :
      (fuel : ℕ) (pad part : List ℕ) (ar : List Arrival) (e g x : ℕ) (u : List ℕ) (c p : ℕ)
      → Holds s (view ar e g x u c p) [] pad part
      → length part < 8
      → enough ≤ fuel
      → (w : View) × (sbumpc (underflow garbage fuel) (at s (view ar e g x u c p))
          ≡ threw protocol_violation (at s w))
        × (w.content ≡ 0)
  unfolding underflow sbumpc
  cut-Throws fuel pad part ar e g x u c p o l f =
      let empty : c ≡ 0 = omega (arith, o.amount, o.area) in
      let used : g ≡ x = omega (arith, o.amount, o.area) in
      let (w, y, n) =
        loop-Throws fuel [] pad part ar e g x u
          (record { in_buffer = omega (arith, o.is_open.in_buffer); live = o.is_open.live }) o.wire
          (omega arith) (omega (arith, o.padding_fits)) in
      (
        w,
        rw (
          empty,
          o.padded,
          le→ltb g x (omega arith),
          enter-at garbage s r (loop garbage fuel []) (view ar e g x u 0 (length pad)),
          ◌>>=◌,
          y,
        ),
        n,
      )

module _ (garbage : ℕ → ℕ) (s : St) (r : IsReader s) (i : IsNamed s) where
  -- A reader in the midst of the content `cont` of a record, behind whose padding come the records `fs` and then less
  -- than a header, `part`, which is the last that arrives, in any pieces: sbumpc() returns exactly the bytes of
  -- `cont` and of the content of the records, and then throws a protocol violation: it does not return the end of the
  -- stream.
  pub cut-delivered :
      (fuel : ℕ) (fs : List Frame) (cont pad part : List ℕ) (v : View)
      → Holds s v cont pad
          (frames_bytes (stream_code s.buf.type) s.connection.request_id fs ++ part)
      → AreFrames s.buf.buffer_size fs
      → length part < 8
      → enough ≤ fuel
      → (w : View) × (t : View) × Yields
          (sbumpc (underflow garbage fuel))
          (at s v)
          (cont ++ contents fs)
          (at s w)
        × (sbumpc (underflow garbage fuel) (at s w) ≡ threw protocol_violation (at s t))
  cut-delivered fuel fs cont pad part v o a l f =
      let (w, last, y, h) = frames garbage s r i fuel fs cont pad part v o a f in
      let (t, z, n) =
        cut-Throws garbage s r fuel last part w.arrivals w.eback w.gptr w.egptr w.unread w.content
          w.padding h l f in
      (w, t, y, z)
