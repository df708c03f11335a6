-- ===== src/Streambuf/Delivery/Collect.antt =====
-- The loop of underflow() from the end of one record's content to the end of the next header.
use fcgi.Prelude.{
  ℕ, zero, suc, ◌+◌, ◌≤◌, ◌<◌, ◌≡◌, sym, ap, ◌∙◌, inl, inr, List, [], ◌∷◌, ◌++◌, length,
  length-append, append-split, append_assoc, arith, ltb, Bool-cases,
}
use mathlib.Core.Path.{subst}
use fcgi.Outcome.{ok}
use fcgi.Net.Descriptor.{Arrival}
use fcgi.Streambuf.{St}
use fcgi.Streambuf.Reader.{refill, loop}
use fcgi.Streambuf.Delivery.View.{View, view, at, IsReader, incoming, IsOpen}
use fcgi.Streambuf.Delivery.Refill.{refilled}
use fcgi.Streambuf.Delivery.Passes.{finish, pass_all, pass_short, pass_full}

module _ (garbage : ℕ → ℕ) (s : St) (r : IsReader s) where
  -- The loop comes to the end of the header `hd` after `k` bytes at most, with `rest` still to come.
  abbrev pub Reaches : ℕ → List ℕ → List ℕ → ℕ → List ℕ → View → Type 0
  Reaches fuel h hd k rest v =
      (m : ℕ) × (ar : List Arrival) × (e : ℕ) × (g : ℕ) × (x : ℕ) × (ts : List ℕ) × (loop garbage
          fuel h (at s v)
        ≡ finish garbage s r m hd (at s (view ar e g x ts 0 0)))
      × IsOpen s (view ar e g x ts 0 0)
      × (ts ++ incoming ar ≡ rest)
      × (fuel ≤ m + k)

  -- The loop goes on from another view.
  loop_again :
      (fuel : ℕ) (h h' hd : List ℕ) (k k' : ℕ) (rest : List ℕ) (v w : View)
      → loop garbage (suc fuel) h (at s v) ≡ loop garbage fuel h' (at s w)
      → k < k'
      → Reaches fuel h' hd k rest w
      → Reaches (suc fuel) h hd k' rest v
  loop_again fuel h h' hd k k' rest v w z l (m, ar, e, g, x, ts, eq, o, q, f) =
      (m, ar, e, g, x, ts, z ∙ eq, o, q, omega arith)

  -- What is claimed of the loop with a given fuel.
  abbrev pub Claim : ℕ → Type 0
  Claim fuel =
      (h hd pad rest : List ℕ) (ar : List Arrival) (e g x : ℕ) (u : List ℕ)
      → IsOpen s (view ar e g x u 0 (length pad))
      → u ++ incoming ar ≡ pad ++ (hd ++ rest)
      → length h + length hd ≡ 8
      → 0 < length hd
      → length pad + length hd ≤ fuel
      → Reaches fuel h (h ++ hd) (length pad + length hd) rest (view ar e g x u 0 (length pad))

  -- The bytes at hand are padding, and more of it is to come.
  Claim-all :
      (fuel : ℕ)
      → Claim fuel
      → (h hd pad pad' rest : List ℕ) (v : View) (ar : List Arrival) (e g x b : ℕ) (u : List ℕ)
      → refill (at s v) ≡ ok tt (at s (view ar e g x (b ∷ u) 0 (length pad)))
      → IsOpen s (view ar e g x (b ∷ u) 0 (length pad))
      → pad ≡ (b ∷ u) ++ pad'
      → 0 < length pad'
      → incoming ar ≡ pad' ++ (hd ++ rest)
      → length h + length hd ≡ 8
      → 0 < length hd
      → length pad + length hd ≤ suc fuel
      → Reaches (suc fuel) h (h ++ hd) (length pad + length hd) rest v
  Claim-all fuel ih h hd pad pad' rest v ar e g x b u z o q left q' l n f =
      let p : length pad ≡ length (b ∷ u) + length pad' =
        omega (arith, ap length q, length-append (b ∷ u) pad') in
      loop_again fuel h h (h ++ hd) (length pad' + length hd) (length pad + length hd) rest v
        (view ar e (g + length (b ∷ u)) x [] 0 (length pad'))
        (pass_all garbage s r fuel h v ar e g x b u (length pad) (length pad') z p left)
        (omega arith)
        (ih h hd pad' rest ar e (g + length (b ∷ u)) x []
          (record { in_buffer = omega (arith, o.in_buffer); live = o.live }) q' l n (omega arith))

  -- They end within the header.
  Claim-part :
      (fuel : ℕ)
      → Claim fuel
      → (h hd hd' pad ts rest : List ℕ) (v : View) (ar : List Arrival) (e g x b : ℕ) (u : List ℕ)
      → refill (at s v) ≡ ok tt (at s (view ar e g x (b ∷ u) 0 (length pad)))
      → IsOpen s (view ar e g x (b ∷ u) 0 (length pad))
      → b ∷ u ≡ pad ++ ts
      → hd ≡ ts ++ hd'
      → 0 < length hd'
      → incoming ar ≡ hd' ++ rest
      → length h + length hd ≡ 8
      → length pad + length hd ≤ suc fuel
      → Reaches (suc fuel) h (h ++ hd) (length pad + length hd) rest v
  Claim-part fuel ih h hd hd' pad ts rest v ar e g x b u z o q t left t' l f =
      let size : suc (length u) ≡ length pad + length ts =
        omega (arith, ap length q, length-append pad ts) in
      let sizes : length hd ≡ length ts + length hd' =
        omega (arith, ap length t, length-append ts hd') in
      let whole : (h ++ ts) ++ hd' ≡ h ++ hd = append_assoc h ts hd' ∙ ap (λ y. h ++ y) (sym t) in
      let w = view ar e (g + length pad + length ts) x [] 0 0 in
      loop_again fuel h (h ++ ts) (h ++ hd) (0 + length hd') (length pad + length hd) rest v w
        (pass_short garbage s r fuel h v ar e g x b u pad ts z q (omega arith)) (omega arith)
        (subst (λ y. Reaches fuel (h ++ ts) y (0 + length hd') rest w) whole
          (ih (h ++ ts) hd' [] rest ar e (g + length pad + length ts) x []
            (record { in_buffer = omega (arith, o.in_buffer); live = o.live }) t'
            (omega (arith, length-append h ts)) left (omega arith)))

  -- They hold the rest of the header.
  claim_full :
      (fuel : ℕ) (h hd pad ts us rest : List ℕ) (v : View) (ar : List Arrival) (e g x b : ℕ)
      (u : List ℕ)
      → refill (at s v) ≡ ok tt (at s (view ar e g x (b ∷ u) 0 (length pad)))
      → IsOpen s (view ar e g x (b ∷ u) 0 (length pad))
      → b ∷ u ≡ pad ++ ts
      → ts ≡ hd ++ us
      → rest ≡ us ++ incoming ar
      → length h + length hd ≡ 8
      → 0 < length hd
      → Reaches (suc fuel) h (h ++ hd) (length pad + length hd) rest v
  claim_full fuel h hd pad ts us rest v ar e g x b u z o q t t' l n =
      let size : suc (length u) ≡ length pad + length ts =
        omega (arith, ap length q, length-append pad ts) in
      let sizes : length ts ≡ length hd + length us =
        omega (arith, ap length t, length-append hd us) in
      (
        fuel,
        ar,
        e,
        g + length pad + length hd,
        x,
        us,
        pass_full garbage s r fuel h hd v ar e g x b u pad us z (q ∙ ap (λ y. pad ++ y) t) l,
        record { in_buffer = omega (arith, o.in_buffer); live = o.live },
        sym t',
        omega arith,
      )

  -- The padding is over.
  Claim-rest :
      (fuel : ℕ)
      → Claim fuel
      → (h hd pad ts rest : List ℕ) (v : View) (ar : List Arrival) (e g x b : ℕ) (u : List ℕ)
      → refill (at s v) ≡ ok tt (at s (view ar e g x (b ∷ u) 0 (length pad)))
      → IsOpen s (view ar e g x (b ∷ u) 0 (length pad))
      → b ∷ u ≡ pad ++ ts
      → ts ++ incoming ar ≡ hd ++ rest
      → length h + length hd ≡ 8
      → 0 < length hd
      → length pad + length hd ≤ suc fuel
      → Reaches (suc fuel) h (h ++ hd) (length pad + length hd) rest v
  Claim-rest fuel ih h hd pad ts rest v ar e g x b u z o q q' l n f =
      elim (Bool-cases (ltb (length ts) (length hd))) [
        | inl part ↦
            let (hd', t, t') = append-split ts (incoming ar) hd rest q' (ground arith) in
            let left : 0 < length hd' = ground (arith, ap length t, length-append ts hd') in
            Claim-part fuel ih h hd hd' pad ts rest v ar e g x b u z o q t left t' l f
        | inr full ↦
            let (us, t, t') = append-split hd rest ts (incoming ar) (sym q') (ground arith) in
            claim_full fuel h hd pad ts us rest v ar e g x b u z o q t t' l n
      ]

  -- From the padding of a record the loop comes to the end of the next header. One unit of fuel is enough for
  -- each byte on the way.
  pub loop-Reaches : (fuel : ℕ) → Claim fuel
  loop-Reaches zero h hd pad rest ar e g x u o w l n f = absurd (omega arith)
  loop-Reaches (suc fuel) h hd pad rest ar e g x u o w l n f =
      let nonempty : 0 < length (u ++ incoming ar) =
        omega (arith, ap length w, length-append pad (hd ++ rest), length-append hd rest) in
      let (ar', e', g', x', b, u', z, o', w') = refilled s r ar e g x u 0 (length pad) o nonempty in
      let v = view ar e g x u 0 (length pad) in
      elim (Bool-cases (ltb (length (b ∷ u')) (length pad))) [
        | inl fewer ↦
            let (pad', q, q') =
              append-split (b ∷ u') (incoming ar') pad (hd ++ rest) (w' ∙ w) (ground arith) in
            let left : 0 < length pad' = ground (arith, ap length q, length-append (b ∷ u') pad') in
            Claim-all fuel (loop-Reaches fuel) h hd pad pad' rest v ar' e' g' x' b u' z o' q left q'
              l n f
        | inr more ↦
            let (ts, q, q') =
              append-split pad (hd ++ rest) (b ∷ u') (incoming ar') (sym (w' ∙ w)) (ground arith) in
            Claim-rest fuel (loop-Reaches fuel) h hd pad ts rest v ar' e' g' x' b u' z o' q (sym q')
              l n f
      ]
