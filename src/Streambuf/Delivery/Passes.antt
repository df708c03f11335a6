-- ===== src/Streambuf/Delivery/Passes.antt =====
-- One pass of the loop of underflow() that delivers nothing: it skips padding, collects a part of the next header, or
-- comes to the header's end.
use fcgi.Prelude.{
  ℕ, suc, ◌+◌, ◌<◌, ◌≡◌, refl, ap, ◌∙◌, List, [], ◌∷◌, ◌++◌, Option, length, length-append, arith,
  lt→ltb, le→ltb, eq→==,
}
use fcgi.Outcome.{Outcome, M, ok, threw, terminated, undefined, stuck, pure, ◌>>=◌}
use fcgi.Net.Descriptor.{Arrival}
use fcgi.Basics.Header.{header_of}
use fcgi.Streambuf.{St}
use fcgi.Streambuf.Reader.{
  Flow, again, returns, refill, dispatch, after_padding, after_content, iteration, enter, loop,
  underflow,
}
use fcgi.Streambuf.Delivery.View.{View, view, at, IsReader}
use fcgi.Streambuf.Delivery.Steps.{
  padding_step_all, padding_step_part, header_step_part, header_step_full, content_step-none,
}

module _ (garbage : ℕ → ℕ) (s : St) (r : IsReader s) where
  -- The rest of the loop, once the header `h` is complete.
  abbrev pub finish : ℕ → List ℕ → St → Outcome St (Option ℕ)
  finish fuel h t =
      (dispatch garbage (enter garbage (loop garbage fuel [])) fuel (header_of h) >>= λ f. elim f [
        | again ↦ loop garbage fuel h
        | returns c ↦ pure c
      ])
        t

  -- One pass of the loop, behind the reading of more bytes and with no content to deliver.
  after_content_all :
      (underflow : M St (Option ℕ)) (fuel : ℕ) (h : List ℕ) (ar : List Arrival) (e g x : ℕ)
      (u : List ℕ) (left : ℕ)
      → 0 < left
      → after_content garbage underflow fuel h (at s (view ar e g x u 0 (length u + left)))
        ≡ ok (again, h) (at s (view ar e (g + length u) x [] 0 left))
  unfolding after_content
  after_content_all underflow fuel h ar e g x u left l =
      rw (padding_step_all s r ar e g x u 0 left l, ◌>>=◌)

  after_content_short :
      (underflow : M St (Option ℕ)) (fuel : ℕ) (h : List ℕ) (ar : List Arrival) (e g x : ℕ)
      (pad ts : List ℕ)
      → length h + length ts < 8
      → after_content garbage underflow fuel h (at s (view ar e g x (pad ++ ts) 0 (length pad)))
        ≡ ok (again, h ++ ts) (at s (view ar e (g + length pad + length ts) x [] 0 0))
  unfolding after_content after_padding
  after_content_short underflow fuel h ar e g x pad ts l = rw (
    padding_step_part s r ar e g x pad ts 0,
    ◌>>=◌,
    header_step_part s r ar e (g + length pad) x h ts 0 0 l,
    lt→ltb (length (h ++ ts)) 8 (omega (arith, length-append h ts)),
  )

  after_content_full :
      (underflow : M St (Option ℕ)) (fuel : ℕ) (h hd : List ℕ) (ar : List Arrival) (e g x : ℕ)
      (pad ts : List ℕ)
      → length h + length hd ≡ 8
      → after_content garbage underflow fuel h
          (at s (view ar e g x (pad ++ (hd ++ ts)) 0 (length pad)))
        ≡ (dispatch garbage underflow fuel (header_of (h ++ hd)) >>= λ f. pure (f, h ++ hd))
            (at s (view ar e (g + length pad + length hd) x ts 0 0))
  unfolding after_content after_padding
  after_content_full underflow fuel h hd ar e g x pad ts l = rw (
    padding_step_part s r ar e g x pad (hd ++ ts) 0,
    ◌>>=◌,
    header_step_full s r ar e (g + length pad) x h hd ts 0 0 l,
    le→ltb (length (h ++ hd)) 8 (omega (arith, length-append h hd, l)),
    eq→== (length (h ++ hd)) 8 (omega (arith, length-append h hd, l)),
  )

  -- A pass begins with the refilled view.
  loop_pass :
      (fuel : ℕ) (h : List ℕ) (v : View) (ar : List Arrival) (e g x b : ℕ) (u : List ℕ) (p : ℕ)
      → refill (at s v) ≡ ok tt (at s (view ar e g x (b ∷ u) 0 p))
      → loop garbage (suc fuel) h (at s v)
        ≡ (after_content garbage (enter garbage (loop garbage fuel [])) fuel h >>= λ q. elim q.0 [
          | again ↦ loop garbage fuel q.1
          | returns c ↦ pure c
        ])
            (at s (view ar e g x (b ∷ u) 0 p))
  unfolding loop iteration
  loop_pass fuel h v ar e g x b u p z =
      rw (
        z,
        ◌>>=◌,
        lt→ltb 0 (suc (length u)) (omega arith),
        content_step-none s r ar e g x (b ∷ u) p,
      )

  pub pass_all :
      (fuel : ℕ) (h : List ℕ) (v : View) (ar : List Arrival) (e g x b : ℕ) (u : List ℕ) (p left : ℕ)
      → refill (at s v) ≡ ok tt (at s (view ar e g x (b ∷ u) 0 p))
      → p ≡ length (b ∷ u) + left
      → 0 < left
      → loop garbage (suc fuel) h (at s v)
        ≡ loop garbage fuel h (at s (view ar e (g + length (b ∷ u)) x [] 0 left))
  pass_all fuel h v ar e g x b u p left z q l =
      loop_pass fuel h v ar e g x b u p z
      ∙ rw (
        q,
        after_content_all (enter garbage (loop garbage fuel [])) fuel h ar e g x (b ∷ u) left l,
        ◌>>=◌,
      )

  pub pass_short :
      (fuel : ℕ) (h : List ℕ) (v : View) (ar : List Arrival) (e g x b : ℕ) (u pad ts : List ℕ)
      → refill (at s v) ≡ ok tt (at s (view ar e g x (b ∷ u) 0 (length pad)))
      → b ∷ u ≡ pad ++ ts
      → length h + length ts < 8
      → loop garbage (suc fuel) h (at s v)
        ≡ loop garbage fuel (h ++ ts) (at s (view ar e (g + length pad + length ts) x [] 0 0))
  pass_short fuel h v ar e g x b u pad ts z q l =
      loop_pass fuel h v ar e g x b u (length pad) z
      ∙ ap
          (λ t.
            (after_content garbage (enter garbage (loop garbage fuel [])) fuel h >>= λ q. elim q.0 [
              | again ↦ loop garbage fuel q.1
              | returns c ↦ pure c
            ])
              (at s (view ar e g x t 0 (length pad))))
          q
      ∙ rw (
        after_content_short (enter garbage (loop garbage fuel [])) fuel h ar e g x pad ts l,
        ◌>>=◌,
      )

  finish_assoc :
      (o : Outcome St Flow) (fuel : ℕ) (h : List ℕ) (t : St)
      → ◌>>=◌ {A = Flow × List ℕ} {B = Option ℕ}
          (◌>>=◌ (λ (_ : St). o) (λ f. pure (f, h)))
          (λ q. elim q.0 [ again ↦ loop garbage fuel q.1 | returns c ↦ pure c ])
          t
        ≡ ◌>>=◌ (λ (_ : St). o) (λ f. elim f [ again ↦ loop garbage fuel h | returns c ↦ pure c ]) t
  finish_assoc (ok a t') fuel h t = refl
  finish_assoc (threw x t') fuel h t = refl
  finish_assoc terminated fuel h t = refl
  finish_assoc undefined fuel h t = refl
  finish_assoc stuck fuel h t = refl

  pub pass_full :
      (fuel : ℕ) (h hd : List ℕ) (v : View) (ar : List Arrival) (e g x b : ℕ) (u pad ts : List ℕ)
      → refill (at s v) ≡ ok tt (at s (view ar e g x (b ∷ u) 0 (length pad)))
      → b ∷ u ≡ pad ++ (hd ++ ts)
      → length h + length hd ≡ 8
      → loop garbage (suc fuel) h (at s v)
        ≡ finish fuel (h ++ hd) (at s (view ar e (g + length pad + length hd) x ts 0 0))
  pass_full fuel h hd v ar e g x b u pad ts z q l =
      loop_pass fuel h v ar e g x b u (length pad) z
      ∙ ap
          (λ t.
            (after_content garbage (enter garbage (loop garbage fuel [])) fuel h >>= λ q. elim q.0 [
              | again ↦ loop garbage fuel q.1
              | returns c ↦ pure c
            ])
              (at s (view ar e g x t 0 (length pad))))
          q
      ∙ rw
          (
            after_content_full (enter garbage (loop garbage fuel [])) fuel h hd ar e g x pad ts l,
            ◌>>=◌,
          )
          (finish_assoc
            (dispatch garbage (enter garbage (loop garbage fuel [])) fuel (header_of (h ++ hd))
              (at s (view ar e (g + length pad + length hd) x ts 0 0)))
            fuel (h ++ hd) s)
