-- ===== src/Streambuf/Delivery/Steps.antt =====
-- The steps of the loop of underflow(), each at a view.
use fcgi.Prelude.{
  ℕ, suc, ◌+◌, ◌-◌, ◌≤◌, ◌<◌, ◌≡◌, refl, min, List, [], ◌∷◌, ◌++◌, none, some, length,
  length-append, take, take-append, drop-append, take_all, drop_all, length-take, arith, lt→ltb,
  ne→==,
}
use native.Mathlib.Nat.{add-zero, add-sub_cancel_left, sub_self}
use fcgi.Outcome.{ok}
use fcgi.Net.Descriptor.{Arrival, arrives, recv_from, read, max_read_size}
use fcgi.Streambuf.{St}
use fcgi.Streambuf.Setup.{IsReading-is_invariant_ok}
use fcgi.Streambuf.Reader.{again, returns, refill, content_step, padding_step, header_step}
use fcgi.Streambuf.Delivery.View.{view, at, IsReader, IsOpen, at-IsReading}

min_self_add : (n k : ℕ) → min (n + k) n ≡ n
min_self_add n k = omega arith

module _ (s : St) (r : IsReader s) where
  -- Nothing is read while the buffer holds unread bytes.
  pub refill_idle :
      (ar : List Arrival) (e g x b : ℕ) (u : List ℕ) (c p : ℕ)
      → refill (at s (view ar e g x (b ∷ u) c p)) ≡ ok tt (at s (view ar e g x (b ∷ u) c p))
  unfolding refill
  refill_idle ar e g x b u c p = rw (ne→== (suc (length u)) 0 (λ h. absurd (omega arith)))

  -- Otherwise the first arrival is read, as far as the buffer holds it.
  pub refill_reads :
      (b : ℕ) (bs : List ℕ) (rest : List Arrival) (e g x c p : ℕ)
      → refill (at s (view (arrives (b ∷ bs) ∷ rest) e g x [] c p))
        ≡ ok tt (
            at s (
              view
                (recv_from (arrives (b ∷ bs) ∷ rest) s.buf.buffer_size).1
                0
                0
                (length (take s.buf.buffer_size (b ∷ bs)))
                (take s.buf.buffer_size (b ∷ bs))
                c
                p))
  unfolding refill read
  refill_reads b bs rest e g x c p =
      let small : min s.buf.buffer_size max_read_size ≡ s.buf.buffer_size =
        omega (arith, r.small) in
      let some_read : 0 < length (take s.buf.buffer_size (b ∷ bs)) =
        omega (arith, length-take s.buf.buffer_size (b ∷ bs), r.large) in
      rw (small, lt→ltb 0 (length (take s.buf.buffer_size (b ∷ bs))) some_read)

  pub padding_step_all :
      (ar : List Arrival) (e g x : ℕ) (u : List ℕ) (c left : ℕ)
      → 0 < left
      → padding_step (at s (view ar e g x u c (length u + left)))
        ≡ ok (some again) (at s (view ar e (g + length u) x [] c left))
  unfolding padding_step
  padding_step_all ar e g x u c left h = rw (
    lt→ltb 0 (length u + left) (omega arith),
    min_self_add,
    drop_all u,
    add-sub_cancel_left,
    lt→ltb 0 left h,
  )

  pub padding_step_part :
      (ar : List Arrival) (e g x : ℕ) (pad ts : List ℕ) (c : ℕ)
      → padding_step (at s (view ar e g x (pad ++ ts) c (length pad)))
        ≡ ok none (at s (view ar e (g + length pad) x ts c 0))
  unfolding padding_step
  padding_step_part ar e g x [] ts c = rw add-zero
  padding_step_part ar e g x (b ∷ pad) ts c =
      let all : min (suc (length pad)) (suc (length (pad ++ ts))) ≡ suc (length pad) =
        omega (arith, length-append pad ts) in
      rw (lt→ltb 0 (suc (length pad)) (omega arith), all, sub_self, drop-append (b ∷ pad) ts)

  pub header_step_part :
      (ar : List Arrival) (e g x : ℕ) (h u : List ℕ) (c p : ℕ)
      → length h + length u < 8
      → header_step h (at s (view ar e g x u c p))
        ≡ ok (h ++ u) (at s (view ar e (g + length u) x [] c p))
  unfolding header_step
  header_step_part ar e g x h u c p l =
      let all : min (8 - length h) (length u) ≡ length u = omega arith in
      rw (all, take_all u, drop_all u)

  pub header_step_full :
      (ar : List Arrival) (e g x : ℕ) (h hd ts : List ℕ) (c p : ℕ)
      → length h + length hd ≡ 8
      → header_step h (at s (view ar e g x (hd ++ ts) c p))
        ≡ ok (h ++ hd) (at s (view ar e (g + length hd) x ts c p))
  unfolding header_step
  header_step_full ar e g x h hd ts c p l =
      let all : min (8 - length h) (length (hd ++ ts)) ≡ length hd =
        omega (arith, length-append hd ts) in
      rw (all, take-append hd ts, drop-append hd ts)

  -- Content that must be delivered becomes the get area, and its first byte is returned.
  pub content_step_delivers :
      (ar : List Arrival) (e g x b : ℕ) (u : List ℕ) (c p : ℕ)
      → IsOpen s (view ar e g x (b ∷ u) c p)
      → suc c ≤ s.buf.buffer_size
      → p ≤ 255
      → content_step (at s (view ar e g x (b ∷ u) (suc c) p))
        ≡ ok (some (returns (some b))) (
            at s (
              view ar g g
                (g + min (suc c) (suc (length u)))
                (b ∷ u)
                (suc c - min (suc c) (suc (length u)))
                p))
  unfolding content_step
  content_step_delivers ar e g x b u c p o l q =
      let n = min (suc c) (suc (length u)) in
      let w = view ar g g (g + n) (b ∷ u) (suc c - n) p in
      rw (
        lt→ltb 0 (suc c) (omega arith),
        IsReading-is_invariant_ok (at s w)
            (at-IsReading s w r (record { in_buffer = o.in_buffer; live = o.live })) (omega arith)
            (omega arith) (omega arith) (omega arith) (omega arith),
      )

  pub content_step-none :
      (ar : List Arrival) (e g x : ℕ) (u : List ℕ) (p : ℕ)
      → content_step (at s (view ar e g x u 0 p)) ≡ ok none (at s (view ar e g x u 0 p))
  unfolding content_step
  content_step-none ar e g x u p = refl
