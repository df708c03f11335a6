-- ===== src/Streambuf/Stale.antt =====
-- The header that underflow() has collected, in the next pass of its loop.
use fcgi.Prelude.{
  ℕ, ◌+◌, ◌≡◌, List, ◌∷◌, Option, length, arith, min, append-nil, ne→==, lt→ltb, suc,
}
use fcgi.Outcome.{M, ok, pure, ◌>>=◌}
use fcgi.Net.Descriptor.{Arrival}
use fcgi.Basics.Header.{header_of}
use fcgi.Streambuf.{St}
use fcgi.Streambuf.Reader.{
  refill, content_step, padding_step, header_step, after_content, after_padding, iteration,
  dispatch,
}
use fcgi.Streambuf.Delivery.View.{view, at}

header_step-whole :
    (s : St) (header : List ℕ) (ar : List Arrival) (e g x b : ℕ) (u : List ℕ)
    → length header ≡ 8
    → header_step header (at s (view ar e g x (b ∷ u) 0 0))
      ≡ ok header (at s (view ar e (g + 0) x (b ∷ u) 0 0))
unfolding header_step
header_step-whole s header ar e g x b u n =
    let nothing : min 0 (suc (length u)) ≡ 0 = omega arith in rw (n, nothing, append-nil header)

-- Where a whole header is already collected and no content or padding of its record is left, a pass of the loop takes
-- no byte from the buffer, whatever stands there, and processes the same header again.
iteration-stale :
    (garbage : ℕ → ℕ) (underflow : M St (Option ℕ)) (fuel : ℕ) (s : St) (header : List ℕ)
    (ar : List Arrival) (e g x b : ℕ) (u : List ℕ)
    → length header ≡ 8
    → iteration garbage underflow fuel header (at s (view ar e g x (b ∷ u) 0 0))
      ≡ (dispatch garbage underflow fuel (header_of header) >>= λ flow. pure (flow, header))
          (at s (view ar e (g + 0) x (b ∷ u) 0 0))
unfolding iteration refill content_step padding_step after_content after_padding
iteration-stale garbage underflow fuel s header ar e g x b u n = rw (
  ne→== (suc (length u)) 0 (λ h. absurd (omega arith)),
  ◌>>=◌,
  lt→ltb 0 (suc (length u)) (omega arith),
  header_step-whole s header ar e g x b u n,
  n,
)
