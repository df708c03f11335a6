-- ===== src/Streambuf/Delivery/Discarding.antt =====
-- The steps of the loop of underflow() at the record of another request, whose content is to be discarded.
use fcgi.Prelude.{
  ℕ, zero, suc, ◌+◌, ◌-◌, ◌≤◌, ◌<◌, ◌≡◌, ◌≢◌, refl, min, Bool, true, false, inl, inr, List, [], ◌∷◌,
  Option, none, some, length, drop, take, append-nil, arith, ltb, lt→ltb, eq→==, ne→==, Bool-cases,
  drop_all,
}
use native.Mathlib.Nat.{add-zero, sub_self}
use fcgi.Outcome.{Outcome, M, ok, threw, terminated, undefined, stuck, ◌>>=◌}
use fcgi.Net.Descriptor.{Arrival, arrives, recv_fails, read}
use fcgi.Basics.{begin_request}
use fcgi.Basics.Header.{Header, request_id, content_length, check_validity}
use fcgi.Streambuf.{St, set_buf}
use fcgi.Streambuf.Setup.{IsReading, IsReading-is_invariant_ok}
use fcgi.Streambuf.ProcessHeader.{process_header}
use fcgi.Streambuf.Reader.{again, refill, content_step, padding_step, header_step, dispatch}
use fcgi.Streambuf.Delivery.View.{View, view, at, IsReader, IsOpen}

-- The flag that says whether content is to be discarded.
abbrev flagged : Bool → St → St
flagged d s = set_buf s (record s.buf { is_content_must_be_discarded = d })

-- The reader `s` at a view, with this flag.
abbrev pub skip : Bool → St → View → St
skip d s v = flagged d (at s v)

abbrev flagged_outcome : {A : Type 0} → Bool → Outcome St A → Outcome St A
flagged_outcome d (ok a s) = ok a (flagged d s)
flagged_outcome d (threw e s) = threw e (flagged d s)
flagged_outcome d terminated = terminated
flagged_outcome d undefined = undefined
flagged_outcome d stuck = stuck

-- A header of version 1 of a record of another request that this reader can discard.
pub record IsForeign (s : St) (h : Header) : Type 0 where
  pub version : h.protocol_version ≡ 1
  pub begins_none : h.record_type ≢ begin_request
  pub named : request_id h ≢ 0
  pub foreign : request_id h ≢ s.connection.request_id
  pub content_fits : content_length h ≤ s.buf.buffer_size
  pub padding_fits : h.padding_length ≤ 255

module _ (s : St) (r : IsReader s) where
  -- Reading more bytes does not look at the flag.
  pub refill-skip :
      (d : Bool) (ar : List Arrival) (e g x : ℕ) (u : List ℕ) (c p : ℕ)
      → refill (skip d s (view ar e g x u c p))
        ≡ flagged_outcome d (refill (at s (view ar e g x u c p)))
  unfolding refill read
  refill-skip d ar e g x (y ∷ u) c p = rw (ne→== (suc (length u)) 0 (λ h. absurd (omega arith)))
  refill-skip d [] e g x [] c p = refl
  refill-skip d (recv_fails ∷ ar) e g x [] c p = refl
  refill-skip d (arrives bs ∷ ar) e g x [] c p =
      elim (Bool-cases (ltb 0 (length (take (min s.buf.buffer_size 2147479552) bs)))) [
        | inl h ↦ rw h
        | inr h ↦ rw h
      ]

  pub content-part :
      (ar : List Arrival) (e g x : ℕ) (u : List ℕ) (c p : ℕ)
      → length u < c
      → content_step (skip true s (view ar e g x u c p))
        ≡ ok (some again) (skip true s (view ar e (g + length u) x [] (c - length u) p))
  unfolding content_step
  content-part ar e g x u c p l =
      let few : min c (length u) ≡ length u = omega arith in
      rw (lt→ltb 0 c (omega arith), few, lt→ltb 0 (c - length u) (omega arith), drop_all u)

  pub content-whole :
      (ar : List Arrival) (e g x : ℕ) (u : List ℕ) (c p : ℕ)
      → suc c ≤ length u
      → content_step (skip true s (view ar e g x u (suc c) p))
        ≡ ok none (skip false s (view ar e (g + suc c) x (drop (suc c) u) 0 p))
  unfolding content_step
  content-whole ar e g x u c p l =
      let all : min (suc c) (length u) ≡ suc c = omega arith in
      rw (lt→ltb 0 (suc c) (omega arith), all, sub_self)

  pub content-none :
      (d : Bool) (ar : List Arrival) (e g x : ℕ) (u : List ℕ) (p : ℕ)
      → content_step (skip d s (view ar e g x u 0 p)) ≡ ok none (skip d s (view ar e g x u 0 p))
  unfolding content_step
  content-none d ar e g x u p = refl

  pub padding-part :
      (d : Bool) (ar : List Arrival) (e g x : ℕ) (u : List ℕ) (p : ℕ)
      → length u < p
      → padding_step (skip d s (view ar e g x u 0 p))
        ≡ ok (some again) (skip d s (view ar e (g + length u) x [] 0 (p - length u)))
  unfolding padding_step
  padding-part d ar e g x u p l =
      let few : min p (length u) ≡ length u = omega arith in
      rw (lt→ltb 0 p (omega arith), few, lt→ltb 0 (p - length u) (omega arith), drop_all u)

  pub padding-whole :
      (d : Bool) (ar : List Arrival) (e g x : ℕ) (u : List ℕ) (p : ℕ)
      → p ≤ length u
      → padding_step (skip d s (view ar e g x u 0 p))
        ≡ ok none (skip d s (view ar e (g + p) x (drop p u) 0 0))
  unfolding padding_step
  padding-whole d ar e g x u zero l = rw add-zero
  padding-whole d ar e g x u (suc p) l =
      let all : min (suc p) (length u) ≡ suc p = omega arith in
      rw (lt→ltb 0 (suc p) (omega arith), all, sub_self)

  -- The header is already whole.
  pub header-whole :
      (d : Bool) (header : List ℕ) (ar : List Arrival) (e g x : ℕ) (u : List ℕ)
      → length header ≡ 8
      → header_step header (skip d s (view ar e g x u 0 0))
        ≡ ok header (skip d s (view ar e (g + 0) x u 0 0))
  unfolding header_step
  header-whole d header ar e g x u n =
      let nothing : min 0 (length u) ≡ 0 = omega arith in rw (n, nothing, append-nil header)

  pub dispatch-foreign :
      (garbage : ℕ → ℕ) (underflow : M St (Option ℕ)) (fuel : ℕ) (h : Header) (d : Bool)
      (ar : List Arrival) (e g x : ℕ) (u : List ℕ)
      → IsForeign s h
      → IsOpen s (view ar e g x u 0 0)
      → dispatch garbage underflow fuel h (skip d s (view ar e g x u 0 0))
        ≡ ok again (skip true s (view ar g g (g + 0) u (content_length h) h.padding_length))
  unfolding dispatch process_header check_validity
  dispatch-foreign garbage underflow fuel h d ar e g x u f o =
      let w = view ar g g (g + 0) u (content_length h) h.padding_length in
      let reading : IsReading (skip d s w) = record {
        is_reading = r.is_reading;
        suits_role = r.suits_role;
        get_is_set = refl;
        put_is_unset = refl;
        in_buffer = o.in_buffer;
        large = r.large;
        small = r.small;
        whole = r.whole;
      } in
      rw (
        ◌>>=◌,
        eq→== h.protocol_version 1 f.version,
        ne→== h.record_type begin_request f.begins_none,
        ne→== (request_id h) 0 f.named,
        ne→== (request_id h) s.connection.request_id f.foreign,
        IsReading-is_invariant_ok (skip d s w) reading f.content_fits f.padding_fits (omega arith)
            (omega arith) (omega arith),
      )
