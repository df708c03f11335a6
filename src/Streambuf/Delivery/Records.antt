-- ===== src/Streambuf/Delivery/Records.antt =====
-- From record to record: what sbumpc() returns at the end of a record's content.
use mathlib.Core.Path.{subst₂}
use fcgi.Prelude.{
  ℕ, zero, suc, ◌+◌, ◌≤◌, ◌<◌, ◌≡◌, refl, sym, ◌∙◌, ◌≢◌, List, [], ◌∷◌, ◌++◌, length, arith,
}
use fcgi.Outcome.{◌>>=◌}
use fcgi.Net.Descriptor.{Arrival}
use fcgi.Basics.{StreamType, params, input, out, err, filter_data, stream_code}
use fcgi.Basics.Header.{header_of}
use fcgi.Basics.Codec.{Says, header_fields-Says}
use fcgi.Streambuf.{St}
use fcgi.Streambuf.Reader.{enter, loop, underflow}
use fcgi.Streambuf.Delivery.View.{view, at, IsReader, incoming, IsOpen}
use fcgi.Streambuf.Delivery.Headers.{dispatch-content}
use fcgi.Streambuf.Delivery.Passes.{finish}
use fcgi.Streambuf.Delivery.Collect.{Reaches, loop-Reaches}
use fcgi.Streambuf.Delivery.Frames.{header_for}
use fcgi.Streambuf.Delivery.Bytes.{Holds, Delivered, Took, enter-at, loop_delivers, Took-Delivered}

stream_code-lt : (t : StreamType) → stream_code t < 256
stream_code-lt params = omega arith
stream_code-lt input = omega arith
stream_code-lt out = omega arith
stream_code-lt err = omega arith
stream_code-lt filter_data = omega arith

-- The fuel that each call of underflow() needs at most: a unit for each byte of a padding and of a header, and
-- two more.
abbrev pub enough : ℕ
enough = 265

-- A connection whose requests have an id, and its header for a record.
pub record IsNamed (s : St) : Type 0 where
  pub named : s.connection.request_id ≢ 0
  pub short : s.connection.request_id < 65536

abbrev pub own_header : St → ℕ → ℕ → List ℕ
own_header s = header_for (stream_code s.buf.type) s.connection.request_id

module _ (garbage : ℕ → ℕ) (s : St) (r : IsReader s) (i : IsNamed s) where
  pub own_header-Says :
      (len pad : ℕ)
      → len < 65536
      → pad < 256
      → Says
          (header_of (own_header s len pad))
          (stream_code s.buf.type)
          s.connection.request_id
          len
          pad
  own_header-Says len pad l p =
      header_fields-Says (stream_code s.buf.type) s.connection.request_id len pad
        (stream_code-lt s.buf.type) i.short l p

  -- At the end of a record's content, the loop comes to the end of the next header.
  pub Reaches-next :
      (fuel len n : ℕ) (pad rest : List ℕ) (ar : List Arrival) (e g x : ℕ) (u : List ℕ)
      → Holds s (view ar e g x u 0 (length pad)) [] pad (own_header s len n ++ rest)
      → enough ≤ fuel
      → Reaches garbage s r fuel []
          (own_header s len n)
          (length pad + 8)
          rest
          (view ar e g x u 0 (length pad))
  Reaches-next fuel len n pad rest ar e g x u o f =
      loop-Reaches garbage s r fuel [] (own_header s len n) pad rest ar e g x u o.is_open o.wire
        refl (omega arith) (omega (arith, o.padding_fits))

  -- From there the record's content is delivered.
  next_from :
      (m b : ℕ) (bs pad rest : List ℕ) (ar : List Arrival) (e g x : ℕ) (ts : List ℕ)
      → 0 < m
      → IsOpen s (view ar e g x ts 0 0)
      → ts ++ incoming ar ≡ (b ∷ bs) ++ (pad ++ rest)
      → suc (length bs) ≤ s.buf.buffer_size
      → length pad ≤ 255
      → Delivered garbage s r
          (finish garbage s r m
            (own_header s (suc (length bs)) (length pad))
            (at s (view ar e g x ts 0 0)))
          (b ∷ bs)
          pad
          rest
  next_from zero b bs pad rest ar e g x ts n o w l q = absurd (omega arith)
  next_from (suc m) b bs pad rest ar e g x ts n o w l q =
      let h = own_header s (suc (length bs)) (length pad) in
      let holds : Holds s (view ar g g (g + 0) ts (suc (length bs)) (length pad)) (b ∷ bs) pad
          rest =
        record {
          is_open = record { in_buffer = o.in_buffer; live = o.live };
          wire = w;
          area = omega arith;
          area_read = omega arith;
          amount = omega arith;
          padded = refl;
          content_fits = l;
          padding_fits = q;
        } in
      let (ar', g', x', b', u', c', z, o', n') =
        loop_delivers garbage s r m h (b ∷ bs) pad rest ar g g (g + 0) ts (length bs) holds
          (omega arith) in
      (
        ar',
        g',
        x',
        b',
        u',
        c',
        rw
            (
              dispatch-content garbage s r i.named (enter garbage (loop garbage (suc m) [])) (suc m)
                  (header_of h) ar e g x ts 0 0 (suc (length bs)) (length pad)
                  (own_header-Says (suc (length bs)) (length pad) (omega (arith, r.small))
                    (omega arith))
                  o (omega arith) l q,
              ◌>>=◌,
            )
            z,
        o',
        n',
      )

  -- At the end of a record's content, the first byte of the next record is taken.
  take_next_record :
      (fuel b : ℕ) (bs pad pad' rest : List ℕ) (ar : List Arrival) (e g x : ℕ) (u : List ℕ)
      → Holds s
          (view ar e g x u 0 (length pad))
          []
          pad
          (own_header s (suc (length bs)) (length pad') ++ ((b ∷ bs) ++ (pad' ++ rest)))
      → x ≤ g
      → enough ≤ fuel
      → suc (length bs) ≤ s.buf.buffer_size
      → length pad' ≤ 255
      → Took garbage s r fuel (view ar e g x u 0 (length pad)) b bs pad' rest
  unfolding underflow
  take_next_record fuel b bs pad pad' rest ar e g x u o end f l q =
      let v = view ar e g x u 0 (length pad) in
      let (m, ar₁, e₁, g₁, x₁, ts, z, o₁, w, k) =
        Reaches-next fuel (suc (length bs)) (length pad') pad ((b ∷ bs) ++ (pad' ++ rest)) ar e g x
          u o f in
      let (ar₂, g₂, x₂, b₂, u₂, c₂, z₂, o₂, n) =
        next_from m b bs pad' rest ar₁ e₁ g₁ x₁ ts (omega (arith, o.padding_fits)) o₁ w l q in
      Took-Delivered garbage s r fuel b bs pad' rest v end
        (ar₂, g₂, x₂, b₂, u₂, c₂, enter-at garbage s r (loop garbage fuel []) v ∙ (z ∙ z₂), o₂, n)

  -- The same, from any view at the end of a record.
  pub take-record :
      (fuel b : ℕ) (bs pad pad' rest : List ℕ) (ar : List Arrival) (e g x : ℕ) (u : List ℕ)
      (c p : ℕ)
      → Holds s
          (view ar e g x u c p)
          []
          pad
          (own_header s (suc (length bs)) (length pad') ++ ((b ∷ bs) ++ (pad' ++ rest)))
      → enough ≤ fuel
      → suc (length bs) ≤ s.buf.buffer_size
      → length pad' ≤ 255
      → Took garbage s r fuel (view ar e g x u c p) b bs pad' rest
  take-record fuel b bs pad pad' rest ar e g x u c p o f l q =
      let empty : c ≡ 0 = omega (arith, o.amount, o.area) in
      let rest' = own_header s (suc (length bs)) (length pad') ++ ((b ∷ bs) ++ (pad' ++ rest)) in
      subst₂ (λ k n. Took garbage s r fuel (view ar e g x u k n) b bs pad' rest) (sym empty)
        (sym o.padded)
        (take_next_record fuel b bs pad pad' rest ar e g x u
          (subst₂ (λ k n. Holds s (view ar e g x u k n) [] pad rest') empty o.padded o)
          (omega (arith, o.amount, o.area)) f l q)
