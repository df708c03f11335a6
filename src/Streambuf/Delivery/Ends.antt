-- ===== src/Streambuf/Delivery/Ends.antt =====
-- The end of a stream: a record with no content.
use mathlib.Core.Path.{subst₂}
use fcgi.Prelude.{
  ℕ, ◌+◌, ◌≤◌, ◌≡◌, refl, sym, ◌∙◌, true, false, ◌&&◌, List, [], ◌++◌, Option, none, length, arith,
  le→ltb, ◌==◌,
}
use fcgi.Outcome.{M, ok, ◌>>=◌, ◌>>◌}
use fcgi.Net.Descriptor.{Arrival}
use fcgi.Basics.{stream_code, filter, filter_data}
use fcgi.Basics.Header.{Header, header_of}
use fcgi.Basics.Codec.{Says}
use fcgi.Streambuf.{St, set_buf, is_input, is_invariant_ok, is_ready_to_filter_data, reset_reader}
use fcgi.Streambuf.Setup.{IsReading, IsReading-is_invariant_ok}
use fcgi.Streambuf.ProcessHeader.{sbumpc}
use fcgi.Streambuf.Reader.{returns, dispatch, set_end_of_stream, enter, loop, underflow}
use fcgi.Streambuf.Delivery.View.{View, view, at, IsReader, pending, IsOpen, at-IsReading}
use fcgi.Streambuf.Delivery.Headers.{ended, process_header-own, dispatch-end}
use fcgi.Streambuf.Delivery.Passes.{finish}
use fcgi.Streambuf.Delivery.Bytes.{Holds, enter-at}
use fcgi.Streambuf.Delivery.Records.{enough, IsNamed, own_header, own_header-Says, Reaches-next}

-- The reader at the data stream of a filter, which has begun.
abbrev pub data_reader : St → St
data_reader s = set_buf s (record s.buf { type = filter_data })

abbrev pub data_begun : St → View → St
data_begun s w = at (data_reader s) (view w.arrivals w.eback w.gptr w.egptr w.unread 0 0)

pub data_reader-IsReader :
    (s : St) → IsReader s → s.connection.role ≡ filter → IsReader (data_reader s)
data_reader-IsReader s r f = record {
  is_reading = refl;
  suits_role = ground arith;
  large = r.large;
  small = r.small;
  whole = r.whole;
}

ready :
    (s : St) (w : View)
    → IsReader s
    → s.connection.role ≡ filter
    → is_input s.buf.type ≡ true
    → is_ready_to_filter_data (ended s w) ≡ true
ready s w r f t = let reading = r.is_reading in ground arith

begun_ok :
    (s : St) (w : View)
    → IsReader s
    → s.connection.role ≡ filter
    → IsOpen s w
    → w.eback ≡ w.gptr
    → w.egptr ≡ w.gptr
    → is_invariant_ok (data_begun s w) ≡ true
begun_ok s w r f o a b =
    let v = view w.arrivals w.eback w.gptr w.egptr w.unread 0 0 in
    IsReading-is_invariant_ok (data_begun s w)
      (at-IsReading (data_reader s) v (data_reader-IsReader s r f)
        (record { in_buffer = o.in_buffer; live = o.live }))
      (omega arith) (omega arith) (omega arith) (omega arith) (omega arith)

module _ (garbage : ℕ → ℕ) (s : St) (r : IsReader s) (i : IsNamed s) where
  -- What is left when the stream has ended, in the state `final`.
  abbrev pub Ends : (View → St) → ℕ → View → List ℕ → List ℕ → Type 0
  Ends final fuel v pad rest =
      (w : View) × (sbumpc (underflow garbage fuel) (at s v) ≡ ok none (final w))
      × (pending w ≡ pad ++ rest)
      × IsOpen s w
      × (w.eback ≡ w.gptr)
      × (w.gptr ≡ w.egptr)
      × (w.padding ≡ length pad)
      × (w.content ≡ 0)

  -- What underflow() makes of a header of no content.
  abbrev Closes : (View → St) → Type 0
  Closes final =
      (underflow : M St (Option ℕ)) (fuel : ℕ) (h : Header) (ar : List Arrival) (e g x : ℕ)
      (u : List ℕ) (c p pad : ℕ)
      → Says h (stream_code s.buf.type) s.connection.request_id 0 pad
      → IsOpen s (view ar e g x u c p)
      → pad ≤ 255
      → dispatch garbage underflow fuel h (at s (view ar e g x u c p))
        ≡ ok (returns none) (final (view ar g g (g + 0) u 0 pad))

  end_next_record :
      (final : View → St)
      → Closes final
      → (fuel : ℕ) (pad pad' rest : List ℕ) (ar : List Arrival) (e g x : ℕ) (u : List ℕ)
      → Holds s
          (view ar e g x u 0 (length pad))
          []
          pad
          (own_header s 0 (length pad') ++ (pad' ++ rest))
      → x ≤ g
      → enough ≤ fuel
      → length pad' ≤ 255
      → Ends final fuel (view ar e g x u 0 (length pad)) pad' rest
  unfolding underflow sbumpc
  end_next_record final closes fuel pad pad' rest ar e g x u o end f q =
      let v = view ar e g x u 0 (length pad) in
      let h = own_header s 0 (length pad') in
      let (m, ar₁, e₁, g₁, x₁, ts, z, o₁, w, k) =
        Reaches-next garbage s r i fuel 0 (length pad') pad (pad' ++ rest) ar e g x u o f in
      let ended' : finish garbage s r m h (at s (view ar₁ e₁ g₁ x₁ ts 0 0))
          ≡ ok none (final (view ar₁ g₁ g₁ (g₁ + 0) ts 0 (length pad'))) =
        rw (
          closes (enter garbage (loop garbage m [])) m (header_of h) ar₁ e₁ g₁ x₁ ts 0 0
              (length pad')
              (own_header-Says garbage s r i 0 (length pad') (omega arith) (omega arith)) o₁ q,
          ◌>>=◌,
        ) in
      (
        view ar₁ g₁ g₁ (g₁ + 0) ts 0 (length pad'),
        rw (le→ltb g x end, enter-at garbage s r (loop garbage fuel []) v ∙ (z ∙ ended'), ◌>>=◌),
        w,
        record { in_buffer = o₁.in_buffer; live = o₁.live },
        refl,
        omega arith,
        refl,
        refl,
      )

  -- At the end of a record's content, a record with no content ends the stream.
  end_record :
      (final : View → St)
      → Closes final
      → (fuel : ℕ) (pad pad' rest : List ℕ) (v : View)
      → Holds s v [] pad (own_header s 0 (length pad') ++ (pad' ++ rest))
      → enough ≤ fuel
      → length pad' ≤ 255
      → Ends final fuel v pad' rest
  end_record final closes fuel pad pad' rest v o f q =
      let empty : v.content ≡ 0 = omega (arith, o.amount, o.area) in
      let rest' = own_header s 0 (length pad') ++ (pad' ++ rest) in
      let w = λ (k n : ℕ). view v.arrivals v.eback v.gptr v.egptr v.unread k n in
      subst₂ (λ k n. Ends final fuel (w k n) pad' rest) (sym empty) (sym o.padded)
        (end_next_record final closes fuel pad pad' rest v.arrivals v.eback v.gptr v.egptr v.unread
          (subst₂ (λ k n. Holds s (w k n) [] pad rest') empty o.padded o)
          (omega (arith, o.amount, o.area)) f q)

  pub end-record :
      (fuel : ℕ) (pad pad' rest : List ℕ) (v : View)
      → Holds s v [] pad (own_header s 0 (length pad') ++ (pad' ++ rest))
      → enough ≤ fuel
      → length pad' ≤ 255
      → (s.connection.role == filter) && is_input s.buf.type ≡ false
      → Ends (ended s) fuel v pad' rest
  end-record fuel pad pad' rest v o f q no_filter =
      end_record (ended s)
        (λ underflow n h ar e g x u c p pad y k l.
          dispatch-end garbage s r i.named underflow n h ar e g x u c p pad y k l no_filter)
        fuel pad pad' rest v o f q

  dispatch-filter :
      (underflow : M St (Option ℕ)) (fuel : ℕ) (h : Header) (ar : List Arrival) (e g x : ℕ)
      (u : List ℕ) (c p pad : ℕ)
      → Says h (stream_code s.buf.type) s.connection.request_id 0 pad
      → IsOpen s (view ar e g x u c p)
      → pad ≤ 255
      → s.connection.role ≡ filter
      → is_input s.buf.type ≡ true
      → dispatch garbage underflow fuel h (at s (view ar e g x u c p))
        ≡ ok (returns none) (data_begun s (view ar g g (g + 0) u 0 pad))
  unfolding dispatch set_end_of_stream reset_reader
  dispatch-filter underflow fuel h ar e g x u c p pad y o q f t =
      let w = view ar g g (g + 0) u 0 pad in
      let opened : IsReading (ended s w) = record {
        is_reading = r.is_reading;
        suits_role = r.suits_role;
        get_is_set = refl;
        put_is_unset = refl;
        in_buffer = o.in_buffer;
        large = r.large;
        small = r.small;
        whole = r.whole;
      } in
      rw (
        process_header-own garbage s r i.named underflow fuel h ar g u c p 0 pad y
            (record { in_buffer = o.in_buffer; live = o.live }) (omega arith) q,
        ◌>>=◌,
        ◌>>◌,
        IsReading-is_invariant_ok (ended s w) opened (omega arith) q (omega arith) (omega arith)
            (omega arith),
        ready s w r f t,
        r.is_reading,
        begun_ok s w r f (record { in_buffer = o.in_buffer; live = o.live }) refl (omega arith),
      )

  -- For the input of a filter the data stream follows.
  pub end-filter :
      (fuel : ℕ) (pad pad' rest : List ℕ) (v : View)
      → Holds s v [] pad (own_header s 0 (length pad') ++ (pad' ++ rest))
      → enough ≤ fuel
      → length pad' ≤ 255
      → s.connection.role ≡ filter
      → is_input s.buf.type ≡ true
      → Ends (data_begun s) fuel v pad' rest
  end-filter fuel pad pad' rest v o f q filters t =
      end_record (data_begun s)
        (λ underflow n h ar e g x u c p pad y k l.
          dispatch-filter underflow n h ar e g x u c p pad y k l filters t)
        fuel pad pad' rest v o f q
