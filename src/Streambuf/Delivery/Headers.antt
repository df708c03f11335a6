-- ===== src/Streambuf/Delivery/Headers.antt =====
-- What underflow() does once it has collected a header of the reader's own stream.
use fcgi.Prelude.{
  ℕ, ◌+◌, ◌≤◌, ◌<◌, ◌≡◌, refl, ◌≢◌, true, false, ◌&&◌, List, Option, none, arith, eq→==, ne→==,
  ◌==◌,
}
use fcgi.Outcome.{M, ok, ◌>>=◌}
use fcgi.Net.Descriptor.{Arrival}
use fcgi.Basics.{StreamType, params, input, out, err, filter_data, stream_code, filter}
use fcgi.Basics.Header.{Header, check_validity}
use fcgi.Basics.Codec.{Says}
use fcgi.Streambuf.{St, set_buf, is_input, is_ready_to_filter_data}
use fcgi.Streambuf.Setup.{IsReading, IsReading-is_invariant_ok}
use fcgi.Streambuf.ProcessHeader.{content_must_be_consumed, process_header}
use fcgi.Streambuf.Reader.{again, returns, set_end_of_stream, dispatch}
use fcgi.Streambuf.Delivery.View.{View, view, at, IsReader, IsOpen, at-IsReading}

pub stream_code-ne_begin : (t : StreamType) → stream_code t ≢ 1
stream_code-ne_begin params = omega arith
stream_code-ne_begin input = omega arith
stream_code-ne_begin out = omega arith
stream_code-ne_begin err = omega arith
stream_code-ne_begin filter_data = omega arith

-- The reader `s` at a view, after the end of its stream.
abbrev pub ended : St → View → St
ended s v = set_buf (at s v) (record (at s v).buf { is_end_of_stream = true })

not_ready :
    (s : St)
    → (s.connection.role == filter) && is_input s.buf.type ≡ false
    → is_ready_to_filter_data s ≡ false
not_ready s f = ground arith

module _ (garbage : ℕ → ℕ) (s : St) (r : IsReader s) (named : s.connection.request_id ≢ 0) where
  pub process_header-own :
      (underflow : M St (Option ℕ)) (fuel : ℕ) (h : Header) (ar : List Arrival) (g : ℕ) (u : List ℕ)
      (c p len pad : ℕ)
      → Says h (stream_code s.buf.type) s.connection.request_id len pad
      → IsOpen s (view ar g g (g + 0) u c p)
      → len ≤ s.buf.buffer_size
      → pad ≤ 255
      → process_header garbage underflow fuel h (at s (view ar g g (g + 0) u c p))
        ≡ ok content_must_be_consumed (at s (view ar g g (g + 0) u len pad))
  unfolding process_header check_validity
  process_header-own underflow fuel h ar g u c p len pad y o l q =
      let w = view ar g g (g + 0) u len pad in
      rw (
        y.says_version,
        y.says_type,
        ne→== (stream_code s.buf.type) 1 (stream_code-ne_begin s.buf.type),
        y.says_id,
        ne→== s.connection.request_id 0 named,
        eq→== s.connection.request_id s.connection.request_id refl,
        eq→== (stream_code s.buf.type) (stream_code s.buf.type) refl,
        y.says_content,
        y.says_padding,
        IsReading-is_invariant_ok (at s w)
            (at-IsReading s w r (record { in_buffer = o.in_buffer; live = o.live })) l q
            (omega arith) (omega arith) (omega arith),
      )

  -- A record with content is entered.
  pub dispatch-content :
      (underflow : M St (Option ℕ)) (fuel : ℕ) (h : Header) (ar : List Arrival) (e g x : ℕ)
      (u : List ℕ) (c p len pad : ℕ)
      → Says h (stream_code s.buf.type) s.connection.request_id len pad
      → IsOpen s (view ar e g x u c p)
      → 0 < len
      → len ≤ s.buf.buffer_size
      → pad ≤ 255
      → dispatch garbage underflow fuel h (at s (view ar e g x u c p))
        ≡ ok again (at s (view ar g g (g + 0) u len pad))
  unfolding dispatch
  dispatch-content underflow fuel h ar e g x u c p len pad y o n l q = rw (
    process_header-own underflow fuel h ar g u c p len pad y
        (record { in_buffer = o.in_buffer; live = o.live }) l q,
    ◌>>=◌,
    ne→== len 0 (λ z. absurd (omega arith)),
  )

  -- A record without content ends the stream, unless it is the input of a filter.
  pub dispatch-end :
      (underflow : M St (Option ℕ)) (fuel : ℕ) (h : Header) (ar : List Arrival) (e g x : ℕ)
      (u : List ℕ) (c p pad : ℕ)
      → Says h (stream_code s.buf.type) s.connection.request_id 0 pad
      → IsOpen s (view ar e g x u c p)
      → pad ≤ 255
      → (s.connection.role == filter) && is_input s.buf.type ≡ false
      → dispatch garbage underflow fuel h (at s (view ar e g x u c p))
        ≡ ok (returns none) (ended s (view ar g g (g + 0) u 0 pad))
  unfolding dispatch set_end_of_stream
  dispatch-end underflow fuel h ar e g x u c p pad y o q f =
      let w = view ar g g (g + 0) u 0 pad in
      let opened : IsReading (ended s w) = record {
        is_reading = r.is_reading;
        suits_role = r.suits_role;
        get_is_set = refl;
        put_is_unset = refl;
        in_buffer = o.in_buffer;
        large = r.large;
        small = r.small;
        whole = r.whole;
      } in
      rw (
        process_header-own underflow fuel h ar g u c p 0 pad y
            (record { in_buffer = o.in_buffer; live = o.live }) (omega arith) q,
        ◌>>=◌,
        IsReading-is_invariant_ok (ended s w) opened (omega arith) q (omega arith) (omega arith)
            (omega arith),
        not_ready (ended s w) f,
      )
