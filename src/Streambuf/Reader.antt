-- ===== src/Streambuf/Reader.antt =====
-- underflow() of src/fcgi/streambuf.cpp. One pass of its loop is `iteration`; the header that is being
-- collected, of `read_header_length` bytes, is the argument `header`.
use fcgi.Prelude.{
  ℕ, zero, suc, ◌-◌, true, false, not, ◌&&◌, List, [], ◌++◌, Option, none, some, length, take, min,
  get_or, ltb, ◌==◌, if◌then◌else◌,
}
use fcgi.Outcome.{M, ok, stuck, pure, state, modify, ◌>>=◌, ◌>>◌, guard, assert, protocol_violation}
use fcgi.Net.Descriptor.{read}
use fcgi.Basics.{filter_data}
use fcgi.Basics.Header.{Header, header_of, header_size}
use fcgi.Streambuf.{
  St, Streambuf, set_buf, on_io, gbump, setg_ahead, is_reader, is_closed, is_invariant_ok,
  is_ready_to_filter_data, reset_reader,
}
use fcgi.Streambuf.ProcessHeader.{
  request_rejected, management_processed, content_must_be_consumed, content_must_be_discarded,
  process_header,
}

-- `continue`, or `return`.
pub data Flow : Type 0 where
  again : Flow
  returns : Option ℕ → Flow

abbrev filled : List ℕ → Streambuf → Streambuf
filled bs b = record b { eback = 0; gptr = 0; egptr = length bs; unread = bs }

-- Reading the stream records.
unfoldable pub refill : M St (Unit {0})
refill = do
  s ← state
  if length s.buf.unread == 0
      then (do
        bs ← on_io (read s.buf.buffer_size)
        guard (ltb 0 (length bs)) protocol_violation
        modify (λ t. set_buf t (filled bs t.buf)))
      else pure tt

-- Setting up the get area for the content; `none` goes on with the padding.
unfoldable pub content_step : M St (Option Flow)
content_step s =
    let b = s.buf in
    let count = min b.unread_content_length (length b.unread) in
    let left = b.unread_content_length - count in
    let taken = record b { unread_content_length = left } in
    if ltb 0 b.unread_content_length
    then (if not b.is_content_must_be_discarded
        then (do
          assert (is_invariant_ok (set_buf s (setg_ahead count taken)))
          pure (some (returns (some (get_or b.unread 0 0)))))
            (set_buf s (setg_ahead count taken))
        else if ltb 0 left
        then ok (some again) (set_buf s (gbump count taken))
        else ok none
            (set_buf s (record (gbump count taken) { is_content_must_be_discarded = false })))
    else ok none s

-- Skipping the padding; `none` goes on with the header.
unfoldable pub padding_step : M St (Option Flow)
padding_step s =
    let b = s.buf in
    let count = min b.unread_padding_length (length b.unread) in
    let left = b.unread_padding_length - count in
    if ltb 0 b.unread_padding_length
    then ok (if ltb 0 left then some again else none)
        (set_buf s (gbump count (record b { unread_padding_length = left })))
    else ok none s

-- Accumulating the header.
unfoldable pub header_step : List ℕ → M St (List ℕ)
header_step header s =
    let count = min (header_size - length header) (length s.buf.unread) in
    ok (header ++ take count s.buf.unread) (set_buf s (gbump count s.buf))

unfoldable pub set_end_of_stream : M St (Unit {0})
set_end_of_stream = do
  modify (λ t. set_buf t (record (setg_ahead 0 t.buf) { is_end_of_stream = true }))
  t ← state
  assert (is_invariant_ok t)

module _ (garbage : ℕ → ℕ) where
  -- Processing the header.
  unfoldable pub dispatch : M St (Option ℕ) → ℕ → Header → M St Flow
  dispatch underflow fuel header = do
    modify (λ t. set_buf t (setg_ahead 0 t.buf))
    phr ← process_header garbage underflow fuel header
    elim phr [
      | request_rejected ↦ do set_end_of_stream; pure (returns none)
      | management_processed ↦ pure again
      | content_must_be_consumed ↦ do
        s ← state
        if s.buf.unread_content_length == 0
            then (do
              set_end_of_stream
              t ← state
              if is_ready_to_filter_data t then reset_reader filter_data else pure tt
              pure (returns none))
            else pure again
      | content_must_be_discarded ↦ do
        modify (λ t. set_buf t (record t.buf { is_content_must_be_discarded = true }))
        pure again
    ]

  unfoldable pub after_padding : M St (Option ℕ) → ℕ → List ℕ → M St (Flow × List ℕ)
  after_padding underflow fuel header = do
    s ← state
    assert (s.buf.unread_padding_length == 0)
    header' ← header_step header
    if ltb (length header') header_size then pure (again, header') else (do
      assert (length header' == header_size)
      flow ← dispatch underflow fuel (header_of header')
      pure (flow, header'))

  unfoldable pub after_content : M St (Option ℕ) → ℕ → List ℕ → M St (Flow × List ℕ)
  after_content underflow fuel header = do
    s ← state
    assert (s.buf.unread_content_length == 0)
    skipped ← padding_step
    elim skipped [ some flow ↦ pure (flow, header) | none ↦ after_padding underflow fuel header ]

  unfoldable pub iteration : M St (Option ℕ) → ℕ → List ℕ → M St (Flow × List ℕ)
  iteration underflow fuel header = do
    refill
    s ← state
    assert (ltb 0 (length s.buf.unread))
    content ← content_step
    elim content [ some flow ↦ pure (flow, header) | none ↦ after_content underflow fuel header ]

  -- What stands before the loop.
  unfoldable pub enter : M St (Option ℕ) → M St (Option ℕ)
  enter body = do
    s ← state
    assert (is_reader s.buf && not (is_closed s.buf))
    if s.buf.is_end_of_stream then pure none else body

  -- One unit of fuel for each pass of the loop; a nested underflow() has as many as are left.
  unfoldable pub loop : ℕ → List ℕ → M St (Option ℕ)
  loop zero header s = stuck
  loop (suc fuel) header s =
      (iteration (enter (loop fuel [])) fuel header >>= λ r. elim r.0 [
        | again ↦ loop fuel r.1
        | returns c ↦ pure c
      ])
        s

  unfoldable pub underflow : ℕ → M St (Option ℕ)
  underflow fuel = enter (loop fuel [])
