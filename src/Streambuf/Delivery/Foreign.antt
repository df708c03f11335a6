-- ===== src/Streambuf/Delivery/Foreign.antt =====
-- process_header() of src/fcgi/streambuf.cpp for the records of requests: the reader's own, and others.
use fcgi.Prelude.{
  ℕ, ◌+◌, ◌≤◌, ◌<◌, ◌≡◌, ◌≢◌, ◌⊎◌, inl, inr, refl, List, [], ◌++◌, Option, length, min, take_all,
  arith, eq→==, ne→==, ◌==◌, Bool-cases,
}
use fcgi.Outcome.{Outcome, M, ok, threw, protocol_violation, ◌>>=◌, ◌>>◌}
use fcgi.Net.Descriptor.{Arrival, write}
use fcgi.Basics.{stream_code, begin_request, cant_mpx_conn, status_code}
use fcgi.Basics.Header.{Header, request_id, content_length, check_validity}
use fcgi.Basics.Codec.{IsEndRequest, end_request_record-IsEndRequest}
use fcgi.Streambuf.{St}
use fcgi.Streambuf.Setup.{IsReading-is_invariant_ok}
use fcgi.Streambuf.ProcessHeader.{
  ProcessHeaderResult, content_must_be_consumed, content_must_be_discarded, write_record,
  reply_end_request, end_request_protocol_violation, process_header,
}
use fcgi.Streambuf.Delivery.View.{View, view, at, IsReader, IsOpen, at-IsReading}

-- A connection whose ::send takes all, and what it has sent.
abbrev pub hearing : St → List ℕ → St
hearing s sent = record {
  connection = record s.connection { io = record s.connection.io { sends = []; sent = sent } };
  buf = s.buf;
}

module _ (s : St) (r : IsReader s) where
  abbrev Refusal : ℕ → List ℕ → Type 0
  Refusal id bytes = IsEndRequest id 0 (status_code cant_mpx_conn) bytes

  replies :
      (h : Header) (v : View) (sent : List ℕ)
      → request_id h < 65536
      → (bytes : List ℕ) × (reply_end_request h cant_mpx_conn (at (hearing s sent) v)
          ≡ ok tt (at (hearing s (sent ++ bytes)) v))
        × Refusal (request_id h) bytes
  unfolding reply_end_request write_record write
  replies h v sent short =
      let (bytes, z, says) =
        end_request_record-IsEndRequest (at (hearing s sent) v) (request_id h) 0 cant_mpx_conn short
          (omega arith) in
      let all : min (length bytes) 2147479552 ≡ length bytes = omega (arith, says.says_size) in
      (bytes, rw (z, ◌>>=◌, all, take_all bytes, eq→== (length bytes) (length bytes) refl), says)

  pub hearing-IsReader : (sent : List ℕ) → IsReader (hearing s sent)
  hearing-IsReader sent = record {
    is_reading = r.is_reading;
    suits_role = r.suits_role;
    large = r.large;
    small = r.small;
    whole = r.whole;
  }

  module _ (garbage : ℕ → ℕ) (underflow : M St (Option ℕ)) (fuel : ℕ) where
    -- What becomes of a record of the type `t` and of the request `id`.
    abbrev pub Judged : ℕ → ℕ → List ℕ → View → Outcome St ProcessHeaderResult → Type 0
    Judged t id sent w o =
        ((t ≡ begin_request)
          × (bytes : List ℕ) × IsEndRequest id 0 (status_code cant_mpx_conn) bytes
          × (o ≡ ok content_must_be_discarded (at (hearing s (sent ++ bytes)) w)))
        ⊎ ((t ≢ begin_request)
            × (id ≢ s.connection.request_id)
            × (o ≡ ok content_must_be_discarded (at (hearing s sent) w)))
        ⊎ ((id ≡ s.connection.request_id)
            × (t ≡ stream_code s.buf.type)
            × (o ≡ ok content_must_be_consumed (at (hearing s sent) w)))
        ⊎ ((t ≢ begin_request)
            × (id ≡ s.connection.request_id)
            × (t ≢ stream_code s.buf.type)
            × (bytes : List ℕ) × IsEndRequest id 0 (status_code cant_mpx_conn) bytes
            × (o ≡ threw protocol_violation (at (hearing s (sent ++ bytes)) w)))

    -- An open reader whose get area is used up, on a connection whose ::send takes all, and a header of version 1 of
    -- a request with an id, not larger than the buffer: a begin-request record is answered with an end-request
    -- record that says that connections are not multiplexed, and is to be discarded; another request's record is to
    -- be discarded; a record of the reader's request and stream is to be consumed; any other record of its request
    -- is answered with the same end-request record, and process_header() throws.
    pub process_header-Judged :
        (h : Header) (sent : List ℕ) (ar : List Arrival) (g : ℕ) (u : List ℕ) (c p : ℕ)
        → IsOpen s (view ar g g (g + 0) u c p)
        → h.protocol_version ≡ 1
        → request_id h ≢ 0
        → request_id h < 65536
        → content_length h ≤ s.buf.buffer_size
        → h.padding_length ≤ 255
        → Judged h.record_type
            (request_id h)
            sent
            (view ar g g (g + 0) u (content_length h) h.padding_length)
            (process_header garbage underflow fuel h
              (at (hearing s sent) (view ar g g (g + 0) u c p)))
    unfolding process_header check_validity end_request_protocol_violation
    process_header-Judged h sent ar g u c p o version named short l q =
        let w = view ar g g (g + 0) u (content_length h) h.padding_length in
        let fine = λ (out : List ℕ).
          IsReading-is_invariant_ok (at (hearing s out) w)
            (at-IsReading (hearing s out) w (hearing-IsReader out)
              (record { in_buffer = o.in_buffer; live = o.live }))
            l q (omega arith) (omega arith) (omega arith) in
        let (bytes, z, says) = replies h w sent short in
        let one = eq→== h.protocol_version 1 version in
        let id = ne→== (request_id h) 0 named in
        elim (Bool-cases (h.record_type == begin_request)) [
          | inl b ↦
              inl (ground arith, bytes, says, rw (one, b, ◌>>=◌, ◌>>◌, z, fine (sent ++ bytes)))
          | inr b ↦ elim (Bool-cases (request_id h == s.connection.request_id)) [
            | inr e ↦ inr (inl (ground arith, ground arith, rw (one, b, id, e, fine sent)))
            | inl e ↦ elim (Bool-cases (h.record_type == stream_code s.buf.type)) [
              | inl k ↦
                  inr (inr (inl (ground arith, ground arith, rw (one, b, id, e, k, fine sent))))
              | inr k ↦ inr (
                  inr (
                    inr (
                      ground arith,
                      ground arith,
                      ground arith,
                      bytes,
                      says,
                      rw (one, b, id, e, k, ◌>>=◌, ◌>>◌, z),
                    )))
            ]
          ]
        ]
