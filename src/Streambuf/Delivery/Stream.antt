-- ===== src/Streambuf/Delivery/Stream.antt =====
-- A whole stream: what sbumpc() returns from its first byte to its end.
use mathlib.Core.Path.{subst}
use fcgi.Prelude.{
  ℕ, zero, suc, ◌≤◌, ◌≡◌, refl, true, false, ◌&&◌, List, [], ◌∷◌, ◌++◌, length, arith, ◌==◌,
}
use fcgi.Basics.{stream_code, filter}
use fcgi.NamesValues.Yields.{Yields}
use fcgi.Streambuf.{St, is_input}
use fcgi.Streambuf.ProcessHeader.{sbumpc}
use fcgi.Streambuf.Reader.{underflow}
use fcgi.Streambuf.Delivery.View.{View, at, IsReader, IsOpen, pending}
use fcgi.Streambuf.Delivery.Frames.{
  Frame, frame, frames_bytes, contents, AreFrames, frame_bytes-append,
}
use fcgi.Streambuf.Delivery.Bytes.{Holds, take-content}
use fcgi.Streambuf.Delivery.Records.{enough, IsNamed, own_header, take-record}
use fcgi.Streambuf.Delivery.Headers.{ended}
use fcgi.Streambuf.Delivery.Ends.{Ends, end-record, data_begun, end-filter}

-- The records `fs`, then the record with no content and the padding `pad`, then `tail`.
abbrev pub own_stream : St → List Frame → List ℕ → List ℕ → List ℕ
own_stream s fs pad tail =
    frames_bytes (stream_code s.buf.type) s.connection.request_id fs
    ++ (own_header s 0 (length pad) ++ (pad ++ tail))

-- Where no record has begun.
pub Holds-begin :
    (s : St) (w : View) (rest : List ℕ)
    → IsOpen s w
    → pending w ≡ rest
    → w.gptr ≡ w.egptr
    → w.content ≡ 0
    → w.padding ≡ 0
    → Holds s w [] [] rest
Holds-begin s w rest o p e c n = record {
  is_open = o;
  wire = p;
  area = omega arith;
  area_read = omega arith;
  amount = omega arith;
  padded = n;
  content_fits = omega arith;
  padding_fits = omega arith;
}

module _ (garbage : ℕ → ℕ) (s : St) (r : IsReader s) (i : IsNamed s) where
  -- The rest of the current record and the records `fs` behind it, up to what follows these.
  pub frames :
      (fuel : ℕ) (fs : List Frame) (cont pad rest : List ℕ) (v : View)
      → Holds s v cont pad
          (frames_bytes (stream_code s.buf.type) s.connection.request_id fs ++ rest)
      → AreFrames s.buf.buffer_size fs
      → enough ≤ fuel
      → (w : View) × (last : List ℕ) × Yields
          (sbumpc (underflow garbage fuel))
          (at s v)
          (cont ++ contents fs)
          (at s w)
        × Holds s w [] last rest
  frames zero fs cont pad rest v o a f = absurd (omega arith)
  frames (suc fuel) fs (b ∷ cont) pad rest v o a f =
      let next = frames_bytes (stream_code s.buf.type) s.connection.request_id fs ++ rest in
      let (w, z, o') =
        take-content garbage s r fuel b cont pad next v.arrivals v.eback v.gptr v.egptr v.unread
          v.content v.padding o in
      let (t, last, y, e) = frames (suc fuel) fs cont pad rest w o' a f in
      (t, last, (at s w, z, y), e)
  frames (suc fuel) [] [] pad rest v o a f = (v, pad, refl, o)
  frames (suc fuel) (frame b bs p₁ ∷ fs) [] pad rest v o (l, k, a) f =
      let others = frames_bytes (stream_code s.buf.type) s.connection.request_id fs in
      let split =
        frame_bytes-append (own_header s (suc (length bs)) (length p₁)) (b ∷ bs) p₁ others rest in
      let (w, z, o') =
        take-record garbage s r i (suc fuel) b bs pad p₁ (others ++ rest) v.arrivals v.eback v.gptr
          v.egptr v.unread v.content v.padding (subst (λ xs. Holds s v [] pad xs) split o) f l k in
      let (t, last, y, e) = frames (suc fuel) fs bs p₁ rest w o' a f in (t, last, (at s w, z, y), e)

  -- The rest of the current record, the records behind it, and the end.
  abbrev pub Streams : (View → St) → ℕ → View → List ℕ → List ℕ → List ℕ → Type 0
  Streams final fuel v cont pad tail =
      (w : View) × Yields (sbumpc (underflow garbage fuel)) (at s v) cont (at s w)
      × Ends garbage s r i final fuel w pad tail

  pub streams :
      (fuel : ℕ) (fs : List Frame) (cont pad pad' tail : List ℕ) (v : View)
      → Holds s v cont pad (own_stream s fs pad' tail)
      → AreFrames s.buf.buffer_size fs
      → enough ≤ fuel
      → length pad' ≤ 255
      → (s.connection.role == filter) && is_input s.buf.type ≡ false
      → Streams (ended s) fuel v (cont ++ contents fs) pad' tail
  streams fuel fs cont pad pad' tail v o a f q n =
      let (w, last, y, h) =
        frames fuel fs cont pad (own_header s 0 (length pad') ++ (pad' ++ tail)) v o a f in
      (w, y, end-record garbage s r i fuel last pad' tail w h f q n)

  -- The same for the input of a filter, whose end begins the data stream.
  pub one_after_the_other :
      (fuel : ℕ) (fs : List Frame) (cont pad pad' tail : List ℕ) (v : View)
      → Holds s v cont pad (own_stream s fs pad' tail)
      → AreFrames s.buf.buffer_size fs
      → enough ≤ fuel
      → length pad' ≤ 255
      → s.connection.role ≡ filter
      → is_input s.buf.type ≡ true
      → Streams (data_begun s) fuel v (cont ++ contents fs) pad' tail
  one_after_the_other fuel fs cont pad pad' tail v o a f q filters t =
      let (w, last, y, h) =
        frames fuel fs cont pad (own_header s 0 (length pad') ++ (pad' ++ tail)) v o a f in
      (w, y, end-filter garbage s r i fuel last pad' tail w h f q filters t)
