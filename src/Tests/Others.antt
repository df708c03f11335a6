-- ===== src/Tests/Others.antt =====
-- Records that do not belong to the reader's stream: those of other requests, and management records.
use fcgi.Prelude.{ℕ, ◌≤◌, ◌≡◌, refl, List, [], ◌∷◌, ◌++◌, Bool, arith}
use fcgi.Outcome.{threw, stuck, protocol_violation}
use fcgi.Net.Descriptor.{arrives}
use fcgi.Basics.{stream_code}
use fcgi.Basics.Codec.{header_fields-Says}
use fcgi.Basics.Header.{header_fields, header_bytes, header_of}
use fcgi.NamesValues.Encode.{encode}
use fcgi.NamesValues.Yields.{Yields}
use fcgi.Streambuf.ProcessHeader.{sbumpc, process_header, process_get_values, max_conns, mpxs_conns}
use fcgi.Streambuf.Reader.{underflow}
use fcgi.Streambuf.Delivery.View.{View, view, at, pending}
use fcgi.Streambuf.Delivery.Frames.{Frame, frame, frames_bytes}
use fcgi.Streambuf.Delivery.Stream.{Holds-begin, own_stream}
use fcgi.Streambuf.Delivery.Discarding.{skip, IsForeign}
use fcgi.Streambuf.Delivery.Strangers.{Behind, stranger-starves, empty_stranger-never}
use fcgi.Streambuf.Delivery.Foreign.{hearing}
use fcgi.Streambuf.Managing.Answering.{Answered}
use fcgi.Streambuf.Managing.Swallowing.{Told, get_values-Told, get_values-Answered}
use fcgi.Tests.Serving.{reader, reader-IsReader, reader-IsNamed, garbage}

-- One record of the reader, then one of the request 259 with 2 bytes of content, then one of the reader again.
abbrev own : List Frame
own = frame 104 (105 ∷ []) [] ∷ []

abbrev own_bytes : List ℕ
own_bytes = frames_bytes (stream_code reader.buf.type) 258 own

abbrev stranger : ℕ → List ℕ
stranger len = header_bytes (header_fields 5 259 len 0)

stranger-IsForeign : (len : ℕ) → len ≤ 16384 → IsForeign reader (header_of (stranger len))
stranger-IsForeign len l = record {
  version = refl;
  begins_none = λ h. absurd (omega arith);
  named = λ h. absurd (omega arith);
  foreign = λ h. absurd (omega arith);
  content_fits = omega arith;
  padding_fits = omega arith;
}

abbrev mixed : ℕ → List ℕ → View
mixed len rest = view (arrives (own_bytes ++ (stranger len ++ rest)) ∷ []) 0 0 0 [] 0 0

abbrev rest : List ℕ
rest = 1 ∷ 2 ∷ own_bytes

mixed-Behind :
    (len : ℕ)
    → Behind garbage reader reader-IsReader reader-IsNamed
        (mixed len rest)
        []
        []
        own
        (stranger len)
        rest
mixed-Behind len =
    Holds-begin reader (mixed len rest) (own_bytes ++ (stranger len ++ rest))
      (record { in_buffer = omega arith; live = (omega arith, tt) }) refl refl refl refl

stranger-starves_example :
    (w : View) × (d : Bool) × (t : View) × Yields
      (sbumpc (underflow garbage 300))
      (at reader (mixed 2 rest))
      (104 ∷ 105 ∷ [])
      (at reader w)
    × (sbumpc (underflow garbage 300) (at reader w) ≡ threw protocol_violation (skip d reader t))
stranger-starves_example =
    stranger-starves garbage reader reader-IsReader reader-IsNamed 300 own [] [] (stranger 2) rest
      (mixed 2 rest) refl (stranger-IsForeign 2 (omega arith)) (omega arith) (mixed-Behind 2)
      (omega arith, omega arith, tt) (omega arith)

empty_stranger-never_example :
    (w : View) × Yields
      (sbumpc (underflow garbage 300))
      (at reader (mixed 0 rest))
      (104 ∷ 105 ∷ [])
      (at reader w)
    × (sbumpc (underflow garbage 300) (at reader w) ≡ stuck)
empty_stranger-never_example =
    empty_stranger-never garbage reader reader-IsReader reader-IsNamed 300 own [] [] (stranger 0)
      rest (mixed 0 rest) refl (stranger-IsForeign 0 (omega arith)) refl refl (omega arith)
      (mixed-Behind 0) (omega arith, omega arith, tt) (omega arith)

-- A client asks for FCGI_MAX_CONNS, and its stdin says FCGI_MPXS_CONNS and A=B.
abbrev asked : List (List ℕ × List ℕ)
asked = (max_conns, []) ∷ (mpxs_conns, []) ∷ (65 ∷ [], 66 ∷ []) ∷ []

abbrev content : List ℕ
content = encode ((max_conns, []) ∷ [])

abbrev said : List Frame
said = frame 15 (0 ∷ mpxs_conns ++ 1 ∷ 1 ∷ 65 ∷ 66 ∷ []) [] ∷ []

get_values-Told_example :
    (w : View) × Told garbage reader reader-IsReader reader-IsNamed asked [] w (
      process_header garbage (underflow garbage 300) 300 (header_fields 9 0 16 0) (
        at
          (hearing reader [])
          (view (arrives (content ++ own_stream reader said [] []) ∷ []) 0 0 0 [] 0 0)))
    × (pending w ≡ [])
get_values-Told_example =
    get_values-Told garbage reader reader-IsReader reader-IsNamed 300 (header_fields 9 0 16 0) said
      asked content [] [] [] [] (arrives (content ++ own_stream reader said [] []) ∷ []) 0 [] 0 0
      (header_fields-Says 9 0 16 0 (omega arith) (omega arith) (omega arith) (omega arith))
      (omega arith) (omega arith) (record { in_buffer = omega arith; live = (omega arith, tt) })
      refl (omega arith, omega arith, tt) (omega arith) refl refl
      (omega arith, (omega arith, (omega arith, tt))) (omega arith) (omega arith)

-- The same variables, of which the connection's end cuts off what would be the next header.
abbrev cut_off : View
cut_off =
    view (arrives (content ++ (frames_bytes (stream_code reader.buf.type) 258 said ++ 1 ∷ [])) ∷ [])
      0 0 0 [] 16 0

get_values-Answered_example :
    (w : View) × Answered garbage asked (at (hearing reader []) w) (
      process_get_values garbage
        (underflow garbage 300)
        300
        (header_fields 9 0 16 0)
        (at (hearing reader []) cut_off))
get_values-Answered_example =
    get_values-Answered garbage reader reader-IsReader reader-IsNamed 300 (header_fields 9 0 16 0)
      said asked content [] (1 ∷ []) [] cut_off
      (record {
        is_open = record { in_buffer = omega arith; live = (omega arith, tt) };
        wire = refl;
        area = omega arith;
        area_read = omega arith;
        amount = omega arith;
        padded = refl;
        content_fits = omega arith;
        padding_fits = omega arith;
      })
      (omega arith, omega arith, tt) (omega arith) refl
      (omega arith, (omega arith, (omega arith, tt))) (omega arith) (omega arith)
