-- ===== src/Streambuf/Delivery/Frames.antt =====
-- The records of one stream, as the protocol lays them out: an independent description of what a client sends.
use fcgi.Prelude.{ℕ, suc, ◌≤◌, List, [], ◌∷◌, ◌++◌, length, ◌≡◌, refl, sym, ap, ◌∙◌, append_assoc}
use fcgi.Basics.Header.{header_bytes, header_fields}

-- A record with content: its first byte, its other bytes, and the padding.
pub data Frame : Type 0 where
  frame : ℕ → List ℕ → List ℕ → Frame

-- The header of a record of `code` for the request `id`.
abbrev pub header_for : ℕ → ℕ → ℕ → ℕ → List ℕ
header_for code id len pad = header_bytes (header_fields code id len pad)

abbrev pub frames_bytes : ℕ → ℕ → List Frame → List ℕ
frames_bytes code id [] = []
frames_bytes code id (frame b bs pad ∷ fs) =
    header_for code id (suc (length bs)) (length pad)
    ++ ((b ∷ bs) ++ (pad ++ frames_bytes code id fs))

-- A whole stream: its records, and one without content, whose padding is `pad`, that ends it.
abbrev pub stream_bytes : ℕ → ℕ → List Frame → List ℕ → List ℕ
stream_bytes code id fs pad = frames_bytes code id fs ++ (header_for code id 0 (length pad) ++ pad)

abbrev pub contents : List Frame → List ℕ
contents [] = []
contents (frame b bs pad ∷ fs) = (b ∷ bs) ++ contents fs

-- No record has more content than `size`, or more padding than a header can say.
abbrev pub AreFrames : ℕ → List Frame → Type 0
AreFrames size [] = Unit {0}
AreFrames size (frame b bs pad ∷ fs) =
    (suc (length bs) ≤ size) × (length pad ≤ 255) × AreFrames size fs

-- A record that stands before other bytes.
pub frame_bytes-append :
    (h cont pad fs rest : List ℕ)
    → (h ++ (cont ++ (pad ++ fs))) ++ rest ≡ h ++ (cont ++ (pad ++ (fs ++ rest)))
frame_bytes-append h cont pad fs rest =
    append_assoc h (cont ++ (pad ++ fs)) rest
    ∙ ap (λ xs. h ++ xs)
        (append_assoc cont (pad ++ fs) rest ∙ ap (λ xs. cont ++ xs) (append_assoc pad fs rest))

pub frames_bytes-append :
    (code id : ℕ) (fs gs : List Frame)
    → frames_bytes code id (fs ++ gs) ≡ frames_bytes code id fs ++ frames_bytes code id gs
frames_bytes-append code id [] gs = refl
frames_bytes-append code id (frame b bs pad ∷ fs) gs =
    let h = header_for code id (suc (length bs)) (length pad) in
    let rest = frames_bytes code id fs in
    let last = frames_bytes code id gs in
    ap (λ xs. h ++ ((b ∷ bs) ++ (pad ++ xs))) (frames_bytes-append code id fs gs)
    ∙ sym (frame_bytes-append h (b ∷ bs) pad rest last)

pub contents-append : (fs gs : List Frame) → contents (fs ++ gs) ≡ contents fs ++ contents gs
contents-append [] gs = refl
contents-append (frame b bs pad ∷ fs) gs =
    ap (λ xs. (b ∷ bs) ++ xs) (contents-append fs gs)
    ∙ sym (append_assoc (b ∷ bs) (contents fs) (contents gs))

pub AreFrames-append :
    (size : ℕ) (fs gs : List Frame)
    → AreFrames size fs
    → AreFrames size gs
    → AreFrames size (fs ++ gs)
AreFrames-append size [] gs a b = b
AreFrames-append size (frame c bs pad ∷ fs) gs (l, k, a) b = (l, k, AreFrames-append size fs gs a b)
