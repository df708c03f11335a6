-- ===== src/Server/Session/Wire.antt =====
-- The bytes that a session sends: the records of both streams, each with what was written to it.
use fcgi.Prelude.{
  ℕ, ◌≤◌, ◌<◌, ◌^◌, ◌≡◌, refl, sym, ap, ◌∙◌, Bool, true, false, ◌||◌, List, [], ◌∷◌, ◌++◌, length,
  arith, append-nil, append_assoc,
}
use fcgi.Outcome.{ok, ◌>>=◌, ◌>>◌}
use fcgi.Istream.{Flags}
use fcgi.Connection.{Connection}
use fcgi.Streambuf.{Streambuf}
use fcgi.Streambuf.Delivery.Frames.{Frame, contents, AreFrames, contents-append, AreFrames-append}
use fcgi.Streambuf.Sending.Puts.{some_sent, some_sent-append, own_frames}
use fcgi.Streambuf.Sending.Writes.{Write, written, writes}
use fcgi.Server.Session.{
  Side, to_out, to_err, side_writer, side_writer-IsWriter, Area, serving, do_writes, chars,
  wire_bytes, pick,
}

-- Of the characters of a side some have gone into records, and the others stand in the put area.
pub record Kept (side : Side) (a : Area) (ops : List (Side × Write)) (ts : List (Side × List Frame))
    (a' : Area) : Type 0 where
  pub chars_kept : contents (pick side ts) ++ a'.area ≡ a.area ++ chars side ops
  pub fit : AreFrames 65528 (pick side ts)
  pub room : length a'.area ≤ 65519
  pub any : a'.once ≡ a.once || some_sent (pick side ts)

or_assoc : (a b c : Bool) → (a || b) || c ≡ a || (b || c)
or_assoc a b c = ground arith

Kept-step :
    (side : Side) (a a' : Area) (op : Write) (ops : List (Side × Write)) (fs : List Frame)
    (ts : List (Side × List Frame)) (rest : List ℕ) (bs : List ℕ) (gs : List Frame)
    → contents fs ++ rest ≡ a.area ++ written op
    → AreFrames 65528 fs
    → contents gs ++ a'.area ≡ rest ++ bs
    → contents (fs ++ gs) ++ a'.area ≡ a.area ++ (written op ++ bs)
Kept-step side a a' op ops fs ts rest bs gs e f k =
    ap (λ xs. xs ++ a'.area) (contents-append fs gs)
    ∙ append_assoc (contents fs) (contents gs) a'.area
    ∙ ap (λ xs. contents fs ++ xs) k
    ∙ sym (append_assoc (contents fs) rest bs)
    ∙ ap (λ xs. xs ++ bs) e
    ∙ append_assoc a.area (written op) bs

module _ (c : Connection) (i : Streambuf) (flags : Flags) (short : c.request_id < 65536)
    (status : c.application_status < 2 ^ 32) where
  abbrev pub Serves : List (Side × Write) → Area → Area → List ℕ → Type 0
  Serves ops o e sent =
      (ts : List (Side × List Frame)) × (o' : Area) × (e' : Area) × (do_writes ops
          (serving c i flags o e sent)
        ≡ ok tt (serving c i flags o' e' (sent ++ wire_bytes c ts)))
      × Kept to_out o ops ts o'
      × Kept to_err e ops ts e'

  step_out :
      (op : Write) (ops : List (Side × Write)) (o e : Area) (sent : List ℕ)
      → length o.area ≤ 65519
      → ((o₁ : Area) (sent₁ : List ℕ) → length o₁.area ≤ 65519 → Serves ops o₁ e sent₁)
      → Serves ((to_out, op) ∷ ops) o e sent
  step_out op ops o e sent l rest_of =
      let s = side_writer c to_out in
      let (fs, rest, z, k, f, r) =
        writes s (side_writer-IsWriter c to_out short status) op o.once o.area sent l in
      let o₁ : Area = record { once = o.once || some_sent fs; area = rest } in
      let (ts, o', e', y, ko, ke) = rest_of o₁ (sent ++ own_frames s fs) r in
      let sent_all = append_assoc sent (own_frames s fs) (wire_bytes c ts) in
      (
        (to_out, fs) ∷ ts,
        o',
        e',
        rw (z, ◌>>=◌, ◌>>◌, y) (λ j. ok tt (serving c i flags o' e' (sent_all j))),
        record {
          chars_kept =
              Kept-step to_out o o' op ops fs ts rest (chars to_out ops) (pick to_out ts) k f
                ko.chars_kept;
          fit = AreFrames-append 65528 fs (pick to_out ts) f ko.fit;
          room = ko.room;
          any =
              ko.any
              ∙ or_assoc o.once (some_sent fs) (some_sent (pick to_out ts))
              ∙ ap (λ b. o.once || b) (some_sent-append fs (pick to_out ts));
        },
        record { chars_kept = ke.chars_kept; fit = ke.fit; room = ke.room; any = ke.any },
      )

  step_err :
      (op : Write) (ops : List (Side × Write)) (o e : Area) (sent : List ℕ)
      → length e.area ≤ 65519
      → ((e₁ : Area) (sent₁ : List ℕ) → length e₁.area ≤ 65519 → Serves ops o e₁ sent₁)
      → Serves ((to_err, op) ∷ ops) o e sent
  step_err op ops o e sent l rest_of =
      let s = side_writer c to_err in
      let (fs, rest, z, k, f, r) =
        writes s (side_writer-IsWriter c to_err short status) op e.once e.area sent l in
      let e₁ : Area = record { once = e.once || some_sent fs; area = rest } in
      let (ts, o', e', y, ko, ke) = rest_of e₁ (sent ++ own_frames s fs) r in
      let sent_all = append_assoc sent (own_frames s fs) (wire_bytes c ts) in
      (
        (to_err, fs) ∷ ts,
        o',
        e',
        rw (z, ◌>>=◌, ◌>>◌, y) (λ j. ok tt (serving c i flags o' e' (sent_all j))),
        record { chars_kept = ko.chars_kept; fit = ko.fit; room = ko.room; any = ko.any },
        record {
          chars_kept =
              Kept-step to_err e e' op ops fs ts rest (chars to_err ops) (pick to_err ts) k f
                ke.chars_kept;
          fit = AreFrames-append 65528 fs (pick to_err ts) f ke.fit;
          room = ke.room;
          any =
              ke.any
              ∙ or_assoc e.once (some_sent fs) (some_sent (pick to_err ts))
              ∙ ap (λ b. e.once || b) (some_sent-append fs (pick to_err ts));
        },
      )

  or_none : (once : Bool) → once ≡ once || false
  or_none true = refl
  or_none false = refl

  pub serves :
      (ops : List (Side × Write)) (o e : Area) (sent : List ℕ)
      → length o.area ≤ 65519
      → length e.area ≤ 65519
      → Serves ops o e sent
  serves [] o e sent l k = (
    [],
    o,
    e,
    (λ j. ok tt (serving c i flags o e (sym (append-nil sent) j))),
    record { chars_kept = sym (append-nil o.area); fit = tt; room = l; any = or_none o.once },
    record { chars_kept = sym (append-nil e.area); fit = tt; room = k; any = or_none e.once },
  )
  serves ((to_out, op) ∷ ops) o e sent l k =
      step_out op ops o e sent l (λ o₁ sent₁ l₁. serves ops o₁ e sent₁ l₁ k)
  serves ((to_err, op) ∷ ops) o e sent l k =
      step_err op ops o e sent k (λ e₁ sent₁ k₁. serves ops o e₁ sent₁ l k₁)
