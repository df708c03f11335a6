-- ===== src/Istream.antt =====
-- What the protocol code uses of std::istream, over any stream buffer: `bump` is its `sbumpc()`,
-- which takes the next byte, `none` at the end. An exception of the buffer is caught, as the
-- standard says, and sets badbit.
use fcgi.Prelude.{
  ℕ, zero, suc, Bool, true, false, not, ◌||◌, List, [], ◌∷◌, Option, none, some, length, ◌==◌,
  if◌then◌else◌,
}
use fcgi.Outcome.{Outcome, M, ok, threw, terminated, undefined, stuck, pure, ◌>>=◌}

pub record Flags : Type 0 where
  pub eofbit : Bool
  pub failbit : Bool
  pub badbit : Bool

abbrev pub goodbit : Flags
goodbit = record { eofbit = false; failbit = false; badbit = false }

abbrev pub at_end : Flags
at_end = record { eofbit = true; failbit = true; badbit = false }

-- The flags that an exception of the buffer leaves behind.
abbrev pub broken : Flags
broken = record { eofbit = false; failbit = true; badbit = true }

pub record Stream (S : Type 0) : Type 0 where
  pub flags : Flags
  pub buffer : S

abbrev pub good : Flags → Bool
good f = not (f.eofbit || (f.failbit || f.badbit))

-- `!stream`
abbrev pub fail : Flags → Bool
fail f = f.failbit || f.badbit

abbrev pub on : {S : Type 0} → Flags → S → Stream S
on f s = record { flags = f; buffer = s }

module _ {S : Type 0} (bump : M S (Option ℕ)) where
  -- `stream.get()`, when the stream is good.
  abbrev get_good : Flags → Outcome S (Option ℕ) → Outcome (Stream S) (Option ℕ)
  get_good f (ok (some c) s) = ok (some c) (on f s)
  get_good f (ok none s) = ok none (on (record f { eofbit = true; failbit = true }) s)
  get_good f (threw e s) = ok none (on (record f { failbit = true; badbit = true }) s)
  get_good f terminated = terminated
  get_good f undefined = undefined
  get_good f stuck = stuck

  unfoldable pub get : M (Stream S) (Option ℕ)
  get r =
      if good r.flags
      then get_good r.flags (bump r.buffer)
      else ok none (on (record r.flags { failbit = true }) r.buffer)

  -- `sgetn(count)` of the buffer: as many bytes as there are, up to `count`.
  unfoldable pub sgetn : ℕ → M S (List ℕ)
  sgetn zero = pure []
  sgetn (suc n) = bump >>= λ c. elim c [ none ↦ pure [] | some b ↦ sgetn n >>= λ bs. pure (b ∷ bs) ]

  abbrev read_good : ℕ → Flags → Outcome S (List ℕ) → Outcome (Stream S) (List ℕ)
  read_good n f (ok bs s) =
      ok bs (on (if length bs == n then f else record f { eofbit = true; failbit = true }) s)
  read_good n f (threw e s) = ok [] (on (record f { badbit = true }) s)
  read_good n f terminated = terminated
  read_good n f undefined = undefined
  read_good n f stuck = stuck

  -- `stream.read(buffer, n)`: the bytes stand for the buffer and for `gcount()`.
  unfoldable pub read : ℕ → M (Stream S) (List ℕ)
  read n r =
      if good r.flags
      then read_good n r.flags (sgetn n r.buffer)
      else ok [] (on (record r.flags { failbit = true }) r.buffer)
