-- ===== src/Outcome/Holds.antt =====
-- What holds of the states in which a program returns and throws.
use fcgi.Prelude.{◌≡◌, refl, Bool, true, false, if◌then◌else◌}
use mathlib.Core.Bool.{false≢true}
use fcgi.Outcome.{
  Outcome, Exception, M, ok, threw, terminated, undefined, stuck, guard, assert, ◌>>=◌,
}

abbrev pub Holds : {S A : Type 0} → (A → S → Type 0) → (S → Type 0) → Outcome S A → Type 0
Holds P Q (ok a s) = P a s
Holds P Q (threw e s) = Q s
Holds P Q terminated = Unit
Holds P Q undefined = Unit
Holds P Q stuck = Unit

-- The same predicate of both.
abbrev pub Leaves : {S A : Type 0} → (S → Type 0) → Outcome S A → Type 0
Leaves P o = Holds (λ _. P) P o

outcome-Holds :
    {S A B : Type 0} (P : A → S → Type 0) (Q : S → Type 0) (R : B → S → Type 0) (f : A → M S B)
    (o : Outcome S A) (s : S)
    → Holds P Q o
    → ((a : A) (t : S) → P a t → Holds R Q (f a t))
    → Holds R Q (((λ (_ : S). o) >>= f) s)
outcome-Holds P Q R f (ok a t) s h k = k a t h
outcome-Holds P Q R f (threw e t) s h k = h
outcome-Holds P Q R f terminated s h k = tt
outcome-Holds P Q R f undefined s h k = tt
outcome-Holds P Q R f stuck s h k = tt

pub bind-Holds :
    {S A B : Type 0} (P : A → S → Type 0) (Q : S → Type 0) (R : B → S → Type 0) (m : M S A)
    (f : A → M S B) (s : S)
    → Holds P Q (m s)
    → ((a : A) (t : S) → P a t → Holds R Q (f a t))
    → Holds R Q ((m >>= f) s)
bind-Holds P Q R m f s h k = outcome-Holds P Q R f (m s) s h k

pub guard-Leaves :
    {S : Type 0} (P : S → Type 0) (b : Bool) (e : Exception) (s : S) → P s → Leaves P (guard b e s)
guard-Leaves P true e s h = h
guard-Leaves P false e s h = h

-- The rest of a program behind a guard and an assertion.
pub guard-Holds :
    {S B : Type 0} (P : B → S → Type 0) (Q : S → Type 0) (b : Bool) (e : Exception)
    (k : Unit {0} → M S B) (s : S)
    → Q s
    → (b ≡ true → Holds P Q (k tt s))
    → Holds P Q ((guard b e >>= k) s)
guard-Holds P Q true e k s q h = h refl
guard-Holds P Q false e k s q h = q

pub guard-passes :
    {S B : Type 0} (P : B → S → Type 0) (Q : S → Type 0) (b : Bool) (e : Exception)
    (k : Unit {0} → M S B) (s : S)
    → b ≡ true
    → Holds P Q (k tt s)
    → Holds P Q ((guard b e >>= k) s)
guard-passes P Q true e k s t h = h
guard-passes P Q false e k s t h = absurd (false≢true t)

pub assert-Holds :
    {S B : Type 0} (P : B → S → Type 0) (Q : S → Type 0) (b : Bool) (k : Unit {0} → M S B) (s : S)
    → Holds P Q (k tt s)
    → Holds P Q ((assert b >>= k) s)
assert-Holds P Q true k s h = h
assert-Holds P Q false k s h = tt

pub if-Holds :
    {S A : Type 0} (P : A → S → Type 0) (Q : S → Type 0) (b : Bool) (m n : M S A) (s : S)
    → (b ≡ true → Holds P Q (m s))
    → (b ≡ false → Holds P Q (n s))
    → Holds P Q ((if b then m else n) s)
if-Holds P Q true m n s h k = h refl
if-Holds P Q false m n s h k = k refl

pub mono-Holds :
    {S A : Type 0} (P P' : A → S → Type 0) (Q Q' : S → Type 0) (o : Outcome S A)
    → Holds P Q o
    → ((a : A) (s : S) → P a s → P' a s)
    → ((s : S) → Q s → Q' s)
    → Holds P' Q' o
mono-Holds P P' Q Q' (ok a s) h f g = f a s h
mono-Holds P P' Q Q' (threw e s) h f g = g s h
mono-Holds P P' Q Q' terminated h f g = tt
mono-Holds P P' Q Q' undefined h f g = tt
mono-Holds P P' Q Q' stuck h f g = tt
