-- ===== src/Net/Socket/Polling.antt =====
-- poll() of src/net/socket.hpp, in one call of ::select.
use Prim.Native.Nat.{bit_and, bit_or}
use fcgi.Prelude.{
  Option, ℕ, ◌+◌, ◌≤◌, ◌<◌, ◌^◌, ◌%◌, ◌≡◌, ◌≢◌, ◌⊎◌, inl, inr, refl, ap, ◌∙◌, Bool, true, false,
  not, arith, ◌==◌, ltb, lt→ltb, le→ltb, Bool-cases, if◌then◌else◌,
}
use fcgi.Outcome.{Outcome, M, ok, threw, undefined, guard, ◌>>=◌, ◌>>◌, cannot_poll_socket}
use fcgi.Net.Os.{Os, Sets, Timeval, is_nonneg}
use fcgi.Net.Socket.{
  SocketReadiness, read_ready, write_ready, exceptions, is_socket_valid, is_socket_error,
  fd_setsize, fd_set, fd_isset, timeval_of, poll,
}

abbrev pub sets_of : SocketReadiness → Sets
sets_of mask = record {
  read_mask = not (bit_and mask read_ready == 0);
  write_mask = not (bit_and mask write_ready == 0);
  except_mask = not (bit_and mask exceptions == 0);
}

abbrev with_flag : Bool → SocketReadiness → SocketReadiness → SocketReadiness
with_flag b flag result = if b then bit_or result flag else result

abbrev pub readiness_of : Sets → SocketReadiness
readiness_of s =
    with_flag s.except_mask exceptions
      (with_flag s.write_mask write_ready (with_flag s.read_mask read_ready 0))

-- What ::select answers, as the result of poll().
abbrev pub polled : {W : Type 0} → ℕ × Sets × W → Outcome W SocketReadiness
polled (r, sets, w) =
    if is_nonneg r
    then ok (if r == 0 then 0 else readiness_of sets) w
    else threw cannot_poll_socket w

fd_set-below :
    {W : Type 0} (w : W) (socket : ℕ) (b : Bool) → socket < fd_setsize → fd_set socket b w ≡ ok b w
fd_set-below w socket true h = rw (lt→ltb socket 1024 h)
fd_set-below w socket false h = refl

fd_isset-below :
    {W : Type 0} (w : W) (socket : ℕ) (b : Bool) (flag result : ℕ)
    → socket < fd_setsize
    → fd_isset socket b flag result w ≡ ok (with_flag b flag result) w
fd_isset-below w socket b flag result h = rw (lt→ltb socket 1024 h)

-- The part of poll() behind ::select.
abbrev pub result_of : {W : Type 0} → ℕ → ℕ × Sets → M W SocketReadiness
result_of socket answer = do
  guard (not (is_socket_error answer.0)) cannot_poll_socket
  if answer.0 == 0 then (λ w. ok 0 w) else (do
    a ← fd_isset socket answer.1.read_mask read_ready 0
    b ← fd_isset socket answer.1.write_mask write_ready a
    fd_isset socket answer.1.except_mask exceptions b)

answered :
    {W : Type 0} (r : ℕ) (sets : Sets) (w : W) (socket : ℕ)
    → socket < fd_setsize
    → result_of socket (r, sets) w ≡ polled (r, sets, w)
answered r sets w socket h = elim (Bool-cases (is_nonneg r)) [
  | inl p ↦ elim (Bool-cases (r == 0)) [
    | inl q ↦ rw (p, q)
    | inr q ↦ rw (
      p,
      q,
      ◌>>=◌,
      fd_isset-below w socket sets.read_mask read_ready 0 h,
      fd_isset-below w socket sets.write_mask write_ready (with_flag sets.read_mask read_ready 0) h,
      fd_isset-below w socket sets.except_mask exceptions
          (with_flag sets.write_mask write_ready (with_flag sets.read_mask read_ready 0)) h,
    )
  ]
  | inr p ↦ rw p
]

pub poll-polled :
    {W : Type 0} (os : Os W) (socket mask timeout : ℕ) (w : W)
    → socket < fd_setsize
    → poll os socket mask timeout w
      ≡ polled (os.select (socket + 1) socket (sets_of mask) (timeval_of timeout) w)
unfolding poll
poll-polled os socket mask timeout w h =
    let valid : ltb socket (2 ^ 31) ≡ true = ground arith in
    let next : (socket + 1) % 2 ^ 32 ≡ socket + 1 = omega arith in
    let (r, sets, w') =
      os.select ((socket + 1) % 2 ^ 32) socket (sets_of mask) (timeval_of timeout) w in
    rw
      (
        valid,
        ◌>>=◌,
        ◌>>◌,
        guard,
        fd_set-below w socket (not (bit_and mask read_ready == 0)) h,
        fd_set-below w socket (not (bit_and mask write_ready == 0)) h,
        fd_set-below w socket (not (bit_and mask exceptions == 0)) h,
      )
      (answered r sets w' socket h)
    ∙ ap (λ (n : ℕ). polled (os.select n socket (sets_of mask) (timeval_of timeout) w)) next

-- What the documentation of ::select says: it only takes sockets out of the sets.
abbrev pub OnlyClears : {W : Type 0} → Os W → Type 0
OnlyClears {W} os =
    (n socket : ℕ) (sets : Sets) (tv : Option Timeval) (w : W)
    → let after = (os.select n socket sets tv w).1 in
      (after.read_mask ≡ true → sets.read_mask ≡ true)
      × (after.write_mask ≡ true → sets.write_mask ≡ true)
      × (after.except_mask ≡ true → sets.except_mask ≡ true)

-- Each of the three flags of the result is one of the mask, and there is no other.
abbrev pub IsWithin : SocketReadiness → SocketReadiness → Type 0
IsWithin result mask =
    (result ≤ 14)
    × (result % 2 ≡ 0)
    × (bit_and result read_ready ≢ 0 → bit_and mask read_ready ≢ 0)
    × (bit_and result write_ready ≢ 0 → bit_and mask write_ready ≢ 0)
    × (bit_and result exceptions ≢ 0 → bit_and mask exceptions ≢ 0)

no_false : false ≢ true
no_false h = ground arith

abbrev flags : Bool → Bool → Bool → SocketReadiness
flags r w e = with_flag e exceptions (with_flag w write_ready (with_flag r read_ready 0))

abbrev IsMadeOf : Bool → Bool → Bool → Type 0
IsMadeOf r w e =
    (flags r w e ≤ 14)
    × (flags r w e % 2 ≡ 0)
    × (bit_and (flags r w e) read_ready ≡ with_flag r read_ready 0)
    × (bit_and (flags r w e) write_ready ≡ with_flag w write_ready 0)
    × (bit_and (flags r w e) exceptions ≡ with_flag e exceptions 0)

flags-IsMadeOf : (r w e : Bool) → IsMadeOf r w e
flags-IsMadeOf true true true = (omega arith, refl, refl, refl, refl)
flags-IsMadeOf true true false = (omega arith, refl, refl, refl, refl)
flags-IsMadeOf true false true = (omega arith, refl, refl, refl, refl)
flags-IsMadeOf true false false = (omega arith, refl, refl, refl, refl)
flags-IsMadeOf false true true = (omega arith, refl, refl, refl, refl)
flags-IsMadeOf false true false = (omega arith, refl, refl, refl, refl)
flags-IsMadeOf false false true = (omega arith, refl, refl, refl, refl)
flags-IsMadeOf false false false = (omega arith, refl, refl, refl, refl)

asked :
    (b : Bool) (flag result m : ℕ)
    → result ≡ with_flag b flag 0
    → (b ≡ true → not (m == 0) ≡ true)
    → result ≢ 0
    → m ≢ 0
asked true flag result m e p h = let q = p refl in ground arith
asked false flag result m e p h = absurd (h e)

flags-IsWithin :
    (r w e : Bool) (mask : ℕ)
    → (r ≡ true → (sets_of mask).read_mask ≡ true)
    → (w ≡ true → (sets_of mask).write_mask ≡ true)
    → (e ≡ true → (sets_of mask).except_mask ≡ true)
    → IsWithin (flags r w e) mask
flags-IsWithin r w e mask hr hw he =
    let n = flags r w e in
    let (small, even, a, b, c) = flags-IsMadeOf r w e in
    (
      small,
      even,
      asked r read_ready (bit_and n read_ready) (bit_and mask read_ready) a hr,
      asked w write_ready (bit_and n write_ready) (bit_and mask write_ready) b hw,
      asked e exceptions (bit_and n exceptions) (bit_and mask exceptions) c he,
    )

-- poll() of a socket below FD_SETSIZE, where ::select does as documented, throws the error of ::select, or returns a
-- readiness that has nothing that the mask does not ask for.
pub poll-IsWithin :
    {W : Type 0} (os : Os W) (socket mask timeout : ℕ) (w : W)
    → OnlyClears os
    → socket < fd_setsize
    → ((w' : W) × (poll os socket mask timeout w ≡ threw cannot_poll_socket w'))
      ⊎ ((result : SocketReadiness) × (w' : W) × (poll os socket mask timeout w ≡ ok result w')
          × IsWithin result mask)
poll-IsWithin os socket mask timeout w clears h =
    let (r, sets, w') = os.select (socket + 1) socket (sets_of mask) (timeval_of timeout) w in
    let (hr, hw, he) = clears (socket + 1) socket (sets_of mask) (timeval_of timeout) w in
    let p = poll-polled os socket mask timeout w h in
    elim (Bool-cases (is_nonneg r)) [
      | inl q ↦ elim (Bool-cases (r == 0)) [
        | inl z ↦ inr (
          0,
          w',
          p ∙ rw (q, z),
          flags-IsWithin false false false mask (λ e. absurd (no_false e))
              (λ e. absurd (no_false e)) λ e. absurd (no_false e),
        )
        | inr z ↦ inr (
          readiness_of sets,
          w',
          p ∙ rw (q, z),
          flags-IsWithin sets.read_mask sets.write_mask sets.except_mask mask hr hw he,
        )
      ]
      | inr q ↦ inl (w', p ∙ rw q)
    ]

-- poll() of a valid socket from FD_SETSIZE on, which asks for the readiness to read, is undefined.
poll-large :
    {W : Type 0} (os : Os W) (socket timeout : ℕ) (w : W)
    → fd_setsize ≤ socket
    → is_socket_valid socket ≡ true
    → poll os socket read_ready timeout w ≡ undefined
unfolding poll
poll-large os socket timeout w h valid = rw (valid, ◌>>=◌, ◌>>◌, le→ltb socket 1024 h)
