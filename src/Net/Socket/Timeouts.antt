-- ===== src/Net/Socket/Timeouts.antt =====
-- The timeout of poll() of src/net/socket.hpp.
use fcgi.Prelude.{
  ℕ, ◌+◌, ◌-◌, ◌*◌, ◌/◌, ◌<◌, ◌≤◌, ◌^◌, ◌≡◌, ◌⊎◌, inl, inr, min, none, some, arith, lt→ltb, le→ltb,
  le_or_lt,
}
use fcgi.Net.Os.{Timeval}
use fcgi.Net.Socket.{timeval_of}

seconds_whole : (n : ℕ) → n < 2 ^ 63 → min (n / 1000) (2 ^ 63 - 1) ≡ n / 1000
seconds_whole n h = omega arith

micros_whole :
    (n : ℕ) → min ((n - n / 1000 * 1000) * 1000) (2 ^ 63 - 1) ≡ (n - n / 1000 * 1000) * 1000
micros_whole n = omega arith

-- A number of milliseconds of 64 bits that is negative, as every one from 2^63 on, stands for no timeout; any other
-- becomes seconds and less than a million microseconds of exactly the same length.
timeval_of-exact :
    (timeout : ℕ)
    → ((2 ^ 63 ≤ timeout) × (timeval_of timeout ≡ none))
      ⊎ ((timeout < 2 ^ 63)
          × (tv : Timeval) × (timeval_of timeout ≡ some tv)
          × (tv.tv_usec < 1000000)
          × (tv.tv_sec * 1000000 + tv.tv_usec ≡ timeout * 1000))
unfolding timeval_of
timeval_of-exact timeout = elim (le_or_lt (2 ^ 63) timeout) [
  | inl h ↦ inl (h, rw (le→ltb timeout (2 ^ 63) h))
  | inr h ↦
      let tv : Timeval = record {
        tv_sec = timeout / 1000;
        tv_usec = (timeout - timeout / 1000 * 1000) * 1000;
      } in
      inr (
        h,
        tv,
        rw (lt→ltb timeout (2 ^ 63) h, seconds_whole timeout h, micros_whole timeout),
        omega arith,
        omega arith,
      )
]
