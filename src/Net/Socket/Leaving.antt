-- ===== src/Net/Socket/Leaving.antt =====
-- What poll() leaves as it is.
use Prim.Native.Nat.{bit_and, bit_or}
use fcgi.Prelude.{ℕ, ◌+◌, ◌^◌, ◌%◌, Bool, true, false, not, Option, ◌==◌, ltb, if◌then◌else◌}
use fcgi.Outcome.{ok, undefined, cannot_poll_socket, cannot_poll_invalid_socket}
use fcgi.Outcome.Holds.{Leaves, if-Holds, guard-Holds, bind-Holds}
use fcgi.Net.Os.{Os, Sets, Timeval}
use fcgi.Net.Socket.{
  read_ready, write_ready, exceptions, is_socket_valid, is_socket_error, fd_setsize, fd_set,
  fd_isset, timeval_of, poll,
}
use fcgi.Net.Socket.Polling.{result_of}

module _ {W : Type 0} (P : W → Type 0) where
  test-Leaves :
      {A : Type 0} (b : Bool) (a : A) (w : W) → P w → Leaves P (if b then ok a w else undefined)
  test-Leaves true a w h = h
  test-Leaves false a w h = tt

  fd_set-Leaves : (socket : ℕ) (b : Bool) (w : W) → P w → Leaves P (fd_set socket b w)
  fd_set-Leaves socket false w h = h
  fd_set-Leaves socket true w h = test-Leaves (ltb socket fd_setsize) true w h

  fd_isset-Leaves :
      (socket : ℕ) (b : Bool) (flag result : ℕ) (w : W)
      → P w
      → Leaves P (fd_isset socket b flag result w)
  fd_isset-Leaves socket b flag result w h =
      test-Leaves (ltb socket fd_setsize) (if b then bit_or result flag else result) w h

  result_of-Leaves :
      (socket : ℕ) (answer : ℕ × Sets) (w : W) → P w → Leaves P (result_of socket answer w)
  result_of-Leaves socket (r, sets) w h =
      guard-Holds (λ _. P) P (not (is_socket_error r)) cannot_poll_socket _ w h
        λ _.
          if-Holds (λ _. P) P (r == 0) (λ w. ok 0 w) _ w (λ _. h)
            λ _.
              bind-Holds (λ _. P) P (λ _. P) (fd_isset socket sets.read_mask read_ready 0) _ w
                (fd_isset-Leaves socket sets.read_mask read_ready 0 w h)
                λ a v i.
                  bind-Holds (λ _. P) P (λ _. P) (fd_isset socket sets.write_mask write_ready a) _ v
                    (fd_isset-Leaves socket sets.write_mask write_ready a v i)
                    λ b u j. fd_isset-Leaves socket sets.except_mask exceptions b u j

  -- A predicate of the world that ::select keeps.
  pub poll-Leaves :
      (os : Os W) (socket mask timeout : ℕ) (w : W)
      → ((w : W)
          → P w
          → (n : ℕ) (sets : Sets) (tv : Option Timeval) → P (os.select n socket sets tv w).2)
      → P w
      → Leaves P (poll os socket mask timeout w)
  unfolding poll
  poll-Leaves os socket mask timeout w keeps h =
      guard-Holds (λ _. P) P (is_socket_valid socket) cannot_poll_invalid_socket _ w h
        λ _.
          bind-Holds (λ _. P) P (λ _. P) (fd_set socket (not (bit_and mask read_ready == 0))) _ w
            (fd_set-Leaves socket (not (bit_and mask read_ready == 0)) w h)
            λ a v i.
              bind-Holds (λ _. P) P (λ _. P) (fd_set socket (not (bit_and mask write_ready == 0))) _
                v (fd_set-Leaves socket (not (bit_and mask write_ready == 0)) v i)
                λ b u j.
                  bind-Holds (λ _. P) P (λ _. P)
                    (fd_set socket (not (bit_and mask exceptions == 0))) _ u
                    (fd_set-Leaves socket (not (bit_and mask exceptions == 0)) u j)
                    λ c t k.
                      result_of-Leaves socket
                        (
                          (os.select ((socket + 1) % 2 ^ 32) socket
                              (record { read_mask = a; write_mask = b; except_mask = c })
                              (timeval_of timeout) t).0,
                          (os.select ((socket + 1) % 2 ^ 32) socket
                              (record { read_mask = a; write_mask = b; except_mask = c })
                              (timeval_of timeout) t).1,
                        )
                        _
                        (keeps t k ((socket + 1) % 2 ^ 32)
                          (record { read_mask = a; write_mask = b; except_mask = c })
                          (timeval_of timeout))
