-- ===== src/Net/Closing.antt =====
-- src/net/descriptor.hpp: closing a `socket_Descriptor`, which first lets the peer end its side.
pub mod Draining
pub mod Leaving
use fcgi.Prelude.{ℕ, zero, suc, ◌^◌, Bool, true, false, not, ltb, ◌==◌, if◌then◌else◌}
use Prim.Native.Nat.{bit_and}
use fcgi.Outcome.{
  Outcome, M, ok, threw, terminated, undefined, stuck, pure, throw, guard, assert, state, modify,
  ◌>>=◌, ◌>>◌, cannot_shutdown_gracefully, cannot_close_socket,
}
use fcgi.Net.Os.{Os, call, is_nonneg64}
use fcgi.Net.Socket.{
  Guarded, is_socket_valid, is_socket_error, invalid_socket, read_ready, close_guard, destroy, poll,
}

-- A descriptor in the world.
pub record Descriptor (W : Type 0) : Type 0 where
  pub is_shutted_down : Bool
  pub socket : ℕ
  pub world : W

abbrev pub on_world : {W A : Type 0} → M W A → M (Descriptor W) A
on_world m d = elim (m d.world) [
  | ok a w ↦ ok a (record d { world = w })
  | threw e w ↦ threw e (record d { world = w })
  | terminated ↦ terminated
  | undefined ↦ undefined
  | stuck ↦ stuck
]

abbrev on_guard : {W A : Type 0} → M (Guarded W) A → M (Descriptor W) A
on_guard m d = elim (m (record { socket = d.socket; world = d.world })) [
  | ok a g ↦
      ok a (record { is_shutted_down = d.is_shutted_down; socket = g.socket; world = g.world })
  | threw e g ↦
      threw e (record { is_shutted_down = d.is_shutted_down; socket = g.socket; world = g.world })
  | terminated ↦ terminated
  | undefined ↦ undefined
  | stuck ↦ stuck
]

-- The constructor, in the world.
unfoldable pub make_descriptor : {W : Type 0} → ℕ → M W (Descriptor W)
make_descriptor socket = do
  assert (is_socket_valid socket)
  w ← state
  pure (record { is_shutted_down = false; socket = socket; world = w })

abbrev pub trashcan_size : ℕ
trashcan_size = 1024

module _ {W : Type 0} (os : Os W) where
  -- The loop of graceful_shutdown, with fuel.
  unfoldable pub drain : ℕ → ℕ → M W (Unit {0})
  drain zero socket w = stuck
  drain (suc fuel) socket w =
      (do
        mask ← poll os socket read_ready 1000
        if bit_and mask read_ready == 0 then pure tt else (do
          result ← call (os.recv socket trashcan_size)
          guard (is_nonneg64 result) cannot_shutdown_gracefully
          if result == 0 then pure tt else drain fuel socket))
        w

  unfoldable pub graceful_shutdown : ℕ → ℕ → M W (Unit {0})
  graceful_shutdown fuel socket = do
    r ← call (os.shutdown_send socket)
    w ← state
    if r == 0
        then drain fuel socket
        else (if os.is_not_connected w then pure tt else throw cannot_shutdown_gracefully)

  unfoldable pub close_descriptor : ℕ → M (Descriptor W) (Unit {0})
  close_descriptor fuel = do
    d ← state
    if d.is_shutted_down
        then pure tt
        else (on_world (graceful_shutdown fuel d.socket)
            >> modify λ k. record k { is_shutted_down = true })
    r ← on_guard (close_guard os)
    guard (r == 0) cannot_close_socket

  -- The destructor: what close() throws is printed, and the destructor of the guard closes what is still open.
  unfoldable pub destroy_descriptor : ℕ → Descriptor W → Outcome W (Unit {0})
  destroy_descriptor fuel d =
      if is_socket_valid d.socket
      then (elim (close_descriptor fuel d) [
        | ok r k ↦ destroy os k.socket k.world
        | threw e k ↦ destroy os k.socket k.world
        | terminated ↦ terminated
        | undefined ↦ undefined
        | stuck ↦ stuck
      ])
      else destroy os d.socket d.world
