-- ===== src/Listener.antt =====
-- The listener and its options of src/fcgi/listener.cpp and src/fcgi/listener_options.cpp: they own those of
-- src/net/listener.hpp, and accept() serves the connections that the listener of sockets accepts.
pub mod Owning
pub mod Settling
use fcgi.Prelude.{ℕ, List, Option, Bool}
use fcgi.Outcome.{Outcome, M, ok, threw, terminated, undefined, stuck, pure, state, ◌>>=◌}
use fcgi.Net.Address.{Inet}
use fcgi.Net.Closing.{Descriptor, make_descriptor, destroy_descriptor}
use fcgi.Net.Descriptor.{Io}
use fcgi.Net.Endpoint.{Endpoint}
use fcgi.Net.Listener.{
  Listener as NetListener, ListenerOptions as NetOptions, make_uds_options as net_make_uds_options,
  make_net_options as net_make_net_options, make_listener as net_make_listener,
  is_listening as net_is_listening, listen as net_listen, wait as net_wait, accept_socket,
  close_listener as net_close_listener,
}
use fcgi.Net.Os.{Os}
use fcgi.Server.{ServerConnection, accept as accept_connection}

pub record ListenerOptions : Type 0 where
  pub options : NetOptions

unfoldable pub make_uds_options : {S : Type 0} → List ℕ → ℕ → M S ListenerOptions
make_uds_options path backlog = do
  o ← net_make_uds_options path backlog
  pure (record { options = o })

unfoldable pub make_net_options : {S : Type 0} → List ℕ → ℕ → ℕ → M S ListenerOptions
make_net_options address port backlog = do
  o ← net_make_net_options address port backlog
  pure (record { options = o })

abbrev pub endpoint : ListenerOptions → Endpoint
endpoint o = o.options.endpoint

abbrev pub backlog : ListenerOptions → Option ℕ
backlog o = o.options.backlog

pub record Listener (W : Type 0) : Type 0 where
  pub listener : NetListener W
  pub listener_options : ListenerOptions

-- An operation of `listener_`.
abbrev pub on_listener : {W A : Type 0} → M (NetListener W) A → M (Listener W) A
on_listener m l = elim (m l.listener) [
  | ok a k ↦ ok a (record l { listener = k })
  | threw e k ↦ threw e (record l { listener = k })
  | terminated ↦ terminated
  | undefined ↦ undefined
  | stuck ↦ stuck
]

-- An operation on the world that the listener lives in.
abbrev pub in_world : {W A : Type 0} → M W A → M (Listener W) A
in_world m = on_listener λ k. elim (m k.world) [
  | ok a w ↦ ok a (record k { world = w })
  | threw e w ↦ threw e (record k { world = w })
  | terminated ↦ terminated
  | undefined ↦ undefined
  | stuck ↦ stuck
]

unfoldable pub make : {W : Type 0} → ListenerOptions → M W (Listener W)
make options = do
  l ← net_make_listener options.options
  pure (record { listener = l; listener_options = options })

abbrev pub is_listening : {W : Type 0} → Listener W → Bool
is_listening l = net_is_listening l.listener

module _ {W : Type 0} (os : Os W) (inet : Inet) where
  abbrev pub listen : M (Listener W) (Unit {0})
  listen = on_listener (net_listen os inet)

  abbrev pub wait : ℕ → M (Listener W) Bool
  wait timeout = on_listener (net_wait os inet timeout)

  abbrev pub close : M (Listener W) (Unit {0})
  close = on_listener (net_close_listener os inet)

  -- What becomes of the descriptor `d` of the accepted connection: it belongs to the server connection, or it is
  -- destroyed while the exception is on its way.
  unfoldable pub hand_over :
      ℕ → Descriptor W → Outcome Io ServerConnection → M (Listener W) (ServerConnection × ℕ)
  hand_over fuel d (ok k io) l = ok (k, d.socket) l
  hand_over fuel d (threw e io) l =
      in_world
        (λ w. elim (destroy_descriptor os fuel d) [
          | ok r w' ↦ threw e w'
          | threw e' w' ↦ terminated
          | terminated ↦ terminated
          | undefined ↦ undefined
          | stuck ↦ stuck
        ])
        l
  hand_over fuel d terminated l = terminated
  hand_over fuel d undefined l = undefined
  hand_over fuel d stuck l = stuck

  -- `wire s w` is what arrives at the descriptor s, and what ::send takes there; `fuel` is for the reading of the
  -- parameters and for the draining of a refused client.
  unfoldable pub accept : (ℕ → ℕ) → (ℕ → W → Io) → ℕ → M (Listener W) (ServerConnection × ℕ)
  accept garbage wire fuel = do
    sock ← on_listener (accept_socket os inet)
    d ← in_world (make_descriptor sock)
    hand_over fuel d (accept_connection garbage fuel (wire sock d.world))
