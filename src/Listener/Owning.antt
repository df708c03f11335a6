-- ===== src/Listener/Owning.antt =====
-- Which descriptors accept() leaves open.
use fcgi.Prelude.{ℕ, inl, inr, ◌≡◌, ap, ◌∙◌, Bool, true, false, not, ◌&&◌, List, ◌∷◌, ◌==◌}
use fcgi.Outcome.{not_listening, ◌>>=◌, Outcome, Exception, ok, threw, terminated, undefined, stuck}
use fcgi.Outcome.Holds.{Holds, Leaves, bind-Holds, guard-Holds}
use fcgi.Net.Address.{Inet}
use fcgi.Net.Closing.{make_descriptor, destroy_descriptor}
use fcgi.Net.Closing.Leaving.{IsClosing, Closed, destroy_descriptor-Closed}
use fcgi.Net.Descriptor.{Io}
use fcgi.Net.Listener.{Listener as NetListener, accept_socket}
use fcgi.Net.Listener.Owning.{IsTracked, IsOwner, Owns, keeps-IsOwner, without}
use fcgi.Net.Listener.Steps.{handed-IsOwner}
use fcgi.Net.Os.{Os}
use fcgi.Net.Socket.{is_socket_valid, close_guard}
use fcgi.Server.{ServerConnection, accept as accept_connection}
use fcgi.Listener.{Listener, on_listener, in_world, hand_over, accept}

outcome-on_listener :
    {W A : Type 0} (P : A → NetListener W → Type 0) (Q : NetListener W → Type 0) (l : Listener W)
    (o : Outcome (NetListener W) A)
    → Holds P Q o
    → Holds (λ a k. P a k.listener) (λ k. Q k.listener) (on_listener (λ _. o) l)
outcome-on_listener P Q l (ok a k) h = h
outcome-on_listener P Q l (threw e k) h = h
outcome-on_listener P Q l terminated h = tt
outcome-on_listener P Q l undefined h = tt
outcome-on_listener P Q l stuck h = tt

module _ {W : Type 0} (is_open : W → ℕ → Bool) (before : W) (os : Os W) (inet : Inet)
    (tracked : IsTracked is_open os) (closing : IsClosing is_open os tracked) where
  -- A listener that has handed out s, and that owns what it owned before where s is closed.
  abbrev Taken : List ℕ → ℕ → NetListener W → Type 0
  Taken handed s k =
      IsOwner is_open before k (s ∷ handed)
      × (is_socket_valid s ≡ true)
      × ((w : W)
          → ((fd : ℕ) → is_open w fd ≡ not (fd == s) && is_open k.world fd)
          → IsOwner is_open before (record k { world = w }) handed)

  accept_socket-Taken :
      (handed : List ℕ) (l : NetListener W)
      → IsOwner is_open before l handed
      → Holds (Taken handed) (Owns is_open before handed) (accept_socket os inet l)
  unfolding accept_socket close_guard
  accept_socket-Taken handed l h =
      let (s, w) = os.accept l.socket l.world in
      guard-Holds (Taken handed) (Owns is_open before handed) (is_socket_valid l.socket)
        not_listening _ l h
        λ _. elim (tracked.accept_opens l.socket l.world) [
          | inl (v, new, all) ↦
              rw (Holds, v)
                (
                  handed-IsOwner is_open before os inet tracked handed l s w h new all,
                  v,
                  λ u c. keeps-IsOwner is_open before l handed u h λ fd.
                      c fd
                      ∙ ap (λ b. not (fd == s) && b) (all fd)
                      ∙ without (is_open l.world) s fd new,
                )
          | inr (i, same) ↦ rw (Holds, i) (keeps-IsOwner is_open before l handed w h same)
        ]

  -- What accept() leaves: with a result one descriptor more is handed out, with an exception none.
  abbrev pub Accepts : List ℕ → Outcome (Listener W) (ServerConnection × ℕ) → Type 0
  Accepts handed o =
      Holds (λ r l. IsOwner is_open before l.listener (r.1 ∷ handed))
        (λ l. IsOwner is_open before l.listener handed) o

  abbrev thrown : Exception → Outcome W (Unit {0}) → Outcome W (ServerConnection × ℕ)
  thrown e (ok r w) = threw e w
  thrown e (threw e' w) = terminated
  thrown e terminated = terminated
  thrown e undefined = undefined
  thrown e stuck = stuck

  thrown-Accepts :
      (handed : List ℕ) (s : ℕ) (e : Exception) (l : Listener W) (o : Outcome W (Unit {0}))
      → Taken handed s l.listener
      → Leaves (Closed is_open os tracked closing l.listener.world s) o
      → Accepts handed (in_world (λ _. thrown e o) l)
  thrown-Accepts handed s e l (ok r w) t h = t.2 w h
  thrown-Accepts handed s e l (threw x w) t h = tt
  thrown-Accepts handed s e l terminated t h = tt
  thrown-Accepts handed s e l undefined t h = tt
  thrown-Accepts handed s e l stuck t h = tt

  hand_over-Accepts :
      (handed : List ℕ) (fuel s : ℕ) (o : Outcome Io ServerConnection) (l : Listener W)
      → Taken handed s l.listener
      → Accepts handed (
          hand_over os inet fuel
            (record { is_shutted_down = false; socket = s; world = l.listener.world })
            o
            l)
  unfolding hand_over
  hand_over-Accepts handed fuel s (ok k io) l t = t.0
  hand_over-Accepts handed fuel s (threw e io) l t =
      thrown-Accepts handed s e l
        (destroy_descriptor os fuel
          (record { is_shutted_down = false; socket = s; world = l.listener.world }))
        t (destroy_descriptor-Closed is_open os tracked closing l.listener.world fuel s t.1)
  hand_over-Accepts handed fuel s terminated l t = tt
  hand_over-Accepts handed fuel s undefined l t = tt
  hand_over-Accepts handed fuel s stuck l t = tt

  served-Accepts :
      (handed : List ℕ) (garbage : ℕ → ℕ) (wire : ℕ → W → Io) (fuel s : ℕ) (l : Listener W)
      → Taken handed s l.listener
      → Accepts handed (
          (in_world (make_descriptor s) >>= λ d.
          hand_over os inet fuel d (accept_connection garbage fuel (wire s d.world)))
            l)
  unfolding make_descriptor
  served-Accepts handed garbage wire fuel s l t =
      rw (Holds, t.1)
        (hand_over-Accepts handed fuel s (accept_connection garbage fuel (wire s l.listener.world))
          l t)

  -- A listener that owns its socket and has handed out `handed`, on a system whose calls do as documented and whose
  -- ::close succeeds: whatever the client sends, if accept() returns a connection then its descriptor is handed out
  -- besides, and if accept() throws, be it for the client's fault, then nothing is left open that was not.
  pub accept-Accepts :
      (handed : List ℕ) (garbage : ℕ → ℕ) (wire : ℕ → W → Io) (fuel : ℕ) (l : Listener W)
      → IsOwner is_open before l.listener handed
      → Accepts handed (accept os inet garbage wire fuel l)
  unfolding accept
  accept-Accepts handed garbage wire fuel l h =
      bind-Holds (λ s k. Taken handed s k.listener) (λ k. IsOwner is_open before k.listener handed)
        (λ r k. IsOwner is_open before k.listener (r.1 ∷ handed))
        (on_listener (accept_socket os inet)) _ l
        (outcome-on_listener (Taken handed) (Owns is_open before handed) l
          (accept_socket os inet l.listener) (accept_socket-Taken handed l.listener h))
        λ s k t. served-Accepts handed garbage wire fuel s k t
