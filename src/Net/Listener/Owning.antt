-- ===== src/Net/Listener/Owning.antt =====
-- A listener owns its socket: which descriptors of the process are open.
use fcgi.Prelude.{
  Option, ℕ, ◌≡◌, ◌⊎◌, inl, inr, refl, ap, sym, ◌∙◌, Bool, true, false, not, ◌&&◌, ◌||◌, List, [],
  ◌∷◌, arith, ◌==◌, Bool-cases,
}
use fcgi.Outcome.{Outcome, M, ok, threw, terminated, undefined, stuck}
use fcgi.Outcome.Holds.{Holds, Leaves, mono-Holds}
use fcgi.Net.Address.{ProtocolFamily, SocketAddress}
use fcgi.Net.Os.{Os, Sets, Timeval}
use fcgi.Net.Socket.{is_socket_valid, invalid_socket}
use fcgi.Net.Listener.{Listener, on_world}

outcome-on_world :
    {W A : Type 0} (P : A → Listener W → Type 0) (Q : Listener W → Type 0) (l : Listener W)
    (o : Outcome W A)
    → Holds (λ a w. P a (record l { world = w })) (λ w. Q (record l { world = w })) o
    → Holds P Q (on_world (λ _. o) l)
outcome-on_world P Q l (ok a w) h = h
outcome-on_world P Q l (threw e w) h = h
outcome-on_world P Q l terminated h = tt
outcome-on_world P Q l undefined h = tt
outcome-on_world P Q l stuck h = tt

pub on_world-Holds :
    {W A : Type 0} (P : A → Listener W → Type 0) (Q : Listener W → Type 0) (m : M W A)
    (l : Listener W)
    → Holds (λ a w. P a (record l { world = w })) (λ w. Q (record l { world = w })) (m l.world)
    → Holds P Q (on_world m l)
on_world-Holds P Q m l h = outcome-on_world P Q l (m l.world) h

-- All but the one that is closed.
pub without :
    (f : ℕ → Bool) (socket fd : ℕ)
    → f socket ≡ false
    → not (fd == socket) && ((fd == socket) || f fd) ≡ f fd
without f socket fd h = elim (Bool-cases (fd == socket)) [
  | inl e ↦ rw e (sym h ∙ ap f (ground arith))
  | inr e ↦ rw e
]

abbrev pub elem : ℕ → List ℕ → Bool
elem fd [] = false
elem fd (s ∷ ss) = (fd == s) || elem fd ss

module _ {W : Type 0} (is_open : W → ℕ → Bool) where
  -- No descriptor is opened or closed.
  abbrev pub Same : W → W → Type 0
  Same w w' = (fd : ℕ) → is_open w' fd ≡ is_open w fd

  -- A call that gives a new descriptor, or -1.
  abbrev pub Opens : W → ℕ × W → Type 0
  Opens w (s, w') =
      ((is_socket_valid s ≡ true)
        × (is_open w s ≡ false)
        × ((fd : ℕ) → is_open w' fd ≡ (fd == s) || is_open w fd))
      ⊎ ((s ≡ invalid_socket) × Same w w')

  -- What the documentation of the calls says of the descriptors of the process.
  pub record IsTracked (os : Os W) : Type 0 where
    pub socket_opens :
        (family : ProtocolFamily) (type protocol : ℕ) (w : W)
        → Opens w (os.socket family type protocol w)
    pub accept_opens : (s : ℕ) (w : W) → Opens w (os.accept s w)
    pub set_reuse_address_keeps : (s : ℕ) (w : W) → Same w (os.set_reuse_address s w).1
    pub bind_keeps : (s : ℕ) (a : SocketAddress) (w : W) → Same w (os.bind s a w).1
    pub listen_keeps : (s n : ℕ) (w : W) → Same w (os.listen s n w).1
    pub select_keeps :
        (n s : ℕ) (sets : Sets) (tv : Option Timeval) (w : W) → Same w (os.select n s sets tv w).2
    pub connect_keeps : (s : ℕ) (a : SocketAddress) (w : W) → Same w (os.connect s a w).1
    pub unlink_keeps : (path : List ℕ) (w : W) → Same w (os.unlink path w)
    pub close_closes :
        (s : ℕ) (w : W)
        → (os.close s w).0 ≡ 0
        → (fd : ℕ) → is_open (os.close s w).1 fd ≡ not (fd == s) && is_open w fd

  module _ (before : W) where
    -- A listener that was made in the world `before`, and has accepted `handed`: it has a valid socket or -1; what is
    -- open is its socket, what it has handed out, and what was open before; and its socket is none of the others.
    pub record IsOwner (l : Listener W) (handed : List ℕ) : Type 0 where
      pub socket_or_invalid : (is_socket_valid l.socket ≡ true) ⊎ (l.socket ≡ invalid_socket)
      pub opened :
          (fd : ℕ)
          → is_open l.world fd
            ≡ (is_socket_valid l.socket && (fd == l.socket))
              || (elem fd handed || is_open before fd)
      pub own :
          is_socket_valid l.socket ≡ true → elem l.socket handed || is_open before l.socket ≡ false

    pub keeps-IsOwner :
        (l : Listener W) (handed : List ℕ) (w : W)
        → IsOwner l handed
        → Same l.world w
        → IsOwner (record l { world = w }) handed
    keeps-IsOwner l handed w h k = record {
      socket_or_invalid = h.socket_or_invalid;
      opened = λ fd. k fd ∙ h.opened fd;
      own = h.own;
    }

    abbrev pub Owns : List ℕ → Listener W → Type 0
    Owns handed l = IsOwner l handed

    pub on_world-Leaves :
        {A : Type 0} (m : M W A) (l : Listener W) (handed : List ℕ)
        → IsOwner l handed
        → Leaves (Same l.world) (m l.world)
        → Leaves (Owns handed) (on_world m l)
    on_world-Leaves m l handed h k =
        on_world-Holds (λ _. Owns handed) (Owns handed) m l
          (mono-Holds (λ _. Same l.world) (λ _ w. Owns handed (record l { world = w }))
            (Same l.world) (λ w. Owns handed (record l { world = w })) (m l.world) k
            (λ _ w. keeps-IsOwner l handed w h) λ w. keeps-IsOwner l handed w h)

    -- Between the making of a socket and its being guarded.
    pub record IsHolding (s : ℕ) (l : Listener W) (handed : List ℕ) : Type 0 where
      pub no_socket : l.socket ≡ invalid_socket
      pub valid : is_socket_valid s ≡ true
      pub opened :
          (fd : ℕ) → is_open l.world fd ≡ (fd == s) || (elem fd handed || is_open before fd)
      pub own : elem s handed || is_open before s ≡ false

    pub opened_without :
        (l : Listener W) (handed : List ℕ)
        → IsOwner l handed
        → l.socket ≡ invalid_socket
        → (fd : ℕ) → is_open l.world fd ≡ elem fd handed || is_open before fd
    opened_without l handed h e fd = h.opened fd ∙ rw e refl

    pub opens-IsHolding :
        (s : ℕ) (l : Listener W) (handed : List ℕ) (w : W)
        → IsOwner l handed
        → l.socket ≡ invalid_socket
        → is_socket_valid s ≡ true
        → is_open l.world s ≡ false
        → ((fd : ℕ) → is_open w fd ≡ (fd == s) || is_open l.world fd)
        → IsHolding s (record l { world = w }) handed
    opens-IsHolding s l handed w h e v new all = record {
      no_socket = e;
      valid = v;
      opened = λ fd. all fd ∙ ap (λ b. (fd == s) || b) (opened_without l handed h e fd);
      own = sym (opened_without l handed h e s) ∙ new;
    }
