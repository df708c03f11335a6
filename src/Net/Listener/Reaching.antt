-- ===== src/Net/Listener/Reaching.antt =====
-- The life of a listener: its operations in any order, from its constructor to its destructor.
use fcgi.Prelude.{
  ℕ, ◌≡◌, ◌⊎◌, inl, inr, refl, ◌∙◌, Bool, ◌||◌, List, [], ◌∷◌, Option, none, some, ◌==◌, Bool-cases,
  arith,
}
use mathlib.Core.Path.{subst}
use fcgi.Outcome.{Outcome, Exception, ok, threw}
use fcgi.Outcome.Holds.{Holds, Leaves}
use fcgi.Net.Address.{Inet}
use fcgi.Net.Endpoint.{CommunicationMode, uds, net, communication_mode}
use fcgi.Net.Os.{Os}
use fcgi.Net.Socket.{invalid_socket, close_guard}
use fcgi.Net.Listener.{
  Listener, ListenerOptions, make_listener, listen, wait, accept_socket, close_listener,
  net_deinitialize, destroy_guard, destroy_listener,
}
use fcgi.Net.Listener.Owning.{Same, IsTracked, elem, IsOwner, Owns, opened_without}
use fcgi.Net.Listener.Steps.{
  listen-Keeps, wait-Keeps, accept_socket-Holds, closed-IsOwner, close_listener-Holds,
}

-- It returns or throws in this state.
abbrev pub EndsIn : {S A : Type 0} → Outcome S A → S → Type 0
EndsIn {S} {A} o s = ((a : A) × (o ≡ ok a s)) ⊎ ((e : Exception) × (o ≡ threw e s))

-- A step of a listener and of the list of the descriptors that it has handed out. Closing that fails is no step.
pub data Step {W : Type 0} (os : Os W) (inet : Inet)
    : Listener W → List ℕ → Listener W → List ℕ → Type 0 where
  listens :
      {l k : Listener W} {handed : List ℕ}
      → EndsIn (listen os inet l) k
      → Step os inet l handed k handed
  waits :
      {l k : Listener W} {handed : List ℕ} (timeout : ℕ)
      → EndsIn (wait os inet timeout l) k
      → Step os inet l handed k handed
  accepts :
      {l k : Listener W} {handed : List ℕ} (s : ℕ)
      → accept_socket os inet l ≡ ok s k
      → Step os inet l handed k (s ∷ handed)
  accept_throws :
      {l k : Listener W} {handed : List ℕ} (e : Exception)
      → accept_socket os inet l ≡ threw e k
      → Step os inet l handed k handed
  closes :
      {l k : Listener W} {handed : List ℕ}
      → close_listener os inet l ≡ ok tt k
      → Step os inet l handed k handed

pub data Reach {W : Type 0} (os : Os W) (inet : Inet) (l : Listener W)
    : Listener W → List ℕ → Type 0 where
  here : Reach os inet l l []
  next :
      {j k : Listener W} {before after : List ℕ}
      → Reach os inet l j before
      → Step os inet j before k after
      → Reach os inet l k after

by_mode :
    {A : Type 0} (P : A → Type 0) (mode : CommunicationMode) (t : A)
    → P t
    → P (elim mode [ uds ↦ t | net ↦ t ])
by_mode P uds t h = h
by_mode P net t h = h

by_path :
    {W : Type 0} (P : W → Type 0) (o : Option (List ℕ)) (w : W) (f : List ℕ → W)
    → P w
    → ((path : List ℕ) → P (f path))
    → P (elim (elim o as (λ _. CommunicationMode) [ some path ↦ uds | none ↦ net ]) [
      | net ↦ w
      | uds ↦ elim o [ none ↦ w | some path ↦ f path ]
    ])
by_path P none w f h k = h
by_path P (some path) w f h k = k path

ends-in : {S A : Type 0} (P : S → Type 0) (o : Outcome S A) (s : S) → Leaves P o → EndsIn o s → P s
ends-in P o s h (inl (a, e)) = subst (λ (p : Outcome _ _). Leaves P p) e h
ends-in P o s h (inr (x, e)) = subst (λ (p : Outcome _ _). Leaves P p) e h

module _ {W : Type 0} (is_open : W → ℕ → Bool) (before : W) (os : Os W) (inet : Inet)
    (tracked : IsTracked is_open os) where
  Step-IsOwner :
      (l k : Listener W) (handed handed' : List ℕ)
      → Step os inet l handed k handed'
      → IsOwner is_open before l handed
      → IsOwner is_open before k handed'
  Step-IsOwner l k handed handed' (listens r) h =
      ends-in (Owns is_open before handed) (listen os inet l) k
        (listen-Keeps is_open before os inet tracked handed l h) r
  Step-IsOwner l k handed handed' (waits timeout r) h =
      ends-in (Owns is_open before handed) (wait os inet timeout l) k
        (wait-Keeps is_open before os inet tracked handed timeout l h) r
  Step-IsOwner l k handed handed' (accepts s e) h =
      subst (Holds (λ s k. IsOwner is_open before k (s ∷ handed)) (Owns is_open before handed)) e
        (accept_socket-Holds is_open before os inet tracked handed l h)
  Step-IsOwner l k handed handed' (accept_throws x e) h =
      subst (Holds (λ s k. IsOwner is_open before k (s ∷ handed)) (Owns is_open before handed)) e
        (accept_socket-Holds is_open before os inet tracked handed l h)
  Step-IsOwner l k handed handed' (closes e) h =
      subst (Holds (λ _. Owns is_open before handed) (λ _. Unit)) e
        (close_listener-Holds is_open before os inet tracked handed l h)

  Reach-IsOwner :
      (l k : Listener W) (handed : List ℕ)
      → Reach os inet l k handed
      → IsOwner is_open before l []
      → IsOwner is_open before k handed
  Reach-IsOwner l k handed here h = h
  Reach-IsOwner l k handed (next {j} {before = earlier} r s) h =
      Step-IsOwner j k earlier handed s (Reach-IsOwner l j earlier r h)

  made-IsOwner :
      (options : ListenerOptions)
      → Holds (λ l _. IsOwner is_open before l []) (λ _. Unit) (make_listener options before)
  unfolding make_listener
  made-IsOwner options =
      let l : Listener W = record { options = options; socket = invalid_socket; world = before } in
      let h : IsOwner is_open before l [] = record {
        socket_or_invalid = inr refl;
        opened = λ fd. refl;
        own = λ i. absurd (ground arith);
      } in
      by_mode
        (λ (o : Outcome W (Listener W)). Holds (λ l _. IsOwner is_open before l []) (λ _. Unit) o)
        (communication_mode options.endpoint) (ok l before) h

  -- Where the calls do as documented, as `IsTracked` has it: after the constructor and any sequence of calls of
  -- listen(), wait(), accept() and close(), some of which may throw, but no close(), the guard of the listener has a
  -- valid socket or -1; the descriptors that are open are its socket, if it is valid, those that accept() has handed
  -- out, and those that were open before; and its socket is none of the others.
  pub reached-IsOwner :
      (options : ListenerOptions) (l k : Listener W) (handed : List ℕ)
      → make_listener options before ≡ ok l before
      → Reach os inet l k handed
      → IsOwner is_open before k handed
  reached-IsOwner options l k handed e r =
      Reach-IsOwner l k handed r
        (subst (Holds (λ l _. IsOwner is_open before l []) (λ _. Unit)) e (made-IsOwner options))

  deinitialize-Same : (l : Listener W) → Same is_open l.world (net_deinitialize os inet l)
  unfolding net_deinitialize
  deinitialize-Same l =
      by_path (Same is_open l.world) l.options.endpoint.uds_path l.world
        (λ path. os.unlink path l.world) (λ _. refl) λ path. tracked.unlink_keeps path l.world

  -- Where the system calls do as documented, after the constructor and any sequence of listen(), wait(), accept() and
  -- close() that did not throw out of close(), the destructor, where ::close succeeds, leaves open what accept() has
  -- handed out and what was open before, and nothing else.
  pub destroyed_leaves :
      (options : ListenerOptions) (l k : Listener W) (handed : List ℕ)
      → make_listener options before ≡ ok l before
      → Reach os inet l k handed
      → (os.close k.socket k.world).0 ≡ 0
      → (fd : ℕ) → is_open (destroy_listener os inet k) fd ≡ elem fd handed || is_open before fd
  unfolding destroy_listener close_guard
  destroyed_leaves options l k handed e r z fd =
      let h = reached-IsOwner options l k handed e r in
      elim (Bool-cases (k.socket == invalid_socket)) [
        | inl i ↦
            rw (destroy_listener, i, destroy_guard, i)
              (deinitialize-Same k fd ∙ opened_without is_open before k handed h (ground arith) fd)
        | inr n ↦
            let c : Listener W = record {
              options = k.options;
              socket = invalid_socket;
              world = (os.close k.socket k.world).1;
            } in
            rw (destroy_listener, n, z)
              (deinitialize-Same c fd
                ∙ opened_without is_open before c handed
                    (closed-IsOwner is_open before os inet tracked handed k h n z) refl fd)
      ]
