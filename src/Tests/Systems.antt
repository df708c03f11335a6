-- ===== src/Tests/Systems.antt =====
-- A small system, which numbers its descriptors from 3 on, and what the theorems ask of a system.
use fcgi.Prelude.{
  ℕ, suc, ◌-◌, ◌≤◌, ◌≡◌, ◌≢◌, inl, inr, refl, ap, ◌∙◌, sym, min, Bool, true, false, not, ◌&&◌, ◌||◌,
  List, [], ◌∷◌, map, some, length, ◌==◌, arith, eq→==, Bool-cases, if◌then◌else◌,
}
use fcgi.Net.Address.{
  ProtocolFamily, unspec, local, ipv4, ipv6, Inet, is_inet, address_size, binary_of, bytes_of,
}
use fcgi.Net.Address.Texts.{IsDocumented, HasNoNul}
use fcgi.Net.Os.{Os}
use fcgi.Net.Socket.{is_socket_valid, invalid_socket}
use fcgi.Net.Socket.Polling.{OnlyClears}
use fcgi.Net.Listener.Owning.{Opens, IsTracked}
use fcgi.Net.Closing.Draining.{IsFinite}

-- The next descriptor, those that are open, and how many bytes a peer still sends.
pub record World : Type 0 where
  pub next_descriptor : ℕ
  pub open_ones : ℕ → Bool
  pub pending : ℕ

abbrev pub opens : World → ℕ × World
opens w =
    if is_socket_valid w.next_descriptor && not (w.open_ones w.next_descriptor)
    then (
      w.next_descriptor,
      record w {
        next_descriptor = suc w.next_descriptor;
        open_ones = λ fd. (fd == w.next_descriptor) || w.open_ones fd;
      },
    )
    else (invalid_socket, w)

-- Every call succeeds, a socket is always ready, and a peer sends what is pending.
abbrev pub system : Os World
system = record {
  socket = λ family type protocol w. opens w;
  set_reuse_address = λ s w. (0, w);
  bind = λ s a w. (0, w);
  connect = λ s a w. (0, w);
  listen = λ s n w. (0, w);
  accept = λ s w. opens w;
  shutdown_send = λ s w. (0, w);
  close = λ s w. (0, record w { open_ones = λ fd. not (fd == s) && w.open_ones fd });
  select = λ n s sets tv w. (1, sets, w);
  recv = λ s n w. (min n w.pending, record w { pending = w.pending - min n w.pending });
  unlink = λ path w. w;
  is_not_connected = λ w. false;
}

abbrev pub is_open : World → ℕ → Bool
is_open w = w.open_ones

no_false : false ≢ true
no_false h = ground arith

both_true : (a b : Bool) → a && not b ≡ true → (a ≡ true) × (b ≡ false)
both_true true true h = (refl, sym h)
both_true true false h = (refl, refl)
both_true false b h = absurd (no_false h)

opens-Opens : (w : World) → Opens is_open w (opens w)
opens-Opens w =
    elim (Bool-cases (is_socket_valid w.next_descriptor && not (w.open_ones w.next_descriptor))) [
      | inr n ↦ rw n (inr (refl, λ fd. refl))
      | inl y ↦
          let (v, new) =
            both_true (is_socket_valid w.next_descriptor) (w.open_ones w.next_descriptor) y in
          rw y (inl (v, new, λ fd. refl))
    ]

pub system-IsTracked : IsTracked is_open system
system-IsTracked = record {
  socket_opens = λ family type protocol w. opens-Opens w;
  accept_opens = λ s w. opens-Opens w;
  set_reuse_address_keeps = λ s w fd. refl;
  bind_keeps = λ s a w fd. refl;
  connect_keeps = λ s a w fd. refl;
  listen_keeps = λ s n w fd. refl;
  select_keeps = λ n s sets tv w fd. refl;
  unlink_keeps = λ path w fd. refl;
  close_closes = λ s w z fd. refl;
}

pub system-IsFinite : IsFinite system (λ w. w.pending)
system-IsFinite = record {
  recv_takes = λ s n w h. omega arith;
  select_keeps = λ s w. omega arith;
  shutdown_keeps = λ s w. omega arith;
}

pub system-OnlyClears : OnlyClears system
system-OnlyClears n s sets tv w = ((λ h. h), (λ h. h), λ h. h)

-- A text is a tag and the bytes, each one larger.
abbrev tag : ProtocolFamily → ℕ
tag unspec = 48
tag local = 49
tag ipv4 = 52
tag ipv6 = 54

abbrev pred : ℕ → ℕ
pred n = n - 1

abbrev answer : Bool → List ℕ → ℕ × List ℕ
answer true xs = (1, xs)
answer false xs = (0, [])

abbrev reads : ProtocolFamily → List ℕ → ℕ × List ℕ
reads af [] = (0, [])
reads af (c ∷ cs) = answer ((c == tag af) && (length cs == address_size af)) (map pred cs)

abbrev pub texts : Inet
texts = record {
  inet_pton = reads;
  inet_ntop = λ af binary size. some (tag af ∷ map suc (bytes_of binary));
}

map-pred : (bytes : List ℕ) → map pred (map suc bytes) ≡ bytes
map-pred [] = refl
map-pred (b ∷ bs) = rw (map-pred bs) (ap (λ (n : ℕ). n ∷ bs) (omega arith))

length-map : (f : ℕ → ℕ) (bytes : List ℕ) → length (map f bytes) ≡ length bytes
length-map f [] = refl
length-map f (b ∷ bs) = rw (length-map f bs)

no_nul : (bytes : List ℕ) → HasNoNul (map suc bytes)
no_nul [] = tt
no_nul (b ∷ bs) = (ground arith, no_nul bs)

bytes-binary : (af : ProtocolFamily) (bytes : List ℕ) → bytes_of (binary_of af bytes) ≡ bytes
bytes-binary unspec bytes = refl
bytes-binary local bytes = refl
bytes-binary ipv4 bytes = refl
bytes-binary ipv6 bytes = refl

few : (b : Bool) (xs : List ℕ) → (answer b xs).0 ≤ 1
few true xs = omega arith
few false xs = omega arith

reads-few : (af : ProtocolFamily) (text : List ℕ) → (reads af text).0 ≤ 1
reads-few af [] = omega arith
reads-few af (c ∷ cs) = few ((c == tag af) && (length cs == address_size af)) (map pred cs)

sized :
    (b d : Bool) (n : ℕ) (xs : List ℕ)
    → (d ≡ true → length xs ≡ n)
    → (answer (b && d) xs).0 ≡ 1
    → length (answer (b && d) xs).1 ≡ n
sized true true n xs h e = h refl
sized true false n xs h e = absurd (omega arith)
sized false d n xs h e = absurd (omega arith)

reads-writes :
    (af : ProtocolFamily) (text : List ℕ)
    → (reads af text).0 ≡ 1
    → length (reads af text).1 ≡ address_size af
reads-writes af [] h = absurd (omega arith)
reads-writes af (c ∷ cs) h =
    sized (c == tag af) (length cs == address_size af) (address_size af) (map pred cs)
      (λ e. length-map pred cs ∙ ground arith) h

other_tag :
    (c : ℕ) (d e : Bool) (xs ys : List ℕ)
    → (answer ((c == 54) && d) xs).0 ≡ 1
    → (answer ((c == 52) && e) ys).0 ≡ 0
other_tag c d e xs ys h = ground arith

reads-one : (text : List ℕ) → (reads ipv6 text).0 ≡ 1 → (reads ipv4 text).0 ≡ 0
reads-one [] h = refl
reads-one (c ∷ cs) h = other_tag c (length cs == 16) (length cs == 4) (map pred cs) (map pred cs) h

back :
    (af : ProtocolFamily) (bytes : List ℕ)
    → length bytes ≡ address_size af
    → reads af (tag af ∷ map suc bytes) ≡ (1, bytes)
back af bytes l =
    rw
      (
        eq→== (tag af) (tag af) refl,
        length-map suc bytes,
        l,
        eq→== (address_size af) (address_size af) refl,
      )
      (ap (λ (xs : List ℕ). (1, xs)) (map-pred bytes))

tagged : (af : ProtocolFamily) → is_inet af ≡ true → (tag af == 0) ≡ false
tagged unspec h = refl
tagged local h = refl
tagged ipv4 h = refl
tagged ipv6 h = refl

pub texts-IsDocumented : IsDocumented texts
texts-IsDocumented = record {
  no_error = λ af text h. reads-few af text;
  writes = reads-writes;
  prints = λ af bytes h l. (
    tag af ∷ map suc bytes,
    ap (λ (xs : List ℕ). some (tag af ∷ map suc xs)) (bytes-binary af bytes),
    (tagged af h, no_nul bytes),
    back af bytes l,
  );
  one_family = reads-one;
}
