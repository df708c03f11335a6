-- ===== src/Tests/Nets.antt =====
-- The network layer on a small system.
use fcgi.Net.Socket.{timeval_of}
use fcgi.Prelude.{ℕ, ◌≡◌, ◌⊎◌, inl, refl, false, ◌||◌, List, [], ◌∷◌, none, some, ◌==◌, arith}
use fcgi.Outcome.{Exception, ok, threw, cannot_poll_socket}
use fcgi.Outcome.Holds.{Holds, Leaves}
use fcgi.Net.Address.{
  local, ipv4, IpAddress, in_addr, Inet, from_text, from_binary, to_string, is_valid_text,
  make_tcp_address,
}
use fcgi.Net.Address.Texts.{valid_address, from_text-to_string}
use fcgi.Net.Os.{Os}
use fcgi.Net.Socket.{SocketReadiness, invalid_socket, read_ready, poll}
use fcgi.Net.Socket.Polling.{IsWithin, poll-IsWithin}
use fcgi.Net.Listener.{
  Listener, ListenerOptions, make_net_options, listen, accept_socket, is_listening,
  destroy_listener, make_listener,
}
use fcgi.Net.Listener.Owning.{IsOwner, elem, Same}
use fcgi.Net.Listener.Reaching.{
  Reach, here, next, listens, accepts, reached-IsOwner, destroyed_leaves,
}
use fcgi.Net.Listener.Failing.{IsDeaf, listen-IsDeaf}
use fcgi.Net.Closing.{Descriptor, close_descriptor}
use fcgi.Net.Closing.Draining.{IsClosed, close_descriptor-returns}
use fcgi.Net.Client.{ClientOptions, make_tcp_connection}
use fcgi.Net.Client.Opening.{IsOpened, make_tcp_connection-IsOpened}
use fcgi.Net.Conversions.{little, copy}
use fcgi.Net.Conversions.Copies.{Copied, copy-Copied}
use fcgi.Tests.Systems.{
  World, system, is_open, system-IsTracked, system-IsFinite, system-OnlyClears, texts,
  texts-IsDocumented,
}

abbrev fresh : World
fresh = record { next_descriptor = 3; open_ones = λ fd. fd == 0; pending = 1500 }

abbrev local_address : List ℕ
local_address = 52 ∷ 128 ∷ 1 ∷ 1 ∷ 2 ∷ []

abbrev options : ListenerOptions
options = record {
  endpoint = record { uds_path = none; net_address = some local_address; net_port = some 9000 };
  backlog = some 16;
}

abbrev made : Listener World
made = record { options = options; socket = invalid_socket; world = fresh }

abbrev one_open : World
one_open = record { next_descriptor = 4; open_ones = λ fd. (fd == 3) || (fd == 0); pending = 1500 }

abbrev on : Listener World
on = record { options = options; socket = 3; world = one_open }

abbrev accepted : Listener World
accepted = record {
  options = options;
  socket = 3;
  world = record {
    next_descriptor = 5;
    open_ones = λ fd. (fd == 4) || ((fd == 3) || (fd == 0));
    pending = 1500;
  };
}

listens_on : listen system texts made ≡ ok tt on
unfolding listen fcgi.Net.Listener.tcp_create_bind fcgi.Net.Socket.make_socket
    fcgi.Net.Socket.move_assign fcgi.Net.Socket.close_guard from_text fcgi.Net.Address.try_families
    fcgi.Net.Address.do_inet_pton fcgi.Net.Address.init fcgi.Net.Socket.bind_socket
listens_on = refl

accepts_one : accept_socket system texts on ≡ ok 4 accepted
unfolding accept_socket
accepts_one = refl

life : Reach system texts made accepted (4 ∷ [])
life = next (next here (listens (inl (tt, listens_on)))) (accepts 4 accepts_one)

is_made : make_listener options fresh ≡ ok made fresh
unfolding make_listener
is_made = refl

reached-IsOwner_example : IsOwner is_open fresh accepted (4 ∷ [])
reached-IsOwner_example =
    reached-IsOwner is_open fresh system texts system-IsTracked options made accepted (4 ∷ [])
      is_made life

destroyed_leaves_example :
    is_open (destroy_listener system texts accepted) 3 ≡ elem 3 (4 ∷ []) || is_open fresh 3
destroyed_leaves_example =
    destroyed_leaves is_open fresh system texts system-IsTracked options made accepted (4 ∷ [])
      is_made life refl 3

-- The address is in use.
abbrev busy : Os World
busy = record system { bind = λ s a w. (invalid_socket, w) }

listen-IsDeaf_example : Leaves (IsDeaf busy texts 3) (listen busy texts made)
listen-IsDeaf_example = listen-IsDeaf busy texts 3 made refl refl refl

abbrev descriptor : Descriptor World
descriptor = record { is_shutted_down = false; socket = 4; world = accepted.world }

close_descriptor-returns_example :
    ((k : Descriptor World) × (close_descriptor system 1501 descriptor ≡ ok tt k)
      × IsClosed system (λ w. w.pending) system-IsFinite k)
    ⊎ ((e : Exception) × (k : Descriptor World) × (close_descriptor system 1501 descriptor
          ≡ threw e k))
close_descriptor-returns_example =
    close_descriptor-returns system (λ w. w.pending) system-IsFinite 1501 descriptor (omega arith)
      (omega arith)

poll-IsWithin_example :
    ((w : World) × (poll system 4 read_ready 1000 fresh ≡ threw cannot_poll_socket w))
    ⊎ ((result : SocketReadiness) × (w : World) × (poll system 4 read_ready 1000 fresh
          ≡ ok result w)
        × IsWithin result read_ready)
poll-IsWithin_example = poll-IsWithin system 4 read_ready 1000 fresh system-OnlyClears (omega arith)

abbrev client : ClientOptions
client = record { endpoint = options.endpoint }

make_tcp_connection-IsOpened_example :
    Holds
      (λ d w. IsOpened is_open system texts system-IsTracked (λ s w. refl) fresh d.socket w)
      (Same is_open fresh)
      (make_tcp_connection system texts client fresh)
make_tcp_connection-IsOpened_example =
    make_tcp_connection-IsOpened is_open system texts system-IsTracked (λ s w. refl) client fresh

from_text-to_string_example :
    (text : List ℕ) × (from_binary (127 ∷ 0 ∷ 0 ∷ 1 ∷ []) tt
      ≡ ok (valid_address ipv4 (127 ∷ 0 ∷ 0 ∷ 1 ∷ [])) tt)
    × (to_string texts (valid_address ipv4 (127 ∷ 0 ∷ 0 ∷ 1 ∷ [])) tt ≡ ok text tt)
    × (from_text texts text tt ≡ ok (valid_address ipv4 (127 ∷ 0 ∷ 0 ∷ 1 ∷ [])) tt)
from_text-to_string_example =
    from_text-to_string texts texts-IsDocumented ipv4 (127 ∷ 0 ∷ 0 ∷ 1 ∷ []) tt refl refl

copy-Copied_example :
    Copied little
      (some (9 ∷ 9 ∷ 9 ∷ []))
      (some (1 ∷ 2 ∷ []))
      tt
      (copy little (some (9 ∷ 9 ∷ 9 ∷ [])) (some (1 ∷ 2 ∷ [])) tt)
copy-Copied_example = copy-Copied little (some (9 ∷ 9 ∷ 9 ∷ [])) (some (1 ∷ 2 ∷ [])) tt
