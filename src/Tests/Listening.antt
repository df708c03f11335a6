-- ===== src/Tests/Listening.antt =====
-- A listener that refuses its second client.
use fcgi.Prelude.{ℕ, [], ◌∷◌, ◌++◌, none, some, ◌||◌, ◌==◌}
use fcgi.Basics.Header.{header_bytes, header_fields}
use fcgi.Net.Descriptor.{Io}
use fcgi.Net.Listener.{ListenerOptions as NetOptions}
use fcgi.Listener.{Listener, accept}
use fcgi.Server.{accept as serve}
use fcgi.Server.Accept.{behind}
use fcgi.Tests.Systems.{World}

abbrev fill : ℕ → ℕ
fill n = 205

abbrev mute : Io
mute = record { arrivals = []; sends = []; sent = [] }

-- What the client sends: a record of stdin that no request was begun for.
abbrev stray : ℕ → World → Io
stray s w = behind (header_bytes (header_fields 5 1 2 0) ++ 104 ∷ 105 ∷ []) mute

abbrev start : World
start = record { next_descriptor = 3; open_ones = λ fd. fd == 0; pending = 10 }

abbrev net_options : NetOptions
net_options = record {
  endpoint = record { uds_path = some (47 ∷ []); net_address = none; net_port = none };
  backlog = some 16;
}

-- Its socket is 3, and 4 belongs to its first client.
abbrev running : Listener World
running = record {
  listener = record {
    options = net_options;
    socket = 3;
    world = record {
      next_descriptor = 5;
      open_ones = λ fd. (fd == 4) || ((fd == 3) || (fd == 0));
      pending = 10;
    };
  };
  listener_options = record { options = net_options };
}
