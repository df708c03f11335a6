-- ===== src/Net/Listener/Options.antt =====
-- The options of a listener.
use fcgi.Prelude.{
  ℕ, ◌*◌, ◌+◌, ◌/◌, ◌%◌, ◌≡◌, ◌⊎◌, inl, inr, refl, true, false, List, [], ◌∷◌, none, some, arith,
  Bool-cases,
}
use fcgi.Outcome.{Outcome, ok, threw, terminated, ◌>>=◌, ◌>>◌, invalid_port, invalid_backlog}
use fcgi.Net.Endpoint.{net, communication_mode, make_net_endpoint, is_endpoint_ok}
use fcgi.Net.Address.{
  IpAddress, Binary, in_addr, in6_addr, SocketAddress, sockaddr_un, sockaddr_in, sockaddr_in6,
  is_positive, make_tcp_address,
}
use fcgi.Net.Listener.{ListenerOptions, make_net_options}

abbrev kept : List ℕ → ℕ → ℕ → ListenerOptions
kept address port backlog = record {
  endpoint = record { uds_path = none; net_address = some address; net_port = some port };
  backlog = some backlog;
}

-- The checks of the constructor, in their order.
abbrev pub Checked : {S : Type 0} → List ℕ → ℕ → ℕ → S → Outcome S ListenerOptions → Type 0
Checked [] port backlog s m = m ≡ terminated
Checked (c ∷ cs) port backlog s m =
    ((is_positive port ≡ false) × (m ≡ threw invalid_port s))
    ⊎ ((is_positive port ≡ true) × (is_positive backlog ≡ false) × (m ≡ threw invalid_backlog s))
    ⊎ ((is_positive port ≡ true)
        × (is_positive backlog ≡ true)
        × (o : ListenerOptions) × (m ≡ ok o s)
        × (communication_mode o.endpoint ≡ net)
        × (o.endpoint.net_address ≡ some (c ∷ cs))
        × (o.endpoint.net_port ≡ some port)
        × (o.backlog ≡ some backlog))

-- The constructor of the options for a network listener ends the process for an empty address, then throws for a port
-- that is not positive, then for a backlog that is not, and otherwise keeps its arguments.
make_net_options-Checked :
    {S : Type 0} (address : List ℕ) (port backlog : ℕ) (s : S)
    → Checked address port backlog s (make_net_options address port backlog s)
unfolding make_net_options make_net_endpoint is_endpoint_ok
make_net_options-Checked [] port backlog s = refl
make_net_options-Checked (c ∷ cs) port backlog s = elim (Bool-cases (is_positive port)) [
  | inr p ↦ inl (p, rw (◌>>=◌, ◌>>◌, p))
  | inl p ↦ elim (Bool-cases (is_positive backlog)) [
    | inr b ↦ inr (inl (p, b, rw (◌>>=◌, ◌>>◌, p, b)))
    | inl b ↦
        inr (inr (p, b, kept (c ∷ cs) port backlog, rw (◌>>=◌, ◌>>◌, p, b), refl, refl, refl, refl))
  ]
]

abbrev number : List ℕ → ℕ
number [] = 0
number (hi ∷ []) = hi
number (hi ∷ lo ∷ rest) = hi * 256 + lo

-- The port that an address has, as the number of its bytes in the order of the network.
abbrev pub port_of : SocketAddress → ℕ
port_of (sockaddr_un family path) = 0
port_of (sockaddr_in address port) = number port
port_of (sockaddr_in6 address port) = number port

two_bytes : (n : ℕ) → n / 256 * 256 + n % 256 ≡ n
two_bytes n = omega arith

address-port :
    (b : Binary) (port : ℕ)
    → port_of (make_tcp_address (record { is_valid_ = true; binary_ = b }) port) ≡ port % 65536
address-port (in_addr bytes) port = two_bytes (port % 65536)
address-port (in6_addr bytes) port = two_bytes (port % 65536)

-- The address of a valid IP address has the port modulo 65536, of whatever the options keep.
make_tcp_address-port :
    (ip : IpAddress) (port : ℕ)
    → ip.is_valid_ ≡ true
    → port_of (make_tcp_address ip port) ≡ port % 65536
make_tcp_address-port ip port h = rw h (address-port ip.binary_ port)
