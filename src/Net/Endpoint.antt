-- ===== src/Net/Endpoint.antt =====
-- src/net/endpoint.hpp, as it is compiled outside Windows. A path and an address are lists of characters.
use fcgi.Prelude.{
  ℕ, ◌≡◌, refl, Bool, true, false, not, ◌&&◌, ◌||◌, List, [], ◌∷◌, Option, none, some,
}
use fcgi.Outcome.{M, ok, terminated, pure, assert, ◌>>◌}

pub data CommunicationMode : Type 0 where
  uds net : CommunicationMode

pub record Endpoint : Type 0 where
  pub uds_path : Option (List ℕ)
  pub net_address : Option (List ℕ)
  pub net_port : Option ℕ

abbrev pub communication_mode : Endpoint → CommunicationMode
communication_mode e = elim e.uds_path [ some path ↦ uds | none ↦ net ]

abbrev is_set : {A : Type 0} → Option A → Bool
is_set none = false
is_set (some a) = true

-- The text is there, and not empty.
abbrev has_text : Option (List ℕ) → Bool
has_text none = false
has_text (some []) = false
has_text (some (c ∷ cs)) = true

abbrev is_uds : CommunicationMode → Bool
is_uds uds = true
is_uds net = false

unfoldable pub is_endpoint_ok : Endpoint → Bool
is_endpoint_ok e =
    let uds_ok = not (is_set e.uds_path) || has_text e.uds_path in
    let net_ok =
      (not (is_set e.net_address) && not (is_set e.net_port))
      || (is_set e.net_address && is_set e.net_port && has_text e.net_address) in
    let is_ipc = is_uds (communication_mode e) in
    let is_net = not (is_uds (communication_mode e)) in
    uds_ok && net_ok && ((not is_ipc && is_net) || (is_ipc && not is_net))

abbrev checked : {S : Type 0} → Endpoint → M S Endpoint
checked e = do assert (is_endpoint_ok e); pure e

unfoldable pub make_uds_endpoint : {S : Type 0} → List ℕ → M S Endpoint
make_uds_endpoint path =
    checked (record { uds_path = some path; net_address = none; net_port = none })

unfoldable pub make_net_endpoint : {S : Type 0} → List ℕ → ℕ → M S Endpoint
make_net_endpoint address port =
    checked (record { uds_path = none; net_address = some address; net_port = some port })

-- An endpoint with a mode that keeps what it was made of, or the end of the process where the text is empty.
abbrev pub Makes :
    {S : Type 0}
    → M S Endpoint
    → S
    → CommunicationMode
    → List ℕ
    → (Endpoint → Option (List ℕ))
    → Type 0
Makes m s mode [] field = m s ≡ terminated
Makes m s mode (c ∷ cs) field =
    (e : Endpoint) × (m s ≡ ok e s)
    × (communication_mode e ≡ mode)
    × (field e ≡ some (c ∷ cs))
    × (is_endpoint_ok e ≡ true)

-- The constructors end the process for an empty path or address, and otherwise give an endpoint of the mode for local
-- sockets or for the network that keeps the path or the address and satisfies the invariant of the class.
make_endpoint-Makes :
    {S : Type 0} (s : S) (text : List ℕ) (port : ℕ)
    → Makes (make_uds_endpoint text) s uds text (λ e. e.uds_path)
      × Makes (make_net_endpoint text port) s net text (λ e. e.net_address)
unfolding make_uds_endpoint make_net_endpoint is_endpoint_ok
make_endpoint-Makes s [] port = (refl, refl)
make_endpoint-Makes s (c ∷ cs) port = ((_, refl, refl, refl, refl), (_, refl, refl, refl, refl))
