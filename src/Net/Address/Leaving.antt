-- ===== src/Net/Address/Leaving.antt =====
-- Making an address leaves the state as it is.
use fcgi.Prelude.{ℕ, ◌^◌, List, [], ◌∷◌, length, take, leb, ltb, ◌==◌}
use fcgi.Outcome.{pure, throw, path_too_long, cannot_convert_text}
use fcgi.Outcome.Holds.{Leaves, bind-Holds, assert-Holds, if-Holds}
use fcgi.Net.Address.{
  ProtocolFamily, ipv4, ipv6, Inet, is_inet, address_size, is_positive, init, do_inet_pton,
  try_families, from_text, max_path_size, make_uds_address,
}

module _ {S : Type 0} (P : S → Type 0) where
  init-Leaves :
      (family : ProtocolFamily) (bin : List ℕ) (s : S) → P s → Leaves P (init {S = S} family bin s)
  unfolding init
  init-Leaves family bin s h = assert-Holds (λ _. P) P (address_size family == length bin) _ s h

  do_inet_pton-Leaves :
      (inet : Inet) (af : ProtocolFamily) (text : List ℕ) (s : S)
      → P s
      → Leaves P (do_inet_pton inet {S = S} af text s)
  unfolding do_inet_pton
  do_inet_pton-Leaves inet af text s h =
      assert-Holds (λ _. P) P (is_inet af) _ s
        (if-Holds (λ _. P) P (ltb (inet.inet_pton af text).0 (2 ^ 31))
          (pure (inet.inet_pton af text)) (throw cannot_convert_text) s (λ _. h) λ _. h)

  try_families-Leaves :
      (inet : Inet) (families : List ProtocolFamily) (text : List ℕ) (s : S)
      → P s
      → Leaves P (try_families inet {S = S} families text s)
  unfolding try_families
  try_families-Leaves inet [] text s h = h
  try_families-Leaves inet (family ∷ families) text s h =
      bind-Holds (λ _. P) P (λ _. P) (do_inet_pton inet family text) _ s
        (do_inet_pton-Leaves inet family text s h)
        λ r t k.
          if-Holds (λ _. P) P (is_positive r.0) _ _ t
            (λ _.
              bind-Holds (λ _. P) P (λ _. P) (init family (take (address_size family) r.1)) _ t
                (init-Leaves family (take (address_size family) r.1) t k)
                λ ip u j. assert-Holds (λ _. P) P ip.is_valid_ _ u j)
            λ _. try_families-Leaves inet families text t k

  pub from_text-Leaves :
      (inet : Inet) (text : List ℕ) (s : S) → P s → Leaves P (from_text inet {S = S} text s)
  unfolding from_text
  from_text-Leaves inet text s h = try_families-Leaves inet (ipv4 ∷ ipv6 ∷ []) text s h

  pub make_uds_address-Leaves :
      (path : List ℕ) (s : S) → P s → Leaves P (make_uds_address {S = S} path s)
  unfolding make_uds_address
  make_uds_address-Leaves path s h =
      if-Holds (λ _. P) P (leb (length path) max_path_size) _ (throw path_too_long) s (λ _. h)
        λ _. h
