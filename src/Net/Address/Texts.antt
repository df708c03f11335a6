-- ===== src/Net/Address/Texts.antt =====
-- An IP address as text and as bytes.
use fcgi.Prelude.{
  zeros, take_all, ℕ, zero, suc, ◌-◌, ◌^◌, ◌≤◌, ◌≡◌, ◌⊎◌, inl, inr, refl, ap, sym, ◌∙◌, true, false,
  List, [], ◌∷◌, ◌++◌, some, length, take, ltb, ◌==◌, arith, eq→==,
}
use fcgi.Outcome.{ok, ◌>>=◌, ◌>>◌}
use fcgi.Net.Address.{
  ProtocolFamily, unspec, local, ipv4, ipv6, Inet, IpAddress, is_inet, address_size, binary_of,
  text_size, until_nul, invalid_address, init, do_inet_pton, do_inet_ntop, try_families, from_text,
  from_binary, is_valid_text, to_string,
}

abbrev pub HasNoNul : List ℕ → Type 0
HasNoNul [] = Unit
HasNoNul (c ∷ cs) = ((c == 0) ≡ false) × HasNoNul cs

until_nul-zeros : (text : List ℕ) (n : ℕ) → HasNoNul text → until_nul (text ++ zeros n) ≡ text
until_nul-zeros [] zero h = refl
until_nul-zeros [] (suc n) h = refl
until_nul-zeros (c ∷ cs) n h = rw (h.0, until_nul-zeros cs n h.1)

-- What the documentation says of ::inet_pton and ::inet_ntop, for the two families of IP.
pub record IsDocumented (inet : Inet) : Type 0 where
  pub no_error :
      (af : ProtocolFamily) (text : List ℕ) → is_inet af ≡ true → (inet.inet_pton af text).0 ≤ 1
  pub writes :
      (af : ProtocolFamily) (text : List ℕ)
      → (inet.inet_pton af text).0 ≡ 1
      → length (inet.inet_pton af text).1 ≡ address_size af
  pub prints :
      (af : ProtocolFamily) (bytes : List ℕ)
      → is_inet af ≡ true
      → length bytes ≡ address_size af
      → (text : List ℕ) × (inet.inet_ntop af (binary_of af bytes) (text_size af) ≡ some text)
        × HasNoNul text
        × (inet.inet_pton af text ≡ (1, bytes))
  pub one_family :
      (text : List ℕ) → (inet.inet_pton ipv6 text).0 ≡ 1 → (inet.inet_pton ipv4 text).0 ≡ 0

abbrev pub valid_address : ProtocolFamily → List ℕ → IpAddress
valid_address af bytes = record { is_valid_ = true; binary_ = binary_of af bytes }

read_or_not :
    (inet : Inet) (documented : IsDocumented inet) (af : ProtocolFamily) (text : List ℕ)
    → is_inet af ≡ true
    → ((inet.inet_pton af text).0 ≡ 1) ⊎ ((inet.inet_pton af text).0 ≡ 0)
read_or_not inet documented af text h = let few = documented.no_error af text h in ground arith

module _ (inet : Inet) (documented : IsDocumented inet) {S : Type 0} where
  pton_ok :
      (af : ProtocolFamily) (text : List ℕ) (s : S)
      → is_inet af ≡ true
      → do_inet_pton inet af text s ≡ ok (inet.inet_pton af text) s
  unfolding do_inet_pton
  pton_ok af text s h =
      let below : ltb (inet.inet_pton af text).0 (2 ^ 31) ≡ true =
        ground (arith, documented.no_error af text h) in
      rw (h, below)

  init_ok :
      (af : ProtocolFamily) (bytes : List ℕ) (s : S)
      → length bytes ≡ address_size af
      → init af bytes s ≡ ok (valid_address af bytes) s
  unfolding init
  init_ok af bytes s h = rw (h, eq→== (address_size af) (address_size af) refl)

  -- The first family that reads the text makes the address.
  try-reads :
      (af : ProtocolFamily) (families : List ProtocolFamily) (text : List ℕ) (s : S)
      → is_inet af ≡ true
      → (inet.inet_pton af text).0 ≡ 1
      → try_families inet (af ∷ families) text s
        ≡ ok (valid_address af (inet.inet_pton af text).1) s
  unfolding try_families
  try-reads af families text s h one =
      let size = documented.writes af text one in
      let all =
        ap (λ (n : ℕ). take n (inet.inet_pton af text).1) (sym size)
        ∙ take_all (inet.inet_pton af text).1 in
      rw (◌>>=◌, pton_ok af text s h, one, ◌>>=◌, all, init_ok af (inet.inet_pton af text).1 s size)

  try-passes :
      (af : ProtocolFamily) (families : List ProtocolFamily) (text : List ℕ) (s : S)
      → is_inet af ≡ true
      → (inet.inet_pton af text).0 ≡ 0
      → try_families inet (af ∷ families) text s ≡ try_families inet families text s
  unfolding try_families
  try-passes af families text s h none_read = rw (◌>>=◌, pton_ok af text s h, none_read)

  try-none : (text : List ℕ) (s : S) → try_families inet [] text s ≡ ok invalid_address s
  unfolding try_families
  try-none text s = refl

  -- An address of 4 or 16 bytes is valid and keeps the bytes; its text, by to_string(), is read by from_text() into the
  -- same address.
  pub from_text-to_string :
      (af : ProtocolFamily) (bytes : List ℕ) (s : S)
      → is_inet af ≡ true
      → length bytes ≡ address_size af
      → (text : List ℕ) × (from_binary bytes s ≡ ok (valid_address af bytes) s)
        × (to_string inet (valid_address af bytes) s ≡ ok text s)
        × (from_text inet text s ≡ ok (valid_address af bytes) s)
  unfolding from_binary init to_string do_inet_ntop from_text
  from_text-to_string unspec bytes s h l = absurd (ground arith)
  from_text-to_string local bytes s h l = absurd (ground arith)
  from_text-to_string ipv4 bytes s h l =
      let (text, p, clean, back) = documented.prints ipv4 bytes refl l in
      (
        text,
        rw l,
        rw (p, ◌>>=◌, ◌>>◌, until_nul-zeros text (16 - length text) clean),
        try-reads ipv4 (ipv6 ∷ []) text s refl (ap (λ (r : ℕ × List ℕ). r.0) back)
            ∙ ap (λ (r : ℕ × List ℕ). ok (valid_address ipv4 r.1) s) back,
      )
  from_text-to_string ipv6 bytes s h l =
      let (text, p, clean, back) = documented.prints ipv6 bytes refl l in
      (
        text,
        rw l,
        rw (p, ◌>>=◌, ◌>>◌, until_nul-zeros text (46 - length text) clean),
        try-passes ipv4 (ipv6 ∷ []) text s refl
              (documented.one_family text (ap (λ (r : ℕ × List ℕ). r.0) back))
            ∙ try-reads ipv6 [] text s refl (ap (λ (r : ℕ × List ℕ). r.0) back)
            ∙ ap (λ (r : ℕ × List ℕ). ok (valid_address ipv6 r.1) s) back,
      )

  -- is_valid() of a text says whether from_text() gives a valid address.
  is_valid_text-from_text :
      (text : List ℕ) (s : S)
      → (ip : IpAddress) × (from_text inet text s ≡ ok ip s)
        × (is_valid_text inet text s ≡ ok ip.is_valid_ s)
  unfolding from_text is_valid_text
  is_valid_text-from_text text s = elim (read_or_not inet documented ipv4 text refl) [
    | inl one ↦ (
      valid_address ipv4 (inet.inet_pton ipv4 text).1,
      try-reads ipv4 (ipv6 ∷ []) text s refl one,
      rw (◌>>=◌, pton_ok ipv4 text s refl, one),
    )
    | inr off ↦ elim (read_or_not inet documented ipv6 text refl) [
      | inl one ↦ (
        valid_address ipv6 (inet.inet_pton ipv6 text).1,
        try-passes ipv4 (ipv6 ∷ []) text s refl off ∙ try-reads ipv6 [] text s refl one,
        rw (◌>>=◌, pton_ok ipv4 text s refl, off, ◌>>=◌, pton_ok ipv6 text s refl, one),
      )
      | inr out ↦ (
        invalid_address,
        try-passes ipv4 (ipv6 ∷ []) text s refl off
            ∙ try-passes ipv6 [] text s refl out
            ∙ try-none text s,
        rw (◌>>=◌, pton_ok ipv4 text s refl, off, ◌>>=◌, pton_ok ipv6 text s refl, out),
      )
    ]
  ]
