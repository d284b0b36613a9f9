-- ===== src/Validation/Hosts/Brackets.antt =====
-- A host in brackets, which is how a URL names an address of IPv6.
use open_cawt.Base.{
  ℕ, Bool, true, false, ◌&&◌, ◌||◌, none, List, [], ◌∷◌, map, ◌==◌, All, ◌≡◌, ◌∙◌, refl, ap, ap₂,
  arith,
}
use open_cawt.Validation.Hosts.{
  codes, same, between, is_space, drop_end, lower, is_dot, trim, normalise_host, onto_first,
  split_dots, octet, four, octets_of, parse_ipv4_octets, mapped_ipv4, is_blocked_mapped,
  is_blocked_ipv6, ends_with, has_colon, is_blocked_address, is_blocked_value,
  is_blocked_host_literal,
}

-- The characters of an address of IPv6 in lower case, and the closing bracket.
abbrev pub is_ipv6_char : ℕ → Bool
is_ipv6_char c = between b'0' b'9' c || between b'a' b'f' c || c == b':' || c == b']'

drop_end_id : (p : ℕ → Bool) (cs : List ℕ) → All (λ c. p c ≡ false) cs → drop_end p cs ≡ cs
drop_end_id p [] a = refl
drop_end_id p (c ∷ cs) (h, a) = ground (arith, drop_end_id p cs a)

map_id : (f : ℕ → ℕ) (cs : List ℕ) → All (λ c. f c ≡ c) cs → map f cs ≡ cs
map_id f [] a = refl
map_id f (c ∷ cs) (h, a) = rw (h, map_id f cs a) refl

module _ {ℓ κ} {P : ℕ → Type ℓ} {Q : ℕ → Type κ} (step : (c : ℕ) → P c → Q c) where
  All-step : (cs : List ℕ) → All P cs → All Q cs
  All-step [] a = tt
  All-step (c ∷ cs) (h, a) = (step c h, All-step cs a)

ipv6-not_space : (c : ℕ) → is_ipv6_char c ≡ true → is_space c ≡ false
unfolding is_space
ipv6-not_space c h = ground arith

ipv6-lower : (c : ℕ) → is_ipv6_char c ≡ true → lower c ≡ c
unfolding lower
ipv6-lower c h = ground arith

ipv6-not_dot : (c : ℕ) → is_ipv6_char c ≡ true → is_dot c ≡ false
ipv6-not_dot c h = ground arith

-- Such a host is its own normal form.
pub bracketed_normal :
    (cs : List ℕ) → All (λ c. is_ipv6_char c ≡ true) cs → normalise_host (b'[' ∷ cs) ≡ b'[' ∷ cs
unfolding normalise_host trim is_space lower
bracketed_normal cs a =
    ap (λ l. b'[' ∷ drop_end is_dot (map lower l))
      (drop_end_id is_space cs (All-step ipv6-not_space cs a))
    ∙ ap (λ l. b'[' ∷ drop_end is_dot l) (map_id lower cs (All-step ipv6-lower cs a))
    ∙ ap (λ l. b'[' ∷ l) (drop_end_id is_dot cs (All-step ipv6-not_dot cs a))

no_dots-ends :
    (suffix cs : List ℕ) → All (λ c. is_dot c ≡ false) cs → ends_with (b'.' ∷ suffix) cs ≡ false
no_dots-ends suffix [] a = refl
no_dots-ends suffix (c ∷ cs) (h, a) = ground (arith, no_dots-ends suffix cs a)

octet-bracket : (part : List ℕ) → octet (b'[' ∷ part) ≡ none
unfolding octet
octet-bracket part = ground arith

bracket-octets : (parts : List (List ℕ)) → octets_of (onto_first b'[' parts) ≡ none
unfolding octet
bracket-octets [] = refl
bracket-octets (a ∷ []) = refl
bracket-octets (a ∷ b ∷ []) = refl
bracket-octets (a ∷ b ∷ c ∷ []) = refl
bracket-octets (a ∷ b ∷ c ∷ d ∷ []) =
    ap (λ o. four o (octet b) (octet c) (octet d)) (octet-bracket a)
bracket-octets (a ∷ b ∷ c ∷ d ∷ e ∷ rest) = refl

-- A host in brackets is no address of IPv4.
pub bracketed-octets : (cs : List ℕ) → parse_ipv4_octets (b'[' ∷ cs) ≡ none
unfolding parse_ipv4_octets
bracketed-octets cs = bracket-octets (split_dots cs)

bracketed-ipv6 :
    (cs : List ℕ) → All (λ c. is_ipv6_char c ≡ true) cs → is_blocked_ipv6 (b'[' ∷ cs) ≡ false
unfolding is_blocked_ipv6
bracketed-ipv6 cs a =
    ap (λ v. same v (codes "::1") || same v (codes "::") || is_blocked_mapped (mapped_ipv4 v) v)
      (bracketed_normal cs a)

-- A host that is an address of IPv6 in brackets passes the literal test, whatever the address.
pub bracketed-passes :
    (cs : List ℕ)
    → All (λ c. is_ipv6_char c ≡ true) cs
    → is_blocked_host_literal (b'[' ∷ cs) ≡ false
unfolding is_blocked_host_literal
bracketed-passes cs a =
    let ends = no_dots-ends (codes "localhost") cs (All-step ipv6-not_dot cs a) in
    let address : is_blocked_address (parse_ipv4_octets (b'[' ∷ cs)) (b'[' ∷ cs) ≡ false =
      ap (λ o. is_blocked_address o (b'[' ∷ cs)) (bracketed-octets cs)
      ∙ ap (λ b. has_colon (b'[' ∷ cs) && b) (bracketed-ipv6 cs a)
      ∙ ground arith in
    ap is_blocked_value (bracketed_normal cs a) ∙ ap₂ (λ b c. (b || false) || c) ends address
