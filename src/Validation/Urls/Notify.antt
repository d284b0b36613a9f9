-- ===== src/Validation/Urls/Notify.antt =====
-- The URLs that validateNotifyUrl takes.
use open_cawt.Base.{
  ℕ, ◌≤◌, true, false, not, Option, none, some, List, [], ◌∷◌, any, leb, length, All, ◌≡◌, ◌∙◌,
  refl, ap, subst, arith,
}
use open_cawt.Base.Errors.{
  ok, bad_request, require, require-true, ◌>>◌, ◌>>=◌, both_ok, bind_ok, ok-inj,
}
use open_cawt.Validation.Hosts.{
  is_nil, trim, normalise_host, has_colon, is_blocked_host_literal, is_blocked_resolved_ip,
  is_space,
}
use open_cawt.Validation.Hosts.Brackets.{
  is_ipv6_char, bracketed_normal, bracketed-octets, bracketed-passes,
}
use open_cawt.Validation.Urls.{
  Url, Web, is_default_port, validate_https_url, is_literal, or_nothing, has_none,
  assert_dns_safe_host, notify_codes, parsed_again, validate_notify_url,
}
use open_cawt.Validation.Urls.Safe.{IsHttps, validate-IsHttps, not-true}

-- What holds of a URL for notifications that is taken.
pub record IsSafe (web : Web) (value href : List ℕ) : Type 0 where
  pub https : IsHttps web 2048 value href
  pub port : is_default_port https.url.port ≡ true
  pub again : Url
  pub reparsed : web.parse_url href ≡ some again
  pub resolved :
      is_literal (normalise_host again.hostname) ≡ false
      → (has_none (or_nothing (web.resolve_host (normalise_host again.hostname))) ≡ false)
        × (any is_blocked_resolved_ip
              (or_nothing (web.resolve_host (normalise_host again.hostname)))
            ≡ false)

dns-safe :
    (web : Web) (url : Url)
    → assert_dns_safe_host web url ≡ ok tt
    → is_literal (normalise_host url.hostname) ≡ false
    → (has_none (or_nothing (web.resolve_host (normalise_host url.hostname))) ≡ false)
      × (any is_blocked_resolved_ip (or_nothing (web.resolve_host (normalise_host url.hostname)))
          ≡ false)
unfolding assert_dns_safe_host
dns-safe web url h named =
    let resolved = or_nothing (web.resolve_host (normalise_host url.hostname)) in
    let checks : (require (not (has_none resolved)) (bad_request "NOTIFY_URL_DNS_RESOLUTION_FAILED")
          >> require (not (any is_blocked_resolved_ip resolved))
              (bad_request "NOTIFY_URL_HOST_BLOCKED_RESOLVED"))
        ≡ ok tt =
      rw named at h in
    let (there, h1) = both_ok _ _ tt checks in
    (not-true _ (require-true _ _ there), not-true _ (require-true _ _ h1))

parsed_again-ok : (o : Option Url) (url : Url) → parsed_again o ≡ ok url → o ≡ some url
parsed_again-ok none url h = cc
parsed_again-ok (some u) url h = ap some (ok-inj u url h)

given-IsSafe :
    (web : Web) (value href : List ℕ)
    → (validate_https_url web notify_codes 2048 value >>= λ normalised.
        parsed_again (web.parse_url normalised) >>= λ url.
        assert_dns_safe_host web url >> ok (some normalised))
      ≡ ok (some href)
    → IsSafe web value href
given-IsSafe web value href h =
    let (normalised, (hn, h1)) =
      bind_ok (validate_https_url web notify_codes 2048 value) _ (some href) h in
    let (again, (hu, h2)) = bind_ok (parsed_again (web.parse_url normalised)) _ (some href) h1 in
    let (safe, h3) =
      both_ok (assert_dns_safe_host web again) (ok (some normalised)) (some href) h2 in
    let (v, port) = validate-IsHttps web notify_codes 2048 value normalised hn in
    let same : normalised ≡ href = some-inj (ok-inj (some normalised) (some href) h3) in
    subst (IsSafe web value) same (record {
      https = v;
      port = require-true _ _ port;
      again = again;
      reparsed = parsed_again-ok _ again hu;
      resolved = dns-safe web again safe;
    })
  where
    some-inj : {a b : List ℕ} → some a ≡ some b → a ≡ b
    some-inj e = cc

-- A URL for notifications that is taken is of https, on its default port and of at most 2048
-- characters, and its host passed the literal test; and unless the host is an address the resolver
-- knows it, and knows no address of it that is refused.
pub notify-IsSafe :
    (web : Web) (value href : List ℕ)
    → validate_notify_url web (some value) ≡ ok (some href)
    → IsSafe web value href
unfolding validate_notify_url
notify-IsSafe web [] href h = cc
notify-IsSafe web (c ∷ value) href h = given-IsSafe web (c ∷ value) href h

validate-passes :
    (web : Web) (value : List ℕ) (url : Url)
    → is_nil (trim value) ≡ false
    → leb (length (trim value)) 2048 ≡ true
    → web.parse_url (trim value) ≡ some url
    → url.is_https ≡ true
    → is_default_port url.port ≡ true
    → is_blocked_host_literal url.hostname ≡ false
    → validate_https_url web notify_codes 2048 value ≡ ok url.href
unfolding validate_https_url
validate-passes web value url some_text fits parsed secure port open_host =
    rw (some_text, fits, parsed, secure, port, open_host) refl

literal-skips :
    (web : Web) (url : Url)
    → is_literal (normalise_host url.hostname) ≡ true
    → assert_dns_safe_host web url ≡ ok tt
unfolding assert_dns_safe_host
literal-skips web url h = rw h refl

bracketed_literal :
    (cs : List ℕ)
    → All (λ c. is_ipv6_char c ≡ true) cs
    → has_colon cs ≡ true
    → is_literal (normalise_host (b'[' ∷ cs)) ≡ true
bracketed_literal cs a colon =
    ap is_literal (bracketed_normal cs a) ∙ rw (bracketed-octets cs) colon

-- A URL of https on the default port whose host is an address of IPv6 in brackets is taken,
-- whatever the address, the loopback and the private ones included, and no resolver is asked.
pub notify-bracketed :
    (web : Web) (value : List ℕ) (url : Url) (cs : List ℕ)
    → is_nil (trim value) ≡ false
    → length (trim value) ≤ 2048
    → web.parse_url (trim value) ≡ some url
    → url.is_https ≡ true
    → is_default_port url.port ≡ true
    → url.hostname ≡ b'[' ∷ cs
    → All (λ c. is_ipv6_char c ≡ true) cs
    → has_colon cs ≡ true
    → web.parse_url url.href ≡ some url
    → validate_notify_url web (some value) ≡ ok (some url.href)
unfolding validate_notify_url trim is_space
notify-bracketed web [] url cs some_text fits parsed secure port host a colon again = cc
notify-bracketed web (c ∷ value) url cs some_text fits parsed secure port host a colon again =
    let open_host = ap is_blocked_host_literal host ∙ bracketed-passes cs a in
    let literal : is_literal (normalise_host url.hostname) ≡ true =
      ap (λ h. is_literal (normalise_host h)) host ∙ bracketed_literal cs a colon in
    rw
      (
        validate-passes web (c ∷ value) url some_text (ground arith) parsed secure port open_host,
        again,
        literal-skips web url literal,
      )
      refl
