-- ===== src/Validation/Urls.antt =====
-- validateHttpsUrl, assertDnsSafeHost, validateNotifyUrl and validateEvidenceAttachmentUrls of
-- server/services/validation.ts.
pub mod Safe
pub mod Notify
use Prim.Native.String.{String}
use open_cawt.Base.{
  ℕ, ◌+◌, Bool, true, false, not, ◌&&◌, ◌||◌, Option, none, some, List, [], ◌∷◌, ◌++◌, any, leb,
  ltb, length, is_some, if◌then◌else◌,
}
use open_cawt.Base.Errors.{Result, ok, err, bad_request, internal_error, require, ◌>>◌, ◌>>=◌}
use open_cawt.Validation.Hosts.{
  codes, same, is_nil, trim, normalise_host, parse_ipv4_octets, has_colon, is_blocked_host_literal,
  is_blocked_resolved_ip,
}

-- What `new URL` gives. The port is empty where it is the default one.
pub record Url : Type 0 where
  pub is_https : Bool
  pub port : List ℕ
  pub hostname : List ℕ
  pub href : List ℕ

-- `new URL`, which throws on what is no absolute URL, and the resolver, which may fail.
pub record Web : Type 0 where
  pub parse_url : List ℕ → Option Url
  pub resolve_host : List ℕ → Option (List (List ℕ))

-- The codes of the errors; that of the port is none where any port will do.
pub record ErrorCodes : Type 0 where
  pub invalid : String
  pub scheme_invalid : String
  pub host_blocked : String
  pub port_invalid : Option String

abbrev pub url_or : String → Option Url → Result Url
url_or code none = err (bad_request code)
url_or code (some url) = ok url

abbrev pub is_default_port : List ℕ → Bool
is_default_port port = is_nil port || same port (codes "443")

abbrev pub check_port : Option String → List ℕ → Result (Unit {0})
check_port none port = ok tt
check_port (some code) port = require (is_default_port port) (bad_request code)

unfoldable pub validate_https_url : Web → ErrorCodes → ℕ → List ℕ → Result (List ℕ)
unfolding trim is_blocked_host_literal
validate_https_url web error max_length value =
    let trimmed = trim value in
    require (not (is_nil trimmed) && leb (length trimmed) max_length) (bad_request error.invalid)
    >> (url_or error.invalid (web.parse_url trimmed) >>= λ url.
        require url.is_https (bad_request error.scheme_invalid)
        >> (check_port error.port_invalid url.port
            >> (require (not (is_blocked_host_literal url.hostname))
                  (bad_request error.host_blocked)
                >> ok url.href)))

-- A host that is an address is not resolved.
abbrev pub is_literal : List ℕ → Bool
is_literal hostname = is_nil hostname || is_some (parse_ipv4_octets hostname) || has_colon hostname

abbrev pub or_nothing : Option (List (List ℕ)) → List (List ℕ)
or_nothing none = []
or_nothing (some addresses) = addresses

abbrev pub has_none : List (List ℕ) → Bool
has_none [] = true
has_none (a ∷ rest) = false

unfoldable pub assert_dns_safe_host : Web → Url → Result (Unit {0})
unfolding normalise_host parse_ipv4_octets is_blocked_resolved_ip
assert_dns_safe_host web url =
    let hostname = normalise_host url.hostname in
    let resolved = or_nothing (web.resolve_host hostname) in
    if is_literal hostname
    then ok tt
    else require (not (has_none resolved)) (bad_request "NOTIFY_URL_DNS_RESOLUTION_FAILED")
      >> require (not (any is_blocked_resolved_ip resolved))
          (bad_request "NOTIFY_URL_HOST_BLOCKED_RESOLVED")

abbrev pub notify_codes : ErrorCodes
notify_codes = record {
  invalid = "NOTIFY_URL_INVALID";
  scheme_invalid = "NOTIFY_URL_SCHEME_INVALID";
  host_blocked = "NOTIFY_URL_HOST_BLOCKED";
  port_invalid = some "NOTIFY_URL_PORT_INVALID";
}

-- `new URL(normalised)`
abbrev pub parsed_again : Option Url → Result Url
parsed_again none = err internal_error
parsed_again (some url) = ok url

-- A value that is not given is none.
unfoldable pub validate_notify_url : Web → Option (List ℕ) → Result (Option (List ℕ))
unfolding validate_https_url assert_dns_safe_host
validate_notify_url web none = ok none
validate_notify_url web (some value) =
    if is_nil value
    then ok none
    else validate_https_url web notify_codes 2048 value >>= λ normalised.
        parsed_again (web.parse_url normalised) >>= λ url.
        assert_dns_safe_host web url >> ok (some normalised)

abbrev pub attachment_codes : ErrorCodes
attachment_codes = record {
  invalid = "EVIDENCE_ATTACHMENT_URLS_INVALID";
  scheme_invalid = "EVIDENCE_ATTACHMENT_URL_SCHEME_INVALID";
  host_blocked = "EVIDENCE_ATTACHMENT_URL_HOST_BLOCKED";
  port_invalid = none;
}

abbrev pub pushed : List (List ℕ) → List ℕ → Result (List (List ℕ))
pushed out url =
    if any (same url) out
    then ok out
    else require (leb (length out + 1) 8) (bad_request "EVIDENCE_ATTACHMENT_LIMIT_REACHED")
      >> ok (out ++ url ∷ [])

-- The loop over the URLs, with those that it has.
unfoldable pub add_attachments : Web → List (List ℕ) → List (List ℕ) → Result (List (List ℕ))
unfolding validate_https_url
add_attachments web [] out = ok out
add_attachments web (value ∷ values) out =
    validate_https_url web attachment_codes 2048 value >>= λ url.
    pushed out url >>= λ out'. add_attachments web values out'

unfoldable pub validate_evidence_attachment_urls : Web → List (List ℕ) → Result (List (List ℕ))
unfolding add_attachments
validate_evidence_attachment_urls web values = add_attachments web values []
