-- ===== src/Validation/Urls/Safe.antt =====
-- What a URL that is taken may name, and what the test misses.
use open_cawt.Base.{
  ℕ, ◌+◌, ◌≤◌, String, Bool, true, false, not, ◌&&◌, Option, none, some, List, [], ◌∷◌, ◌++◌, any,
  leb, length, All, ◌≡◌, ◌∙◌, refl, sym, ap, subst, arith, Bool-cases, inl, inr, length-append,
}
use open_cawt.Base.Errors.{ok, bad_request, require, require-true, ◌>>◌, both_ok, bind_ok, ok-inj}
use open_cawt.Validation.Hosts.{same, is_nil, trim, is_blocked_host_literal}
use open_cawt.Validation.Urls.{
  Url, Web, ErrorCodes, url_or, check_port, validate_https_url, attachment_codes, pushed,
  add_attachments, validate_evidence_attachment_urls,
}

-- A URL that passed: its text fits, it is of https, and its host passed the literal test.
pub record IsHttps (web : Web) (max_length : ℕ) (value href : List ℕ) : Type 0 where
  pub url : Url
  pub fits : length (trim value) ≤ max_length
  pub read_as : web.parse_url (trim value) ≡ some url
  pub secure : url.is_https ≡ true
  pub open_host : is_blocked_host_literal url.hostname ≡ false
  pub printed : url.href ≡ href

url_or-ok : (code : String) (o : Option Url) (url : Url) → url_or code o ≡ ok url → o ≡ some url
url_or-ok code none url h = cc
url_or-ok code (some u) url h = ap some (ok-inj u url h)

pub not-true : (b : Bool) → not b ≡ true → b ≡ false
not-true true h = cc
not-true false h = refl

pub validate-IsHttps :
    (web : Web) (error : ErrorCodes) (max_length : ℕ) (value href : List ℕ)
    → validate_https_url web error max_length value ≡ ok href
    → (v : IsHttps web max_length value href) × (check_port error.port_invalid v.url.port ≡ ok tt)
unfolding validate_https_url
validate-IsHttps web error max_length value href h =
    let (fits, h1) =
      both_ok
        (require (not (is_nil (trim value)) && leb (length (trim value)) max_length)
          (bad_request error.invalid))
        _ href h in
    let (url, (hu, h2)) = bind_ok (url_or error.invalid (web.parse_url (trim value))) _ href h1 in
    let (secure, h3) =
      both_ok (require url.is_https (bad_request error.scheme_invalid)) _ href h2 in
    let (port, h4) = both_ok (check_port error.port_invalid url.port) _ href h3 in
    let (host, h5) =
      both_ok
        (require (not (is_blocked_host_literal url.hostname)) (bad_request error.host_blocked)) _
        href h4 in
    let small = require-true _ _ fits in
    (
      record {
        url = url;
        fits = ground arith;
        read_as = url_or-ok error.invalid _ url hu;
        secure = require-true _ _ secure;
        open_host = not-true _ (require-true _ _ host);
        printed = ok-inj url.href href h5;
      },
      port,
    )

-- A list of attachments: each is the text of some URL that passed.
abbrev pub ArePassed : Web → List (List ℕ) → Type 0
ArePassed web urls = All (λ url. (value : List ℕ) × IsHttps web 2048 value url) urls

All-snoc {ℓ κ} :
    {A : Type ℓ} (P : A → Type κ) (xs : List A) (x : A) → All P xs → P x → All P (xs ++ x ∷ [])
All-snoc P [] x a h = (h, tt)
All-snoc P (y ∷ xs) x (p, a) h = (p, All-snoc P xs x a h)

pushed-keeps :
    (web : Web) (out out' : List (List ℕ)) (url : List ℕ)
    → pushed out url ≡ ok out'
    → length out ≤ 8
    → ArePassed web out
    → ((value : List ℕ) × IsHttps web 2048 value url)
    → (length out' ≤ 8) × ArePassed web out'
pushed-keeps web out out' url h n a v = elim (Bool-cases (any (same url) out)) [
  | inl e ↦
      let there : pushed out url ≡ ok out = rw e refl in
      let eq = ok-inj out out' (sym there ∙ h) in
      subst (λ (l : List (List ℕ)). (length l ≤ 8) × ArePassed web l) eq (n, a)
  | inr e ↦
      let more : pushed out url ≡ (
          require (leb (length out + 1) 8) (bad_request "EVIDENCE_ATTACHMENT_LIMIT_REACHED")
          >> ok (out ++ url ∷ [])) =
        rw e refl in
      let (room, k) = both_ok _ _ out' (sym more ∙ h) in
      let eq = ok-inj (out ++ url ∷ []) out' k in
      let within = require-true _ _ room in
      let size = length-append out (url ∷ []) in
      subst (λ (l : List (List ℕ)). (length l ≤ 8) × ArePassed web l) eq
        (ground arith, All-snoc _ out url a v)
]

add_attachments-keeps :
    (web : Web) (values out r : List (List ℕ))
    → add_attachments web values out ≡ ok r
    → length out ≤ 8
    → ArePassed web out
    → (length r ≤ 8) × ArePassed web r
unfolding add_attachments
add_attachments-keeps web [] out r h n a =
    subst (λ (l : List (List ℕ)). (length l ≤ 8) × ArePassed web l) (ok-inj out r h) (n, a)
add_attachments-keeps web (value ∷ values) out r h n a =
    let (url, (hu, h1)) = bind_ok (validate_https_url web attachment_codes 2048 value) _ r h in
    let (out', (ho, h2)) = bind_ok (pushed out url) _ r h1 in
    let (v, port) = validate-IsHttps web attachment_codes 2048 value url hu in
    let (m, b) = pushed-keeps web out out' url ho n a (value, v) in
    add_attachments-keeps web values out' r h2 m b

-- Of the attachments that are taken there are at most 8, each the text of a URL of https, of at most
-- 2048 characters, whose host passed the literal test.
pub attachments-ArePassed :
    (web : Web) (values r : List (List ℕ))
    → validate_evidence_attachment_urls web values ≡ ok r
    → (length r ≤ 8) × ArePassed web r
unfolding validate_evidence_attachment_urls
attachments-ArePassed web values r h = add_attachments-keeps web values [] r h (omega arith) tt
