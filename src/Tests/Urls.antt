-- ===== src/Tests/Urls.antt =====
-- The URLs that are taken.
use open_cawt.Base.{ℕ, ◌≤◌, true, some, List, [], ◌∷◌, ◌≡◌, refl, length, arith}
use open_cawt.Base.Errors.{ok}
use open_cawt.Validation.Hosts.{codes, trim, is_space, is_blocked_resolved_ip}
use open_cawt.Validation.Urls.{Url, Web, validate_notify_url, validate_evidence_attachment_urls}
use open_cawt.Validation.Urls.Safe.{ArePassed, attachments-ArePassed}
use open_cawt.Validation.Urls.Notify.{IsSafe, notify-IsSafe, notify-bracketed}

abbrev url_of : List ℕ → Url
url_of hostname = record {
  is_https = true;
  port = [];
  hostname = hostname;
  href = codes "https://h/";
}

-- A web in which each URL has the host, with one public address.
abbrev web_of : List ℕ → Web
web_of hostname = record {
  parse_url = λ cs. some (url_of hostname);
  resolve_host = λ h. some (codes "93.184.216.34" ∷ []);
}

notify-bracketed_example :
    validate_notify_url (web_of (codes "[::1]")) (some (codes "https://h/"))
    ≡ ok (some (codes "https://h/"))
unfolding trim is_space
notify-bracketed_example =
    notify-bracketed (web_of (codes "[::1]")) (codes "https://h/") (url_of (codes "[::1]"))
      (codes "::1]") refl (omega arith) refl refl refl refl (refl, (refl, (refl, (refl, tt)))) refl
      refl

is_taken :
    validate_notify_url (web_of (codes "a.org")) (some (codes "https://h/"))
    ≡ ok (some (codes "https://h/"))
unfolding validate_notify_url is_blocked_resolved_ip
is_taken = refl

notify-IsSafe_example : IsSafe (web_of (codes "a.org")) (codes "https://h/") (codes "https://h/")
notify-IsSafe_example =
    notify-IsSafe (web_of (codes "a.org")) (codes "https://h/") (codes "https://h/") is_taken

are_taken :
    validate_evidence_attachment_urls
      (web_of (codes "a.org"))
      (codes "https://h/" ∷ codes "https://h/" ∷ [])
    ≡ ok (codes "https://h/" ∷ [])
unfolding validate_evidence_attachment_urls
are_taken = refl

attachments_example :
    (length (codes "https://h/" ∷ []) ≤ 8)
    × ArePassed (web_of (codes "a.org")) (codes "https://h/" ∷ [])
attachments_example =
    attachments-ArePassed (web_of (codes "a.org")) (codes "https://h/" ∷ codes "https://h/" ∷ [])
      (codes "https://h/" ∷ []) are_taken
