-- ===== src/Tests/Web.antt =====
-- Runs of the middleware and the checks of web/mod.rs at concrete inputs.
use mailserver.Prelude.{
  ℕ, ◌≡◌, inl, refl, ◌↔◌, true, Option, none, some, List, [], ◌∷◌, Text, codes,
}
use mailserver.Net.IpAddr.{IpAddr, ipv4}
use mailserver.Web.Csrf.{Request, post, passed, csrf_middleware}
use mailserver.Web.Csrf.Laws.{Passes, IsAllowed, csrf_middleware-Passes_iff}
use mailserver.Web.Outbound.{Url}
use mailserver.Web.Truncate.{truncate_utf8}
use mailserver.Web.Csrf.{csrf_token_from_cookie}
use mailserver.Web.Csrf.{submitted}

-- A form that another site makes a browser send, which adds its stored Basic credentials and leaves
-- the cookie of the strict site rule out.
abbrev forged : Request
forged = record {
  method = post;
  path = codes "/settings";
  cookie = none;
  x_csrf_token = none;
  content_type = some (codes "application/x-www-form-urlencoded");
  authorization = some (codes "Basic YTpi");
  body = some [];
}

passes_forged : csrf_middleware (λ bytes. []) forged ≡ passed true
unfolding csrf_middleware
passes_forged = refl

csrf_middleware-Passes_iff_example :
    Passes (csrf_middleware (λ bytes. []) forged) ↔ IsAllowed (λ bytes. []) forged
unfolding csrf_token_from_cookie submitted
csrf_middleware-Passes_iff_example =
    (csrf_middleware-Passes_iff (λ bytes. []) forged tt (λ bytes. tt)).0 (inl refl)

abbrev hook : Url
hook = record { scheme = codes "https"; host_str = some (codes "b.c"); port = none }

abbrev resolve : Text → ℕ → Option (List IpAddr)
resolve host port = some (ipv4 8 8 8 8 ∷ [])

cuts_before_umlaut : truncate_utf8 (codes "aü") 2 ≡ codes "a"
unfolding truncate_utf8
cuts_before_umlaut = refl
