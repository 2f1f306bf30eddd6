-- ===== src/Web/Outbound/Laws.antt =====
-- What a URL that `validate_outbound_url` of web/mod.rs accepts leads to.
use mailserver.Prelude.{
  ℕ, ◌^◌, ◌<◌, ◌≡◌, ◌⊎◌, Option, some, List, ◌∷◌, All, Text, codes, ◌++◌, to_ascii_lowercase,
  to_string,
}
use mailserver.Net.IpAddr.{IpAddr}
use mailserver.Web.Outbound.{Url, port_or_443}
use mailserver.Web.Outbound.Ranges.{IsIn, IsNonPublicAddr, IsAddr}

-- Addresses, none of which is in a range that is not public.
abbrev pub ArePublic : List IpAddr → Type 0
ArePublic ips = All (λ ip. ¬ IsNonPublicAddr ip) ips

-- What the resolver gives are addresses.
abbrev pub ResolvesToAddrs : (Text → ℕ → Option (List IpAddr)) → Type 0
ResolvesToAddrs resolve =
    (host : Text) (port : ℕ) (ips : List IpAddr) → resolve host port ≡ some ips → All IsAddr ips

-- The names of the machine itself.
abbrev pub IsLoopbackName : Text → Type 0
IsLoopbackName host =
    (host ≡ codes "127.0.0.1")
    ⊎ (to_ascii_lowercase host ≡ codes "localhost")
    ⊎ (host ≡ codes "::1")

abbrev pub IsPlainChar : ℕ → Type 0
IsPlainChar c =
    IsIn b'a' b'z' c ⊎ IsIn b'A' b'Z' c ⊎ IsIn b'0' b'9' c ⊎ (c ≡ b'.') ⊎ (c ≡ b'-') ⊎ (c ≡ b':')

-- A number written in digits, in the base of its prefix or in decimal.
abbrev pub IsHexDigit : ℕ → Type 0
IsHexDigit c = IsIn b'0' b'9' c ⊎ IsIn b'a' b'f' c ⊎ IsIn b'A' b'F' c

abbrev pub Spells : Text → Text → (ℕ → Type 0) → Type 0
Spells prefix host IsDigit =
    (c : ℕ) × (rest : Text) × (host ≡ prefix ++ (c ∷ rest)) × All IsDigit (c ∷ rest)

abbrev pub IsNumber : Text → Type 0
IsNumber host =
    ((n : ℕ) × (n < 2 ^ 64) × (host ≡ to_string n))
    ⊎ Spells (codes "0x") host IsHexDigit
    ⊎ Spells (codes "0X") host IsHexDigit
    ⊎ Spells (codes "0o") host (IsIn b'0' b'7')
    ⊎ Spells (codes "0O") host (IsIn b'0' b'7')
    ⊎ Spells (codes "0b") host (IsIn b'0' b'1')
    ⊎ Spells (codes "0B") host (IsIn b'0' b'1')

-- Where an accepted URL can lead: over HTTPS to a host all of whose addresses are public, or over HTTP
-- to a name of the machine itself.
abbrev pub Leads : (Text → ℕ → Option (List IpAddr)) → Url → Text → Type 0
Leads resolve url host =
    ((url.scheme ≡ codes "https")
      × ((ips : List IpAddr) × (resolve host (port_or_443 url.port) ≡ some ips) × ArePublic ips))
    ⊎ ((url.scheme ≡ codes "http") × IsLoopbackName host)
