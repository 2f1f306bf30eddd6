-- ===== src/Filter/Envelope/Laws.antt =====
-- What an address that filter.rs takes for safe looks like.
use mailserver.Prelude.{
  ℕ, ◌≤◌, ◌≡◌, ◌≢◌, refl, sym, ap, subst, ◌∙◌, ◌↔◌, true, false, List, [], ◌∷◌, ◌++◌, any, All,
  Text, codes, starts_with, ends_with, contains, contains_char, split_char, Lacks, split_char-Lacks,
  split_char-append, join, join-split_char, split_char-All-Lacks, arith,
}
use mailserver.Filter.Envelope.{is_unsafe_byte, are_safe_parts, are_safe_pieces, is_safe_smtp_addr}

-- No dot at either end of the part, and no two dots in a row.
abbrev pub HasGoodDots : Text → Type 0
HasGoodDots part =
    (starts_with (codes ".") part ≡ false)
    × (ends_with (codes ".") part ≡ false)
    × (contains (codes "..") part ≡ false)

-- No control character of ASCII; those from 0x80 on are allowed.
abbrev pub IsPrintable : ℕ → Type 0
IsPrintable c = (0x20 ≤ c) × (c ≢ 0x7f)

-- The grammar of a safe address.
pub record IsSafeAddr (s : Text) : Type 0 where
  pub local : Text
  pub domain : Text
  pub parts : s ≡ local ++ b'@' ∷ domain
  pub no_controls : All IsPrintable s
  pub local_one : Lacks b'@' local
  pub domain_one : Lacks b'@' domain
  pub local_ne : local ≢ []
  pub domain_ne : domain ≢ []
  pub dotted : contains_char b'.' domain ≡ true
  pub local_dots : HasGoodDots local
  pub domain_dots : HasGoodDots domain

safe_bytes_iff : (s : Text) → (any is_unsafe_byte s ≡ false) ↔ All IsPrintable s
unfolding is_unsafe_byte
safe_bytes_iff [] = ((λ h. tt), (λ h. refl))
safe_bytes_iff (c ∷ s) = ground (arith, safe_bytes_iff s)

safe_pieces :
    (ws : List Text)
    → are_safe_pieces ws ≡ true
    → (local : Text) × (domain : Text) × (ws ≡ local ∷ domain ∷ [])
      × (are_safe_parts local domain ≡ true)
unfolding are_safe_pieces
safe_pieces (local ∷ domain ∷ []) h = (local, domain, refl, h)
safe_pieces [] h = absurd (ground arith)
safe_pieces (a ∷ []) h = absurd (ground arith)
safe_pieces (a ∷ b ∷ c ∷ ws) h = absurd (ground arith)

safe_parts_iff :
    (local domain : Text)
    → (are_safe_parts local domain ≡ true) ↔ (
        (local ≢ [])
        × (domain ≢ [])
        × (contains_char b'.' domain ≡ true)
        × HasGoodDots local
        × HasGoodDots domain)
unfolding are_safe_parts
safe_parts_iff local domain = ground arith

safe_of_accepted :
    (s : Text)
    → any is_unsafe_byte s ≡ false
    → are_safe_pieces (split_char b'@' s) ≡ true
    → IsSafeAddr s
safe_of_accepted s quiet h =
    let (local, domain, e, checked) = safe_pieces (split_char b'@' s) h in
    let lacks = subst (All (Lacks b'@')) e (split_char-All-Lacks b'@' s) in
    let (local_ne, domain_ne, dotted, local_dots, domain_dots) =
      (safe_parts_iff local domain).0 checked in
    record {
      local = local;
      domain = domain;
      parts = sym (join-split_char b'@' s) ∙ ap (join b'@') e;
      no_controls = (safe_bytes_iff s).0 quiet;
      local_one = lacks.0;
      domain_one = lacks.1.0;
      local_ne = local_ne;
      domain_ne = domain_ne;
      dotted = dotted;
      local_dots = local_dots;
      domain_dots = domain_dots;
    }

split_char_of_safe : (s : Text) (v : IsSafeAddr s) → split_char b'@' s ≡ v.local ∷ v.domain ∷ []
split_char_of_safe s v =
    ap (split_char b'@') v.parts
    ∙ split_char-append b'@' v.local v.domain v.local_one
    ∙ ap (λ ws. v.local ∷ ws) (split_char-Lacks b'@' v.domain v.domain_one)

-- An address is accepted exactly if it is of the grammar of safe addresses: one `@` between two parts
-- that are not empty, no control character of ASCII, a dot in the domain, and in neither part a dot at
-- an end or two dots in a row. Characters from 0x80 on are accepted.
pub is_safe_smtp_addr_iff : (s : Text) → (is_safe_smtp_addr s ≡ true) ↔ IsSafeAddr s
unfolding is_safe_smtp_addr are_safe_pieces
is_safe_smtp_addr_iff s = (
  λ h. safe_of_accepted s (ground arith) (ground arith),
  λ v.
      rw ((safe_bytes_iff s).1 v.no_controls, split_char_of_safe s v)
        ((safe_parts_iff v.local v.domain).1
          (v.local_ne, v.domain_ne, v.dotted, v.local_dots, v.domain_dots)),
)

any-unsafe-Lacks : (s : Text) → any is_unsafe_byte s ≡ false → Lacks b'\r' s × Lacks b'\n' s
unfolding is_unsafe_byte contains_char
any-unsafe-Lacks [] h = (refl, refl)
any-unsafe-Lacks (c ∷ s) h = ground (arith, any-unsafe-Lacks s)

pub is_safe_smtp_addr-Lacks :
    (s : Text) → is_safe_smtp_addr s ≡ true → Lacks b'\r' s × Lacks b'\n' s
is_safe_smtp_addr-Lacks s h =
    any-unsafe-Lacks s ((safe_bytes_iff s).1 ((is_safe_smtp_addr_iff s).0 h).no_controls)
