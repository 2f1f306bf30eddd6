-- ===== src/Forms/Canonical.antt =====
-- What passes the validators of web/forms.rs is canonical, and passes the map files of config.rs.
use mailserver.Prelude.{
  ℕ, ◌≡◌, refl, ap, ◌∙◌, ltb, Bool, true, false, some, [], ◌∷◌, Text, is_whitespace, is_control,
  is_ascii_lowercase, is_ascii_uppercase, is_ascii_digit, is_ascii_alphanumeric, ascii_lower,
  to_ascii_lowercase, trim, trim_start, trim_end, all, any, arith,
}
use mailserver.Config.Addresses.{is_invalid, sanitize_map_token}
use mailserver.Config.Files.{mailbox_of}
use mailserver.Forms.{ok, is_domain_char, is_name_char, validate_domain_name, validate_username}

trim_end-clean : (s : Text) → any is_whitespace s ≡ false → trim_end s ≡ s
unfolding trim_end
trim_end-clean [] h = refl
trim_end-clean (c ∷ s) h = ground (arith, trim_end-clean s)

trim-clean : (s : Text) → any is_whitespace s ≡ false → trim s ≡ s
unfolding trim trim_start trim_end
trim-clean [] h = refl
trim-clean (c ∷ s) h = ground (arith, trim_end-clean (c ∷ s))

lower_twice : (s : Text) → to_ascii_lowercase (to_ascii_lowercase s) ≡ to_ascii_lowercase s
unfolding to_ascii_lowercase ascii_lower is_ascii_uppercase
lower_twice [] = refl
lower_twice (c ∷ s) = ground (arith, lower_twice s)

name_char_plain :
    (c : ℕ) → is_name_char c ≡ true → (is_whitespace c ≡ false) × (is_invalid true c ≡ false)
unfolding is_invalid is_whitespace is_control is_ascii_alphanumeric is_ascii_lowercase
    is_ascii_uppercase is_ascii_digit
name_char_plain c h = ground arith

names_plain :
    (s : Text)
    → all is_name_char s ≡ true
    → (any is_whitespace s ≡ false) × (any (is_invalid true) s ≡ false)
names_plain [] h = (refl, refl)
names_plain (c ∷ s) h = ground (arith, name_char_plain c, names_plain s)

domain_char_plain :
    (c : ℕ) → is_domain_char c ≡ true → (is_whitespace c ≡ false) × (is_invalid false c ≡ false)
unfolding is_invalid is_whitespace is_control is_ascii_lowercase is_ascii_digit
domain_char_plain c h = ground arith

domains_plain :
    (s : Text)
    → all is_domain_char s ≡ true
    → (any is_whitespace s ≡ false) × (any (is_invalid false) s ≡ false)
domains_plain [] h = (refl, refl)
domains_plain (c ∷ s) h = ground (arith, domain_char_plain c, domains_plain s)

abbrev pub is_ascii : ℕ → Bool
is_ascii c = ltb c 128

names_ascii : (s : Text) → all is_name_char s ≡ true → all is_ascii s ≡ true
unfolding is_ascii_alphanumeric is_ascii_lowercase is_ascii_uppercase is_ascii_digit
names_ascii [] h = refl
names_ascii (c ∷ s) h = ground (arith, names_ascii s)

domains_ascii : (s : Text) → all is_domain_char s ≡ true → all is_ascii s ≡ true
unfolding is_ascii_lowercase is_ascii_digit
domains_ascii [] h = refl
domains_ascii (c ∷ s) h = ground (arith, domains_ascii s)

-- What an accepted value is.
validate_username-ok :
    (is_uppercase : ℕ → Bool) (username : Text) {u : Text}
    → validate_username is_uppercase username ≡ ok u
    → (u ≡ to_ascii_lowercase (trim username)) × (all is_name_char u ≡ true)
unfolding validate_username
validate_username-ok is_uppercase username h = (ground arith, ground arith)

validate_domain_name-ok :
    (domain : Text) {d : Text}
    → validate_domain_name domain ≡ ok d
    → (d ≡ to_ascii_lowercase (trim domain)) × (all is_domain_char d ≡ true)
unfolding validate_domain_name
validate_domain_name-ok domain h = (ground arith, ground arith)

lowered : (s t : Text) → s ≡ to_ascii_lowercase t → to_ascii_lowercase s ≡ s
lowered s t e = rw e (lower_twice t)

-- The validators look at the trimmed value in lower case only.
validate_username-same :
    (is_uppercase : ℕ → Bool) (s t : Text)
    → to_ascii_lowercase (trim s) ≡ to_ascii_lowercase (trim t)
    → validate_username is_uppercase s ≡ validate_username is_uppercase t
unfolding validate_username
validate_username-same is_uppercase s t e = rw (validate_username, e) refl

validate_domain_name-same :
    (s t : Text)
    → to_ascii_lowercase (trim s) ≡ to_ascii_lowercase (trim t)
    → validate_domain_name s ≡ validate_domain_name t
unfolding validate_domain_name
validate_domain_name-same s t e = rw (validate_domain_name, e) refl

settled :
    (s t : Text)
    → s ≡ to_ascii_lowercase (trim t)
    → any is_whitespace s ≡ false
    → to_ascii_lowercase (trim s) ≡ to_ascii_lowercase (trim t)
settled s t e clean = ap to_ascii_lowercase (trim-clean s clean) ∙ lowered s (trim t) e ∙ e

-- The accepted values are fixed points: what a validator of user names or of domains gives back, it
-- accepts again unchanged.
pub validate_username-twice :
    (is_uppercase : ℕ → Bool) (username domain : Text) {u d : Text}
    → validate_username is_uppercase username ≡ ok u
    → validate_domain_name domain ≡ ok d
    → (validate_username is_uppercase u ≡ ok u) × (validate_domain_name d ≡ ok d)
validate_username-twice is_uppercase username domain {u} {d} h k =
    let (e, names) = validate_username-ok is_uppercase username h in
    let (f, hosts) = validate_domain_name-ok domain k in
    (
      validate_username-same is_uppercase u username (settled u username e (names_plain u names).0)
          ∙ h,
      validate_domain_name-same d domain (settled d domain f (domains_plain d hosts).0) ∙ k,
    )

token-plain :
    (lower : Text → Text) (s : Text) (is_username : Bool)
    → lower s ≡ s
    → any is_whitespace s ≡ false
    → any (is_invalid is_username) s ≡ false
    → sanitize_map_token lower s is_username ≡ some s
unfolding sanitize_map_token
token-plain lower s is_username e clean valid =
    rw (sanitize_map_token, trim-clean s clean, e, valid) refl

-- An account made through the forms gets its mailbox: the user name and the domain that the validators
-- give back pass into the map of mailboxes as they are, whenever `str::to_lowercase` is
-- `to_ascii_lowercase` on ASCII.
pub mailbox_of-validated :
    (lower : Text → Text) (is_uppercase : ℕ → Bool) (username domain password_hash : Text)
    {u d : Text}
    → ((s : Text) → all is_ascii s ≡ true → lower s ≡ to_ascii_lowercase s)
    → validate_username is_uppercase username ≡ ok u
    → validate_domain_name domain ≡ ok d
    → mailbox_of lower (record {
      username = u;
      password_hash = password_hash;
      active = true;
      domain_name = some d;
    })
      ≡ some (u, d)
unfolding mailbox_of
mailbox_of-validated lower is_uppercase username domain password_hash {u} {d} ascii h k =
    let (e, names) = validate_username-ok is_uppercase username h in
    let (f, hosts) = validate_domain_name-ok domain k in
    let (clean_u, valid_u) = names_plain u names in
    let (clean_d, valid_d) = domains_plain d hosts in
    let same_u = ascii u (names_ascii u names) ∙ lowered u (trim username) e in
    let same_d = ascii d (domains_ascii d hosts) ∙ lowered d (trim domain) f in
    rw
      (
        mailbox_of,
        token-plain lower u true same_u clean_u valid_u,
        token-plain lower d false same_d clean_d valid_d,
      )
      refl
