-- ===== src/Filter/Body/Laws.antt =====
-- What the insertions of filter.rs into a body promise.
use mailserver.Prelude.{
  ℕ, ◌≡◌, refl, ◌⊎◌, Bool, true, false, ◌||◌, some, [], ◌∷◌, ◌++◌, arith, Bool-cases, Option-cases,
  inl, inr, Text, codes, byte_len, is_empty, starts_with, to_ascii_lowercase, trim, trim_start,
  trim_end, contains, Lacks, contains_char, or_iff,
}
use mailserver.Filter.Body.{
  body_is_encoded, rfind_lower, footer_block, outside_tags, next_in_tag, strip_html_tags,
  plain_footer, inject_footer, pixel_tag, inject_pixel,
}
use mailserver.Filter.Body.Encoded.{IsEncodedAt, body_is_encoded-IsEncodedAt, body_is_plain}

rfind_lower-joins :
    (p s a b : Text)
    → rfind_lower p s ≡ some (a, b)
    → (s ≡ a ++ b) × (starts_with p (to_ascii_lowercase b) ≡ true)
unfolding rfind_lower
rfind_lower-joins p [] a b e = elim (Bool-cases (starts_with p [])) [
  | inl here ↦ ground (arith, rw (rfind_lower, here) at e, here)
  | inr absent ↦ absurd (ground (arith, rw (rfind_lower, absent) at e))
]
rfind_lower-joins p (c ∷ s) a b e = elim (Option-cases (rfind_lower p s)) [
  | inr ((a', b'), later) ↦
      ground (arith, rw (later, rfind_lower) at e, rfind_lower-joins p s a' b' later)
  | inl none_later ↦ elim (Bool-cases (starts_with p (to_ascii_lowercase (c ∷ s)))) [
    | inl here ↦ ground (arith, rw (none_later, here, rfind_lower) at e, here)
    | inr absent ↦ absurd (ground (arith, rw (none_later, absent, rfind_lower) at e))
  ]
]

-- A place where a closing body tag stands.
abbrev pub IsTagAt : Text → Text → Text → Type 0
IsTagAt email before rest =
    (email ≡ before ++ rest) × (starts_with (codes "</body>") (to_ascii_lowercase rest) ≡ true)

-- Why a mail gets no footer.
abbrev pub IsLeft : Text → Text → Type 0
IsLeft email footer_html =
    (trim footer_html ≡ [])
    ⊎ (strip_html_tags footer_html ≡ [])
    ⊎ ((before : Text) × (rest : Text) × IsTagAt email before rest
        × IsEncodedAt email (byte_len before))
    ⊎ (contains (codes "<html") (to_ascii_lowercase email) ≡ true)
    ⊎ IsEncodedAt email (byte_len email)

blank-empty : (s : Text) → is_empty s ≡ true → s ≡ []
unfolding is_empty
blank-empty [] h = refl
blank-empty (c ∷ s) h = ground (arith, h)

-- Why no text is put at the end.
plain-IsLeft :
    (email footer_html : Text)
    → (is_empty (strip_html_tags footer_html) || body_is_encoded email (byte_len email)) ≡ true
    → IsLeft email footer_html
plain-IsLeft email footer_html h =
    elim ((or_iff (is_empty (strip_html_tags footer_html)) (body_is_encoded email (byte_len email))
        ((λ k. k), (λ k. k)) (body_is_encoded-IsEncodedAt email (byte_len email))).0
      h) [
        | inl none_left ↦ inr (inl (blank-empty (strip_html_tags footer_html) none_left))
        | inr encoded ↦ inr (inr (inr (inr encoded)))
      ]

-- The footer leaves a mail as it is for one of five reasons: it is blank, it is blank without its tags,
-- a closing body tag stands where the mail is encoded, the mail is HTML, or it is encoded at its end;
-- or the footer puts its block in before a closing body tag where the mail is not encoded, or its text
-- at the end of a mail that is no HTML and not encoded there. A mail is encoded at a place if the last
-- Content-Transfer-Encoding line that starts before it says quoted-printable or base64.
pub inject_footer-keeps :
    (email footer_html : Text)
    → ((inject_footer email footer_html ≡ email) × IsLeft email footer_html)
      ⊎ ((before : Text) × (rest : Text) × IsTagAt email before rest
          × (¬ IsEncodedAt email (byte_len before))
          × (inject_footer email footer_html ≡ before ++ (footer_block footer_html ++ rest)))
      ⊎ ((contains (codes "<html") (to_ascii_lowercase email) ≡ false)
          × (¬ IsEncodedAt email (byte_len email))
          × (inject_footer email footer_html
              ≡ email ++ (codes "\n\n-- \n" ++ strip_html_tags footer_html)))
unfolding inject_footer plain_footer
inject_footer-keeps email footer_html = elim (Bool-cases (is_empty (trim footer_html))) [
  | inl blank ↦ inl (rw (inject_footer, blank) refl, inl (blank-empty (trim footer_html) blank))
  | inr filled ↦ elim (Option-cases (rfind_lower (codes "</body>") email)) [
    | inr ((before, rest), found) ↦
        let tag = rfind_lower-joins (codes "</body>") email before rest found in
        elim (Bool-cases (body_is_encoded email (byte_len before))) [
          | inl encoded ↦
              let at = (body_is_encoded-IsEncodedAt email (byte_len before)).0 encoded in
              inl (
                rw (inject_footer, filled, found, encoded) refl,
                inr (inr (inl (before, rest, tag, at))),
              )
          | inr plain ↦ inr (
              inl (
                before,
                rest,
                tag,
                body_is_plain email (byte_len before) plain,
                rw (inject_footer, filled, found, plain) refl,
              ))
        ]
    | inl no_tag ↦ elim (Bool-cases (contains (codes "<html") (to_ascii_lowercase email))) [
      | inl html ↦ inl (rw (inject_footer, filled, no_tag, html) refl, inr (inr (inr (inl html))))
      | inr text ↦
          elim (Bool-cases
            (is_empty (strip_html_tags footer_html) || body_is_encoded email (byte_len email))) [
              | inl skipped ↦ inl (
                rw (inject_footer, filled, no_tag, text, plain_footer, skipped) refl,
                plain-IsLeft email footer_html skipped,
              )
              | inr appended ↦ inr (
                  inr (
                    text,
                    body_is_plain email (byte_len email) (ground (arith, appended)),
                    rw (inject_footer, filled, no_tag, text, plain_footer, appended) refl,
                  ))
            ]
    ]
  ]
]

-- A pixel goes in before a closing body tag outside encoded parts and changes nothing else.
pub inject_pixel-keeps :
    (email pixel_url result : Text)
    → inject_pixel email pixel_url ≡ some result
    → (before : Text) × (rest : Text) × (email ≡ before ++ rest)
      × (starts_with (codes "</body>") (to_ascii_lowercase rest) ≡ true)
      × (¬ IsEncodedAt email (byte_len before))
      × (result ≡ before ++ (pixel_tag pixel_url ++ rest))
unfolding inject_pixel
inject_pixel-keeps email pixel_url result e =
    elim (Option-cases (rfind_lower (codes "</body>") email)) [
      | inl no_tag ↦ absurd (ground (arith, rw (no_tag, inject_pixel) at e))
      | inr ((before, rest), found) ↦
          let (joins, tag) = rfind_lower-joins (codes "</body>") email before rest found in
          elim (Bool-cases (body_is_encoded email (byte_len before))) [
            | inl encoded ↦ absurd (ground (arith, rw (inject_pixel, found, encoded) at e))
            | inr plain ↦ (
              before,
              rest,
              joins,
              tag,
              body_is_plain email (byte_len before) plain,
              ground (arith, rw (inject_pixel, found, plain) at e),
            )
          ]
    ]

outside_tags-Lacks :
    (in_tag : Bool) (s : Text)
    → Lacks b'<' (outside_tags in_tag s) × Lacks b'>' (outside_tags in_tag s)
unfolding outside_tags contains_char
outside_tags-Lacks in_tag [] = (refl, refl)
outside_tags-Lacks in_tag (c ∷ s) = ground (arith, outside_tags-Lacks (next_in_tag in_tag c) s)

trim_start-Lacks : (x : ℕ) (s : Text) → Lacks x s → Lacks x (trim_start s)
unfolding trim_start contains_char
trim_start-Lacks x [] h = refl
trim_start-Lacks x (c ∷ s) h = ground (arith, trim_start-Lacks x s)

trim_end-Lacks : (x : ℕ) (s : Text) → Lacks x s → Lacks x (trim_end s)
unfolding trim_end contains_char
trim_end-Lacks x [] h = refl
trim_end-Lacks x (c ∷ s) h = ground (arith, trim_end-Lacks x s)

-- The text of a footer has no angle bracket left, so it opens no tag.
pub strip_html_tags-Lacks :
    (s : Text) → Lacks b'<' (strip_html_tags s) × Lacks b'>' (strip_html_tags s)
unfolding strip_html_tags trim
strip_html_tags-Lacks s =
    let (lt, gt) = outside_tags-Lacks false s in
    (
      trim_end-Lacks b'<' _ (trim_start-Lacks b'<' _ lt),
      trim_end-Lacks b'>' _ (trim_start-Lacks b'>' _ gt),
    )
