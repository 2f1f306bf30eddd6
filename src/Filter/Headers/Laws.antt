-- ===== src/Filter/Headers/Laws.antt =====
-- What the header functions of filter.rs do to the lines of a mail.
use mathlib.Core.List.{append_assoc}
use mailserver.Prelude.{
  trim, to_ascii_lowercase, Lacks, Lacks-append, split_char-append, split_char-ne, ℕ, ◌≡◌, refl,
  sym, ap, ◌∙◌, true, false, some, List, [], ◌∷◌, ◌++◌, ◌==◌, All, arith, Bool-cases, Option-cases,
  inl, inr, Text, codes, is_empty, split_at, split_char, cons_first, lines, contains, starts_with,
  strip_prefix, ==_refl,
}
use mailserver.Filter.Headers.{
  eol_of, with_eol, inject_headers, is_received, is_continuation, unfold_received, received_line,
  extract_sender_ip,
}

cons_first-append :
    (d c : ℕ) (s : Text) (ws : List Text)
    → cons_first c (split_char d s ++ ws) ≡ cons_first c (split_char d s) ++ ws
cons_first-append d c s ws = let (w, vs, e) = split_char-ne d s in rw e refl

split_char-middle :
    (d : ℕ) (a b : Text) → split_char d (a ++ d ∷ b) ≡ split_char d a ++ split_char d b
unfolding split_char
split_char-middle d [] b = rw (==_refl d) refl
split_char-middle d (c ∷ a) b = elim (Bool-cases (c == d)) [
  | inl same ↦ rw same (ap (λ ws. [] ∷ ws) (split_char-middle d a b))
  | inr differs ↦
      rw differs
        (ap (cons_first c) (split_char-middle d a b) ∙ cons_first-append d c a (split_char d b))
]

strip_prefix-joins : (p s r : Text) → strip_prefix p s ≡ some r → s ≡ p ++ r
unfolding strip_prefix
strip_prefix-joins [] s r e = ground (arith, e)
strip_prefix-joins (x ∷ p) [] r e = absurd (ground (arith, e))
strip_prefix-joins (x ∷ p) (c ∷ s) r e = ground (arith, e, strip_prefix-joins p s r)

-- The pieces around the first occurrence make up the text.
pub split_at-joins : (p s a b : Text) → split_at p s ≡ some (a, b) → s ≡ a ++ (p ++ b)
unfolding split_at
split_at-joins p [] a b e = elim (Option-cases (strip_prefix p [])) [
  | inl none_here ↦ absurd (ground (arith, rw (none_here, split_at) at e))
  | inr (r, here) ↦ ground (arith, rw (here, split_at) at e, strip_prefix-joins p [] r here)
]
split_at-joins p (c ∷ s) a b e = elim (Option-cases (strip_prefix p (c ∷ s))) [
  | inr (r, here) ↦ ground (arith, rw (here, split_at) at e, strip_prefix-joins p (c ∷ s) r here)
  | inl none_here ↦ elim (Option-cases (split_at p s)) [
    | inl none_later ↦ absurd (ground (arith, rw (none_here, none_later, split_at) at e))
    | inr ((a', b'), later) ↦
        ground (arith, rw (none_here, later, split_at) at e, split_at-joins p s a' b' later)
  ]
]

no_crlf : (email : Text) → contains (codes "\r\n") email ≡ false → eol_of email ≡ codes "\n"
unfolding eol_of
no_crlf email h = ground (arith, h)

inject_headers-some :
    (email headers before after : Text)
    → split_at (eol_of email ++ eol_of email) email ≡ some (before, after)
    → inject_headers email headers
      ≡ before ++ (with_eol (eol_of email) (lines headers) ++ (eol_of email ++ after))
unfolding inject_headers
inject_headers-some email headers before after h = rw (h, inject_headers) refl

inject_one_line :
    (email header before after : Text)
    → contains (codes "\r\n") email ≡ false
    → split_at (codes "\n\n") email ≡ some (before, after)
    → lines header ≡ header ∷ []
    → inject_headers email header ≡ before ++ ((header ++ b'\n' ∷ []) ++ b'\n' ∷ after)
unfolding with_eol
inject_one_line email header before after lf at_blank one =
    let eol = no_crlf email lf in
    inject_headers-some email header before after (rw eol at_blank) ∙ rw (eol, one) refl

header_lines :
    (front last tail : Text)
    → Lacks b'\n' last
    → split_char b'\n' ((front ++ b'\n' ∷ last) ++ b'\n' ∷ tail)
      ≡ split_char b'\n' front ++ last ∷ split_char b'\n' tail
header_lines front last tail h =
    ap (split_char b'\n') (append_assoc front (b'\n' ∷ last) (b'\n' ∷ tail))
    ∙ split_char-middle b'\n' front (last ++ b'\n' ∷ tail)
    ∙ ap (λ ws. split_char b'\n' front ++ ws) (split_char-append b'\n' last tail h)

blank_line : (after : Text) → split_char b'\n' (b'\n' ∷ after) ≡ [] ∷ split_char b'\n' after
unfolding split_char
blank_line after = refl

-- In a mail with line feeds alone and two header lines or more, a header of one line that is put in
-- becomes the end of the last header line that was there, and no line of its own.
pub inject_headers-glues :
    (email front last after header : Text)
    → contains (codes "\r\n") email ≡ false
    → split_at (codes "\n\n") email ≡ some (front ++ b'\n' ∷ last, after)
    → lines header ≡ header ∷ []
    → Lacks b'\n' last
    → Lacks b'\n' header
    → (split_char b'\n' email ≡ split_char b'\n' front ++ last ∷ [] ∷ split_char b'\n' after)
      × (split_char b'\n' (inject_headers email header)
          ≡ split_char b'\n' front ++ (last ++ header) ∷ [] ∷ split_char b'\n' after)
inject_headers-glues email front last after header lf at_blank one no_feed one_line = (
  ap (split_char b'\n') (split_at-joins (codes "\n\n") email _ _ at_blank)
      ∙ header_lines front last (b'\n' ∷ after) no_feed
      ∙ ap (λ ws. split_char b'\n' front ++ last ∷ ws) (blank_line after),
  ap (split_char b'\n') (inject_one_line email header _ after lf at_blank one ∙ regroup)
      ∙ header_lines front (last ++ header) (b'\n' ∷ after)
          (Lacks-append b'\n' last header no_feed one_line)
      ∙ ap (λ ws. split_char b'\n' front ++ (last ++ header) ∷ ws) (blank_line after),
)
  where
    regroup :
        (front ++ b'\n' ∷ last) ++ ((header ++ b'\n' ∷ []) ++ b'\n' ∷ after)
        ≡ (front ++ b'\n' ∷ (last ++ header)) ++ b'\n' ∷ b'\n' ∷ after
    regroup =
        append_assoc front (b'\n' ∷ last) ((header ++ b'\n' ∷ []) ++ b'\n' ∷ after)
        ∙ ap (λ t. front ++ b'\n' ∷ (last ++ t)) (append_assoc header (b'\n' ∷ []) (b'\n' ∷ after))
        ∙ ap (λ t. front ++ b'\n' ∷ t) (sym (append_assoc last header (b'\n' ∷ b'\n' ∷ after)))
        ∙ sym (append_assoc front (b'\n' ∷ (last ++ header)) (b'\n' ∷ b'\n' ∷ after))

is_continuation-is_received :
    (line : Text)
    → is_continuation line ≡ true
    → (is_received line ≡ false) × (is_empty line ≡ false)
unfolding is_continuation is_received starts_with strip_prefix is_empty to_ascii_lowercase
is_continuation-is_received [] h = absurd (ground (arith, h))
is_continuation-is_received (c ∷ line) h = ground (arith, h)

is_received-ne : (line : Text) → is_received line ≡ true → is_empty line ≡ false
unfolding is_received is_empty starts_with strip_prefix to_ascii_lowercase
is_received-ne [] h = absurd (ground (arith, h))
is_received-ne (c ∷ line) h = refl

unfold_received-again :
    (received line : Text) (folded rest : List Text)
    → All (λ l. is_continuation l ≡ true) folded
    → is_empty line ≡ false
    → is_received line ≡ true
    → unfold_received received (folded ++ line ∷ rest) ≡ unfold_received line rest
unfolding unfold_received
unfold_received-again received line [] rest h ne hit = rw (ne, hit) refl
unfold_received-again received line (l ∷ folded) rest (p, h) ne hit =
    let (other, filled) = is_continuation-is_received l p in
    rw (other, filled, p)
      (unfold_received-again (received ++ (codes " " ++ trim l)) line folded rest h ne hit)

-- Where a Received header, with its folded lines, is followed by another one, the address is that
-- of the later header, as if the topmost one were not there.
pub extract_sender_ip-skips_topmost :
    (email without first second : Text) (folded rest : List Text)
    → lines email ≡ first ∷ (folded ++ second ∷ rest)
    → lines without ≡ second ∷ rest
    → is_received first ≡ true
    → is_received second ≡ true
    → All (λ l. is_continuation l ≡ true) folded
    → extract_sender_ip email ≡ extract_sender_ip without
unfolding extract_sender_ip received_line
extract_sender_ip-skips_topmost email without first second folded rest e e' hit hit' h =
    let ne = is_received-ne first hit in
    let ne' = is_received-ne second hit' in
    rw
      (
        extract_sender_ip,
        e,
        e',
        received_line,
        ne,
        ne',
        hit,
        hit',
        unfold_received-again first second folded rest h ne' hit',
      )
      refl
