-- ===== src/Config/Gaps.antt =====
-- Where sanitize_map_address of config.rs lets white space into a map.
use mailserver.Prelude.{
  ℕ, ◌≡◌, refl, Bool, true, false, not, ◌&&◌, none, some, [], ◌∷◌, ◌++◌, Text, is_empty,
  is_whitespace, trim, trim_start, trim_end, rsplit_once, any, arith, Lacks, Lacks-cons, ==_refl,
  ap, ◌∙◌, sym,
}
use mathlib.Core.List.{append-nil, append_assoc}
use mailserver.Config.Addresses.{
  is_invalid, sanitize_map_token, sanitize_parts, sanitize_map_address,
}

whitespace-invalid : (b : Bool) (c : ℕ) → is_invalid b c ≡ false → is_whitespace c ≡ false
unfolding is_invalid
whitespace-invalid b c h = ground arith

-- A text of valid characters that is not empty.
abbrev pub IsToken : Bool → Text → Type 0
IsToken b t = (is_empty t ≡ false) × (any (is_invalid b) t ≡ false)

valid-cons :
    (b : Bool) (c : ℕ) (s : Text)
    → any (is_invalid b) (c ∷ s) ≡ false
    → (is_whitespace c ≡ false) × (any (is_invalid b) s ≡ false)
valid-cons b c s h = ground (arith, whitespace-invalid b c)

trim_end-valid : (b : Bool) (s : Text) → any (is_invalid b) s ≡ false → trim_end s ≡ s
unfolding trim_end is_empty
trim_end-valid b [] h = refl
trim_end-valid b (c ∷ s) h =
    let (solid, rest) = valid-cons b c s h in rw (trim_end-valid b s rest, solid) (ground arith)

not_empty : (s t : Text) → is_empty t ≡ false → is_empty (s ++ t) ≡ false
unfolding is_empty
not_empty [] t h = h
not_empty (c ∷ s) t h = refl

trim_end-append : (s t : Text) → is_empty t ≡ false → trim_end t ≡ t → trim_end (s ++ t) ≡ s ++ t
unfolding trim_end
trim_end-append [] t h e = e
trim_end-append (c ∷ s) t h e = rw (trim_end-append s t h e) (ground (arith, not_empty s t))

trim_end-space :
    (b : Bool) (s : Text) (w : ℕ)
    → any (is_invalid b) s ≡ false
    → is_whitespace w ≡ true
    → trim_end (s ++ w ∷ []) ≡ s
unfolding trim_end is_empty
trim_end-space b [] w h e = rw e refl
trim_end-space b (c ∷ s) w h e =
    let (solid, rest) = valid-cons b c s h in rw (trim_end-space b s w rest e, solid) (ground arith)

rsplit_once-Lacks : (c : ℕ) (s : Text) → Lacks c s → rsplit_once c s ≡ none
unfolding rsplit_once
rsplit_once-Lacks c [] h = refl
rsplit_once-Lacks c (x ∷ s) h =
    let (differs, rest) = Lacks-cons c x s h in
    rw (rsplit_once, rsplit_once-Lacks c s rest, differs) refl

rsplit_once-append : (c : ℕ) (s t : Text) → Lacks c t → rsplit_once c (s ++ c ∷ t) ≡ some (s, t)
unfolding rsplit_once
rsplit_once-append c [] t h = rw (rsplit_once, rsplit_once-Lacks c t h, ==_refl c) refl
rsplit_once-append c (x ∷ s) t h = rw (rsplit_once, rsplit_once-append c s t h) refl

trim_start-valid : (b : Bool) (t rest : Text) → IsToken b t → trim_start (t ++ rest) ≡ t ++ rest
unfolding trim_start is_empty
trim_start-valid b [] rest h = ground arith
trim_start-valid b (c ∷ t) rest (h, k) = rw (valid-cons b c t k).0 refl

trimmed_token : (b : Bool) (t : Text) → IsToken b t → trim t ≡ t
unfolding trim
trimmed_token b t (h, k) =
    let same : trim_start t ≡ t =
      ap trim_start (sym (append-nil t)) ∙ trim_start-valid b t [] (h, k) ∙ append-nil t in
    rw same (trim_end-valid b t k)

-- A token that the lowering leaves alone passes, with white space behind it too.
token-passes :
    (lower : Text → Text) (b : Bool) (t : Text)
    → IsToken b t
    → lower t ≡ t
    → sanitize_map_token lower t b ≡ some t
unfolding sanitize_map_token
token-passes lower b t (h, k) e =
    let same : trim t ≡ t = trimmed_token b t (h, k) in rw (same, e, k) refl

and_false : (b : Bool) → (b && false) ≡ false
and_false b = ground arith

token-passes_space :
    (lower : Text → Text) (user : Text) (w : ℕ)
    → IsToken true user
    → is_whitespace w ≡ true
    → lower user ≡ user
    → sanitize_map_token lower (user ++ w ∷ []) true ≡ some user
unfolding sanitize_map_token trim
token-passes_space lower user w (h, k) space e =
    rw
      (
        sanitize_map_token,
        trim,
        trim_start-valid true user (w ∷ []) (h, k),
        trim_end-space true user w k space,
        e,
        k,
      )
      refl

trimmed_address :
    (user domain : Text) (w : ℕ)
    → IsToken true user
    → IsToken false domain
    → trim (user ++ w ∷ b'@' ∷ domain) ≡ user ++ w ∷ b'@' ∷ domain
unfolding trim
trimmed_address user domain w u (h, k) =
    let tail = trim_end-append (w ∷ b'@' ∷ []) domain h (trim_end-valid false domain k) in
    rw (trim_start-valid true user (w ∷ b'@' ∷ domain) u) (
      trim_end-append user (w ∷ b'@' ∷ domain)
        (not_empty (w ∷ []) (b'@' ∷ domain) (not_empty (b'@' ∷ []) domain h)) tail)

-- White space before the last @ goes through: a local part is trimmed before it is checked, and the
-- address is given back untrimmed. So a line feed there starts a new line of the map.
pub sanitize_map_address-keeps_space :
    (lower : Text → Text) (user domain : Text) (w : ℕ)
    → IsToken true user
    → IsToken false domain
    → Lacks b'@' domain
    → is_whitespace w ≡ true
    → lower (user ++ w ∷ b'@' ∷ domain) ≡ user ++ w ∷ b'@' ∷ domain
    → lower user ≡ user
    → lower domain ≡ domain
    → sanitize_map_address lower (user ++ w ∷ b'@' ∷ domain) ≡ some (user ++ w ∷ b'@' ∷ domain)
unfolding sanitize_map_address sanitize_parts
sanitize_map_address-keeps_space lower user domain w u d one space e f g =
    let whole = user ++ w ∷ b'@' ∷ domain in
    let parts : rsplit_once b'@' whole ≡ some (user ++ w ∷ [], domain) =
      ap (rsplit_once b'@') (sym (append_assoc user (w ∷ []) (b'@' ∷ domain)))
      ∙ rsplit_once-append b'@' (user ++ w ∷ []) domain one in
    rw (sanitize_map_address, trimmed_address user domain w u d, e, parts)
      (rw
        (
          sanitize_parts,
          token-passes_space lower user w u space f,
          token-passes lower false domain d g,
          and_false (not (is_empty (user ++ w ∷ []))),
          trimmed_address user domain w u d,
          e,
        )
        refl)
