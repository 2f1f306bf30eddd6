-- ===== src/Web/Csrf/Parts.antt =====
-- The parts of a request that `csrf_middleware` of web/mod.rs reads, each described by what it is made
-- of: the public paths and the token of the cookie.
use mailserver.Prelude.{
  ◌≡◌, refl, subst, ◌↔◌, ◌⊎◌, Bool, true, false, ◌||◌, Option, none, some, List, [], ◌∷◌, ◌++◌,
  arith, Option-cases, inl, inr, All, Text, codes, Begins, strip_prefix-joins, strip_prefix-Begins,
  starts_with-Begins, or_iff, strip_prefix, trim, split_char,
}
use mailserver.Web.Csrf.{find_token, csrf_token_from_cookie, is_public}

-- A path that needs no login.
abbrev pub IsPublicPath : Text → Type 0
IsPublicPath path =
    Begins (codes "/register") path
    ⊎ Begins (codes "/unsubscribe") path
    ⊎ Begins (codes "/pixel") path
    ⊎ Begins (codes "/bimi/") path
    ⊎ Begins (codes "/mail/config-v1.1.xml") path
    ⊎ Begins (codes "/.well-known/") path

last_iff : {A : Type 0} (a : Bool) → (a ≡ true) ↔ A → ((a || false) ≡ true) ↔ A
last_iff a (f, g) = ((λ h. f (ground (arith, h))), (λ x. let k = g x in ground (arith, k)))

pub is_public-IsPublicPath : (path : Text) → (is_public path ≡ true) ↔ IsPublicPath path
unfolding is_public
is_public-IsPublicPath path = or_iff _ _ (starts_with-Begins (codes "/register") path) (
    or_iff _ _ (starts_with-Begins (codes "/unsubscribe") path) (
      or_iff _ _ (starts_with-Begins (codes "/pixel") path) (
        or_iff _ _ (starts_with-Begins (codes "/bimi/") path) (
          or_iff _ _ (starts_with-Begins (codes "/mail/config-v1.1.xml") path)
            (last_iff _ (starts_with-Begins (codes "/.well-known/") path))))))

-- The value of the first cookie that is named so.
abbrev pub IsFirstToken : List Text → Text → Type 0
IsFirstToken [] v = ⊥
IsFirstToken (piece ∷ pieces) v =
    (trim piece ≡ codes "csrf_token=" ++ v)
    ⊎ ((¬ Begins (codes "csrf_token=") (trim piece)) × IsFirstToken pieces v)

abbrev pub HasCookieToken : Option Text → Text → Type 0
HasCookieToken cookie v =
    (cookies : Text) × (cookie ≡ some cookies) × IsFirstToken (split_char b';' cookies) v

abbrev pub HasNoCookieToken : Option Text → Type 0
HasNoCookieToken cookie =
    (cookie ≡ none)
    ⊎ ((cookies : Text) × (cookie ≡ some cookies)
        × All (λ piece. ¬ Begins (codes "csrf_token=") (trim piece)) (split_char b';' cookies))

find_token-IsFirstToken :
    (pieces : List Text) (v : Text) → find_token pieces ≡ some v → IsFirstToken pieces v
unfolding find_token
find_token-IsFirstToken [] v h = absurd (ground arith)
find_token-IsFirstToken (piece ∷ pieces) v h =
    elim (Option-cases (strip_prefix (codes "csrf_token=") (trim piece))) [
      | inl absent ↦ inr (
        (strip_prefix-Begins (codes "csrf_token=") (trim piece)).0 absent,
        find_token-IsFirstToken pieces v (rw (find_token, absent) at h),
      )
      | inr (w, e) ↦
          let k = rw (find_token, e) at h in
          inl (ground (arith, k, strip_prefix-joins (codes "csrf_token=") (trim piece) w, e))
    ]

IsFirstToken-find_token :
    (pieces : List Text) (v : Text) → IsFirstToken pieces v → find_token pieces ≡ some v
unfolding find_token
IsFirstToken-find_token [] v h = absurd h
IsFirstToken-find_token (piece ∷ pieces) v (inl e) =
    rw (find_token, (strip_prefix-joins (codes "csrf_token=") (trim piece) v).1 e) refl
IsFirstToken-find_token (piece ∷ pieces) v (inr (n, h)) =
    rw (find_token, (strip_prefix-Begins (codes "csrf_token=") (trim piece)).1 n)
      (IsFirstToken-find_token pieces v h)

find_token-none :
    (pieces : List Text)
    → (find_token pieces ≡ none) ↔ All (λ piece. ¬ Begins (codes "csrf_token=") (trim piece)) pieces
unfolding find_token
find_token-none [] = ((λ h. tt), (λ h. refl))
find_token-none (piece ∷ pieces) =
    elim (Option-cases (strip_prefix (codes "csrf_token=") (trim piece))) [
      | inl absent ↦ (
        λ h. (
          (strip_prefix-Begins (codes "csrf_token=") (trim piece)).0 absent,
          (find_token-none pieces).0 (rw (find_token, absent) at h),
        ),
        λ (_, h). rw (find_token, absent) ((find_token-none pieces).1 h),
      )
      | inr (w, e) ↦ (
        λ h. absurd (let k = rw (find_token, e) at h in ground arith),
        λ (n, _). absurd (n (w, (strip_prefix-joins (codes "csrf_token=") (trim piece) w).0 e)),
      )
    ]

pub cookie-HasCookieToken :
    (cookie : Option Text) (v : Text)
    → (csrf_token_from_cookie cookie ≡ some v) ↔ HasCookieToken cookie v
unfolding csrf_token_from_cookie
cookie-HasCookieToken none v =
    ((λ h. absurd (ground arith)), (λ (c, e, _). absurd (ground (arith, e))))
cookie-HasCookieToken (some cookies) v = (
  λ h. (cookies, refl, find_token-IsFirstToken (split_char b';' cookies) v h),
  λ (c, e, h).
      let eq : c ≡ cookies = ground (arith, e) in
      IsFirstToken-find_token (split_char b';' cookies) v
        (subst (λ x. IsFirstToken (split_char b';' x) v) eq h),
)

pub cookie-HasNoCookieToken :
    (cookie : Option Text) → (csrf_token_from_cookie cookie ≡ none) ↔ HasNoCookieToken cookie
unfolding csrf_token_from_cookie
cookie-HasNoCookieToken none = ((λ h. inl refl), (λ h. refl))
cookie-HasNoCookieToken (some cookies) = (
  λ h. inr (cookies, refl, (find_token-none (split_char b';' cookies)).0 h),
  λ h. elim h [
    | inl e ↦ absurd (ground (arith, e))
    | inr (c, e, k) ↦
        let eq : c ≡ cookies = ground (arith, e) in
        (find_token-none (split_char b';' cookies)).1 (
          subst
            (λ x. All (λ piece. ¬ Begins (codes "csrf_token=") (trim piece)) (split_char b';' x)) eq
            k)
  ],
)
