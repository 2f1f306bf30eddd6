-- ===== src/Web/Csrf/Laws.antt =====
-- Which requests `csrf_middleware` of web/mod.rs lets through.
use mailserver.Prelude.{
  ℕ, subst, ◌≡◌, refl, ◌↔◌, ◌⊎◌, Bool, true, false, Option, none, some, List, arith, Bool-cases,
  inl, inr, Text, as_bytes,
}
use mailserver.Auth.Secrets.{constant_time_eq, verify_api_token}
use mailserver.Auth.Secrets.Laws.{AreChars, StoredAreChars, verify_api_token_iff}
use mailserver.Web.Csrf.{
  Method, get, post, put, delete, other, Request, Verdict, passed, csrf_token_from_cookie,
  is_mutation, submitted, has_basic_or_bearer_auth, is_public, check_submitted, check_body,
  check_mutation, csrf_middleware, is_none,
}
use mailserver.Web.Csrf.Parts.{
  HasCookieToken, HasNoCookieToken, IsPublicPath, cookie-HasCookieToken, cookie-HasNoCookieToken,
  is_public-IsPublicPath,
}
use mailserver.Web.Csrf.Credentials.{HasCredentials, authorization-HasCredentials}
use mailserver.Web.Csrf.Submitted.{Submits, submitted-Submits}

abbrev pub Passes : Verdict → Type 0
Passes v = (b : Bool) × (v ≡ passed b)

check_submitted-Passes :
    (cookie_val : Text) (o : Option Text)
    → AreChars cookie_val
    → StoredAreChars o
    → Passes (check_submitted cookie_val o) ↔ (o ≡ some cookie_val)
unfolding check_submitted verify_api_token
check_submitted-Passes cookie_val none h k = ((λ (b, e). cc), (λ e. cc))
check_submitted-Passes cookie_val (some t) h k =
    let (same, back) = verify_api_token_iff (some t) cookie_val k h in
    elim (Bool-cases (constant_time_eq (as_bytes t) (as_bytes cookie_val))) [
      | inl equal ↦ ((λ p. same equal), (λ e. (false, rw (check_submitted, equal) refl)))
      | inr differs ↦
          ((λ (b, e). cc (rw (check_submitted, differs) at e)), (λ e. cc (back e, differs)))
    ]

-- The same in terms of the operations.
abbrev Admits : (List ℕ → List (Text × Text)) → Request → Type 0
Admits parse_form r =
    ((cookie_val : Text) × (bytes : List ℕ) × (csrf_token_from_cookie r.cookie ≡ some cookie_val)
      × (r.body ≡ some bytes)
      × (submitted parse_form r bytes ≡ some cookie_val))
    ⊎ ((csrf_token_from_cookie r.cookie ≡ none)
        × ((has_basic_or_bearer_auth r.authorization ≡ true) ⊎ (is_public r.path ≡ true)))

check_body-Passes :
    (parse_form : List ℕ → List (Text × Text)) (r : Request) (cookie_val : Text)
    (body : Option (List ℕ))
    → AreChars cookie_val
    → ((bytes : List ℕ) → StoredAreChars (submitted parse_form r bytes))
    → Passes (check_body parse_form r cookie_val body)
      ↔ ((bytes : List ℕ) × (body ≡ some bytes) × (submitted parse_form r bytes ≡ some cookie_val))
unfolding check_body
check_body-Passes parse_form r cookie_val none h k = ((λ (b, e). cc), (λ (bytes, e, _). cc))
check_body-Passes parse_form r cookie_val (some bytes) h k =
    let (there, back) =
      check_submitted-Passes cookie_val (submitted parse_form r bytes) h (k bytes) in
    (
      λ p. (bytes, refl, there p),
      λ (bytes', e, e').
          let eq : bytes' ≡ bytes = ground (arith, e) in
          back (subst (λ x. submitted parse_form r x ≡ some cookie_val) eq e'),
    )

check_mutation-Passes :
    (parse_form : List ℕ → List (Text × Text)) (r : Request) (token : Option Text)
    → csrf_token_from_cookie r.cookie ≡ token
    → StoredAreChars token
    → ((bytes : List ℕ) → StoredAreChars (submitted parse_form r bytes))
    → Passes (check_mutation parse_form r token) ↔ Admits parse_form r
unfolding check_mutation
check_mutation-Passes parse_form r (some cookie_val) t h k =
    let (there, back) = check_body-Passes parse_form r cookie_val r.body h k in
    (
      λ p. let (bytes, e, e') = there p in inl (cookie_val, bytes, t, e, e'),
      λ allowed. elim allowed [
        | inl (c, bytes, t', e, e') ↦
            let eq : c ≡ cookie_val = ground (arith, t, t') in
            back (bytes, e, subst (λ x. submitted parse_form r bytes ≡ some x) eq e')
        | inr (t', _) ↦ cc
      ],
    )
check_mutation-Passes parse_form r none t h k =
    elim (Bool-cases (has_basic_or_bearer_auth r.authorization)) [
      | inl auth ↦ (λ p. inr (t, inl auth), λ allowed. (true, rw (check_mutation, auth) refl))
      | inr no_auth ↦ elim (Bool-cases (is_public r.path)) [
        | inl open_ ↦
            (λ p. inr (t, inr open_), λ allowed. (true, rw (check_mutation, no_auth, open_) refl))
        | inr closed ↦ (
          λ (b, e). absurd (ground (arith, rw (check_mutation, no_auth, closed) at e)),
          λ allowed. elim allowed [
            | inl (c, bytes, t', _, _) ↦ cc
            | inr (_, inl auth) ↦ cc
            | inr (_, inr open_) ↦ cc
          ],
        )
      ]
    ]

-- What lets a request that changes something through: the token of its cookie, sent once more in the
-- form or the header; or no cookie, and credentials in the Authorization header or a public path.
abbrev pub IsAllowed : (List ℕ → List (Text × Text)) → Request → Type 0
IsAllowed parse_form r =
    ((cookie_val : Text) × (bytes : List ℕ) × HasCookieToken r.cookie cookie_val
      × (r.body ≡ some bytes)
      × Submits parse_form r bytes cookie_val)
    ⊎ (HasNoCookieToken r.cookie × (HasCredentials r.authorization ⊎ IsPublicPath r.path))

Admits-IsAllowed :
    (parse_form : List ℕ → List (Text × Text)) (r : Request)
    → Admits parse_form r ↔ IsAllowed parse_form r
Admits-IsAllowed parse_form r =
    let (gone, no_token) = cookie-HasNoCookieToken r.cookie in
    let (auth, credentials) = authorization-HasCredentials r.authorization in
    let (open_, public) = is_public-IsPublicPath r.path in
    (
      λ admitted. elim admitted [
        | inl (v, bytes, c, b, t) ↦ inl (
          v,
          bytes,
          (cookie-HasCookieToken r.cookie v).0 c,
          b,
          (submitted-Submits parse_form r bytes v).0 t,
        )
        | inr (n, inl a) ↦ inr (gone n, inl (auth a))
        | inr (n, inr p) ↦ inr (gone n, inr (open_ p))
      ],
      λ allowed. elim allowed [
        | inl (v, bytes, c, b, t) ↦ inl (
          v,
          bytes,
          (cookie-HasCookieToken r.cookie v).1 c,
          b,
          (submitted-Submits parse_form r bytes v).1 t,
        )
        | inr (n, inl a) ↦ inr (no_token n, inl (credentials a))
        | inr (n, inr p) ↦ inr (no_token n, inr (public p))
      ],
    )

abbrev pub IsChange : Method → Type 0
IsChange m = (m ≡ post) ⊎ (m ≡ put) ⊎ (m ≡ delete)

IsChange-is_mutation : (m : Method) → IsChange m → is_mutation m ≡ true
IsChange-is_mutation m (inl e) = rw e refl
IsChange-is_mutation m (inr (inl e)) = rw e refl
IsChange-is_mutation m (inr (inr e)) = rw e refl

no_change : (m : Method) → (¬ IsChange m) → is_mutation m ≡ false
no_change get n = refl
no_change other n = refl
no_change post n = absurd (n (inl refl))
no_change put n = absurd (n (inr (inl refl)))
no_change delete n = absurd (n (inr (inr refl)))

-- A request with POST, PUT or DELETE reaches the pages exactly if it is allowed so, where the texts
-- are of characters; any other request always does.
pub csrf_middleware-Passes_iff :
    (parse_form : List ℕ → List (Text × Text)) (r : Request)
    → StoredAreChars (csrf_token_from_cookie r.cookie)
    → ((bytes : List ℕ) → StoredAreChars (submitted parse_form r bytes))
    → (IsChange r.method → Passes (csrf_middleware parse_form r) ↔ IsAllowed parse_form r)
      × ((¬ IsChange r.method) → Passes (csrf_middleware parse_form r))
unfolding csrf_middleware
csrf_middleware-Passes_iff parse_form r h k = (
  λ m.
      let (there, back) =
        check_mutation-Passes parse_form r (csrf_token_from_cookie r.cookie) refl h k in
      let (allowed, admitted) = Admits-IsAllowed parse_form r in
      rw (csrf_middleware, IsChange-is_mutation r.method m)
        ((λ p. allowed (there p)), (λ a. back (admitted a))),
  λ n. (is_none (csrf_token_from_cookie r.cookie), rw (csrf_middleware, no_change r.method n) refl),
)
