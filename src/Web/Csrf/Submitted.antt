-- ===== src/Web/Csrf/Submitted.antt =====
-- The token that a request of web/mod.rs submits: that of its form, or that of its header.
use mailserver.Prelude.{
  ℕ, ◌≡◌, refl, subst, ◌∙◌, ◌↔◌, ◌⊎◌, Bool, true, ◌&&◌, none, some, List, [], ◌∷◌, arith,
  Bool-cases, Option-cases, inl, inr, All, Text, codes, Begins, starts_with-Begins, or_iff, text_eq,
  text_eq_iff,
}
use mailserver.Web.Csrf.{
  Method, get, post, put, delete, other, Request, is_form, find_field, submitted, is_post, or_empty,
}

-- A form that is sent with POST.
abbrev pub IsForm : Request → Type 0
IsForm r =
    (r.method ≡ post)
    × ((content_type : Text) × (r.content_type ≡ some content_type)
        × (Begins (codes "application/x-www-form-urlencoded") content_type
            ⊎ Begins (codes "multipart/form-data") content_type))

abbrev pub IsOther : Text × Text → Type 0
IsOther (name, v) = ¬ (name ≡ codes "_csrf_token")

-- The value of the first field that is named so.
abbrev pub IsFirstField : List (Text × Text) → Text → Type 0
IsFirstField [] t = ⊥
IsFirstField ((name, v) ∷ fields) t =
    ((name ≡ codes "_csrf_token") × (v ≡ t))
    ⊎ ((¬ (name ≡ codes "_csrf_token")) × IsFirstField fields t)

-- The token of the form goes before that of the header.
abbrev pub Submits : (List ℕ → List (Text × Text)) → Request → List ℕ → Text → Type 0
Submits parse_form r bytes t =
    (IsForm r × IsFirstField (parse_form bytes) t)
    ⊎ (((¬ IsForm r) ⊎ All IsOther (parse_form bytes)) × (r.x_csrf_token ≡ some t))

find_field-IsFirstField :
    (fields : List (Text × Text)) (t : Text) → (find_field fields ≡ some t) ↔ IsFirstField fields t
unfolding find_field
find_field-IsFirstField [] t = ((λ h. ground (arith, h)), (λ h. absurd h))
find_field-IsFirstField ((name, v) ∷ fields) t =
    let (same, back) = text_eq_iff name (codes "_csrf_token") in
    let (there, home) = find_field-IsFirstField fields t in
    elim (Bool-cases (text_eq name (codes "_csrf_token"))) [
      | inl token ↦ (
        λ h. let k = rw (find_field, token) at h in inl (same token, ground (arith, k)),
        λ h. elim h [
          | inl (_, e) ↦ rw (find_field, token, e) refl
          | inr (n, _) ↦ absurd (n (same token))
        ],
      )
      | inr differs ↦ (
        λ h. inr (
          (λ e. absurd (let k = back e in ground (arith, k, differs))),
          there (rw (find_field, differs) at h),
        ),
        λ h. elim h [
          | inl (e, _) ↦ absurd (let k = back e in ground (arith, k, differs))
          | inr (_, k) ↦ rw (find_field, differs) (home k)
        ],
      )
    ]

find_field-none : (fields : List (Text × Text)) → (find_field fields ≡ none) ↔ All IsOther fields
unfolding find_field
find_field-none [] = ((λ h. tt), (λ h. refl))
find_field-none ((name, v) ∷ fields) =
    let (same, back) = text_eq_iff name (codes "_csrf_token") in
    let (there, home) = find_field-none fields in
    elim (Bool-cases (text_eq name (codes "_csrf_token"))) [
      | inl token ↦ (
        λ h. absurd (let k = rw (find_field, token) at h in ground (arith, k)),
        λ (n, _). absurd (n (same token)),
      )
      | inr differs ↦ (
        λ h. (
          (λ e. absurd (let k = back e in ground (arith, k, differs))),
          there (rw (find_field, differs) at h),
        ),
        λ (_, k). rw (find_field, differs) (home k),
      )
    ]

is_post-post : (m : Method) → (is_post m ≡ true) ↔ (m ≡ post)
is_post-post post = ((λ h. refl), (λ h. refl))
is_post-post get = ((λ h. ground (arith, h)), (λ h. ground (arith, h)))
is_post-post put = ((λ h. ground (arith, h)), (λ h. ground (arith, h)))
is_post-post delete = ((λ h. ground (arith, h)), (λ h. ground (arith, h)))
is_post-post other = ((λ h. ground (arith, h)), (λ h. ground (arith, h)))

abbrev Form : Text → Type 0
Form ct =
    Begins (codes "application/x-www-form-urlencoded") ct ⊎ Begins (codes "multipart/form-data") ct

is_form-Begins :
    (ct : Text)
    → (is_form ct ≡ true) ↔ (
        Begins (codes "application/x-www-form-urlencoded") ct
        ⊎ Begins (codes "multipart/form-data") ct)
unfolding is_form
is_form-Begins ct =
    or_iff _ _ (starts_with-Begins (codes "application/x-www-form-urlencoded") ct)
      (starts_with-Begins (codes "multipart/form-data") ct)

abbrev sends_form : Request → Bool
sends_form r = is_post r.method && is_form (or_empty r.content_type)

sends_form_iff : (r : Request) → (sends_form r ≡ true) ↔ IsForm r
unfolding is_form
sends_form_iff r =
    let (is, back) = is_post-post r.method in
    elim (Option-cases r.content_type) [
      | inl absent ↦ (
        λ h. absurd (ground (arith, rw absent at h)),
        λ (_, (ct, e, _)). absurd (ground (arith, e, absent)),
      )
      | inr (ct, e) ↦
          let (begins, home) = is_form-Begins ct in
          (
            λ h.
                let k : (is_post r.method && is_form ct) ≡ true = rw e at h in
                (is (ground (arith, k)), (ct, e, begins (ground (arith, k)))),
            λ (m, (ct', e', b)).
                let eq : ct' ≡ ct = ground (arith, e, e') in
                let p = back m in let f = home (subst Form eq b) in rw (e, p, f) refl,
          )
    ]

pub submitted-Submits :
    (parse_form : List ℕ → List (Text × Text)) (r : Request) (bytes : List ℕ) (t : Text)
    → (submitted parse_form r bytes ≡ some t) ↔ Submits parse_form r bytes t
unfolding submitted
submitted-Submits parse_form r bytes t =
    let (there, back) = sends_form_iff r in
    let (field, home) = find_field-IsFirstField (parse_form bytes) t in
    let (absent, silent) = find_field-none (parse_form bytes) in
    elim (Bool-cases (sends_form r)) [
      | inr plain ↦ (
        λ h. inr (
          inl (λ f. absurd (let k = back f in ground (arith, k, plain))),
          rw (submitted, plain) at h,
        ),
        λ h. elim h [
          | inl (f, _) ↦ absurd (let k = back f in ground (arith, k, plain))
          | inr (_, e) ↦ rw (submitted, plain) e
        ],
      )
      | inl form ↦ elim (Option-cases (find_field (parse_form bytes))) [
        | inl none_there ↦ (
          λ h. inr (inr (absent none_there), rw (submitted, form, none_there) at h),
          λ h. elim h [
            | inl (_, f) ↦ absurd (let k = home f in ground (arith, k, none_there))
            | inr (_, e) ↦ rw (submitted, form, none_there) e
          ],
        )
        | inr (w, e) ↦ (
          λ h. inl (there form, field (e ∙ (rw (submitted, form, e) at h))),
          λ h. elim h [
            | inl (_, f) ↦ rw (submitted, form, home f) refl
            | inr (inl n, _) ↦ absurd (n (there form))
            | inr (inr others, _) ↦ absurd (let k = silent others in ground (arith, k, e))
          ],
        )
      ]
    ]
