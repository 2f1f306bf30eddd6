-- ===== src/Mcp/Guard/Window.antt =====
-- The rate limits of the MCP guard of web/mod.rs, over every sequence of calls and outcomes.
use mathlib.Core.List.{append_assoc}
use mailserver.Prelude.{
  ℕ, suc, ◌+◌, ◌-◌, ◌≤◌, ◌<◌, ◌≡◌, refl, sym, ap, ◌∙◌, inl, inr, ◌&&◌, List, [], ◌∷◌, ◌++◌, ltb,
  leb, if◌then◌else◌, length, All, All-append, arith, Bool-cases, tests,
}
use mailserver.Mcp.Guard.{window, pop_old}

-- The times in the window of sixty seconds that begins at `w`.
abbrev pub count_in : ℕ → List ℕ → ℕ
count_in w [] = 0
count_in w (t ∷ ts) =
    let rest = count_in w ts in if leb w t && ltb t (w + window) then suc rest else rest

count_in-append : (w : ℕ) (xs ys : List ℕ) → count_in w (xs ++ ys) ≡ count_in w xs + count_in w ys
count_in-append w [] ys = omega arith
count_in-append w (t ∷ xs) ys = ground (arith, count_in-append w xs ys)

count_in-le-length : (w : ℕ) (xs : List ℕ) → count_in w xs ≤ length xs
count_in-le-length w [] = omega arith
count_in-le-length w (t ∷ xs) = ground (arith, count_in-le-length w xs)

-- `q` is what is left of the history `h`: the rest of it is more than a window older than the clock.
pub Covers : ℕ → List ℕ → List ℕ → Type 0
Covers clock h q = (old : List ℕ) × (h ≡ old ++ q) × All (λ t. t + window < clock) old

All-older :
    (clock now : ℕ) (old : List ℕ)
    → clock ≤ now
    → All (λ t. t + window < clock) old
    → All (λ t. t + window < now) old
All-older clock now [] h v = tt
All-older clock now (t ∷ old) h (p, v) = (omega arith, All-older clock now old h v)

pop_old-Covers :
    (now : ℕ) (h q old : List ℕ)
    → h ≡ old ++ q
    → All (λ t. t + window < now) old
    → Covers now h (pop_old (now - window) q)
unfolding Covers pop_old
pop_old-Covers now h [] old e v = (old, e, v)
pop_old-Covers now h (t ∷ q) old e v = elim (Bool-cases (ltb t (now - window))) [
  | inl gone ↦ rw gone (
      pop_old-Covers now h q (old ++ t ∷ []) (e ∙ sym (append_assoc old (t ∷ []) q))
        (All-append (λ t'. t' + window < now) old (t ∷ []) v (omega tests, tt)))
  | inr kept ↦ rw kept (old, e, v)
]

pub Covers-evict :
    (clock now : ℕ) (h q : List ℕ)
    → clock ≤ now
    → Covers clock h q
    → Covers now h (pop_old (now - window) q)
unfolding Covers
Covers-evict clock now h q le (old, e, v) =
    pop_old-Covers now h q old e (All-older clock now old le v)

pub Covers-push :
    (clock now : ℕ) (h q : List ℕ) → Covers clock h q → Covers clock (h ++ now ∷ []) (q ++ now ∷ [])
unfolding Covers
Covers-push clock now h q (old, e, v) =
    (old, ap (λ xs. xs ++ now ∷ []) e ∙ append_assoc old q (now ∷ []), v)

pub Covers-later : (clock now : ℕ) (h q : List ℕ) → clock ≤ now → Covers clock h q → Covers now h q
unfolding Covers
Covers-later clock now h q le (old, e, v) = (old, e, All-older clock now old le v)

pub count_in-old :
    (w clock : ℕ) (old : List ℕ)
    → clock ≤ w + window
    → All (λ t. t + window < clock) old
    → count_in w old ≡ 0
count_in-old w clock [] h v = refl
count_in-old w clock (t ∷ old) h (p, v) = ground (arith, count_in-old w clock old h v)

-- Whatever of the history lies in a window that is still open is left in the queue.
count_in-Covers :
    (w clock : ℕ) (h q : List ℕ) → clock ≤ w + window → Covers clock h q → count_in w h ≤ length q
unfolding Covers
count_in-Covers w clock h q le (old, e, v) =
    rw e (
      omega (arith, count_in-append w old q, count_in-old w clock old le v, count_in-le-length w q))

-- A history whose windows hold at most `limit` still has that property when a time is added, if
-- fewer than `limit` were left in the queue.
pub count_in-push :
    (w clock now limit : ℕ) (h q : List ℕ)
    → clock ≤ now
    → Covers clock h q
    → length q < limit
    → count_in w h ≤ limit
    → count_in w (h ++ now ∷ []) ≤ limit
count_in-push w clock now limit h q le c room ih =
    elim (Bool-cases (leb w now && ltb now (w + window))) [
      | inl inside ↦
          let last : now < w + window = ground arith in
          ground
            (arith, count_in-append w h (now ∷ []), count_in-Covers w clock h q (omega arith) c)
      | inr outside ↦ ground (arith, count_in-append w h (now ∷ []))
    ]

pub Covers-nil : (clock : ℕ) → Covers clock [] []
unfolding Covers
Covers-nil clock = ([], refl, tt)
