-- ===== src/Config/Collected.antt =====
-- What build_virtual_alias_entries of config.rs has collected before it looks at the accounts.
use mailserver.Prelude.{
  ◌≡◌, refl, ◌≢◌, inl, inr, true, false, not, ◌&&◌, ◌||◌, Option, none, some, List, [], ◌∷◌, ◌++◌,
  Text, text_eq, strip_prefix, arith, Bool-cases, All, All-append, ◌==◌, eq_of_text_eq,
  if◌then◌else◌,
}
use mailserver.Config.Addresses.{normalize_virtual_alias_source}
use mailserver.Config.Entries.{
  Alias, Forwarding, Entry, contains, is_catch_all, Collected, nothing, add_entry, add_alias,
  add_aliases, add_forwarding, add_forwardings, domains_of, collect,
}

abbrev pub or_else {ℓ} : {A : Type ℓ} → Option A → Option A → Option A
or_else none o = o
or_else (some a) o = some a

-- The destination in the last entry of a key: what Postfix finds in the map, where the last entry
-- of a key wins, as the comment on build_virtual_alias_entries says.
unfoldable pub last_match : Text → List Entry → Option Text
last_match k [] = none
last_match k ((source, destination) ∷ entries) =
    or_else (last_match k entries) (if text_eq source k then some destination else none)

pub last_match-append :
    (k : Text) (xs ys : List Entry)
    → last_match k (xs ++ ys) ≡ or_else (last_match k ys) (last_match k xs)
unfolding last_match
last_match-append k [] ys = ground arith
last_match-append k ((s, d) ∷ xs) ys = ground (arith, last_match-append k xs ys)

abbrev pub IsCatchAllEntry : Entry → Type 0
IsCatchAllEntry e = is_catch_all e.0 ≡ true

abbrev pub IsSpecific : Text → Type 0
IsSpecific source = is_catch_all source ≡ false

-- The state that collecting keeps: catch-all entries among themselves, and the set of sources is
-- that of the specific entries.
pub record Collects (c : Collected) : Type 0 where
  pub catch_alls : All IsCatchAllEntry c.catch_all_entries
  pub specifics : All IsSpecific c.specific_sources
  pub sources :
      (k : Text)
      → (contains k c.specific_sources ≡ true → last_match k c.specific_entries ≢ none)
        × (contains k c.specific_sources ≡ false → last_match k c.specific_entries ≡ none)

contains-cons :
    (k s : Text) (set : List Text) → contains k (s ∷ set) ≡ (text_eq s k || contains k set)
unfolding contains
contains-cons k s set = refl

last_match-snoc :
    (k s d : Text) (xs : List Entry)
    → last_match k (xs ++ (s, d) ∷ []) ≡ (if text_eq s k then some d else last_match k xs)
unfolding last_match
last_match-snoc k s d xs = rw (last_match-append k xs ((s, d) ∷ [])) (ground arith)

add_entry-Collects :
    (source destination : Text) (c : Collected)
    → Collects c
    → Collects (add_entry source destination c)
unfolding add_entry
add_entry-Collects source destination c h = elim (Bool-cases (is_catch_all source)) [
  | inl catches ↦
      rw (add_entry, catches)
        (record {
          catch_alls = All-append IsCatchAllEntry c.catch_all_entries _ h.catch_alls (catches, tt);
          specifics = h.specifics;
          sources = h.sources;
        })
  | inr specific ↦
      rw (add_entry, specific)
        (record {
          catch_alls = h.catch_alls;
          specifics = (specific, h.specifics);
          sources = λ k.
              rw
                (
                  contains-cons k source c.specific_sources,
                  last_match-snoc k source destination c.specific_entries,
                )
                (elim (Bool-cases (text_eq source k)) [
                  | inl same ↦ rw same ((λ p q. cc), λ p. cc)
                  | inr differs ↦ rw differs (h.sources k)
                ]);
        })
]

add_alias-Collects : (a : Alias) (c : Collected) → Collects c → Collects (add_alias a c)
unfolding add_alias
add_alias-Collects a c h = elim (Bool-cases a.active) [
  | inl e ↦ rw (add_alias, e) (add_entry-Collects _ a.destination c h)
  | inr e ↦ rw (add_alias, e) h
]

add_aliases-Collects :
    (aliases : List Alias) (c : Collected) → Collects c → Collects (add_aliases aliases c)
unfolding add_aliases
add_aliases-Collects [] c h = h
add_aliases-Collects (a ∷ aliases) c h =
    add_aliases-Collects aliases (add_alias a c) (add_alias-Collects a c h)

add_forwarding-Collects :
    (f : Forwarding) (c : Collected) → Collects c → Collects (add_forwarding f c)
unfolding add_forwarding
add_forwarding-Collects f c h =
    let source = normalize_virtual_alias_source f.source f.domain_name in
    elim (Bool-cases f.active) [
      | inr e ↦ rw (add_forwarding, e) h
      | inl e ↦ elim (Bool-cases (f.keep_copy && not (is_catch_all source))) [
        | inl copies ↦ rw (add_forwarding, e, copies) h
        | inr moves ↦ rw (add_forwarding, e, moves) (add_entry-Collects source f.destination c h)
      ]
    ]

add_forwardings-Collects :
    (forwardings : List Forwarding) (c : Collected)
    → Collects c
    → Collects (add_forwardings forwardings c)
unfolding add_forwardings
add_forwardings-Collects [] c h = h
add_forwardings-Collects (f ∷ forwardings) c h =
    add_forwardings-Collects forwardings (add_forwarding f c) (add_forwarding-Collects f c h)

nothing-Collects : Collects nothing
unfolding last_match contains
nothing-Collects = record { catch_alls = tt; specifics = tt; sources = λ k. ((λ p. cc), λ p. refl) }

pub collect-Collects :
    (aliases : List Alias) (forwardings : List Forwarding) → Collects (collect aliases forwardings)
collect-Collects aliases forwardings =
    add_forwardings-Collects forwardings (add_aliases aliases nothing)
      (add_aliases-Collects aliases nothing nothing-Collects)

-- A key that is no catch-all is not among the catch-all entries, nor a catch-all among the others.
pub last_match-catch_alls :
    (k : Text) (entries : List Entry)
    → is_catch_all k ≡ false
    → All IsCatchAllEntry entries
    → last_match k entries ≡ none
unfolding last_match
last_match-catch_alls k [] h v = refl
last_match-catch_alls k ((s, d) ∷ entries) h (p, v) = elim (Bool-cases (text_eq s k)) [
  | inl same ↦ let e = eq_of_text_eq s k same in absurd (let q = rw e at p in cc)
  | inr differs ↦ rw (differs, last_match-catch_alls k entries h v) refl
]

pub contains-specifics :
    (k : Text) (set : List Text)
    → is_catch_all k ≡ true
    → All IsSpecific set
    → contains k set ≡ false
unfolding contains
contains-specifics k [] h v = refl
contains-specifics k (s ∷ set) h (p, v) = elim (Bool-cases (text_eq s k)) [
  | inl same ↦ let e = eq_of_text_eq s k same in absurd (let q = rw e at p in cc)
  | inr differs ↦ rw differs (contains-specifics k set h v)
]

pub domains_of-last_match :
    (domain : Text) (entries : List Entry)
    → last_match (b'@' ∷ domain) entries ≢ none
    → contains domain (domains_of entries) ≡ true
unfolding last_match domains_of contains strip_prefix text_eq
domains_of-last_match domain [] h = absurd (h refl)
domains_of-last_match domain (([], d) ∷ entries) h =
    ground (arith, domains_of-last_match domain entries)
domains_of-last_match domain ((c ∷ s, d) ∷ entries) h = elim (Bool-cases (b'@' == c)) [
  | inl at ↦ rw (domains_of, at) (ground (arith, domains_of-last_match domain entries))
  | inr other ↦ rw (domains_of, other) (ground (arith, domains_of-last_match domain entries))
]
