-- ===== src/Config/Lookup.antt =====
-- What the list of entries for virtual_aliases says about the address of a mailbox, before the entries
-- are written: looked up by the exact text, the last match counting.
use mailserver.Prelude.{
  ◌≡◌, refl, ◌≢◌, ◌⊎◌, inl, inr, Bool, true, false, ◌&&◌, ◌||◌, none, some, List, [], ◌∷◌, ◌++◌,
  Text, text_eq, text_eq_iff, text_eq_refl, starts_with, strip_prefix, arith, Bool-cases,
  Option-cases, ap, ◌∙◌,
}
use mailserver.Config.Entries.{
  Alias, Forwarding, Account, Entry, contains, is_catch_all, email_of, domains_of, identity_entries,
  collect, build_virtual_alias_entries, needs_identity, identity_if,
}
use mailserver.Config.Collected.{
  or_else, last_match, last_match-append, collect-Collects, last_match-catch_alls,
  contains-specifics, domains_of-last_match,
}

-- An active account of this name and domain is in the list.
unfoldable pub has_mailbox : Text → Text → List Account → Bool
unfolding text_eq
has_mailbox username domain [] = false
has_mailbox username domain (a ∷ accounts) =
    let rest = has_mailbox username domain accounts in
    elim a.domain_name [
      | none ↦ rest
      | some d ↦ a.active && text_eq a.username username && text_eq d domain || rest
    ]

-- An identity entry leads to its own key.
last_match-identity :
    (k : Text) (domains sources : List Text) (accounts : List Account)
    → (last_match k (identity_entries domains sources accounts) ≡ none)
      ⊎ (last_match k (identity_entries domains sources accounts) ≡ some k)
unfolding last_match identity_entries
last_match-identity k domains sources [] = inl refl
last_match-identity k domains sources (a ∷ accounts) =
    let ih = last_match-identity k domains sources accounts in
    elim (Option-cases a.domain_name) [
      | inl e ↦ rw (identity_entries, e) ih
      | inr (d, e) ↦
          rw (identity_entries, e)
            (elim (Bool-cases (a.active && needs_identity domains sources a.username d)) [
              | inr idle ↦ rw idle ih
              | inl adds ↦ rw adds (ground (arith, ih, text_eq_iff (email_of a.username d) k))
            ])
    ]

contains-same :
    (j k : Text) (set : List Text) → j ≡ k → contains k set ≡ true → contains j set ≡ true
contains-same j k set e h = rw e h

-- No entry is added for a source that is there.
last_match-identity_explicit :
    (k : Text) (domains sources : List Text) (accounts : List Account)
    → contains k sources ≡ true
    → last_match k (identity_entries domains sources accounts) ≡ none
unfolding last_match identity_entries
last_match-identity_explicit k domains sources [] h = refl
last_match-identity_explicit k domains sources (a ∷ accounts) h =
    let ih = last_match-identity_explicit k domains sources accounts h in
    elim (Option-cases a.domain_name) [
      | inl e ↦ rw (identity_entries, e) ih
      | inr (d, e) ↦
          rw (identity_entries, e)
            (elim (Bool-cases (a.active && needs_identity domains sources a.username d)) [
              | inr idle ↦ rw idle ih
              | inl adds ↦
                  rw (adds, ih)
                    (ground (
                      arith,
                      text_eq_iff (email_of a.username d) k,
                      contains-same (email_of a.username d) k sources,
                    ))
            ])
    ]

last_match-rest :
    (k e : Text) (b : Bool) (entries : List Entry)
    → last_match k entries ≢ none
    → last_match k (identity_if b e entries) ≢ none
unfolding last_match
last_match-rest k e true entries h = ground arith
last_match-rest k e false entries h = h

last_match-first :
    (k : Text) (entries : List Entry) → last_match k (identity_if true k entries) ≢ none
unfolding last_match
last_match-first k entries = rw (text_eq_refl k) (λ h. ground arith)

needs_identity-own :
    (domains sources : List Text) (username domain u d : Text)
    → u ≡ username
    → d ≡ domain
    → contains domain domains ≡ true
    → contains (email_of username domain) sources ≡ false
    → needs_identity domains sources u d ≡ true
needs_identity-own domains sources username domain u d e f c s = rw (e, f, c, s) refl

own_parts :
    (active : Bool) (u username d domain : Text)
    → (active && text_eq u username && text_eq d domain) ≡ true
    → (active ≡ true) × (u ≡ username) × (d ≡ domain)
own_parts active u username d domain h =
    ground (arith, text_eq_iff u username, text_eq_iff d domain)

-- A mailbox of a domain with a catch-all gets one, if nothing else is said about it.
last_match-identity_mailbox :
    (username domain : Text) (domains sources : List Text) (accounts : List Account)
    → has_mailbox username domain accounts ≡ true
    → contains domain domains ≡ true
    → contains (email_of username domain) sources ≡ false
    → last_match (email_of username domain) (identity_entries domains sources accounts) ≢ none
unfolding last_match identity_entries has_mailbox
last_match-identity_mailbox username domain domains sources [] h c s = ground arith
last_match-identity_mailbox username domain domains sources (a ∷ accounts) h c s =
    elim (Option-cases a.domain_name) [
      | inl e ↦
          rw (identity_entries, e)
            (last_match-identity_mailbox username domain domains sources accounts
              (rw (has_mailbox, e) at h) c s)
      | inr (d, e) ↦
          rw (identity_entries, e)
            (elim (Bool-cases (a.active && text_eq a.username username && text_eq d domain)) [
              | inl own ↦
                  let (active, u, v) = own_parts a.active a.username username d domain own in
                  rw
                    (
                      active,
                      needs_identity-own domains sources username domain a.username d u v c s,
                      u,
                      v,
                    )
                    (last_match-first (email_of username domain)
                      (identity_entries domains sources accounts))
              | inr other ↦
                  last_match-rest (email_of username domain) (email_of a.username d)
                    (a.active && needs_identity domains sources a.username d)
                    (identity_entries domains sources accounts)
                    (last_match-identity_mailbox username domain domains sources accounts
                      (rw (has_mailbox, e, other) at h) c s)
            ])
    ]

-- The three parts of the file, the last one first.
last_match-build :
    (k : Text) (aliases : List Alias) (forwardings : List Forwarding) (accounts : List Account)
    → last_match k (build_virtual_alias_entries aliases forwardings accounts)
      ≡ or_else
          (or_else
            (last_match k (
              identity_entries
                (domains_of (collect aliases forwardings).catch_all_entries)
                (collect aliases forwardings).specific_sources
                accounts))
            (last_match k (collect aliases forwardings).specific_entries))
          (last_match k (collect aliases forwardings).catch_all_entries)
unfolding build_virtual_alias_entries
last_match-build k aliases forwardings accounts =
    let c = collect aliases forwardings in
    let ids = identity_entries (domains_of c.catch_all_entries) c.specific_sources accounts in
    last_match-append k c.catch_all_entries (c.specific_entries ++ ids)
    ∙ ap (λ o. or_else o (last_match k c.catch_all_entries))
        (last_match-append k c.specific_entries ids)

no_identity :
    (k : Text) (domains sources : List Text)
    → last_match k (identity_entries domains sources []) ≡ none
unfolding last_match identity_entries
no_identity k domains sources = refl

at-is_catch_all : (domain : Text) → is_catch_all (b'@' ∷ domain) ≡ true
unfolding starts_with strip_prefix
at-is_catch_all domain = refl

-- A catch-all of the rules is one of the collected domains.
catch_all-contains :
    (aliases : List Alias) (forwardings : List Forwarding) (domain : Text)
    → last_match (b'@' ∷ domain) (build_virtual_alias_entries aliases forwardings []) ≢ none
    → contains domain (domains_of (collect aliases forwardings).catch_all_entries) ≡ true
catch_all-contains aliases forwardings domain h =
    let c = collect aliases forwardings in
    let v = collect-Collects aliases forwardings in
    let k = b'@' ∷ domain in
    let absent =
      (v.sources k).1
        (contains-specifics k c.specific_sources (at-is_catch_all domain) v.specifics) in
    domains_of-last_match domain c.catch_all_entries (
      rw
        (
          last_match-build k aliases forwardings [],
          no_identity k (domains_of c.catch_all_entries) c.specific_sources,
          absent,
        )
        at h)

-- In the list of entries, a catch-all of its domain does not stand for a mailbox: the last entry whose
-- source is exactly its address is what the aliases and forwardings say about that text, and otherwise
-- leads to the address itself.
pub catch_all_keeps_mailboxes :
    (aliases : List Alias) (forwardings : List Forwarding) (accounts : List Account)
    (username domain : Text)
    → is_catch_all (email_of username domain) ≡ false
    → has_mailbox username domain accounts ≡ true
    → last_match (b'@' ∷ domain) (build_virtual_alias_entries aliases forwardings []) ≢ none
    → last_match
        (email_of username domain)
        (build_virtual_alias_entries aliases forwardings accounts)
      ≡ or_else
          (last_match
            (email_of username domain)
            (build_virtual_alias_entries aliases forwardings []))
          (some (email_of username domain))
catch_all_keeps_mailboxes aliases forwardings accounts username domain plain mailbox catches =
    let c = collect aliases forwardings in
    let v = collect-Collects aliases forwardings in
    let k = email_of username domain in
    let domains = domains_of c.catch_all_entries in
    let found = catch_all-contains aliases forwardings domain catches in
    let parts = last_match-build k aliases forwardings accounts in
    let rules = last_match-build k aliases forwardings [] in
    let none_caught = last_match-catch_alls k c.catch_all_entries plain v.catch_alls in
    rw (parts, rules, no_identity k domains c.specific_sources, none_caught)
      (elim (Bool-cases (contains k c.specific_sources)) [
        | inl explicit ↦
            rw (last_match-identity_explicit k domains c.specific_sources accounts explicit)
              (ground (arith, (v.sources k).0 explicit))
        | inr silent ↦ ground (
          arith,
          (v.sources k).1 silent,
          last_match-identity k domains c.specific_sources accounts,
          last_match-identity_mailbox username domain domains c.specific_sources accounts mailbox
              found silent,
        )
      ])
