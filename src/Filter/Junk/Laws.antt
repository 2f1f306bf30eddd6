-- ===== src/Filter/Junk/Laws.antt =====
-- When `move_recipient_to_junk` of filter.rs delivers to the Junk folder.
use mailserver.Prelude.{
  ◌≡◌, refl, ◌↔◌, Bool, true, some, List, [], ◌∷◌, all, arith, Bool-cases, inl, inr, Text, trim,
  split_char,
}
use mailserver.Filter.Junk.{
  maildir_base, maildirs, is_path_safe, junk_address, junk_of_parts, junk_of_pieces,
  move_recipient_to_junk,
}

-- The parts are safe, the directories could be made, and the owner changed.
abbrev pub IsPrepared : (Text → Bool) → (Text → Bool) → Text → Text → Text → Type 0
IsPrepared create chown mail_root local domain =
    (is_path_safe local domain ≡ true)
    × (all create (maildirs (maildir_base mail_root local domain)) ≡ true)
    × (chown (maildir_base mail_root local domain) ≡ true)

module _ (create chown : Text → Bool) (mail_root : Text) where
  junk_of_parts_iff :
      (local domain junk : Text)
      → (junk_of_parts create chown mail_root local domain ≡ some junk)
        ↔ (IsPrepared create chown mail_root local domain × (junk_address local domain ≡ junk))
  unfolding junk_of_parts
  junk_of_parts_iff local domain junk = elim (Bool-cases (is_path_safe local domain)) [
    | inr unsafe ↦ (λ e. absurd (ground (arith, rw (junk_of_parts, unsafe) at e)), λ h. cc)
    | inl safe ↦ elim (Bool-cases (all create (maildirs (maildir_base mail_root local domain)))) [
      | inr unmade ↦ (λ e. absurd (ground (arith, rw (junk_of_parts, safe, unmade) at e)), λ h. cc)
      | inl made ↦ elim (Bool-cases (chown (maildir_base mail_root local domain))) [
        | inr refused ↦
            (λ e. absurd (ground (arith, rw (junk_of_parts, safe, made, refused) at e)), λ h. cc)
        | inl owned ↦ (
          λ e. ((safe, made, owned), ground (arith, rw (junk_of_parts, safe, made, owned) at e)),
          λ h. rw (junk_of_parts, safe, made, owned) (ground arith),
        )
      ]
    ]
  ]

  junk_of_pieces-two :
      (pieces : List Text) (junk : Text)
      → junk_of_pieces create chown mail_root pieces ≡ some junk
      → (local : Text) × (domain : Text) × (pieces ≡ local ∷ domain ∷ [])
        × (junk_of_parts create chown mail_root (trim local) (trim domain) ≡ some junk)
  unfolding junk_of_pieces
  junk_of_pieces-two [] junk e = cc
  junk_of_pieces-two (local ∷ []) junk e = cc
  junk_of_pieces-two (local ∷ domain ∷ []) junk e = (local, domain, refl, e)
  junk_of_pieces-two (local ∷ domain ∷ more ∷ pieces) junk e = cc

  -- A recipient is moved to the Junk folder exactly if the address is two parts around one
  -- separator that are not empty and hold no slash and no two dots, every directory of the mailbox
  -- could be made and its owner changed; the new address is the mailbox without its extension, with
  -- the extension Junk.
  pub move_recipient_to_junk_iff :
      (recipient junk : Text)
      → (move_recipient_to_junk create chown recipient mail_root ≡ some junk) ↔ (
          (local : Text) × (domain : Text) × (split_char b'@' recipient ≡ local ∷ domain ∷ [])
          × IsPrepared create chown mail_root (trim local) (trim domain)
          × (junk_address (trim local) (trim domain) ≡ junk))
  unfolding move_recipient_to_junk junk_of_pieces
  move_recipient_to_junk_iff recipient junk = (
    λ e.
        let (local, domain, two, e') = junk_of_pieces-two (split_char b'@' recipient) junk e in
        let (prepared, same) = (junk_of_parts_iff (trim local) (trim domain) junk).0 e' in
        (local, domain, two, prepared, same),
    λ (local, domain, two, prepared, same).
        rw (move_recipient_to_junk, two, junk_of_pieces)
          ((junk_of_parts_iff (trim local) (trim domain) junk).1 (prepared, same)),
  )
