-- ===== src/WebDav/Access.antt =====
-- Who can change what behind /dav/ in web/routes/webdav.rs.
use mailserver.Prelude.{
  ℕ, ◌≡◌, refl, ◌⊎◌, inl, inr, not, Option, none, some, Text, codes, text_eq, text_eq_iff, is_empty,
  Bool-cases, ap, ◌∙◌, text_eq_instance,
}
use mailserver.WebDav.Files.{list_webdav_files_for_owner}
use mailserver.WebDav.Auth.{Request, World, State, require_webdav_auth}
use mailserver.WebDav.Methods.{on_resource}
use mailserver.WebDav.Handler.{parse_path, authorized, dav_handler, is_enabled}
use mailserver.WebDav.Authentic.{
  Authentic, SameStore, require_webdav_auth-Authentic, require_webdav_auth-SameStore,
}
use mailserver.WebDav.Owned.{KeepsOther, on_resource-KeepsOther}

-- A change that the sender was allowed to make, in the space of this owner.
pub record Allowed (world : World) (req : Request) (owner : Text) (s t : State) : Type 0 where
  pub id : ℕ
  pub email : Text
  pub authentic : Authentic world req s.accounts id email
  pub own : world.lower email ≡ world.lower owner
  pub kept : KeepsOther world owner s t

KeepsOther-from :
    (world : World) (owner : Text) (s s' t : State)
    → SameStore s' s
    → KeepsOther world owner s' t
    → KeepsOther world owner s t
KeepsOther-from world owner s s' t (files, disk) (rows, kept_bytes) = (
  λ other h. rows other h ∙ ap (list_webdav_files_for_owner other) files,
  λ owner_of h. rw (← files, ← disk) (kept_bytes owner_of (rw files h)),
)

authorized-Allowed :
    (world : World) (req : Request) (s s' : State) (auth_result : Option (ℕ × Text)) (owner : Text)
    (filename : Option Text)
    → SameStore s' s
    → ((id : ℕ) (who : Text) → auth_result ≡ some (id, who) → Authentic world req s.accounts id who)
    → SameStore (authorized world auth_result owner filename req s').1 s
      ⊎ Allowed world req owner s (authorized world auth_result owner filename req s').1
unfolding authorized
authorized-Allowed world req s s' none owner filename same shown = inl same
authorized-Allowed world req s s' (some (id, who)) owner filename same shown =
    elim (Bool-cases (text_eq (world.lower who) (world.lower owner))) [
      | inr other ↦ inl (rw (authorized, other) same)
      | inl own ↦ inr (record {
        id = id;
        email = who;
        authentic = shown id who refl;
        own = (text_eq_iff (world.lower who) (world.lower owner)).0 own;
        kept =
            rw (authorized, own)
              (KeepsOther-from world owner s s' (on_resource world id owner filename req s').1 same
                (on_resource-KeepsOther world id owner filename req s'));
      })
    ]

-- A request leaves every file and every byte as it was, unless its sender gave the password of an
-- active account whose address is the owner in the path, but for the case of letters; and even then
-- the rows of all other owners stay as they were, and the bytes of their files too, if no two owners
-- share a token and the fresh token is new.
pub dav_handler-Allowed :
    (world : World) (req : Request) (s : State)
    → SameStore (dav_handler world req s).1 s
      ⊎ Allowed world req (parse_path req.path).0 s (dav_handler world req s).1
unfolding dav_handler
dav_handler-Allowed world req s = elim (Bool-cases (not (is_enabled world.webdav_enabled))) [
  | inl off ↦ inl (rw (dav_handler, off) (refl, refl))
  | inr on ↦ elim (Bool-cases (text_eq req.method (codes "OPTIONS"))) [
    | inl asks ↦ inl (rw (dav_handler, on, asks) (refl, refl))
    | inr acts ↦ elim (Bool-cases (is_empty (parse_path req.path).0)) [
      | inl nobody ↦ inl (rw (dav_handler, on, acts, nobody) (refl, refl))
      | inr somebody ↦
          rw (dav_handler, on, acts, somebody)
            (authorized-Allowed world req s (require_webdav_auth world req.authorization s).1
              (require_webdav_auth world req.authorization s).0 (parse_path req.path).0
              (parse_path req.path).1 (require_webdav_auth-SameStore world req.authorization s)
              (require_webdav_auth-Authentic world req s))
    ]
  ]
]
