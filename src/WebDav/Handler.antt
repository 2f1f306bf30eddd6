-- ===== src/WebDav/Handler.antt =====
-- dav_handler of web/routes/webdav.rs. The router has taken the path apart at /dav/ and decoded it.
use mailserver.Prelude.{
  ℕ, Bool, true, not, Option, none, some, if◌then◌else◌, Text, codes, text_eq, is_empty, split_once,
  text_eq_instance,
}
use mailserver.WebDav.Auth.{Request, World, State, Response, plain, require_webdav_auth}
use mailserver.WebDav.Methods.{on_resource}

-- "user@domain" or "user@domain/filename"
abbrev pub name_of : Text → Option Text
name_of f = if is_empty f then none else some f

unfoldable pub parse_path : Text → Text × Option Text
unfolding split_once is_empty
parse_path path = elim (split_once b'/' path) [
  | none ↦ (path, none)
  | some (owner, f) ↦ (owner, name_of f)
]

-- With the sender known: only the own space is open.
unfoldable pub authorized :
    World → Option (ℕ × Text) → Text → Option Text → Request → State → Response × State
unfolding on_resource
authorized world none owner filename req s = (plain 401, s)
authorized world (some (account_id, authed_owner)) owner filename req s =
    if text_eq (world.lower authed_owner) (world.lower owner)
    then on_resource world account_id owner filename req s
    else (plain 403, s)

abbrev pub is_enabled : Option Text → Bool
is_enabled none = true
is_enabled (some v) = not (text_eq v (codes "false"))

unfoldable pub dav_handler : World → Request → State → Response × State
unfolding parse_path require_webdav_auth authorized
dav_handler world req s =
    let (owner, filename) = parse_path req.path in
    let (auth_result, s') = require_webdav_auth world req.authorization s in
    if not (is_enabled world.webdav_enabled)
    then (plain 503, s)
    else if text_eq req.method (codes "OPTIONS")
    then (plain 200, s)
    else if is_empty owner
    then (plain 400, s)
    else authorized world auth_result owner filename req s'
