-- ===== src/CalDav/Handler.antt =====
-- protocol_handler of web/routes/caldav.rs.
use mailserver.Prelude.{
  ℕ, Bool, false, not, ◌&&◌, ◌||◌, Option, none, some, ◌++◌, ltb, if◌then◌else◌, Text, codes,
  text_eq, starts_with,
}
use mailserver.WebDav.Files.{DavAccount}
use mailserver.CalDav.Auth.{
  Request, World, State, Response, plain, authenticate_caldav_account, account_email,
  parse_caldav_resource,
}
use mailserver.CalDav.Methods.{
  handle_propfind, handle_report, handle_mkcalendar, handle_get, handle_put, handle_delete,
  handle_proppatch,
}

abbrev pub max_body_bytes : ℕ
max_body_bytes = 4_194_304

abbrev pub is_own : World → DavAccount → Text → Bool
is_own world account path =
    let own = codes "/caldav/" ++ world.lower (account_email account) in
    starts_with (own ++ codes "/") (world.lower path) || text_eq (world.lower path) own

abbrev announces_too_much : Option ℕ → Bool
announces_too_much none = false
announces_too_much (some len) = ltb max_body_bytes len

abbrev is_upload : Text → Bool
is_upload method = text_eq method (codes "PUT") || text_eq method (codes "MKCALENDAR")

unfoldable pub dispatch : World → DavAccount → Request → State → Response × State
unfolding handle_mkcalendar handle_put handle_delete
dispatch world account req s =
    let resource = parse_caldav_resource world req.path (account_email account) in
    if text_eq req.method (codes "OPTIONS")
    then (plain 200, s)
    else if text_eq req.method (codes "PROPFIND")
    then (handle_propfind world account req.depth resource s, s)
    else if text_eq req.method (codes "REPORT")
    then (handle_report world account req.body resource s, s)
    else if text_eq req.method (codes "MKCALENDAR")
    then handle_mkcalendar world account req.body resource s
    else if text_eq req.method (codes "GET") || text_eq req.method (codes "HEAD")
    then (handle_get world account resource s, s)
    else if text_eq req.method (codes "PUT")
    then handle_put world account req.body resource s
    else if text_eq req.method (codes "DELETE")
    then handle_delete world account resource s
    else if text_eq req.method (codes "PROPPATCH")
    then (handle_proppatch account resource s, s)
    else (plain 405, s)

-- With the account known.
unfoldable pub serve_account : World → Option DavAccount → Request → State → Response × State
unfolding dispatch
serve_account world none req s = (plain 401, s)
serve_account world (some account) req s =
    if not (is_own world account req.path)
    then (plain 403, s)
    else if is_upload req.method && announces_too_much req.content_length
    then (plain 413, s)
    else if ltb max_body_bytes req.body_bytes
    then (plain 413, s)
    else dispatch world account req s

unfoldable pub protocol_handler : World → Request → State → Response × State
unfolding authenticate_caldav_account serve_account
protocol_handler world req s =
    let (account, s') = authenticate_caldav_account world req.authorization s in
    serve_account world account req s'
