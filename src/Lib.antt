-- ===== src/Lib.antt =====
-- The mail server: verified models of its core.
--
-- The program runs Postfix and Dovecot behind a web administration. Its own logic is what this
-- library models, each part in the files named after it:
--
--   Auth/Secrets    the comparison of secrets in src/db.rs (constant_time_eq, verify_api_token) and
--                   the passwords and one-time codes of src/auth.rs (validate_password_length,
--                   verify_totp, generate_totp). HMAC-SHA1 and the base-32 decoder are arguments.
--   Auth/Lockout    the login limiter of src/web/auth.rs (is_locked_out, record_failure,
--                   clear_failures): one record for each client address, times in nanoseconds.
--   Auth/Extractor  the extractor AuthAdmin of src/web/auth.rs, which stands before every page: it
--                   asks the limiter, reads the Authorization header and the database, charges
--                   failures to the client's address and writes the lines that fail2ban reads.
--   Mcp/Guard       the guard McpGuard of src/web/mod.rs, which limits the calls of the MCP endpoint
--                   by key with sliding windows.
--   Filter/Envelope the test is_safe_smtp_addr of src/filter.rs.
--   Filter/Smtp     the SMTP client of src/filter.rs (reinject_smtp, read_smtp_response,
--                   smtp_expect), which hands a filtered mail back to Postfix and writes only
--                   addresses that pass Filter/Envelope.
--   Filter/Headers  inject_headers, extract_header, strip_dkim_signatures and extract_sender_ip of
--                   src/filter.rs.
--   Filter/Body     inject_footer, strip_html_tags, body_is_encoded and the tracking pixel.
--   Filter/Junk     move_recipient_to_junk: the mailbox of a recipient and its Junk address.
--   Filter/Stages   the stages of run_filter: rate limits with the registry of messages seen
--                   (rate_limit_message_seen), footer, unsubscribe header, block lists, pixel.
--   Filter/Pipeline run_filter itself, which composes the stages, strips signatures from a changed
--                   mail, and hands it back over Filter/Smtp, unmodified if that fails.
--   Rules           the patterns and conditions of src/db.rs (matches_from_pattern,
--                   evaluate_condition, evaluate_rule) and what tracking and footers make of them;
--                   Rules/RateLimit is check_rate_limit with its table of counts.
--   FailToBan       handle_auth_failure of src/fail2ban.rs and the tables of src/db.rs that it works
--                   on; it bans the addresses that other parts write failures of.
--   Web/Csrf        csrf_middleware of src/web/mod.rs, which every request passes.
--   Web/Outbound    validate_outbound_url, is_obfuscated_ip_literal and ip_is_blocked of
--                   src/web/mod.rs, the check of webhook URLs.
--   Web/Truncate    truncate_utf8 of src/web/mod.rs.
--   Registration    POST /register of src/web/routes/registration.rs (reg_rate_limited,
--                   validate_username, handle_form) in Limiter and Form, over the tables of domains,
--                   accounts and invite codes of src/db.rs with their statements in Tables.
--   Config          the map files of Postfix and Dovecot that src/config.rs writes: sanitize_map_token
--                   and sanitize_map_address in Addresses, the entries of aliases, copies and logins
--                   in Entries, the contents of the files in Files.
--   Provision       src/provision.rs: sh_single_quote and exec_argv in Shell, validate_remote_path in
--                   Paths, parse_args in Params, push_capped in Capture, upload_file in Upload.
--   WebDav          src/web/routes/webdav.rs: the limiter dav_auth in Lockout, require_webdav_auth in
--                   Auth, the branches of dav_handler in Methods and dav_handler in Handler, the
--                   FileLink pages in FileLink; Files is the table webdav_files of src/db.rs.
--   CalDav          src/web/routes/caldav.rs: authenticate_caldav_account and the paths in Auth, the
--                   methods in Methods, protocol_handler in Handler, the functions on iCalendar and XML
--                   in Texts; Tables holds the statements of src/db.rs on calendars and objects.
--   Forms           the validators of src/web/forms.rs.
--   Queue           src/web/routes/queue.rs: the pages that run commands, and parse_queue_output.
--   Net             the addresses of clients.
--   Prelude         texts as lists of code points with the operations of Rust's str, maps as
--                   association lists, and their laws.
--   Tests           runs at concrete inputs.
--
-- State is passed explicitly: a failure map, a guard, a socket is an argument and a result. The
-- limiters keep their maps behind a mutex for the whole of an operation, and an upload of WebDav
-- holds a lock from the quota on, so these are one step each. The other handlers await several
-- statements one after the other without a lock or a transaction; handle_form of Registration,
-- handle_put of CalDav and their like are modelled as one request that runs alone, and a theorem
-- on several of them is on requests that are served one after the other. The statement that
-- claims an invite code is one statement in the source as well. The clock is an argument, read
-- where the source reads it. Numbers are natural numbers; where the source uses a machine width
-- that an input can reach (the step of a one-time code, the count of MCP failures) the wrap-
-- around is written out. Every loop is structural on its input, except three that run on fuel:
-- the digits of a number, twenty of them, which hold every number below 2^64; and in CalDav/Texts
-- the repetitions that are cut off the end of a name and the search for hrefs, which have the
-- length of the text, since each round takes at least one character away.
--
-- A slice of a text at a number of bytes that is not between characters panics in the source; it
-- is a result of its own here (`none`, `panicked`).
--
-- Not modelled: SQL and the store behind it (a statement is a function on a list of rows, which
-- keeps the constraints and conditions it names; it fails only where the model has an argument
-- that says so, so a failing lookup is mostly left out), external processes, the webhook, DNS
-- queries, HTML, XML and JSON rendering, the tailing of logs, and the connection that the SMTP
-- client opens; what the modelled code asks of them are arguments.
mod Prelude
pub mod Net
pub mod Auth
pub mod Mcp
pub mod FailToBan
pub mod Web
pub mod Rules
pub mod Registration
pub mod Config
pub mod Provision
pub mod WebDav
pub mod CalDav
pub mod Forms
pub mod Queue
pub mod Filter
mod Tests
