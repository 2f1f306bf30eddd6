-- ===== src/Tests/CalDav.antt =====
-- The calendar server on concrete inputs.
use mailserver.Prelude.{
  is_ascii_lowercase, is_empty, byte_len, starts_with, lookup, ◌≡◌, refl, ◌⊎◌, true, false, none,
  some, [], ◌∷◌, Text, codes, to_ascii_lowercase, text_eq, arith, contains_char,
}
use mailserver.WebDav.Files.{DavAccount}
use mailserver.CalDav.Tables.{CalDavCalendar}
use mailserver.CalDav.Auth.{
  Request, World, State, ics, calendar_of, calendar_object, parse_caldav_resource,
}
use mailserver.CalDav.Methods.{handle_get, handle_put, handle_mkcalendar}
use mailserver.CalDav.Handler.{protocol_handler}
use mailserver.CalDav.Ownership.{SameTables, Allowed}
use mailserver.CalDav.Access.{IsSender, protocol_handler-Allowed}
use mailserver.CalDav.Storage.{handle_get-handle_put}
use mailserver.CalDav.Caps.{Capped, protocol_handler-Capped}
use mailserver.CalDav.Texts.Escape.{xml_escape-escape, escape}
use mailserver.CalDav.Texts.{xml_escape}
use mailserver.WebDav.Lockout.{is_locked}
use mailserver.CalDav.Tables.{list_caldav_objects}
use mailserver.CalDav.Tables.{list_caldav_calendars_for_account}

abbrev world : World
world = record {
  decode = λ t. some t;
  verify_password = λ p h. text_eq p h;
  lower = to_ascii_lowercase;
  upper = λ t. t;
  sql_lower = to_ascii_lowercase;
  order_calendars = λ calendars. calendars;
  order_objects = λ objects. objects;
  compute_etag = λ t. codes "9f";
  fresh_ctag = codes "2";
  now = 5;
  insert_fails = false;
  upsert_fails = false;
  list_fails = false;
}

abbrev account : DavAccount
account = record {
  id = 3;
  username = codes "al";
  domain = codes "b.org";
  password_hash = codes "pw";
  active = true;
  domain_active = true;
}

abbrev work : CalDavCalendar
work = record {
  id = 7;
  account_id = 3;
  slug = codes "work";
  display_name = codes "Work";
  description = [];
  color = codes "#0000FF";
  ctag = codes "1";
}

abbrev state : State
state = record {
  failures = [];
  accounts = account ∷ [];
  calendars = work ∷ [];
  objects = [];
  next_calendar = 8;
  next_object = 1;
}

abbrev event : Text
event = codes "UID:1\r\n"

abbrev put : Request
put = record {
  method = codes "PUT";
  path = codes "/caldav/al@b.org/calendars/work/1.ics";
  authorization = some (codes "Basic al@b.org:pw");
  content_length = none;
  depth = codes "0";
  body = some event;
  body_bytes = 7;
}

put_test : (protocol_handler world put state).0.status ≡ 201
unfolding protocol_handler is_locked lookup text_eq to_ascii_lowercase starts_with
    parse_caldav_resource byte_len is_empty list_caldav_objects
put_test = refl

protocol_handler-Allowed_example :
    SameTables state (protocol_handler world put state).1
    ⊎ ((a : DavAccount) × IsSender world put state a
        × Allowed a.id state (protocol_handler world put state).1)
protocol_handler-Allowed_example = protocol_handler-Allowed world put state

handle_get-handle_put_example :
    handle_get world account
      (some (calendar_object (codes "work") (codes "1.ics")))
      (handle_put world account
        (some event)
        (some (calendar_object (codes "work") (codes "1.ics")))
        state).1
    ≡ record { status = 200; content = ics event (codes "9f") }
unfolding handle_put text_eq list_caldav_objects
handle_get-handle_put_example =
    handle_get-handle_put world world account (codes "work") (codes "1.ics") event state refl

mkcalendar_test :
    (handle_mkcalendar world account none (some (calendar_of (codes "Home"))) state).0.status ≡ 201
unfolding handle_mkcalendar is_empty to_ascii_lowercase contains_char text_eq is_ascii_lowercase
    list_caldav_calendars_for_account
mkcalendar_test = refl

protocol_handler-Capped_example : Capped (protocol_handler world put state).1.objects
unfolding list_caldav_objects
protocol_handler-Capped_example =
    protocol_handler-Capped world put state refl (λ objects. refl) (λ id. omega arith)

xml_escape-escape_example :
    (xml_escape (codes "<a&b>") ≡ escape (codes "<a&b>"))
    × (contains_char b'<' (xml_escape (codes "<a&b>")) ≡ false)
xml_escape-escape_example = xml_escape-escape (codes "<a&b>")
