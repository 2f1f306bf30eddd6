-- ===== src/CalDav/Tables.antt =====
-- The tables caldav_calendars and caldav_objects of db.rs and the statements on them. A query answers
-- in the order that the database gives, an argument.
use mailserver.Prelude.{
  ℕ, Bool, ◌&&◌, Option, none, some, List, [], ◌∷◌, ◌==◌, if◌then◌else◌, Text, text_eq,
}

pub record CalDavCalendar : Type 0 where
  pub id : ℕ
  pub account_id : ℕ
  pub slug : Text
  pub display_name : Text
  pub description : Text
  pub color : Text
  pub ctag : Text

pub record CalDavObject : Type 0 where
  pub id : ℕ
  pub calendar_id : ℕ
  pub uid : Text
  pub filename : Text
  pub etag : Text
  pub ics_data : Text

unfoldable pub list_caldav_calendars_for_account : ℕ → List CalDavCalendar → List CalDavCalendar
list_caldav_calendars_for_account account [] = []
list_caldav_calendars_for_account account (c ∷ calendars) =
    let rest = list_caldav_calendars_for_account account calendars in
    if c.account_id == account then c ∷ rest else rest

abbrev pub is_calendar : ℕ → Text → CalDavCalendar → Bool
is_calendar account slug c = c.account_id == account && text_eq c.slug slug

-- UNIQUE(account_id, slug): there is at most one.
unfoldable pub get_caldav_calendar_by_slug : ℕ → Text → List CalDavCalendar → Option CalDavCalendar
get_caldav_calendar_by_slug account slug [] = none
get_caldav_calendar_by_slug account slug (c ∷ calendars) =
    if is_calendar account slug c
    then some c
    else get_caldav_calendar_by_slug account slug calendars

unfoldable pub update_caldav_calendar_ctag : ℕ → Text → List CalDavCalendar → List CalDavCalendar
update_caldav_calendar_ctag id ctag [] = []
update_caldav_calendar_ctag id ctag (c ∷ calendars) =
    let rest = update_caldav_calendar_ctag id ctag calendars in
    if c.id == id then record c { ctag = ctag } ∷ rest else c ∷ rest

unfoldable pub delete_caldav_calendar : ℕ → List CalDavCalendar → List CalDavCalendar
delete_caldav_calendar id [] = []
delete_caldav_calendar id (c ∷ calendars) =
    let rest = delete_caldav_calendar id calendars in if c.id == id then rest else c ∷ rest

-- ON DELETE CASCADE of the reference to the calendar.
unfoldable pub cascade : ℕ → List CalDavObject → List CalDavObject
cascade id [] = []
cascade id (o ∷ objects) =
    let rest = cascade id objects in if o.calendar_id == id then rest else o ∷ rest

unfoldable pub list_caldav_objects : ℕ → List CalDavObject → List CalDavObject
list_caldav_objects calendar [] = []
list_caldav_objects calendar (o ∷ objects) =
    let rest = list_caldav_objects calendar objects in
    if o.calendar_id == calendar then o ∷ rest else rest

abbrev pub is_object : ℕ → Text → CalDavObject → Bool
is_object calendar filename o = o.calendar_id == calendar && text_eq o.filename filename

-- UNIQUE(calendar_id, filename): there is at most one.
unfoldable pub get_caldav_object_by_filename : ℕ → Text → List CalDavObject → Option CalDavObject
get_caldav_object_by_filename calendar filename [] = none
get_caldav_object_by_filename calendar filename (o ∷ objects) =
    if is_object calendar filename o
    then some o
    else get_caldav_object_by_filename calendar filename objects

-- ON CONFLICT (calendar_id, filename) DO UPDATE, else a new row.
unfoldable pub create_or_update_caldav_object : CalDavObject → List CalDavObject → List CalDavObject
create_or_update_caldav_object new [] = new ∷ []
create_or_update_caldav_object new (o ∷ objects) =
    let rest = create_or_update_caldav_object new objects in
    if is_object new.calendar_id new.filename o
    then record o { uid = new.uid; etag = new.etag; ics_data = new.ics_data } ∷ objects
    else o ∷ rest

unfoldable pub delete_caldav_object_by_filename : ℕ → Text → List CalDavObject → List CalDavObject
delete_caldav_object_by_filename calendar filename [] = []
delete_caldav_object_by_filename calendar filename (o ∷ objects) =
    let rest = delete_caldav_object_by_filename calendar filename objects in
    if is_object calendar filename o then rest else o ∷ rest
