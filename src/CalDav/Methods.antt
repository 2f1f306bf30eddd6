-- ===== src/CalDav/Methods.antt =====
-- The methods of the protocol in web/routes/caldav.rs, each on the resource that the path names. XML
-- and pages are what they are made of. A path that panics has no answer, which 0 stands for.
use mailserver.Prelude.{
  ℕ, ◌+◌, Bool, false, not, ◌&&◌, ◌||◌, Option, none, some, List, [], ◌∷◌, ◌==◌, leb, if◌then◌else◌,
  Text, codes, text_eq, is_empty, length, contains, contains_char, all, is_ascii_lowercase,
  is_ascii_digit,
}
use mailserver.WebDav.Files.{DavAccount}
use mailserver.CalDav.Tables.{
  CalDavCalendar, CalDavObject, list_caldav_calendars_for_account, get_caldav_calendar_by_slug,
  update_caldav_calendar_ctag, delete_caldav_calendar, cascade, list_caldav_objects,
  get_caldav_object_by_filename, create_or_update_caldav_object, delete_caldav_object_by_filename,
}
use mailserver.CalDav.Texts.{
  extract_uid_from_ics, extract_displayname_from_xml, extract_description_from_xml,
  extract_color_from_xml, trim_end_matches, extract_hrefs_from_multiget, build_icalendar_feed,
}
use mailserver.CalDav.Auth.{
  World, State, Response, page, principal, no_objects, accepted, home, calendar,
  calendar_with_objects, object, report, ics, feed, stored, plain, multistatus, account_email,
  CalDavResource, principal_of, calendar_home_set, calendar_of, calendar_object,
}

abbrev pub panicked : Response
panicked = plain 0

abbrev pub unwrap_or : Text → Option Text → Text
unwrap_or t none = t
unwrap_or t (some s) = s

-- The calendar of the account under the slug, or 404.
unfoldable pub answer_calendar : DavAccount → Text → State → (CalDavCalendar → Response) → Response
unfolding get_caldav_calendar_by_slug
answer_calendar account slug s k = elim (get_caldav_calendar_by_slug account.id slug s.calendars) [
  | none ↦ plain 404
  | some cal ↦ k cal
]

unfoldable pub answer_object : CalDavCalendar → Text → State → (CalDavObject → Response) → Response
unfolding get_caldav_object_by_filename
answer_object cal filename s k = elim (get_caldav_object_by_filename cal.id filename s.objects) [
  | none ↦ plain 404
  | some o ↦ k o
]

-- No rows where the statement fails.
abbrev objects_of : World → CalDavCalendar → State → List CalDavObject
objects_of world cal s =
    if world.list_fails then [] else world.order_objects (list_caldav_objects cal.id s.objects)

abbrev calendars_of : World → DavAccount → State → List CalDavCalendar
calendars_of world account s =
    world.order_calendars (list_caldav_calendars_for_account account.id s.calendars)

unfoldable pub handle_propfind :
    World → DavAccount → Text → Option CalDavResource → State → Response
unfolding answer_calendar answer_object
handle_propfind world account depth none s = panicked
handle_propfind world account depth (some principal_of) s = multistatus principal
handle_propfind world account depth (some calendar_home_set) s =
    multistatus (home (calendars_of world account s))
handle_propfind world account depth (some (calendar_of slug)) s =
    answer_calendar account slug s (λ cal.
      if text_eq depth (codes "1") || text_eq depth (codes "infinity")
      then multistatus (calendar_with_objects cal (objects_of world cal s))
      else multistatus (calendar cal))
handle_propfind world account depth (some (calendar_object slug filename)) s =
    answer_calendar account slug s
      (λ cal. answer_object cal filename s (λ o. multistatus (object o)))

abbrev contains_text : List Text → Text → Bool
contains_text [] t = false
contains_text (x ∷ xs) t = text_eq x t || contains_text xs t

abbrev requested : List Text → List CalDavObject → List CalDavObject
requested filenames [] = []
requested filenames (o ∷ objects) =
    if contains_text filenames o.filename
    then o ∷ requested filenames objects
    else requested filenames objects

-- No file name found: all objects.
abbrev pub select : List Text → List CalDavObject → List CalDavObject
select [] objects = objects
select (f ∷ filenames) objects = requested (f ∷ filenames) objects

unfoldable pub handle_report :
    World → DavAccount → Option Text → Option CalDavResource → State → Response
unfolding answer_calendar extract_hrefs_from_multiget
handle_report world account body none s = panicked
handle_report world account body (some principal_of) s = multistatus no_objects
handle_report world account body (some (calendar_object slug filename)) s = multistatus no_objects
handle_report world account body (some calendar_home_set) s =
    multistatus (home (calendars_of world account s))
handle_report world account body (some (calendar_of slug)) s =
    let report_body = unwrap_or [] body in
    answer_calendar account slug s (λ cal.
      let objects = objects_of world cal s in
      if contains (codes "calendar-multiget") report_body
      then multistatus (
          report
            (select (extract_hrefs_from_multiget report_body (account_email account) slug) objects))
      else multistatus (report objects))

-- `is_safe_path_component` of web/routes/webmail.rs
unfoldable pub is_safe_path_component : Text → Bool
is_safe_path_component s =
    not (is_empty s)
    && not (contains_char b'/' s)
    && not (contains_char b'\\' s)
    && not (text_eq s (codes "."))
    && not (text_eq s (codes ".."))

abbrev is_slug_char : ℕ → Bool
is_slug_char c = is_ascii_lowercase c || is_ascii_digit c || c == b'-' || c == b'_'

abbrev pub max_calendars_per_account : ℕ
max_calendars_per_account = 500

abbrev pub new_calendar : World → DavAccount → Text → Option Text → State → CalDavCalendar
new_calendar world account slug body s = record {
  id = s.next_calendar;
  account_id = account.id;
  slug = slug;
  display_name = unwrap_or slug (extract_displayname_from_xml body);
  description = unwrap_or [] (extract_description_from_xml body);
  color = unwrap_or (codes "#0000FF") (extract_color_from_xml body);
  ctag = world.fresh_ctag;
}

-- UNIQUE(account_id, slug): its error is told from the others by its text.
unfoldable pub create_caldav_calendar : World → CalDavCalendar → State → Response × State
unfolding get_caldav_calendar_by_slug
create_caldav_calendar world new s =
    elim (get_caldav_calendar_by_slug new.account_id new.slug s.calendars) [
      | some there ↦ (plain 405, s)
      | none ↦ if world.insert_fails then (plain 500, s) else (
        plain 201,
        record s { calendars = new ∷ s.calendars; next_calendar = s.next_calendar + 1 },
      )
    ]

unfoldable pub make_calendar : World → DavAccount → Text → Option Text → State → Response × State
unfolding create_caldav_calendar is_safe_path_component
make_calendar world account slug body s =
    if not (is_safe_path_component slug && all is_slug_char slug)
    then (plain 400, s)
    else if leb max_calendars_per_account (length (calendars_of world account s))
    then (plain 507, s)
    else create_caldav_calendar world (new_calendar world account slug body s) s

unfoldable pub handle_mkcalendar :
    World → DavAccount → Option Text → Option CalDavResource → State → Response × State
unfolding make_calendar
handle_mkcalendar world account body none s = (panicked, s)
handle_mkcalendar world account body (some (calendar_of slug)) s =
    make_calendar world account (world.lower slug) body s
handle_mkcalendar world account body (some resource) s = (plain 409, s)

unfoldable pub handle_get : World → DavAccount → Option CalDavResource → State → Response
unfolding answer_calendar answer_object build_icalendar_feed
handle_get world account none s = panicked
handle_get world account (some (calendar_object slug filename)) s =
    answer_calendar account slug s (λ cal.
      answer_object cal filename s (λ o. record { status = 200; content = ics o.ics_data o.etag }))
handle_get world account (some (calendar_of slug)) s = answer_calendar account slug s (λ cal.
    record {
      status = 200;
      content = feed (build_icalendar_feed world.upper cal.display_name (objects_of world cal s));
    })
handle_get world account (some resource) s = record { status = 200; content = page }

abbrev pub max_objects_per_calendar : ℕ
max_objects_per_calendar = 2000

abbrev pub new_object : World → CalDavCalendar → Text → Text → State → CalDavObject
new_object world cal filename ics_data s = record {
  id = s.next_object;
  calendar_id = cal.id;
  uid = unwrap_or (trim_end_matches (codes ".ics") filename) (extract_uid_from_ics ics_data);
  filename = filename;
  etag = world.compute_etag ics_data;
  ics_data = ics_data;
}

-- The object and a new ctag of its calendar.
unfoldable pub store_object : World → CalDavObject → State → Response × State
store_object world new s = if world.upsert_fails then (plain 500, s) else (
  record { status = 201; content = stored new.etag },
  record s {
    objects = create_or_update_caldav_object new s.objects;
    calendars = update_caldav_calendar_ctag new.calendar_id world.fresh_ctag s.calendars;
    next_object = s.next_object + 1;
  },
)

-- The cap is for new objects only. The lookup, the list and the upsert are three statements without a
-- transaction: the state is the one that all three meet where no other request comes between them.
unfoldable pub put_object : World → CalDavCalendar → Text → Text → State → Response × State
unfolding store_object get_caldav_object_by_filename
put_object world cal filename ics_data s =
    elim (get_caldav_object_by_filename cal.id filename s.objects) [
      | some there ↦ store_object world (new_object world cal filename ics_data s) s
      | none ↦
          if leb max_objects_per_calendar (length (objects_of world cal s))
          then (plain 507, s)
          else store_object world (new_object world cal filename ics_data s) s
    ]

unfoldable pub put_data : World → DavAccount → Text → Text → Option Text → State → Response × State
unfolding put_object get_caldav_calendar_by_slug
put_data world account slug filename none s = (plain 400, s)
put_data world account slug filename (some ics_data) s =
    elim (get_caldav_calendar_by_slug account.id slug s.calendars) [
      | none ↦ (plain 404, s)
      | some cal ↦ put_object world cal filename ics_data s
    ]

unfoldable pub handle_put :
    World → DavAccount → Option Text → Option CalDavResource → State → Response × State
unfolding put_data
handle_put world account body none s = (panicked, s)
handle_put world account body (some (calendar_object slug filename)) s =
    put_data world account slug filename body s
handle_put world account body (some resource) s = (plain 409, s)

unfoldable pub handle_delete : World → DavAccount → Option CalDavResource → State → Response × State
unfolding get_caldav_calendar_by_slug
handle_delete world account none s = (panicked, s)
handle_delete world account (some (calendar_object slug filename)) s =
    elim (get_caldav_calendar_by_slug account.id slug s.calendars) [
      | none ↦ (plain 404, s)
      | some cal ↦ (
        plain 204,
        record s {
          objects = delete_caldav_object_by_filename cal.id filename s.objects;
          calendars = update_caldav_calendar_ctag cal.id world.fresh_ctag s.calendars;
        },
      )
    ]
handle_delete world account (some (calendar_of slug)) s =
    elim (get_caldav_calendar_by_slug account.id slug s.calendars) [
      | none ↦ (plain 404, s)
      | some cal ↦ (
        plain 204,
        record s {
          calendars = delete_caldav_calendar cal.id s.calendars;
          objects = cascade cal.id s.objects;
        },
      )
    ]
handle_delete world account (some resource) s = (plain 403, s)

-- Nothing is changed.
unfoldable pub handle_proppatch : DavAccount → Option CalDavResource → State → Response
unfolding answer_calendar
handle_proppatch account none s = panicked
handle_proppatch account (some (calendar_of slug)) s =
    answer_calendar account slug s (λ cal. multistatus accepted)
handle_proppatch account (some resource) s = multistatus accepted
