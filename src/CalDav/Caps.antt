-- ===== src/CalDav/Caps.antt =====
-- The caps on calendars and their objects in web/routes/caldav.rs.
use mailserver.Prelude.{
  ℕ, ◌+◌, ◌≤◌, ◌≡◌, refl, sym, ==_iff, inl, inr, false, Option, none, some, List, [], ◌∷◌, ◌==◌,
  if◌then◌else◌, leb, length, Text, arith, Bool-cases, Option-cases,
}
use mailserver.WebDav.Files.{DavAccount}
use mailserver.CalDav.Tables.{
  CalDavCalendar, CalDavObject, is_object, list_caldav_objects, get_caldav_object_by_filename,
  create_or_update_caldav_object, delete_caldav_object_by_filename, cascade,
  get_caldav_calendar_by_slug,
}
use mailserver.CalDav.Auth.{
  World, State, Request, CalDavResource, principal_of, calendar_home_set, calendar_of,
  calendar_object, parse_caldav_resource, account_email, authenticate_caldav_account,
}
use mailserver.CalDav.Access.{authenticate-SameTables, serve_account-cases}
use mailserver.CalDav.Handler.{dispatch, serve_account, protocol_handler}
use mailserver.CalDav.Methods.{
  handle_put, put_data, put_object, store_object, new_object, max_objects_per_calendar,
  handle_delete, handle_mkcalendar, make_calendar, create_caldav_calendar,
}

abbrev pub count_objects : ℕ → List CalDavObject → ℕ
count_objects id objects = length (list_caldav_objects id objects)

-- ORDER BY keeps the number of rows.
abbrev pub Orders : World → Type 0
Orders world = (objects : List CalDavObject) → length (world.order_objects objects) ≡ length objects

count-upsert :
    (id : ℕ) (new : CalDavObject) (objects : List CalDavObject)
    → count_objects id (create_or_update_caldav_object new objects) ≤ count_objects id objects + 1
unfolding list_caldav_objects create_or_update_caldav_object
count-upsert id new [] = ground arith
count-upsert id new (o ∷ objects) = ground (arith, count-upsert id new objects)

count-upsert_other :
    (id : ℕ) (new : CalDavObject) (objects : List CalDavObject)
    → (new.calendar_id == id) ≡ false
    → count_objects id (create_or_update_caldav_object new objects) ≡ count_objects id objects
unfolding list_caldav_objects create_or_update_caldav_object
count-upsert_other id new [] h = ground arith
count-upsert_other id new (o ∷ objects) h = ground (arith, h, count-upsert_other id new objects h)

count-upsert_there :
    (id : ℕ) (new : CalDavObject) (objects : List CalDavObject) {o : CalDavObject}
    → get_caldav_object_by_filename new.calendar_id new.filename objects ≡ some o
    → count_objects id (create_or_update_caldav_object new objects) ≡ count_objects id objects
unfolding list_caldav_objects create_or_update_caldav_object get_caldav_object_by_filename
count-upsert_there id new [] h = absurd (ground arith)
count-upsert_there id new (p ∷ objects) {o} h =
    elim (Bool-cases (is_object new.calendar_id new.filename p)) [
      | inl same ↦ ground (arith, same)
      | inr other ↦
          let rest : get_caldav_object_by_filename new.calendar_id new.filename objects ≡ some o =
            ground (arith, other) in
          ground (arith, other, count-upsert_there id new objects rest)
    ]

not_full :
    (count : ℕ) → leb max_objects_per_calendar count ≡ false → count + 1 ≤ max_objects_per_calendar
not_full count h = ground arith

abbrev pub Capped : List CalDavObject → Type 0
Capped objects = (id : ℕ) → count_objects id objects ≤ max_objects_per_calendar

store_object-Capped :
    (world : World) (new : CalDavObject) (s : State)
    → ((id : ℕ)
        → count_objects id (create_or_update_caldav_object new s.objects)
          ≤ max_objects_per_calendar)
    → Capped s.objects
    → Capped (store_object world new s).1.objects
unfolding store_object
store_object-Capped world new s h k id = ground (arith, h id, k id)

put_object-Capped :
    (world : World) (cal : CalDavCalendar) (filename ics_data : Text) (s : State)
    → world.list_fails ≡ false
    → Orders world
    → Capped s.objects
    → Capped (put_object world cal filename ics_data s).1.objects
unfolding put_object
put_object-Capped world cal filename ics_data s lists orders h =
    let new = new_object world cal filename ics_data s in
    let rows = world.order_objects (list_caldav_objects cal.id s.objects) in
    let count = length (if world.list_fails then [] else rows) in
    let counted : count ≡ count_objects cal.id s.objects =
      rw lists (orders (list_caldav_objects cal.id s.objects)) in
    elim (Option-cases (get_caldav_object_by_filename cal.id filename s.objects)) [
      | inr (o, there) ↦
          rw (put_object, there)
            (store_object-Capped world new s
              (λ id. omega (arith, count-upsert_there id new s.objects there, h id)) h)
      | inl absent ↦ elim (Bool-cases (leb max_objects_per_calendar count)) [
        | inl full ↦ rw (put_object, absent, full) h
        | inr room ↦
            rw (put_object, absent, room)
              (store_object-Capped world new s
                (λ id. elim (Bool-cases (cal.id == id)) [
                  | inr other ↦ omega (arith, count-upsert_other id new s.objects other, h id)
                  | inl this ↦ rw (sym ((==_iff cal.id id).0 this)) (
                      omega
                        (arith, count-upsert cal.id new s.objects, counted, not_full count room))
                ])
                h)
      ]
    ]

count-delete :
    (id calendar : ℕ) (filename : Text) (objects : List CalDavObject)
    → count_objects id (delete_caldav_object_by_filename calendar filename objects)
      ≤ count_objects id objects
unfolding list_caldav_objects delete_caldav_object_by_filename
count-delete id calendar filename [] = ground arith
count-delete id calendar filename (o ∷ objects) =
    ground (arith, count-delete id calendar filename objects)

count-cascade :
    (id calendar : ℕ) (objects : List CalDavObject)
    → count_objects id (cascade calendar objects) ≤ count_objects id objects
unfolding list_caldav_objects cascade
count-cascade id calendar [] = ground arith
count-cascade id calendar (o ∷ objects) = ground (arith, count-cascade id calendar objects)

handle_put-Capped :
    (world : World) (account : DavAccount) (body : Option Text) (resource : Option CalDavResource)
    (s : State)
    → world.list_fails ≡ false
    → Orders world
    → Capped s.objects
    → Capped (handle_put world account body resource s).1.objects
unfolding handle_put put_data
handle_put-Capped world account body none s lists orders h = h
handle_put-Capped world account body (some principal_of) s lists orders h = h
handle_put-Capped world account body (some calendar_home_set) s lists orders h = h
handle_put-Capped world account body (some (calendar_of slug)) s lists orders h = h
handle_put-Capped world account none (some (calendar_object slug filename)) s lists orders h = h
handle_put-Capped world account (some ics_data) (some (calendar_object slug filename)) s lists
      orders h =
    elim (Option-cases (get_caldav_calendar_by_slug account.id slug s.calendars)) [
      | inl missing ↦ rw (handle_put, put_data, missing) h
      | inr (cal, e) ↦
          rw (handle_put, put_data, e)
            (put_object-Capped world cal filename ics_data s lists orders h)
    ]

handle_delete-Capped :
    (world : World) (account : DavAccount) (resource : Option CalDavResource) (s : State)
    → Capped s.objects
    → Capped (handle_delete world account resource s).1.objects
unfolding handle_delete
handle_delete-Capped world account none s h = h
handle_delete-Capped world account (some principal_of) s h = h
handle_delete-Capped world account (some calendar_home_set) s h = h
handle_delete-Capped world account (some (calendar_of slug)) s h =
    elim (Option-cases (get_caldav_calendar_by_slug account.id slug s.calendars)) [
      | inl missing ↦ rw (handle_delete, missing) h
      | inr (cal, e) ↦
          rw (handle_delete, e) (λ id. omega (arith, count-cascade id cal.id s.objects, h id))
    ]
handle_delete-Capped world account (some (calendar_object slug filename)) s h =
    elim (Option-cases (get_caldav_calendar_by_slug account.id slug s.calendars)) [
      | inl missing ↦ rw (handle_delete, missing) h
      | inr (cal, e) ↦
          rw (handle_delete, e)
            (λ id. omega (arith, count-delete id cal.id filename s.objects, h id))
    ]

handle_mkcalendar-objects :
    (world : World) (account : DavAccount) (body : Option Text) (resource : Option CalDavResource)
    (s : State)
    → (handle_mkcalendar world account body resource s).1.objects ≡ s.objects
unfolding handle_mkcalendar make_calendar create_caldav_calendar
handle_mkcalendar-objects world account body none s = refl
handle_mkcalendar-objects world account body (some principal_of) s = refl
handle_mkcalendar-objects world account body (some calendar_home_set) s = refl
handle_mkcalendar-objects world account body (some (calendar_object slug filename)) s = refl
handle_mkcalendar-objects world account body (some (calendar_of slug)) s = ground arith

dispatch-Capped :
    (world : World) (account : DavAccount) (req : Request) (s : State)
    → world.list_fails ≡ false
    → Orders world
    → Capped s.objects
    → Capped (dispatch world account req s).1.objects
unfolding dispatch
dispatch-Capped world account req s lists orders h id =
    let resource = parse_caldav_resource world req.path (account_email account) in
    ground (
      arith,
      h id,
      handle_put-Capped world account req.body resource s lists orders h id,
      handle_delete-Capped world account resource s h id,
      handle_mkcalendar-objects world account req.body resource s,
    )

-- Where requests are served one after the other, the statement that lists objects runs and ORDER BY
-- keeps the number of rows: if every calendar has at most 2000 objects before a request, whatever it
-- is, it has so after.
pub protocol_handler-Capped :
    (world : World) (req : Request) (s : State)
    → world.list_fails ≡ false
    → Orders world
    → Capped s.objects
    → Capped (protocol_handler world req s).1.objects
unfolding protocol_handler serve_account
protocol_handler-Capped world req s lists orders h =
    let s1 = (authenticate_caldav_account world req.authorization s).1 in
    let h1 : Capped s1.objects = rw (authenticate-SameTables world req.authorization s).1 h in
    elim (Option-cases (authenticate_caldav_account world req.authorization s).0) [
      | inl refused ↦ rw (protocol_handler, refused) h1
      | inr (account, e) ↦ elim (serve_account-cases world account req s1) [
        | inl unchanged ↦ rw (protocol_handler, e, unchanged) h1
        | inr (served, own) ↦
            rw (protocol_handler, e, served) (dispatch-Capped world account req s1 lists orders h1)
      ]
    ]
