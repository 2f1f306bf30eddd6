-- ===== src/CalDav/Ownership.antt =====
-- Who may change which calendars in web/routes/caldav.rs.
use mailserver.Prelude.{
  ℕ, ◌≡◌, refl, ◌⊎◌, inl, inr, Option, none, some, List, [], ◌∷◌, ◌==◌, ==_refl, if◌then◌else◌,
  Text, arith, Bool-cases, Option-cases,
}
use mailserver.WebDav.Files.{DavAccount}
use mailserver.CalDav.Tables.{
  CalDavCalendar, CalDavObject, get_caldav_calendar_by_slug, update_caldav_calendar_ctag,
  delete_caldav_calendar, cascade, create_or_update_caldav_object, delete_caldav_object_by_filename,
}
use mailserver.CalDav.Auth.{
  World, State, Request, CalDavResource, principal_of, calendar_home_set, calendar_of,
  calendar_object, parse_caldav_resource, account_email,
}
use mailserver.CalDav.Methods.{
  handle_put, put_data, put_object, store_object, new_object, handle_delete, handle_mkcalendar,
  make_calendar, create_caldav_calendar, new_calendar,
}
use mailserver.CalDav.Handler.{dispatch}

abbrev pub SameTables : State → State → Type 0
SameTables s s' = (s'.calendars ≡ s.calendars) × (s'.objects ≡ s.objects)

abbrev pub other_calendars : ℕ → List CalDavCalendar → List CalDavCalendar
other_calendars id [] = []
other_calendars id (c ∷ calendars) =
    if c.id == id then other_calendars id calendars else c ∷ other_calendars id calendars

abbrev pub other_objects : ℕ → List CalDavObject → List CalDavObject
other_objects id [] = []
other_objects id (o ∷ objects) =
    if o.calendar_id == id then other_objects id objects else o ∷ other_objects id objects

-- One calendar and its objects may differ.
abbrev pub SameBut : ℕ → State → State → Type 0
SameBut id s s' =
    (other_calendars id s'.calendars ≡ other_calendars id s.calendars)
    × (other_objects id s'.objects ≡ other_objects id s.objects)

-- What a request may do for an account: nothing, change one calendar of the account, or make one.
pub data Allowed (account : ℕ) (s s' : State) : Type 0 where
  same : SameTables s s' → Allowed account s s'
  touched :
      (cal : CalDavCalendar) (slug : Text)
      → get_caldav_calendar_by_slug account slug s.calendars ≡ some cal
      → SameBut cal.id s s'
      → Allowed account s s'
  made :
      (cal : CalDavCalendar)
      → cal.account_id ≡ account
      → s'.calendars ≡ cal ∷ s.calendars
      → s'.objects ≡ s.objects
      → Allowed account s s'

other-ctag :
    (id : ℕ) (ctag : Text) (calendars : List CalDavCalendar)
    → other_calendars id (update_caldav_calendar_ctag id ctag calendars)
      ≡ other_calendars id calendars
unfolding update_caldav_calendar_ctag
other-ctag id ctag [] = refl
other-ctag id ctag (c ∷ calendars) = ground (arith, other-ctag id ctag calendars)

other-delete :
    (id : ℕ) (calendars : List CalDavCalendar)
    → other_calendars id (delete_caldav_calendar id calendars) ≡ other_calendars id calendars
unfolding delete_caldav_calendar
other-delete id [] = refl
other-delete id (c ∷ calendars) = ground (arith, other-delete id calendars)

other-cascade :
    (id : ℕ) (objects : List CalDavObject)
    → other_objects id (cascade id objects) ≡ other_objects id objects
unfolding cascade
other-cascade id [] = refl
other-cascade id (o ∷ objects) = ground (arith, other-cascade id objects)

other-upsert :
    (new : CalDavObject) (objects : List CalDavObject)
    → other_objects new.calendar_id (create_or_update_caldav_object new objects)
      ≡ other_objects new.calendar_id objects
unfolding create_or_update_caldav_object
other-upsert new [] = rw (==_refl new.calendar_id) refl
other-upsert new (o ∷ objects) = ground (arith, other-upsert new objects)

other-remove :
    (id : ℕ) (filename : Text) (objects : List CalDavObject)
    → other_objects id (delete_caldav_object_by_filename id filename objects)
      ≡ other_objects id objects
unfolding delete_caldav_object_by_filename
other-remove id filename [] = refl
other-remove id filename (o ∷ objects) = ground (arith, other-remove id filename objects)

store_object-SameBut :
    (world : World) (new : CalDavObject) (s : State)
    → SameBut new.calendar_id s (store_object world new s).1
unfolding store_object
store_object-SameBut world new s = (
  ground (arith, other-ctag new.calendar_id world.fresh_ctag s.calendars),
  ground (arith, other-upsert new s.objects),
)

put_object-SameBut :
    (world : World) (cal : CalDavCalendar) (filename ics_data : Text) (s : State)
    → SameBut cal.id s (put_object world cal filename ics_data s).1
unfolding put_object
put_object-SameBut world cal filename ics_data s =
    let (calendars, objects) =
      store_object-SameBut world (new_object world cal filename ics_data s) s in
    (ground (arith, calendars), ground (arith, objects))

handle_put-Allowed :
    (world : World) (account : DavAccount) (body : Option Text) (resource : Option CalDavResource)
    (s : State)
    → Allowed account.id s (handle_put world account body resource s).1
unfolding handle_put put_data
handle_put-Allowed world account body none s = same (refl, refl)
handle_put-Allowed world account body (some principal_of) s = same (refl, refl)
handle_put-Allowed world account body (some calendar_home_set) s = same (refl, refl)
handle_put-Allowed world account body (some (calendar_of slug)) s = same (refl, refl)
handle_put-Allowed world account none (some (calendar_object slug filename)) s = same (refl, refl)
handle_put-Allowed world account (some ics_data) (some (calendar_object slug filename)) s =
    elim (Option-cases (get_caldav_calendar_by_slug account.id slug s.calendars)) [
      | inl missing ↦ rw (handle_put, put_data, missing) (same (refl, refl))
      | inr (cal, e) ↦
          rw (handle_put, put_data, e)
            (touched cal slug e (put_object-SameBut world cal filename ics_data s))
    ]

handle_delete-Allowed :
    (world : World) (account : DavAccount) (resource : Option CalDavResource) (s : State)
    → Allowed account.id s (handle_delete world account resource s).1
unfolding handle_delete
handle_delete-Allowed world account none s = same (refl, refl)
handle_delete-Allowed world account (some principal_of) s = same (refl, refl)
handle_delete-Allowed world account (some calendar_home_set) s = same (refl, refl)
handle_delete-Allowed world account (some (calendar_of slug)) s =
    elim (Option-cases (get_caldav_calendar_by_slug account.id slug s.calendars)) [
      | inl missing ↦ rw (handle_delete, missing) (same (refl, refl))
      | inr (cal, e) ↦
          rw (handle_delete, e)
            (touched cal slug e (other-delete cal.id s.calendars, other-cascade cal.id s.objects))
    ]
handle_delete-Allowed world account (some (calendar_object slug filename)) s =
    elim (Option-cases (get_caldav_calendar_by_slug account.id slug s.calendars)) [
      | inl missing ↦ rw (handle_delete, missing) (same (refl, refl))
      | inr (cal, e) ↦
          rw (handle_delete, e)
            (touched cal slug e (
              other-ctag cal.id world.fresh_ctag s.calendars,
              other-remove cal.id filename s.objects,
            ))
    ]

create-Allowed :
    (world : World) (new : CalDavCalendar) (s : State)
    → Allowed new.account_id s (create_caldav_calendar world new s).1
unfolding create_caldav_calendar
create-Allowed world new s =
    elim (Option-cases (get_caldav_calendar_by_slug new.account_id new.slug s.calendars)) [
      | inr (there, e) ↦ rw (create_caldav_calendar, e) (same (refl, refl))
      | inl free ↦ elim (Bool-cases world.insert_fails) [
        | inl fails ↦ same (ground (arith, free, fails), ground (arith, free, fails))
        | inr works ↦ made new refl (ground (arith, free, works)) (ground (arith, free, works))
      ]
    ]

make_calendar-cases :
    (world : World) (account : DavAccount) (slug : Text) (body : Option Text) (s : State)
    → ((make_calendar world account slug body s).1 ≡ s)
      ⊎ (make_calendar world account slug body s
          ≡ create_caldav_calendar world (new_calendar world account slug body s) s)
unfolding make_calendar
make_calendar-cases world account slug body s = ground arith

make_calendar-Allowed :
    (world : World) (account : DavAccount) (slug : Text) (body : Option Text) (s : State)
    → Allowed account.id s (make_calendar world account slug body s).1
make_calendar-Allowed world account slug body s =
    elim (make_calendar-cases world account slug body s) [
      | inl kept ↦ rw kept (same (refl, refl))
      | inr runs ↦ rw runs (create-Allowed world (new_calendar world account slug body s) s)
    ]

handle_mkcalendar-Allowed :
    (world : World) (account : DavAccount) (body : Option Text) (resource : Option CalDavResource)
    (s : State)
    → Allowed account.id s (handle_mkcalendar world account body resource s).1
unfolding handle_mkcalendar
handle_mkcalendar-Allowed world account body none s = same (refl, refl)
handle_mkcalendar-Allowed world account body (some principal_of) s = same (refl, refl)
handle_mkcalendar-Allowed world account body (some calendar_home_set) s = same (refl, refl)
handle_mkcalendar-Allowed world account body (some (calendar_object slug filename)) s =
    same (refl, refl)
handle_mkcalendar-Allowed world account body (some (calendar_of slug)) s =
    make_calendar-Allowed world account (world.lower slug) body s

-- A request changes the state as one of the three methods does, or not at all.
dispatch-cases :
    (world : World) (account : DavAccount) (req : Request) (s : State)
    → let resource = parse_caldav_resource world req.path (account_email account) in
      ((dispatch world account req s).1 ≡ s)
      ⊎ (((dispatch world account req s).1
            ≡ (handle_mkcalendar world account req.body resource s).1)
          ⊎ (((dispatch world account req s).1 ≡ (handle_put world account req.body resource s).1)
              ⊎ ((dispatch world account req s).1 ≡ (handle_delete world account resource s).1)))
unfolding dispatch
dispatch-cases world account req s = ground arith

pub dispatch-Allowed :
    (world : World) (account : DavAccount) (req : Request) (s : State)
    → Allowed account.id s (dispatch world account req s).1
dispatch-Allowed world account req s =
    let resource = parse_caldav_resource world req.path (account_email account) in
    elim (dispatch-cases world account req s) [
      | inl kept ↦ rw kept (same (refl, refl))
      | inr (inl makes) ↦ rw makes (handle_mkcalendar-Allowed world account req.body resource s)
      | inr (inr (inl puts)) ↦ rw puts (handle_put-Allowed world account req.body resource s)
      | inr (inr (inr deletes)) ↦ rw deletes (handle_delete-Allowed world account resource s)
    ]
