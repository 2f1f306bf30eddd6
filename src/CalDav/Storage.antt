-- ===== src/CalDav/Storage.antt =====
-- What is stored and found again by the calendar server of web/routes/caldav.rs.
use mailserver.Prelude.{
  ℕ, ◌+◌, ◌≡◌, refl, sym, ◌∙◌, inl, inr, false, Option, none, some, List, [], ◌∷◌, ◌==◌, ==_refl,
  Text, text_eq, text_eq_refl, arith, Bool-cases, Option-cases, ◌≤◌,
}
use mailserver.WebDav.Files.{DavAccount}
use mailserver.CalDav.Tables.{
  CalDavCalendar, CalDavObject, is_calendar, is_object, get_caldav_calendar_by_slug,
  update_caldav_calendar_ctag, get_caldav_object_by_filename, create_or_update_caldav_object,
}
use mailserver.CalDav.Auth.{World, State, ics, plain, calendar_of, calendar_object}
use mailserver.CalDav.Methods.{
  answer_calendar, answer_object, handle_get, handle_put, put_data, put_object, store_object,
  new_object, handle_mkcalendar, make_calendar, create_caldav_calendar,
}

-- A row that is changed in its ctag is found as before.
calendar-ctag :
    (account : ℕ) (slug : Text) (id : ℕ) (ctag : Text) (calendars : List CalDavCalendar)
    {cal : CalDavCalendar}
    → get_caldav_calendar_by_slug account slug calendars ≡ some cal
    → (cal' : CalDavCalendar) × (get_caldav_calendar_by_slug account slug
          (update_caldav_calendar_ctag id ctag calendars)
        ≡ some cal')
      × (cal'.id ≡ cal.id)
unfolding get_caldav_calendar_by_slug update_caldav_calendar_ctag
calendar-ctag account slug id ctag [] h = absurd (ground arith)
calendar-ctag account slug id ctag (c ∷ calendars) {cal} h =
    elim (Bool-cases (is_calendar account slug c)) [
      | inl this ↦
          let same : some c ≡ some cal = ground (arith, this) in
          elim (Bool-cases (c.id == id)) [
            | inl changed ↦
                (record c { ctag = ctag }, ground (arith, this, changed), ground (arith, same))
            | inr kept ↦ (c, ground (arith, this, kept), ground (arith, same))
          ]
      | inr other ↦
          let rest : get_caldav_calendar_by_slug account slug calendars ≡ some cal =
            ground (arith, other) in
          let (cal', found, ids) = calendar-ctag account slug id ctag calendars rest in
          (
            cal',
            elim (Bool-cases (c.id == id)) [
              | inl changed ↦ ground (arith, other, changed, found)
              | inr kept ↦ ground (arith, other, kept, found)
            ],
            ids,
          )
    ]

object-upsert :
    (new : CalDavObject) (objects : List CalDavObject)
    → (o : CalDavObject) × (get_caldav_object_by_filename new.calendar_id new.filename
          (create_or_update_caldav_object new objects)
        ≡ some o)
      × (o.ics_data ≡ new.ics_data)
      × (o.etag ≡ new.etag)
unfolding get_caldav_object_by_filename create_or_update_caldav_object
object-upsert new [] =
    (new, rw (==_refl new.calendar_id, text_eq_refl new.filename) refl, refl, refl)
object-upsert new (o ∷ objects) = elim (Bool-cases (is_object new.calendar_id new.filename o)) [
  | inl same ↦ (
    record o { uid = new.uid; etag = new.etag; ics_data = new.ics_data },
    ground (arith, same),
    refl,
    refl,
  )
  | inr other ↦
      let (p, found, content, etags) = object-upsert new objects in
      (p, ground (arith, other, found), content, etags)
]

served :
    (world : World) (account : DavAccount) (slug filename : Text) (s : State) {cal : CalDavCalendar}
    {o : CalDavObject}
    → get_caldav_calendar_by_slug account.id slug s.calendars ≡ some cal
    → get_caldav_object_by_filename cal.id filename s.objects ≡ some o
    → handle_get world account (some (calendar_object slug filename)) s
      ≡ record { status = 200; content = ics o.ics_data o.etag }
unfolding handle_get answer_calendar answer_object
served world account slug filename s e f =
    rw (handle_get, answer_calendar, e, answer_object, f) refl

stored-get :
    (world world' : World) (account : DavAccount) (slug : Text) (new : CalDavObject) (s : State)
    {cal : CalDavCalendar}
    → get_caldav_calendar_by_slug account.id slug s.calendars ≡ some cal
    → new.calendar_id ≡ cal.id
    → (store_object world new s).0.status ≤ 201
    → handle_get world' account
        (some (calendar_object slug new.filename))
        (store_object world new s).1
      ≡ record { status = 200; content = ics new.ics_data new.etag }
unfolding store_object
stored-get world world' account slug new s {cal} e ids works =
    let (cal', found, same) =
      calendar-ctag account.id slug new.calendar_id world.fresh_ctag s.calendars e in
    let (o, there, content, etags) = object-upsert new s.objects in
    let here : get_caldav_object_by_filename cal'.id new.filename
          (create_or_update_caldav_object new s.objects)
        ≡ some o =
      rw (same ∙ sym ids) there in
    let whole : State = record s {
      objects = create_or_update_caldav_object new s.objects;
      calendars = update_caldav_calendar_ctag new.calendar_id world.fresh_ctag s.calendars;
      next_object = s.next_object + 1;
    } in
    let answer = served world' account slug new.filename whole found here in
    let same_answer : handle_get world' account (some (calendar_object slug new.filename)) whole
        ≡ record { status = 200; content = ics new.ics_data new.etag } =
      answer ∙ rw (content, etags) refl in
    ground (arith, same_answer)

put_object-get :
    (world world' : World) (account : DavAccount) (slug filename data_put : Text) (s : State)
    {cal : CalDavCalendar}
    → get_caldav_calendar_by_slug account.id slug s.calendars ≡ some cal
    → (put_object world cal filename data_put s).0.status ≤ 201
    → handle_get world' account
        (some (calendar_object slug filename))
        (put_object world cal filename data_put s).1
      ≡ record { status = 200; content = ics data_put (world.compute_etag data_put) }
unfolding put_object
put_object-get world world' account slug filename data_put s {cal} e h = ground (
  arith,
  stored-get world world' account slug (new_object world cal filename data_put s) s e refl,
)

-- What a client puts is what it gets: if PUT of an object is answered with 201, GET of the same path by
-- the same account, at any later time before another change, answers 200 with the text of the body and
-- the hash of it as etag.
pub handle_get-handle_put :
    (world world' : World) (account : DavAccount) (slug filename ics_data : Text) (s : State)
    → (handle_put world account (some ics_data) (some (calendar_object slug filename)) s).0.status
      ≡ 201
    → handle_get world' account
        (some (calendar_object slug filename))
        (handle_put world account (some ics_data) (some (calendar_object slug filename)) s).1
      ≡ record { status = 200; content = ics ics_data (world.compute_etag ics_data) }
unfolding handle_put put_data
handle_get-handle_put world world' account slug filename ics_data s h =
    elim (Option-cases (get_caldav_calendar_by_slug account.id slug s.calendars)) [
      | inl missing ↦ absurd (ground (arith, missing))
      | inr (cal, e) ↦
          rw (handle_put, put_data, e)
            (put_object-get world world' account slug filename ics_data s e
              (let k = rw (handle_put, put_data, e) at h in omega arith))
    ]

-- MKCALENDAR makes the calendar under the path in lower case, while the other methods take the path as
-- it is: after a MKCALENDAR of a name that is not in lower case, answered with 201 or not, GET of the
-- same path answers 404, if there was no calendar of exactly this name before.
pub handle_mkcalendar-lost :
    (world world' : World) (account : DavAccount) (slug : Text) (body : Option Text) (s : State)
    → text_eq (world.lower slug) slug ≡ false
    → get_caldav_calendar_by_slug account.id slug s.calendars ≡ none
    → handle_get world' account
        (some (calendar_of slug))
        (handle_mkcalendar world account body (some (calendar_of slug)) s).1
      ≡ plain 404
unfolding handle_mkcalendar make_calendar create_caldav_calendar handle_get answer_calendar
    get_caldav_calendar_by_slug
handle_mkcalendar-lost world world' account slug body s differs missing = ground (arith, differs)
