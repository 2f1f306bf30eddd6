-- ===== src/Queue/Commands.antt =====
-- What the pages of web/routes/queue.rs may run.
use mailserver.Prelude.{
  ◌≡◌, refl, sym, ap, ◌∙◌, ◌≤◌, ◌⊎◌, ◌++◌, length, Lacks, to_ascii_lowercase, split_at, split_once,
  rsplit_once, Option-cases, text_eq_iff, len_utf8, is_ascii_lowercase, is_ascii_uppercase,
  is_ascii_digit, split_once-joins, split_once-absent, rsplit_once-joins, rsplit_once-absent, inl,
  inr, true, Option, none, some, List, [], ◌∷◌, Text, codes, byte_len, is_empty,
  is_ascii_alphanumeric, all, arith, Bool-cases,
}
use mathlib.Core.List.{append-nil}
use mailserver.Filter.Headers.Laws.{split_at-joins}
use mailserver.Queue.{
  HeaderMap, World, before_slash, after_at, matches_host, same_origin, is_valid_queue_id, purge,
  delete_message, flush_message, run_post_command,
}

-- A name of a message: 1 to 20 letters and digits.
abbrev pub IsMessageName : Text → Type 0
IsMessageName id = (all is_ascii_alphanumeric id ≡ true) × (1 ≤ length id) × (length id ≤ 20)

abbrev pub EndsHost : Text → Type 0
EndsHost tail = (tail ≡ []) ⊎ ((more : Text) × (tail ≡ b'/' ∷ more))

-- A URL of the host: `scheme://authority`, to the end or a slash, and the host is what follows the last
-- `@` of the authority. The case of letters does not matter.
pub record IsUrlOf (host url : Text) : Type 0 where
  pub scheme : Text
  pub authority : Text
  pub tail : Text
  pub name : Text
  pub whole : url ≡ scheme ++ (codes "://" ++ (authority ++ tail))
  pub no_slash : Lacks b'/' authority
  pub ends : EndsHost tail
  pub behind_user : (authority ≡ name) ⊎ ((user : Text) × (authority ≡ user ++ (b'@' ∷ name)))
  pub no_user : Lacks b'@' name
  pub same : to_ascii_lowercase name ≡ to_ascii_lowercase host

-- The request says that it comes from a page of its host: by its Origin, or without one by its Referer.
abbrev pub ComesFromHost : HeaderMap → Type 0
ComesFromHost headers =
    (host : Text) × (headers.host ≡ some host)
    × (((origin : Text) × (headers.origin ≡ some origin) × IsUrlOf host origin)
        ⊎ ((headers.origin ≡ none)
            × ((referer : Text) × (headers.referer ≡ some referer) × IsUrlOf host referer)))

after_at-joins :
    (a : Text)
    → ((a ≡ after_at a) ⊎ ((user : Text) × (a ≡ user ++ (b'@' ∷ after_at a))))
      × Lacks b'@' (after_at a)
after_at-joins a = elim (Option-cases (rsplit_once b'@' a)) [
  | inl absent ↦ rw (after_at, absent) (inl refl, rsplit_once-absent b'@' a absent)
  | inr ((user, host), e) ↦
      let (whole, lacks) = rsplit_once-joins b'@' a user host e in
      rw (after_at, e) (inr (user, whole), lacks)
]

before_slash-joins :
    (rest : Text)
    → Lacks b'/' (before_slash rest)
      × ((tail : Text) × (rest ≡ before_slash rest ++ tail) × EndsHost tail)
before_slash-joins rest = elim (Option-cases (split_once b'/' rest)) [
  | inl absent ↦
      rw (before_slash, absent)
        (split_once-absent b'/' rest absent, ([], sym (append-nil rest), inl refl))
  | inr ((a, b), e) ↦
      let (whole, lacks) = split_once-joins b'/' rest a b e in
      rw (before_slash, e) (lacks, (b'/' ∷ b, whole, inr (b, refl)))
]

matches_host-IsUrlOf : (host value : Text) → matches_host host value ≡ true → IsUrlOf host value
unfolding matches_host
matches_host-IsUrlOf host value h = elim (Option-cases (split_at (codes "://") value)) [
  | inl absent ↦ absurd (let k = rw (matches_host, absent) at h in ground arith)
  | inr ((scheme, rest), e) ↦
      let k = rw (matches_host, e) at h in
      let authority = before_slash rest in
      let (no_slash, (tail, joins, ends)) = before_slash-joins rest in
      let (user, no_user) = after_at-joins authority in
      record {
        scheme = scheme;
        authority = authority;
        tail = tail;
        name = after_at authority;
        whole =
            split_at-joins (codes "://") value scheme rest e
            ∙ ap (λ r. scheme ++ (codes "://" ++ r)) joins;
        no_slash = no_slash;
        ends = ends;
        behind_user = user;
        no_user = no_user;
        same =
            (text_eq_iff (to_ascii_lowercase (after_at authority)) (to_ascii_lowercase host)).0 k;
      }
]

same_origin-ComesFromHost :
    (headers : HeaderMap) → same_origin headers ≡ true → ComesFromHost headers
unfolding same_origin
same_origin-ComesFromHost headers h = elim (Option-cases headers.host) [
  | inl e ↦ absurd (ground (arith, e))
  | inr (host, e) ↦ elim (Option-cases headers.origin) [
    | inr (origin, f) ↦
        let m : matches_host host origin ≡ true = ground (arith, e, f) in
        (host, e, inl (origin, f, matches_host-IsUrlOf host origin m))
    | inl f ↦ elim (Option-cases headers.referer) [
      | inl g ↦ absurd (ground (arith, e, f, g))
      | inr (referer, g) ↦
          let m : matches_host host referer ≡ true = ground (arith, e, f, g) in
          (host, e, inr (f, (referer, g, matches_host-IsUrlOf host referer m)))
    ]
  ]
]

letters_bytes : (s : Text) → all is_ascii_alphanumeric s ≡ true → byte_len s ≡ length s
unfolding byte_len len_utf8 is_ascii_alphanumeric is_ascii_lowercase is_ascii_uppercase
    is_ascii_digit
letters_bytes [] h = refl
letters_bytes (c ∷ s) h = ground (arith, letters_bytes s)

is_valid_queue_id-IsMessageName : (id : Text) → is_valid_queue_id id ≡ true → IsMessageName id
unfolding is_valid_queue_id is_empty
is_valid_queue_id-IsMessageName [] h = absurd (ground arith)
is_valid_queue_id-IsMessageName (c ∷ id) h =
    (ground arith, omega arith, ground (arith, letters_bytes (c ∷ id)))

-- At most one command, the program with the option and the name, and nothing but for a name of a
-- message and a page of the host.
abbrev pub IsSafeRun : Option Text → Text → Text → HeaderMap → List (Text × List Text) → Type 0
IsSafeRun bin option id headers [] = Unit {0}
IsSafeRun bin option id headers ((program, args) ∷ []) =
    (bin ≡ some program) × (args ≡ option ∷ id ∷ []) × IsMessageName id × ComesFromHost headers
IsSafeRun bin option id headers (a ∷ b ∷ commands) = ⊥

run-IsSafeRun :
    (bin : Option Text) (option id : Text) (headers : HeaderMap)
    → same_origin headers ≡ true
    → is_valid_queue_id id ≡ true
    → IsSafeRun bin option id headers (run_post_command bin (option ∷ id ∷ [])).1
run-IsSafeRun none option id headers own valid = tt
run-IsSafeRun (some program) option id headers own valid =
    (refl, refl, is_valid_queue_id-IsMessageName id valid, same_origin-ComesFromHost headers own)

-- The pages of one message run no command or one, on the message that the path names, and one only if
-- the name is of 1 to 20 letters and digits and the request says, by its Origin or without one by its
-- Referer, that it comes from a page of the host.
pub message_commands_safe :
    (world : World) (headers : HeaderMap) (id : Text)
    → IsSafeRun world.postsuper_bin (codes "-d") id headers (delete_message world headers id).1
      × IsSafeRun world.postqueue_bin (codes "-i") id headers (flush_message world headers id).1
unfolding delete_message flush_message
message_commands_safe world headers id = elim (Bool-cases (same_origin headers)) [
  | inr other ↦ (rw (delete_message, other) tt, rw (flush_message, other) tt)
  | inl own ↦ elim (Bool-cases (is_valid_queue_id id)) [
    | inr wrong ↦ (rw (delete_message, own, wrong) tt, rw (flush_message, own, wrong) tt)
    | inl valid ↦ (
      rw (delete_message, own, valid)
          (run-IsSafeRun world.postsuper_bin (codes "-d") id headers own valid),
      rw (flush_message, own, valid)
          (run-IsSafeRun world.postqueue_bin (codes "-i") id headers own valid),
    )
  ]
]

all_valid : is_valid_queue_id (codes "ALL") ≡ true
unfolding is_valid_queue_id is_empty is_ascii_alphanumeric byte_len
all_valid = refl

-- A name of a message may be ALL: deleting it purges the whole queue.
pub delete_message_all_purges :
    (world : World) (headers : HeaderMap)
    → delete_message world headers (codes "ALL") ≡ purge world headers
unfolding delete_message purge
delete_message_all_purges world headers = elim (Bool-cases (same_origin headers)) [
  | inl own ↦ rw (delete_message, purge, own, all_valid) refl
  | inr other ↦ rw (delete_message, purge, other) refl
]
