-- ===== src/Provision/Shell/Laws.antt =====
-- What a POSIX shell makes of the commands of provision.rs.
use mathlib.Core.List.{append_assoc, append-nil}
use mailserver.Prelude.{
  ℕ, ◌≡◌, refl, inl, inr, Bool, ◌||◌, Option, none, some, List, [], ◌∷◌, ◌++◌, ◌==◌, if◌then◌else◌,
  Text, is_ascii_alphanumeric, Bool-cases, ==_iff, ap, ◌∙◌, sym,
}
use mailserver.Config.Entries.{join_with}
use mailserver.Provision.Shell.{escaped, sh_single_quote, command_of}

-- Where a shell is in a command: between words, in a word, in single quotes, or behind a backslash.
pub data Mode : Type 0 where
  between : Mode
  word quoted slashed : Text → Mode

-- The characters that mean themselves outside quotes.
unfoldable pub is_plain : ℕ → Bool
is_plain c =
    is_ascii_alphanumeric c
    || c == b'.'
    || c == b'_'
    || c == b'/'
    || c == b'+'
    || c == b'-'
    || c == b':'
    || c == b','
    || c == b'@'
    || c == b'%'

abbrev cons_word : Text → Option (List Text) → Option (List Text)
cons_word w none = none
cons_word w (some ws) = some (w ∷ ws)

-- The words of a simple command, by the quoting rules of POSIX (2.2 of the Shell Command Language);
-- `none` when a quote is left open, or when a character has another meaning.
unfoldable pub words : Mode → Text → Option (List Text)
words between [] = some []
words (word w) [] = some (w ∷ [])
words (quoted w) [] = none
words (slashed w) [] = none
words (quoted w) (c ∷ s) =
    let closed = words (word w) s in
    let longer = words (quoted (w ++ c ∷ [])) s in if c == b'\'' then closed else longer
words (slashed w) (c ∷ s) = words (word (w ++ c ∷ [])) s
words between (c ∷ s) =
    let gap = words between s in
    let opened = words (quoted []) s in
    let escape = words (slashed []) s in
    let longer = words (word (c ∷ [])) s in
    if c == b' '
    then gap
    else if c == b'\''
    then opened
    else if c == b'\\'
    then escape
    else if is_plain c
    then longer
    else none
words (word w) (c ∷ s) =
    let ended = cons_word w (words between s) in
    let opened = words (quoted w) s in
    let escape = words (slashed w) s in
    let longer = words (word (w ++ c ∷ [])) s in
    if c == b' '
    then ended
    else if c == b'\''
    then opened
    else if c == b'\\'
    then escape
    else if is_plain c
    then longer
    else none

-- Inside quotes, an escaped text is read as the text.
words-escaped :
    (w s rest : Text) → words (quoted w) (escaped s ++ b'\'' ∷ rest) ≡ words (word (w ++ s)) rest
unfolding words escaped
words-escaped w [] rest = rw (append-nil w) refl
words-escaped w (c ∷ s) rest = elim (Bool-cases (c == b'\'')) [
  | inl quote ↦
      rw (quote, (==_iff c b'\'').0 quote)
        (words-escaped (w ++ b'\'' ∷ []) s rest
          ∙ ap (λ v. words (word v) rest) (append_assoc w (b'\'' ∷ []) s))
  | inr plain ↦
      rw (plain, words, plain)
        (words-escaped (w ++ c ∷ []) s rest
          ∙ ap (λ v. words (word v) rest) (append_assoc w (c ∷ []) s))
]

words-sh_single_quote :
    (s rest : Text) → words between (sh_single_quote s ++ rest) ≡ words (word s) rest
unfolding words sh_single_quote
words-sh_single_quote s rest =
    ap (words (quoted [])) (append_assoc (escaped s) (b'\'' ∷ []) rest) ∙ words-escaped [] s rest

words-last : (s : Text) → words between (sh_single_quote s) ≡ some (s ∷ [])
unfolding words
words-last s =
    ap (words between) (sym (append-nil (sh_single_quote s))) ∙ words-sh_single_quote s []

ended : (w rest : Text) → words (word w) (b' ' ∷ rest) ≡ cons_word w (words between rest)
unfolding words
ended w rest = refl

-- No argument can leave its place: whatever bytes the program's name and its arguments hold, a shell
-- reads the command that is sent as exactly these words, and nothing in them has a meaning to it.
pub words-command_of :
    (program : Text) (args : List Text)
    → words between (command_of program args) ≡ some (program ∷ args)
unfolding command_of join_with
words-command_of program [] = words-last program
words-command_of program (a ∷ args) =
    words-sh_single_quote program (b' ' ∷ command_of a args)
    ∙ ended program (command_of a args)
    ∙ ap (cons_word program) (words-command_of a args)
