-- ===== src/Provision/Capture.antt =====
-- push_capped of provision.rs: what is kept of the output of a remote command. The bytes come decoded,
-- as `from_utf8_lossy` gives them; `floor_char_boundary` is the last boundary that fits.
use mailserver.Prelude.{
  ℕ, ◌-◌, ◌≤◌, ◌≡◌, refl, List, [], ◌∷◌, ◌++◌, leb, ◌==◌, if◌then◌else◌, Text, codes, byte_len,
  arith, len_utf8,
}
use mailserver.Web.Truncate.{back_to_boundary}
use mailserver.Web.Truncate.Laws.{back_to_boundary-longest, byte_len-append}

abbrev pub max_capture : ℕ
max_capture = 1048576

abbrev pub trunc_marker : Text
trunc_marker = codes "\n...[truncated: output exceeds 1 MiB]"

unfoldable pub push_capped : Text → Text → Text
push_capped target text =
    let remaining = max_capture - byte_len target in
    if remaining == 0
    then target
    else if leb (byte_len text) remaining
    then target ++ text
    else target ++ (back_to_boundary remaining text ++ trunc_marker)

-- The chunks of one stream, in the order in which they come.
unfoldable pub captured : Text → List Text → Text
captured target [] = target
captured target (text ∷ chunks) = captured (push_capped target text) chunks

abbrev pub capture_limit : ℕ
capture_limit = 1048613

marker-bytes : byte_len trunc_marker ≡ 37
unfolding byte_len len_utf8
marker-bytes = refl

no_bytes : byte_len [] ≡ 0
unfolding byte_len
no_bytes = refl

cut-fits : (n : ℕ) (text : Text) → byte_len (back_to_boundary n text) ≤ n
cut-fits n text =
    let (rest, joins, fits, longest) =
      back_to_boundary-longest n text [] text refl (rw no_bytes (omega arith)) in
    fits

push_capped-bounded :
    (target text : Text)
    → byte_len target ≤ capture_limit
    → byte_len (push_capped target text) ≤ capture_limit
unfolding push_capped
push_capped-bounded target text h =
    let remaining = max_capture - byte_len target in
    ground (
      arith,
      byte_len-append target text,
      byte_len-append target (back_to_boundary remaining text ++ trunc_marker),
      byte_len-append (back_to_boundary remaining text) trunc_marker,
      cut-fits remaining text,
      marker-bytes,
    )

-- However much a remote command writes, at most a mebibyte and one marker of it are kept.
pub captured-bounded :
    (target : Text) (chunks : List Text)
    → byte_len target ≤ capture_limit
    → byte_len (captured target chunks) ≤ capture_limit
unfolding captured
captured-bounded target [] h = h
captured-bounded target (text ∷ chunks) h =
    captured-bounded (push_capped target text) chunks (push_capped-bounded target text h)
