-- ===== src/Prelude/Decimal.antt =====
-- `usize` as a decimal text: `to_string` and `parse`.
use Prim.Native.Nat.{ℕ, zero, suc, ◌+◌, ◌-◌, ◌*◌, ◌/◌, ◌%◌, ◌^◌, ◌≤◌, ◌<◌}
use mathlib.Core.Path.{◌≡◌, refl, ◌∙◌}
use mathlib.Core.Logic.{inl, inr}
use mathlib.Core.Bool.{false}
use mathlib.Core.Option.{Option, none, some}
use mathlib.Core.List.{[], ◌∷◌}
use native.Mathlib.Omega.{arith}
use mailserver.Prelude.Tests.{ltb, leb, ◌==◌, if◌then◌else◌, Bool-cases}
use mailserver.Prelude.Strings.{Text, is_ascii_digit, is_empty}

-- The digits of a number, the last one first, at most `fuel` of them.
unfoldable pub digits_from : ℕ → ℕ → Text
digits_from zero n = []
digits_from (suc fuel) n =
    let rest = digits_from fuel (n / 10) in
    if ltb n 10 then (b'0' + n) ∷ [] else (b'0' + n % 10) ∷ rest

unfoldable pub reverse_onto : Text → Text → Text
reverse_onto [] acc = acc
reverse_onto (c ∷ s) acc = reverse_onto s (c ∷ acc)

-- `usize::to_string`: a number below 2^64 has at most twenty digits.
unfoldable pub to_string : ℕ → Text
unfolding digits_from reverse_onto
to_string n = reverse_onto (digits_from 20 n) []

-- `checked_mul` and `checked_add` fail together exactly if the sum does not fit the width.
unfoldable pub parse_digits : ℕ → ℕ → Text → Option ℕ
unfolding is_ascii_digit
parse_digits max acc [] = some acc
parse_digits max acc (c ∷ s) =
    let next = acc * 10 + (c - b'0') in
    let rest = parse_digits max next s in
    if is_ascii_digit c then if leb next max then rest else none else none

abbrev skip_plus : Text → Text
skip_plus [] = []
skip_plus (c ∷ s) = if c == b'+' then s else c ∷ s

-- `str::parse` of an unsigned type with this greatest value.
unfoldable pub parse_unsigned : ℕ → Text → Option ℕ
unfolding parse_digits is_empty
parse_unsigned max s = if is_empty (skip_plus s) then none else parse_digits max 0 (skip_plus s)

abbrev pub usize_max : ℕ
usize_max = 18446744073709551615

read_digit :
    (max acc d next : ℕ) (tail : Text)
    → d < 10
    → next ≡ acc * 10 + d
    → next ≤ max
    → parse_digits max acc ((b'0' + d) ∷ tail) ≡ parse_digits max next tail
unfolding is_ascii_digit parse_digits
read_digit max acc d next tail h e k =
    let same : acc * 10 + (b'0' + d - b'0') ≡ next = omega arith in rw same (ground arith)

power_step : (fuel n : ℕ) → 10 ≤ n → n < 10 ^ suc fuel → (1 ≤ fuel) × (n / 10 < 10 ^ fuel)
power_step zero n h k = absurd (omega arith)
power_step (suc fuel) n h k = (omega arith, omega arith)

-- Reading the digits of a number, and then on from that number.
parse_digits-reverse :
    (max fuel n : ℕ) (tail : Text)
    → 1 ≤ fuel
    → n < 10 ^ fuel
    → n ≤ max
    → parse_digits max 0 (reverse_onto (digits_from fuel n) tail) ≡ parse_digits max n tail
unfolding digits_from reverse_onto
parse_digits-reverse max zero n tail f h k = absurd (omega arith)
parse_digits-reverse max (suc fuel) n tail f h k = elim (Bool-cases (ltb n 10)) [
  | inl small ↦ rw small (read_digit max 0 n n tail (ground arith) (omega arith) k)
  | inr large ↦
      let (some_left, fits) = power_step fuel n (ground arith) h in
      rw large (
        parse_digits-reverse max fuel (n / 10) ((b'0' + n % 10) ∷ tail) some_left fits (omega arith)
        ∙ read_digit max (n / 10) (n % 10) n tail (omega arith) (omega arith) k)
]

-- A decimal text begins with a digit.
first_digit :
    (fuel n : ℕ) (tail : Text)
    → 1 ≤ fuel
    → n < 10 ^ fuel
    → (c : ℕ) × (s : Text) × (reverse_onto (digits_from fuel n) tail ≡ c ∷ s)
      × ((c == b'+') ≡ false)
unfolding digits_from reverse_onto
first_digit zero n tail f h = absurd (omega arith)
first_digit (suc fuel) n tail f h = elim (Bool-cases (ltb n 10)) [
  | inl small ↦ rw small (b'0' + n, tail, refl, ground arith)
  | inr large ↦
      let (some_left, fits) = power_step fuel n (ground arith) h in
      rw large (first_digit fuel (n / 10) ((b'0' + n % 10) ∷ tail) some_left fits)
]

-- Reading the text of a number gives the number, if it is no greater than the type allows.
pub parse_unsigned-to_string_within :
    (max n : ℕ) → n ≤ usize_max → n ≤ max → parse_unsigned max (to_string n) ≡ some n
unfolding to_string parse_unsigned is_empty parse_digits
parse_unsigned-to_string_within max n h k =
    let (c, s, e, differs) = first_digit 20 n [] (omega arith) (omega arith) in
    let whole : parse_digits max 0 (reverse_onto (digits_from 20 n) []) ≡ some n =
      parse_digits-reverse max 20 n [] (omega arith) (omega arith) k in
    rw (e, differs) (rw e at whole)

pub parse_unsigned-to_string :
    (n : ℕ) → n ≤ usize_max → parse_unsigned usize_max (to_string n) ≡ some n
parse_unsigned-to_string n h = parse_unsigned-to_string_within usize_max n h h
