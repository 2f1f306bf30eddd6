-- ===== src/Auth/Secrets.antt =====
-- The comparison of secrets in db.rs, and the passwords and one-time codes of auth.rs. The hashes
-- (bcrypt, HMAC-SHA1) and the base-32 decoder are third-party code and arguments here.
use Prim.Native.Nat.{bit_or, bit_xor, bit_and}
use mailserver.Prelude.{
  ℕ, zero, suc, ◌+◌, ◌*◌, ◌/◌, ◌%◌, ◌^◌, Bool, true, false, ◌||◌, Option, none, some, List, [], ◌∷◌,
  ◌++◌, ltb, ◌==◌, if◌then◌else◌, length, Text, text_eq, as_bytes, byte_len,
}
pub mod Laws

-- The loop of `constant_time_eq`.
unfoldable pub gather_bits : ℕ → List ℕ → List ℕ → ℕ
gather_bits result [] ys = result
gather_bits result (x ∷ xs) [] = result
gather_bits result (x ∷ xs) (y ∷ ys) = gather_bits (bit_or result (bit_xor x y)) xs ys

unfoldable pub constant_time_eq : List ℕ → List ℕ → Bool
unfolding gather_bits
constant_time_eq a b = if length a == length b then gather_bits 0 a b == 0 else false

-- The answer of `get_setting("api_token")` is an argument.
unfoldable pub verify_api_token : Option Text → Text → Bool
unfolding constant_time_eq as_bytes
verify_api_token none token = false
verify_api_token (some stored) token = constant_time_eq (as_bytes stored) (as_bytes token)

abbrev pub min_password_length : ℕ
min_password_length = 8

-- `true` is `Ok`.
unfoldable pub validate_password_length : Text → Bool
unfolding byte_len
validate_password_length password =
    if ltb (byte_len password) min_password_length then false else true

-- `u64::wrapping_add`
unfoldable pub wrapping_add : ℕ → ℕ → ℕ
wrapping_add a b = (a + b) % 2 ^ 64

abbrev nth : List ℕ → ℕ → ℕ
nth [] i = 0
nth (x ∷ xs) zero = x
nth (x ∷ xs) (suc i) = nth xs i

-- `{:06}` of a number below a million
unfoldable pub six_digits : ℕ → Text
six_digits n =
    (b'0' + n / 100000 % 10)
    ∷ (b'0' + n / 10000 % 10)
    ∷ (b'0' + n / 1000 % 10)
    ∷ (b'0' + n / 100 % 10)
    ∷ (b'0' + n / 10 % 10)
    ∷ (b'0' + n % 10)
    ∷ []

-- `hmac` stands for HMAC-SHA1 of a secret and the eight bytes of a step: twenty bytes.
unfoldable pub totp_number : List ℕ → ℕ
totp_number mac =
    let offset = bit_and (nth mac 19) 0x0f in
    (bit_and (nth mac offset) 0x7f * 16777216
      + nth mac (offset + 1) * 65536
      + nth mac (offset + 2) * 256
      + nth mac (offset + 3))
    % 1_000_000

unfoldable pub totp_code : (List ℕ → ℕ → List ℕ) → List ℕ → ℕ → Text
unfolding totp_number six_digits
totp_code hmac secret step = six_digits (totp_number (hmac secret step))

-- The loop over the offsets 0, 1 and -1.
unfoldable pub matches_step : (ℕ → Text) → ℕ → Text → List ℕ → Bool
matches_step generate current_step code [] = false
matches_step generate current_step code (offset ∷ offsets) =
    text_eq (generate (wrapping_add current_step offset)) code
    || matches_step generate current_step code offsets

-- `secret` is the decoded secret and `now` the clock in seconds, `none` where the source fails on
-- it: a secret that is not base 32, a clock before the epoch.
unfoldable pub verify_totp : (List ℕ → ℕ → List ℕ) → Option (List ℕ) → Option ℕ → Text → Bool
unfolding matches_step
verify_totp hmac none now code = false
verify_totp hmac (some secret) none code = false
verify_totp hmac (some secret) (some now) code =
    matches_step (totp_code hmac secret) (now / 30) code (0 ∷ 1 ∷ 18446744073709551615 ∷ [])
