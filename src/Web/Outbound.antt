-- ===== src/Web/Outbound.antt =====
-- `validate_outbound_url`, `is_obfuscated_ip_literal` and `ip_is_blocked` of web/mod.rs. The URL
-- parser and the resolver are not of the program: their results are arguments.
use Prim.Native.Nat.{bit_and}
use mailserver.Prelude.{
  ℕ, ◌/◌, ◌%◌, ◌^◌, Bool, true, false, not, ◌&&◌, ◌||◌, Option, none, some, List, [], ◌∷◌, leb,
  ◌==◌, if◌then◌else◌, all, any, Text, codes, text_eq, to_ascii_lowercase, strip_prefix, is_empty,
  contains_char, is_ascii_alphanumeric, is_ascii_digit, parse_unsigned,
}
use mailserver.Net.IpAddr.{IpAddr, v4, v6}
pub mod Ranges
pub mod Laws

-- `octets()[i]` of the first two octets, and `segments()[0]`.
abbrev pub first_octet : ℕ → ℕ
first_octet n = n / 16777216 % 256

abbrev pub second_octet : ℕ → ℕ
second_octet n = n / 65536 % 256

-- `is_loopback`, `is_unspecified`, `is_private` and `is_link_local` of `Ipv4Addr`, then the two
-- ranges that the source adds.
unfoldable pub v4_is_blocked : ℕ → Bool
v4_is_blocked n =
    first_octet n == 127
    || n == 0
    || first_octet n == 10
    || (first_octet n == 172 && leb 16 (second_octet n) && leb (second_octet n) 31)
    || (first_octet n == 192 && second_octet n == 168)
    || (first_octet n == 169 && second_octet n == 254)
    || (first_octet n == 100 && bit_and (second_octet n) 0xc0 == 0x40)
    || (first_octet n == 198 && bit_and (second_octet n) 0xfe == 0x12)

-- `to_ipv4_mapped` gives an address exactly for `::ffff:a.b.c.d`.
unfoldable pub v6_is_blocked : ℕ → Bool
unfolding v4_is_blocked
v6_is_blocked n =
    let segment = n / 2 ^ 112 % 65536 in
    n == 1
    || n == 0
    || (if n / 2 ^ 32 == 0xffff
        then v4_is_blocked (n % 2 ^ 32)
        else bit_and segment 0xfe00 == 0xfc00 || bit_and segment 0xffc0 == 0xfe80)

unfoldable pub ip_is_blocked : IpAddr → Bool
unfolding v4_is_blocked v6_is_blocked
ip_is_blocked (v4 n) = v4_is_blocked n
ip_is_blocked (v6 n) = v6_is_blocked n

abbrev is_some : Option ℕ → Bool
is_some none = false
is_some (some n) = true

abbrev or_else : Option Text → Option Text → Option Text
or_else (some a) b = some a
or_else none b = b

abbrev pub u128_max : ℕ
u128_max = 340282366920938463463374607431768211455

abbrev pub within : ℕ → ℕ → ℕ → Bool
within lo hi c = leb lo c && leb c hi

abbrev pub is_ascii_hexdigit : ℕ → Bool
is_ascii_hexdigit c = within b'0' b'9' c || within b'a' b'f' c || within b'A' b'F' c

unfoldable pub has_prefix : Text → Text → Bool
unfolding strip_prefix
has_prefix p s = elim (strip_prefix p s) [ none ↦ false | some r ↦ true ]

-- The digits that the two-letter prefix allows.
unfoldable pub all_digits : Text → Text → Bool
unfolding has_prefix
all_digits host rest =
    if has_prefix (codes "0x") host || has_prefix (codes "0X") host
    then all is_ascii_hexdigit rest
    else if has_prefix (codes "0o") host || has_prefix (codes "0O") host
    then all (within b'0' b'7') rest
    else all (within b'0' b'1') rest

unfoldable pub is_obfuscated_ip_literal : Text → Bool
unfolding parse_unsigned strip_prefix is_empty contains_char all_digits
is_obfuscated_ip_literal host =
    if is_some (parse_unsigned u128_max host)
    then true
    else elim (or_else (strip_prefix (codes "0x") host) (
        or_else (strip_prefix (codes "0X") host) (
          or_else (strip_prefix (codes "0o") host) (
            or_else (strip_prefix (codes "0O") host)
              (or_else (strip_prefix (codes "0b") host) (strip_prefix (codes "0B") host)))))) [
                | none ↦ false
                | some rest ↦
                    if is_empty rest || contains_char b'.' rest || contains_char b':' rest
                    then false
                    else all_digits host rest
              ]

pub record Url : Type 0 where
  pub scheme : Text
  pub host_str : Option Text
  pub port : Option ℕ

unfoldable pub is_host_char : ℕ → Bool
unfolding is_ascii_alphanumeric
is_host_char c = is_ascii_alphanumeric c || c == b'.' || c == b'-' || c == b':'

unfoldable pub is_loopback_name : Text → Bool
unfolding text_eq to_ascii_lowercase
is_loopback_name host =
    text_eq host (codes "127.0.0.1")
    || text_eq (to_ascii_lowercase host) (codes "localhost")
    || text_eq host (codes "::1")

unfoldable pub port_or_443 : Option ℕ → ℕ
port_or_443 none = 443
port_or_443 (some p) = p

check_addrs : Option (List IpAddr) → Bool
unfolding ip_is_blocked
check_addrs none = false
check_addrs (some addrs) = not (any ip_is_blocked addrs)

check_host : (Text → ℕ → Option (List IpAddr)) → Url → Option Text → Bool
unfolding is_host_char is_obfuscated_ip_literal is_loopback_name text_eq check_addrs port_or_443
check_host resolve url none = false
check_host resolve url (some host) =
    if not (all is_host_char host)
    then false
    else if is_obfuscated_ip_literal host
    then false
    else if text_eq url.scheme (codes "https")
    then check_addrs (resolve host (port_or_443 url.port))
    else text_eq url.scheme (codes "http") && is_loopback_name host

-- `parsed` is what parsing the text gave.
unfoldable pub validate_outbound_url : (Text → ℕ → Option (List IpAddr)) → Option Url → Bool
unfolding check_host
validate_outbound_url resolve none = false
validate_outbound_url resolve (some url) = check_host resolve url url.host_str
