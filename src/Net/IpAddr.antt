-- ===== src/Net/IpAddr.antt =====
-- `std::net::IpAddr`: an IPv4 address is a number below 2^32, an IPv6 address one below 2^128.
use mailserver.Prelude.{ℕ, ◌*◌, ◌+◌, ◌≡◌, ◌↔◌, Bool, true, false, ◌==◌, arith, Eq}

pub data IpAddr : Type 0 where
  v4 v6 : ℕ → IpAddr

-- `Ipv4Addr::new`
abbrev pub ipv4 : ℕ → ℕ → ℕ → ℕ → IpAddr
ipv4 a b c d = v4 (a * 16777216 + b * 65536 + c * 256 + d)

abbrev ip_eq : IpAddr → IpAddr → Bool
ip_eq (v4 a) (v4 b) = a == b
ip_eq (v6 a) (v6 b) = a == b
ip_eq _ _ = false

pub ip_eq_iff : (a b : IpAddr) → (ip_eq a b ≡ true) ↔ (a ≡ b)
ip_eq_iff (v4 a) (v4 b) = ground arith
ip_eq_iff (v6 a) (v6 b) = ground arith
ip_eq_iff (v4 a) (v6 b) = ground arith
ip_eq_iff (v6 a) (v4 b) = ground arith

instance abbrev pub ip_addr_eq : Eq IpAddr
ip_addr_eq = record { beq = ip_eq; beq_iff = ip_eq_iff }
