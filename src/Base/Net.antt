-- ===== src/Base/Net.antt =====
-- Addresses and networks as the `net` package compares them.
use emly_go_api.Base.{ℕ, ◌/◌, ◌-◌, ◌^◌, Bool, false, true, Option, String, nat_beq}

-- A parsed address: an IPv4 address (an IPv4-mapped IPv6 address counts as one, as in `To4`), or
-- any other IPv6 address, as the number that its bytes spell.
pub data Ip : Type 0 where
  v4 : ℕ → Ip
  v6 : ℕ → Ip

-- net.IPNet: the address and the length of the prefix.
pub record Network : Type 0 where
  pub address : Ip
  pub ones : ℕ

abbrev same_prefix : ℕ → ℕ → ℕ → Bool
same_prefix shift a b = nat_beq (a / 2 ^ shift) (b / 2 ^ shift)

abbrev in_prefix : Ip → ℕ → Ip → Bool
in_prefix (v4 a) ones (v4 b) = same_prefix (32 - ones) a b
in_prefix (v6 a) ones (v6 b) = same_prefix (128 - ones) a b
in_prefix (v4 a) ones (v6 b) = false
in_prefix (v6 a) ones (v4 b) = false

-- IPNet.Contains
abbrev pub contains : Network → Ip → Bool
contains n ip = in_prefix n.address n.ones ip

abbrev pub is_v4 : Ip → Bool
is_v4 (v4 a) = true
is_v4 (v6 a) = false

-- The address parsers of the `net` package, which the server only calls.
pub record NetParser : Type 0 where
  pub parse_ip : String → Option Ip
  pub parse_cidr : String → Option Network
