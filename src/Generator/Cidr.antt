-- ===== src/Generator/Cidr.antt =====
-- `applyExcludeCIDRs` of pkg/generator/networkpolicies.go, and what it uses of Go's `net`: IPv4
-- addresses are numbers below 2 ^ 32. The rule's CIDR is IPv4 by its key pattern; an exclusion in
-- IPv6 notation is skipped, as the source skips it for an IPv4 rule. Left out are IPv4 addresses
-- written as IPv6 (`::ffff:a.b.c.d`).
pub mod Laws
use Prim.Native.String
use bigbang_operator.Base.{
  ℕ, ◌+◌, ◌-◌, ◌*◌, ◌/◌, ◌^◌, String, ◌≡◌, refl, Bool, true, false, ◌&&◌, ◌||◌, not, Option, none,
  some, List, [], ◌∷◌, ◌==◌, nat_eq, ltb, leb, if◌then◌else◌,
}
use bigbang_operator.Base.Text.{cut, strip_prefix, split, digits_from}
use bigbang_operator.Base.Dict.{is_empty}
use bigbang_operator.Api.Netpol.{NetworkPolicies, NetworkPoliciesEgress}

-- An address with a prefix length: what `ParseCIDR` returns as an IP and a mask.
pub record IpNet : Type 0 where
  pub ip : ℕ
  pub ones : ℕ

-- A run of digits, at least one.
abbrev number : String → Option ℕ
number String.[] = none
number (String.◌∷◌ c s) = digits_from 0 (String.◌∷◌ c s)

-- More than one digit may not begin with a zero.
abbrev has_leading_zero : String → Bool
has_leading_zero String.[] = false
has_leading_zero (String.◌∷◌ c String.[]) = false
has_leading_zero (String.◌∷◌ c (String.◌∷◌ d s)) = nat_eq (Prim.Native.Char.code c) b'0'

abbrev below : ℕ → Option ℕ → Option ℕ
below n none = none
below n (some m) = if ltb m n then some m else none

octet : String → Option ℕ
unfolding digits_from
octet s = if has_leading_zero s then none else below 256 (number s)

abbrev join4 : Option ℕ → Option ℕ → Option ℕ → Option ℕ → Option ℕ
join4 (some a) (some b) (some c) (some d) = some (((a * 256 + b) * 256 + c) * 256 + d)
join4 _ _ _ _ = none

ip_of : List String → Option ℕ
unfolding octet
ip_of (a ∷ b ∷ c ∷ d ∷ []) = join4 (octet a) (octet b) (octet c) (octet d)
ip_of _ = none

abbrev net_of : Option ℕ → Option ℕ → Option IpNet
net_of (some ip) (some ones) = some (record { ip = ip; ones = ones })
net_of _ _ = none

-- `net.ParseCIDR` of an IPv4 prefix.
unfoldable pub parse_cidr : String → Option IpNet
unfolding cut strip_prefix split ip_of digits_from
parse_cidr s = elim (cut "/" s) [
  | none ↦ none
  | some (addr, mask) ↦ net_of (ip_of (split b'.' addr)) (below 33 (number mask))
]

-- `ipNet.Contains(ip)`: the addresses agree under the mask.
abbrev pub net_contains : IpNet → ℕ → Bool
net_contains net ip = nat_eq (net.ip / 2 ^ (32 - net.ones)) (ip / 2 ^ (32 - net.ones))

-- The tests of the loop, on an exclusion that parses.
abbrev is_excluded : IpNet → Option IpNet → Bool
is_excluded rule none = false
is_excluded rule (some ex) = if ltb ex.ones rule.ones then false else net_contains rule ex.ip

unfoldable pub kept_exclusions : String → IpNet → List String → List String
unfolding parse_cidr
kept_exclusions cidr rule [] = []
kept_exclusions cidr rule (ex ∷ exclusions) =
    let rest = kept_exclusions cidr rule exclusions in
    if ex == cidr then rest else if is_excluded rule (parse_cidr ex) then ex ∷ rest else rest

unfoldable pub apply_exclude_cidrs : String → List String → List String
unfolding kept_exclusions parse_cidr
apply_exclude_cidrs cidr [] = []
apply_exclude_cidrs cidr (ex ∷ exclusions) = elim (parse_cidr cidr) [
  | none ↦ []
  | some rule ↦ kept_exclusions cidr rule (ex ∷ exclusions)
]

abbrev pub default_egress_exclude_cidrs : List String
default_egress_exclude_cidrs = "169.254.169.254/32" ∷ []

abbrev configured : Option (List String) → List String
configured none = default_egress_exclude_cidrs
configured (some list) = list

unfoldable pub exclude_cidrs_for : NetworkPolicies → List String
exclude_cidrs_for spec = elim (spec.egress) [
  | none ↦ default_egress_exclude_cidrs
  | some egress ↦ configured egress.exclude_cidrs
]

metadata_test :
    apply_exclude_cidrs "0.0.0.0/0" default_egress_exclude_cidrs ≡ "169.254.169.254/32" ∷ []
unfolding apply_exclude_cidrs
metadata_test = refl

outside_test : apply_exclude_cidrs "10.0.0.0/8" default_egress_exclude_cidrs ≡ []
unfolding apply_exclude_cidrs
outside_test = refl
