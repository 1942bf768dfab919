-- ===== src/Network/Subnet.antt =====
-- The candidate addresses of a NAT subnet (`subnetHosts`, internal/network/network.go) and of one
-- CIDR of a pool (`expandCIDRHosts`, internal/network/bridge.go).
pub mod Hosts
pub mod Cidr
use mathlib.Core.Option
use kite_kvm.Prelude.{
  ℕ, zero, suc, ◌+◌, ◌-◌, ◌^◌, String, Option, none, some, List, [], ◌∷◌, ltb, leb, if◌then◌else◌,
  Result, ok, err, other,
}
use kite_kvm.Network.Address.{Ip4, u32, ip4_to_u32, u32_to_ip4}

-- net.IPNet: the masked address as `To4` gives it (none for IPv6), and `Mask.Size()`
pub record IpNet : Type 0 where
  pub ip4 : Option Ip4
  pub ones : ℕ
  pub bits : ℕ

-- What is used of Go's package net (and of strconv.Itoa and strings.TrimSpace). `parse_ip` gives nil as none, and
-- otherwise what `To4` makes of the address.
pub record NetLib : Type 0 where
  pub parse_cidr : String → Option IpNet
  pub parse_ip : String → Option (Option Ip4)
  pub ip_string : Ip4 → String
  pub mask_ones : Ip4 → ℕ
  pub itoa : ℕ → String
  pub trim_space : String → String

-- uint32(1) << uint(bits-ones), which is 0 when all 32 bits are shifted out
unfoldable pub net_size : IpNet → ℕ
net_size n = u32 (2 ^ (n.bits - n.ones))

module _ (lib : NetLib) where
  -- u32ToIP4(u).String()
  unfoldable pub show : ℕ → String
  show u = lib.ip_string (u32_to_ip4 u)

  -- for u := …; u < bcastU && len(hosts) < max; u++, with the room that is left under max
  unfoldable pub subnet_loop : ℕ → ℕ → ℕ → List String
  subnet_loop zero u bcast = []
  subnet_loop (suc room) u bcast =
      let rest = subnet_loop room (u32 (u + 1)) bcast in if ltb u bcast then show u ∷ rest else []

  unfoldable pub subnet_hosts_of : IpNet → Ip4 → ℕ → Ip4 × List String
  unfolding net_size
  subnet_hosts_of n base max =
      let net_u = ip4_to_u32 base in
      let bcast = u32 (u32 (net_u + net_size n) + 2 ^ 32 - 1) in
      (u32_to_ip4 (u32 (net_u + 1)), subnet_loop max (u32 (net_u + 2)) bcast)

  unfoldable pub subnet_hosts : String → ℕ → Result (Ip4 × List String)
  subnet_hosts cidr max = elim (lib.parse_cidr cidr) [
    | none ↦ err other
    | some n ↦ elim n.ip4 [ none ↦ err other | some base ↦ ok (subnet_hosts_of n base max) ]
  ]

  -- for u := lo; u <= hi; u++, on fuel: none when the fuel ends before the loop does
  unfoldable pub cidr_loop : ℕ → ℕ → ℕ → Option (List String)
  cidr_loop zero u hi = none
  cidr_loop (suc fuel) u hi =
      let rest = cidr_loop fuel (u32 (u + 1)) hi in
      if leb u hi then Option.map (λ hosts. show u ∷ hosts) rest else some []

  unfoldable pub cidr_lo : IpNet → ℕ → ℕ
  cidr_lo n net_u = if leb 31 n.ones then net_u else u32 (net_u + 1)

  unfoldable pub cidr_hi : IpNet → ℕ → ℕ
  unfolding net_size
  cidr_hi n net_u =
      let end = u32 (net_u + net_size n) in
      if leb 31 n.ones then u32 (end + 2 ^ 32 - 1) else u32 (end + 2 ^ 32 - 2)

  unfoldable pub expand_cidr_hosts : ℕ → String → Option (Result (List String))
  expand_cidr_hosts fuel cidr = elim (lib.parse_cidr cidr) [
    | none ↦ some (err other)
    | some n ↦ elim n.ip4 [
      | none ↦ some (err other)
      | some base ↦
          let net_u = ip4_to_u32 base in
          Option.map ok (cidr_loop fuel (cidr_lo n net_u) (cidr_hi n net_u))
    ]
  ]

  -- the n addresses from u on
  unfoldable pub addresses : ℕ → ℕ → List String
  addresses zero u = []
  addresses (suc n) u = show u ∷ addresses n (u + 1)
