-- ===== src/Network/Subnet/Cidr.antt =====
-- What `expandCIDRHosts` returns, and where its loop does not end.
use native.Mathlib.Nat.{pow-le-pow_right}
use kite_kvm.Prelude.{
  ℕ, zero, suc, ◌+◌, ◌-◌, ◌^◌, ◌≤◌, ◌<◌, ◌≡◌, refl, String, none, some, arith, ok, leb, true, false,
  Bool-cases, inl, inr, leb→le,
}
use kite_kvm.Network.Address.{Ip4, u32, ip4_to_u32}
use kite_kvm.Network.Subnet.{
  IpNet, NetLib, net_size, cidr_loop, cidr_lo, cidr_hi, expand_cidr_hosts, addresses,
}
use kite_kvm.Network.Subnet.Hosts.{IsIpv4Net, four-le-pow, addresses-suc, addresses-zero}

module _ (lib : NetLib) where
  -- below the largest uint32 the loop ends, and has listed the addresses from `u` to `hi`
  cidr_loop-addresses :
      (fuel u hi : ℕ)
      → hi < 2 ^ 32 - 1
      → u < 2 ^ 32
      → hi + 1 - u < fuel
      → cidr_loop lib fuel u hi ≡ some (addresses lib (hi + 1 - u) u)
  unfolding cidr_loop
  cidr_loop-addresses zero u hi h b enough = elim enough [ ]
  cidr_loop-addresses (suc fuel) u hi h b enough = elim (Bool-cases (leb u hi)) [
    | inl within ↦
        let le : u ≤ hi = leb→le u hi within in
        let next : u32 (u + 1) ≡ u + 1 = omega arith in
        let count : hi + 1 - u - 1 ≡ hi + 1 - (u + 1) = omega arith in
        rw (addresses-suc lib (hi + 1 - u) u (omega arith)) (
          rw (within, next, count)
            (rw (cidr_loop-addresses fuel (u + 1) hi h (omega arith) (omega arith)) refl))
    | inr past ↦ rw (addresses-zero lib (hi + 1 - u) u (ground arith)) (rw past)
  ]

  cidr_loop_diverges : (fuel u : ℕ) → u < 2 ^ 32 → cidr_loop lib fuel u (2 ^ 32 - 1) ≡ none
  unfolding cidr_loop
  cidr_loop_diverges zero u h = refl
  cidr_loop_diverges (suc fuel) u h =
      let within : leb u (2 ^ 32 - 1) ≡ true = ground arith in
      rw (within, cidr_loop_diverges fuel (u32 (u + 1)) (omega arith)) refl

module _ (lib : NetLib) where
  cidr_range :
      (n : IpNet) (base : Ip4)
      → IsIpv4Net n base
      → (cidr_lo lib n (ip4_to_u32 base) ≡ ip4_to_u32 base + 1)
        × (cidr_hi lib n (ip4_to_u32 base) ≡ ip4_to_u32 base + 2 ^ (32 - n.ones) - 2)
  unfolding cidr_lo cidr_hi net_size
  cidr_range n base v =
      let size = 2 ^ (32 - n.ones) in
      let base_u = ip4_to_u32 base in
      let big : 4 ≤ size = four-le-pow n.ones v.hosts in
      let fits : base_u + size ≤ 2 ^ 32 = v.fits in
      let end : u32 (u32 (base_u + u32 size) + 2 ^ 32 - 2) ≡ base_u + size - 2 = omega arith in
      let first : u32 (base_u + 1) ≡ base_u + 1 = omega arith in
      let short : leb 31 n.ones ≡ false = ground (arith, v.hosts) in
      (rw (short) first, rw (short, v.width) end)

  -- An IPv4 network of a prefix of at most 30 bits is expanded to exactly the addresses between
  -- its own and the broadcast address, in order, and the loop ends.
  pub expand_cidr_hosts-addresses :
      (fuel : ℕ) (cidr : String) (n : IpNet) (base : Ip4)
      → 2 ^ 32 ≤ fuel
      → lib.parse_cidr cidr ≡ some n
      → IsIpv4Net n base
      → expand_cidr_hosts lib fuel cidr
        ≡ some (ok (addresses lib (2 ^ (32 - n.ones) - 2) (ip4_to_u32 base + 1)))
  unfolding expand_cidr_hosts
  expand_cidr_hosts-addresses fuel cidr n base enough parsed v =
      let size = 2 ^ (32 - n.ones) in
      let base_u = ip4_to_u32 base in
      let big : 4 ≤ size = four-le-pow n.ones v.hosts in
      let fits : base_u + size ≤ 2 ^ 32 = v.fits in
      let count : base_u + size - 2 + 1 - (base_u + 1) ≡ size - 2 = omega arith in
      let range = cidr_range n base v in
      let run =
        cidr_loop-addresses lib fuel (base_u + 1) (base_u + size - 2) (omega arith) (omega arith)
          (omega arith) in
      ground (arith, parsed, v.address, range.0, range.1, run, count)

-- an IPv4 network of prefix length 31 or 32, with its host bits cleared
pub record IsHostNet (n : IpNet) (base : Ip4) : Type 0 where
  pub address : n.ip4 ≡ some base
  pub width : n.bits ≡ 32
  pub long : 31 ≤ n.ones
  pub short : n.ones ≤ 32
  pub fits : ip4_to_u32 base + 2 ^ (32 - n.ones) ≤ 2 ^ 32

module _ (lib : NetLib) where
  host_range :
      (n : IpNet) (base : Ip4)
      → IsHostNet n base
      → (cidr_lo lib n (ip4_to_u32 base) ≡ ip4_to_u32 base)
        × (cidr_hi lib n (ip4_to_u32 base) ≡ ip4_to_u32 base + 2 ^ (32 - n.ones) - 1)
  unfolding cidr_lo cidr_hi net_size
  host_range n base v =
      let size = 2 ^ (32 - n.ones) in
      let base_u = ip4_to_u32 base in
      let big : 1 ≤ size = pow-le-pow_right {n = 2} (omega arith) {i = 0} (omega arith) in
      let small : size ≤ 2 =
        pow-le-pow_right {n = 2} (omega arith) {j = 1} (omega (arith, v.long)) in
      let fits : base_u + size ≤ 2 ^ 32 = v.fits in
      let end : u32 (u32 (base_u + u32 size) + 2 ^ 32 - 1) ≡ base_u + size - 1 = omega arith in
      let long : leb 31 n.ones ≡ true = ground (arith, v.long) in
      (rw (long), rw (long, v.width) end)

  -- A network of prefix length 31 or 32 below the end of the address space is expanded to all its
  -- addresses, the first and the last included.
  pub expand_cidr_hosts-addresses_all :
      (fuel : ℕ) (cidr : String) (n : IpNet) (base : Ip4)
      → 3 ≤ fuel
      → lib.parse_cidr cidr ≡ some n
      → IsHostNet n base
      → ip4_to_u32 base + 2 ^ (32 - n.ones) < 2 ^ 32
      → expand_cidr_hosts lib fuel cidr
        ≡ some (ok (addresses lib (2 ^ (32 - n.ones)) (ip4_to_u32 base)))
  unfolding expand_cidr_hosts
  expand_cidr_hosts-addresses_all fuel cidr n base enough parsed v inside =
      let size = 2 ^ (32 - n.ones) in
      let base_u = ip4_to_u32 base in
      let big : 1 ≤ size = pow-le-pow_right {n = 2} (omega arith) {i = 0} (omega arith) in
      let small : size ≤ 2 =
        pow-le-pow_right {n = 2} (omega arith) {j = 1} (omega (arith, v.long)) in
      let count : base_u + size - 1 + 1 - base_u ≡ size = omega arith in
      let range = host_range n base v in
      let run =
        cidr_loop-addresses lib fuel base_u (base_u + size - 1) (omega arith) (omega arith)
          (omega arith) in
      ground (arith, parsed, v.address, range.0, range.1, run, count)

  -- A network of prefix length 31 or 32 that ends at 255.255.255.255 is never expanded: the loop's
  -- counter wraps round before it passes the last address, so that no number of rounds ends it.
  pub expand_cidr_hosts_diverges :
      (fuel : ℕ) (cidr : String) (n : IpNet) (base : Ip4)
      → lib.parse_cidr cidr ≡ some n
      → IsHostNet n base
      → ip4_to_u32 base + 2 ^ (32 - n.ones) ≡ 2 ^ 32
      → expand_cidr_hosts lib fuel cidr ≡ none
  unfolding expand_cidr_hosts
  expand_cidr_hosts_diverges fuel cidr n base parsed v end =
      let base_u = ip4_to_u32 base in
      let big : 1 ≤ 2 ^ (32 - n.ones) =
        pow-le-pow_right {n = 2} (omega arith) {i = 0} (omega arith) in
      let last : base_u + 2 ^ (32 - n.ones) - 1 ≡ 2 ^ 32 - 1 = omega arith in
      let range = host_range n base v in
      let run = cidr_loop_diverges lib fuel base_u (omega arith) in
      ground (arith, parsed, v.address, range.0, range.1, run, last)
