-- ===== src/Network/Subnet/Hosts.antt =====
-- What `subnetHosts` returns.
use native.Mathlib.Nat.{pow-le-pow_right}
use kite_kvm.Prelude.{
  ℕ, zero, suc, ◌+◌, ◌-◌, ◌^◌, ◌≤◌, ◌<◌, ◌≡◌, String, [], ◌∷◌, some, arith, ok, min, ltb,
  Bool-cases, inl, inr, ltb→lt,
}
use kite_kvm.Network.Address.{Ip4, u32, ip4_to_u32, u32_to_ip4}
use kite_kvm.Network.Subnet.{
  IpNet, NetLib, net_size, show, subnet_loop, subnet_hosts_of, subnet_hosts, addresses,
}

-- an IPv4 network of a prefix length up to 30, with its host bits cleared
pub record IsIpv4Net (n : IpNet) (base : Ip4) : Type 0 where
  pub address : n.ip4 ≡ some base
  pub width : n.bits ≡ 32
  pub hosts : n.ones ≤ 30
  pub fits : ip4_to_u32 base + 2 ^ (32 - n.ones) ≤ 2 ^ 32

pub four-le-pow : (ones : ℕ) → ones ≤ 30 → 4 ≤ 2 ^ (32 - ones)
four-le-pow ones h = pow-le-pow_right {n = 2} (omega arith) {i = 2} (omega arith)

module _ (lib : NetLib) where
  pub addresses-suc :
      (k u : ℕ) → 0 < k → addresses lib k u ≡ show lib u ∷ addresses lib (k - 1) (u + 1)
  unfolding addresses
  addresses-suc zero u h = elim h [ ]
  addresses-suc (suc k) u h = let e : suc k - 1 ≡ k = omega arith in rw e

  pub addresses-zero : (k u : ℕ) → k ≡ 0 → addresses lib k u ≡ []
  unfolding addresses
  addresses-zero k u e = rw e

  -- the loop lists the addresses from `u` to below `bcast`, `room` of them at most
  subnet_loop-addresses :
      (room u bcast : ℕ)
      → bcast < 2 ^ 32
      → subnet_loop lib room u bcast ≡ addresses lib (min room (bcast - u)) u
  unfolding subnet_loop
  subnet_loop-addresses zero u bcast h = rw (addresses-zero (min 0 (bcast - u)) u (omega arith))
  subnet_loop-addresses (suc room) u bcast h = elim (Bool-cases (ltb u bcast)) [
    | inl below ↦
        let lt : u < bcast = ltb→lt u bcast below in
        let next : u32 (u + 1) ≡ u + 1 = omega arith in
        let count : min (suc room) (bcast - u) - 1 ≡ min room (bcast - (u + 1)) = omega arith in
        rw (addresses-suc (min (suc room) (bcast - u)) u (omega arith))
          (rw (below, next, count) (rw (subnet_loop-addresses room (u + 1) bcast h)))
    | inr above ↦ rw (addresses-zero (min (suc room) (bcast - u)) u (ground arith)) (rw above)
  ]

  net_size-pow : (n : IpNet) (base : Ip4) → IsIpv4Net n base → net_size n ≡ u32 (2 ^ (32 - n.ones))
  unfolding net_size
  net_size-pow n base v = rw (v.width)

  subnet_hosts_of-addresses :
      (n : IpNet) (base : Ip4) (max : ℕ)
      → IsIpv4Net n base
      → subnet_hosts_of lib n base max ≡ (
        u32_to_ip4 (ip4_to_u32 base + 1),
        addresses lib (min max (2 ^ (32 - n.ones) - 3)) (ip4_to_u32 base + 2),
      )
  unfolding subnet_hosts_of
  subnet_hosts_of-addresses n base max v =
      let size = 2 ^ (32 - n.ones) in
      let base_u = ip4_to_u32 base in
      let big : 4 ≤ size = four-le-pow n.ones v.hosts in
      let fits : base_u + size ≤ 2 ^ 32 = v.fits in
      let end : u32 (u32 (base_u + u32 size) + 2 ^ 32 - 1) ≡ base_u + size - 1 = omega arith in
      let gateway : u32 (base_u + 1) ≡ base_u + 1 = omega arith in
      let first : u32 (base_u + 2) ≡ base_u + 2 = omega arith in
      let count : base_u + size - 1 - (base_u + 2) ≡ size - 3 = omega arith in
      rw (net_size-pow n base v) (
        rw (end, gateway, first)
          (rw (subnet_loop-addresses max (base_u + 2) (base_u + size - 1) (omega arith))
            (rw count)))

  -- For an IPv4 subnet with a prefix of at most 30 bits, the gateway is the first address after
  -- the network's, and the hosts are exactly the addresses after the gateway and before the
  -- broadcast address, in order, cut off at `max`.
  pub subnet_hosts-addresses :
      (cidr : String) (n : IpNet) (base : Ip4) (max : ℕ)
      → lib.parse_cidr cidr ≡ some n
      → IsIpv4Net n base
      → subnet_hosts lib cidr max
        ≡ ok (
          u32_to_ip4 (ip4_to_u32 base + 1),
          addresses lib (min max (2 ^ (32 - n.ones) - 3)) (ip4_to_u32 base + 2),
        )
  unfolding subnet_hosts
  subnet_hosts-addresses cidr n base max parsed v =
      ground (arith, parsed, v.address, subnet_hosts_of-addresses n base max v)
