-- ===== src/Examples/Network.antt =====
-- Addresses, subnets and pools at concrete inputs.
use Prim.Native.String.{◌++◌ as str_append}
use kite_kvm.Prelude.{
  Distinct, List, Option, String, [], arith, contains, false, if◌then◌else◌, length, ltb, min, none,
  ok, refl, some, str_eq, true, ℕ, ◌%◌, ◌+◌, ◌-◌, ◌/◌, ◌<◌, ◌==◌, ◌^◌, ◌∷◌, ◌≡◌, ◌≤◌,
}
use kite_kvm.Network.Address.{
  Ip4, ip4_to_u32, ip4_to_u32-u32_to_ip4, u32_to_ip4, u32_to_ip4-ip4_to_u32,
}
use kite_kvm.Network.Subnet.{
  IpNet, NetLib, addresses, cidr_hi, cidr_lo, cidr_loop, expand_cidr_hosts, show, subnet_hosts,
}
use kite_kvm.Network.Subnet.Hosts.{IsIpv4Net, subnet_hosts-addresses}
use kite_kvm.Network.Subnet.Cidr.{
  IsHostNet, expand_cidr_hosts-addresses, expand_cidr_hosts-addresses_all,
  expand_cidr_hosts_diverges,
}
use kite_kvm.Network.Pool.{add, add_hosts, entry_hosts, expand_pool, pool_loop}
use kite_kvm.Network.Pool.Expansion.{expand_pool_complete, expand_pool_sound}

abbrev ip : ℕ → ℕ → ℕ → ℕ → Ip4
ip a b c d = record { b0 = a; b1 = b; b2 = c; b3 = d }

abbrev net : Ip4 → ℕ → IpNet
net base ones = record { ip4 = some base; ones = ones; bits = 32 }

abbrev digit : ℕ → String
digit n =
    if n == 0
    then "0"
    else if n == 1
    then "1"
    else if n == 2
    then "2"
    else if n == 3
    then "3"
    else if n == 4
    then "4"
    else if n == 5
    then "5"
    else if n == 6
    then "6"
    else if n == 7
    then "7"
    else if n == 8
    then "8"
    else "9"

-- a number below 1000
abbrev decimal : ℕ → String
decimal n =
    if ltb n 10
    then digit n
    else if ltb n 100
    then str_append (digit (n / 10)) (digit (n % 10))
    else str_append (digit (n / 100)) (str_append (digit (n / 10 % 10)) (digit (n % 10)))

abbrev dotted : Ip4 → String
dotted a = str_append (decimal a.b0) (
    str_append "." (
      str_append (decimal a.b1)
        (str_append "." (str_append (decimal a.b2) (str_append "." (decimal a.b3))))))

abbrev parse_net : String → Option IpNet
parse_net s =
    if str_eq s "10.0.0.0/29"
    then some (net (ip 10 0 0 0) 29)
    else if str_eq s "203.0.113.8/31"
    then some (net (ip 203 0 113 8) 31)
    else if str_eq s "255.255.255.254/31"
    then some (net (ip 255 255 255 254) 31)
    else none

abbrev pub sample_lib : NetLib
sample_lib = record {
  parse_cidr = parse_net;
  parse_ip = λ s. if str_eq s "203.0.113.40" then some (some (ip 203 0 113 40)) else none;
  ip_string = dotted;
  mask_ones = λ m. 24;
  itoa = decimal;
  trim_space = λ s. s;
}

ip4_to_u32-u32_to_ip4_example : ip4_to_u32 (u32_to_ip4 3405803816) ≡ 3405803816
ip4_to_u32-u32_to_ip4_example = ip4_to_u32-u32_to_ip4 3405803816 (omega arith)

address_round_trip :
    (u32_to_ip4 (ip4_to_u32 (ip 203 0 113 40)) ≡ ip 203 0 113 40)
    × (ip4_to_u32 (ip 203 0 113 40) < 2 ^ 32)
address_round_trip = u32_to_ip4-ip4_to_u32 (ip 203 0 113 40) (omega arith)

nat_net : IsIpv4Net (net (ip 10 0 0 0) 29) (ip 10 0 0 0)
unfolding ip4_to_u32
nat_net = record { address = refl; width = refl; hosts = omega arith; fits = omega arith }

subnet_hosts-addresses_example :
    subnet_hosts sample_lib "10.0.0.0/29" 4096
    ≡ ok (
      u32_to_ip4 (ip4_to_u32 (ip 10 0 0 0) + 1),
      addresses sample_lib (min 4096 (2 ^ 3 - 3)) (ip4_to_u32 (ip 10 0 0 0) + 2),
    )
subnet_hosts-addresses_example =
    subnet_hosts-addresses sample_lib "10.0.0.0/29" (net (ip 10 0 0 0) 29) (ip 10 0 0 0) 4096 refl
      nat_net

nat_hosts :
    addresses sample_lib 3 (ip4_to_u32 (ip 10 0 0 0) + 2)
    ≡ "10.0.0.2" ∷ "10.0.0.3" ∷ "10.0.0.4" ∷ []
unfolding addresses show ip4_to_u32 u32_to_ip4
nat_hosts = refl

expand_cidr_hosts-addresses_example :
    expand_cidr_hosts sample_lib (2 ^ 32) "10.0.0.0/29"
    ≡ some (ok (addresses sample_lib (2 ^ 3 - 2) (ip4_to_u32 (ip 10 0 0 0) + 1)))
expand_cidr_hosts-addresses_example =
    expand_cidr_hosts-addresses sample_lib (2 ^ 32) "10.0.0.0/29" (net (ip 10 0 0 0) 29)
      (ip 10 0 0 0) (omega arith) refl nat_net

pair_net : IsHostNet (net (ip 203 0 113 8) 31) (ip 203 0 113 8)
unfolding ip4_to_u32
pair_net = record {
  address = refl;
  width = refl;
  long = omega arith;
  short = omega arith;
  fits = omega arith;
}

pair_below : ip4_to_u32 (ip 203 0 113 8) + 2 ^ 1 < 2 ^ 32
unfolding ip4_to_u32
pair_below = omega arith

expand_cidr_hosts-addresses_all_example :
    expand_cidr_hosts sample_lib 3 "203.0.113.8/31"
    ≡ some (ok (addresses sample_lib (2 ^ 1) (ip4_to_u32 (ip 203 0 113 8))))
expand_cidr_hosts-addresses_all_example =
    expand_cidr_hosts-addresses_all sample_lib 3 "203.0.113.8/31" (net (ip 203 0 113 8) 31)
      (ip 203 0 113 8) (omega arith) refl pair_net pair_below

last_net : IsHostNet (net (ip 255 255 255 254) 31) (ip 255 255 255 254)
unfolding ip4_to_u32
last_net = record {
  address = refl;
  width = refl;
  long = omega arith;
  short = omega arith;
  fits = omega arith;
}

last_end : ip4_to_u32 (ip 255 255 255 254) + 2 ^ 1 ≡ 2 ^ 32
unfolding ip4_to_u32
last_end = refl

expand_cidr_hosts_diverges_example : expand_cidr_hosts sample_lib 1000 "255.255.255.254/31" ≡ none
expand_cidr_hosts_diverges_example =
    expand_cidr_hosts_diverges sample_lib 1000 "255.255.255.254/31" (net (ip 255 255 255 254) 31)
      (ip 255 255 255 254) refl last_net last_end

abbrev pool : List String
pool = "203.0.113.8/31" ∷ "203.0.113.40" ∷ "203.0.113.8/31" ∷ []

abbrev pool_ips : List String
pool_ips = "203.0.113.8" ∷ "203.0.113.40" ∷ []

pool_expands : expand_pool sample_lib 1000 pool "203.0.113.9" 4096 ≡ some (ok pool_ips)
unfolding expand_pool pool_loop entry_hosts add_hosts add contains expand_cidr_hosts cidr_loop
    cidr_lo cidr_hi show ip4_to_u32 u32_to_ip4
pool_expands = refl

expand_pool_sound_example :
    Distinct pool_ips
    × (contains "203.0.113.9" pool_ips ≡ false)
    × (length pool_ips ≤ 4096)
    × ((x : String)
        → contains x pool_ips ≡ true
        → (e : String) × (hosts : List String) × (contains e pool ≡ true)
          × (entry_hosts sample_lib 1000 e ≡ some (ok hosts))
          × (contains x hosts ≡ true))
expand_pool_sound_example =
    expand_pool_sound sample_lib 1000 pool pool_ips "203.0.113.9" 4096 pool_expands

one_host : entry_hosts sample_lib 1000 "203.0.113.40" ≡ some (ok ("203.0.113.40" ∷ []))
unfolding entry_hosts
one_host = refl

expand_pool_complete_example : contains "203.0.113.40" pool_ips ≡ true
unfolding contains
expand_pool_complete_example =
    expand_pool_complete sample_lib 1000 pool pool_ips ("203.0.113.40" ∷ []) "203.0.113.9"
      "203.0.113.40" "203.0.113.40" 4096 pool_expands (omega arith) refl one_host refl refl
