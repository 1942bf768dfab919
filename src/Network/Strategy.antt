-- ===== src/Network/Strategy.antt =====
-- The strategies of a network and the manager that dispatches to them: nat.go, bridge.go and
-- network.go of internal/network.
use kite_kvm.Network.Address.{Ip4, u32_to_ip4}
use Prim.Native.Char.{code}
use Prim.Native.String.{◌++◌ as str_append}
use kite_kvm.Prelude.{
  Bool, List, Option, Result, String, [], err, false, hangs, if◌then◌else◌, leb, network_not_found,
  none, ok, other, some, str_eq, suc, true, zero, ℕ, ◌&&◌, ◌==◌, ◌||◌, ◌∷◌, ◌-◌, ◌^◌,
}
use kite_kvm.Prelude.Effects.{Exec, attempt, pure, raise, ◌>>=◌, lift}
use kite_kvm.Model.{NetworkMode, is_bridge}
use kite_kvm.Store.Ips.{allocate_ip, release_ip_by_vm}
use kite_kvm.Libvirt.{Conn}
use kite_kvm.Node.{Node, on_db, on_host}
use kite_kvm.Config.{ConfigNetwork}
use kite_kvm.Network.Subnet.{NetLib, subnet_hosts}
use kite_kvm.Network.Pool.{expand_pool}

pub record Attachment : Type 0 where
  pub network_id : String
  pub mode : NetworkMode
  pub mac : String
  pub ip : String
  pub gateway : String
  pub netmask : String
  pub source : String
  pub vlan : ℕ
  pub static : Bool
  pub address_cidr : String
  pub nameservers : List String

abbrev pub max_candidates : ℕ
max_candidates = 4096

abbrev pub is_host_char : ℕ → Bool
is_host_char r =
    leb b'a' r && leb r b'z' || leb b'A' r && leb r b'Z' || leb b'0' r && leb r b'9' || r == b'-'

unfoldable pub keep_host_chars : String → String
keep_host_chars String.[] = ""
keep_host_chars (String.◌∷◌ c s) =
    let rest = keep_host_chars s in if is_host_char (code c) then String.◌∷◌ c rest else rest

-- s[:n] of an ASCII text
unfoldable pub first_chars : ℕ → String → String
first_chars zero s = ""
first_chars (suc n) String.[] = ""
first_chars (suc n) (String.◌∷◌ c s) = String.◌∷◌ c (first_chars n s)

unfoldable pub sanitize_hostname : String → String → String
sanitize_hostname hostname vm_id =
    let kept = keep_host_chars hostname in
    let clean = if str_eq kept "" then str_append "vm-" (keep_host_chars vm_id) else kept in
    first_chars 63 clean

-- len(candidates) == 0
abbrev pub no_candidates : List String → Bool
no_candidates [] = true
no_candidates (c ∷ cs) = false

-- behind a leading '/', if there is one
unfoldable pub slash_prefix : String → Option String
slash_prefix String.[] = none
slash_prefix (String.◌∷◌ c s) = if code c == b'/' then some s else none

-- m.strategies[networkID]
unfoldable pub last_network : String → List ConfigNetwork → Option ConfigNetwork
last_network id [] = none
last_network id (n ∷ ns) = elim (last_network id ns) [
  | some m ↦ some m
  | none ↦ if str_eq n.id id then some n else none
]

module _ (lib : NetLib) where
  -- ipnet.Mask, of a prefix of that many bits
  abbrev pub mask_of : ℕ → Ip4
  mask_of ones = u32_to_ip4 (2 ^ 32 - 2 ^ (32 - ones))

  -- Sprintf("%d.%d.%d.%d", …)
  abbrev pub dotted : Ip4 → String
  dotted a = str_append (lib.itoa a.b0) (
      str_append "." (
        str_append (lib.itoa a.b1)
          (str_append "." (str_append (lib.itoa a.b2) (str_append "." (lib.itoa a.b3))))))

  -- netmaskOf: a mask of four bytes is one of 32 bits
  unfoldable pub netmask_of : String → String
  netmask_of cidr = elim (lib.parse_cidr cidr) [
    | none ↦ ""
    | some n ↦ if n.bits == 32 then dotted (mask_of n.ones) else ""
  ]

  -- the last part of prefixFromNetmask of bridge.go, and all of that of vm/suspend.go but its
  -- first test
  unfoldable pub mask_prefix : String → String
  mask_prefix nm = elim (lib.parse_ip nm) [
    | none ↦ "32"
    | some four ↦ elim four [ none ↦ "32" | some m ↦ lib.itoa (lib.mask_ones m) ]
  ]

  -- prefixFromNetmask of internal/network/bridge.go
  unfoldable pub prefix_from_netmask : String → String
  unfolding mask_prefix slash_prefix
  prefix_from_netmask netmask =
      let nm = lib.trim_space netmask in
      if str_eq nm ""
      then "32"
      else elim (slash_prefix nm) [ some bits ↦ bits | none ↦ mask_prefix nm ]

  module _ {H : Type 0} (conn : Conn H) (fuel : ℕ) where
    abbrev pub lift_loop : {A : Type 0} → Option (Result A) → Exec (Node H) A
    lift_loop none n = (err hangs, n)
    lift_loop (some r) n = (r, n)

    abbrev pub nat_attachment : ConfigNetwork → String → String → Ip4 → Attachment
    nat_attachment cfg mac ip gateway = record {
      network_id = cfg.id;
      mode = NetworkMode.nat;
      mac = mac;
      ip = ip;
      gateway = lib.ip_string gateway;
      netmask = netmask_of cfg.subnet;
      source = cfg.libvirt_network;
      vlan = 0;
      static = false;
      address_cidr = "";
      nameservers = [];
    }

    abbrev pub bridge_attachment : ConfigNetwork → String → String → Attachment
    bridge_attachment cfg mac ip = record {
      network_id = cfg.id;
      mode = NetworkMode.bridge;
      mac = mac;
      ip = ip;
      gateway = cfg.gateway;
      netmask = cfg.netmask;
      source = cfg.bridge;
      vlan = cfg.vlan;
      static = true;
      address_cidr = str_append ip (str_append "/" (prefix_from_netmask cfg.netmask));
      nameservers = cfg.dns;
    }

    -- natStrategy.Allocate; `mac` is what generateMAC returns
    unfoldable pub nat_allocate :
        ConfigNetwork → Result String → String → String → Exec (Node H) Attachment
    nat_allocate cfg generated vm hostname = do
      mac ← lift generated
      if str_eq cfg.subnet "" then raise other else do
        (gateway, hosts) ← lift (subnet_hosts lib cfg.subnet max_candidates)
        ip ← on_db (allocate_ip cfg.id vm mac hosts)
        leased ← attempt (
            on_host (conn.add_dhcp_host cfg.libvirt_network mac (sanitize_hostname hostname vm) ip))
        elim leased [
          | err e ↦ do _ ← attempt (on_db (release_ip_by_vm vm)); raise e
          | ok _ ↦ pure (nat_attachment cfg mac ip gateway)
        ]

    -- bridgeStrategy.Allocate
    unfoldable pub bridge_allocate :
        ConfigNetwork → Result String → String → String → Exec (Node H) Attachment
    bridge_allocate cfg generated vm hostname = do
      mac ← lift generated
      candidates ← lift_loop (expand_pool lib fuel cfg.ip_pool cfg.gateway max_candidates)
      if no_candidates candidates then raise other else do
        ip ← on_db (allocate_ip cfg.id vm mac candidates)
        pure (bridge_attachment cfg mac ip)

    -- natStrategy.Release: both steps are made, and the first error is returned
    unfoldable pub nat_release : ConfigNetwork → String → String → Exec (Node H) (Unit {0})
    nat_release cfg vm mac = do
      lease ←
          if str_eq mac ""
          then pure (ok tt)
          else attempt (on_host (conn.remove_dhcp_host cfg.libvirt_network mac))
      freed ← attempt (on_db (release_ip_by_vm vm))
      elim lease [ err e ↦ raise e | ok _ ↦ lift freed ]

    unfoldable pub bridge_release : ConfigNetwork → String → String → Exec (Node H) (Unit {0})
    bridge_release cfg vm mac = on_db (release_ip_by_vm vm)

    -- Manager.Allocate; `NewManager` has one strategy for each id, that of the last entry
    unfoldable pub network_allocate :
        List ConfigNetwork → String → Result String → String → String → Exec (Node H) Attachment
    network_allocate networks id generated vm hostname = elim (last_network id networks) [
      | none ↦ raise network_not_found
      | some cfg ↦
          if is_bridge cfg.mode
          then bridge_allocate cfg generated vm hostname
          else nat_allocate cfg generated vm hostname
    ]

    -- Manager.Release: a network that is gone from the configuration is no error
    unfoldable pub network_release :
        List ConfigNetwork → String → String → String → Exec (Node H) (Unit {0})
    network_release networks id vm mac = elim (last_network id networks) [
      | none ↦ pure tt
      | some cfg ↦ if is_bridge cfg.mode then bridge_release cfg vm mac else nat_release cfg vm mac
    ]
