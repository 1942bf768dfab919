-- ===== src/Config/Validation.antt =====
-- Validate of internal/config/config.go, and the strategies that NewManager of
-- internal/network/network.go builds from a configuration.
use kite_kvm.Network.Pool.{has_slash}
use kite_kvm.Network.Subnet.{NetLib}
use kite_kvm.Model.{NetworkMode}
use kite_kvm.Config.Settings.{FlavorEntry, NetworkEntry, Settings}
use kite_kvm.Config.{ConfigNetwork, Image}
use kite_kvm.Prelude.{
  pos, negsuc, String, Bool, List, Option, Result, [], contains, err, false, if◌then◌else◌, ltb,
  map, none, not, ok, other, some, str_eq, suc, true, zero, ℕ, ℤ, ◌&&◌, ◌+◌, ◌||◌, ◌∷◌,
}

-- if bad { return fmt.Errorf(…) }
abbrev pub fail_if : {A : Type 0} → Bool → Result A → Result A
fail_if bad rest = if bad then err other else rest

abbrev pub is_empty : {A : Type 0} → List A → Bool
is_empty [] = true
is_empty (x ∷ xs) = false

abbrev pub is_negative : ℤ → Bool
is_negative (pos n) = false
is_negative (negsuc n) = true

abbrev pub is_positive : ℤ → Bool
is_positive (pos zero) = false
is_positive (pos (suc n)) = true
is_positive (negsuc n) = false

-- for … { if err := f(x); err != nil { return err } }
unfoldable pub check_all : {A : Type 0} → (A → Bool) → List A → Bool
check_all ok_entry [] = true
check_all ok_entry (x ∷ xs) = ok_entry x && check_all ok_entry xs

abbrev pub is_some : {A : Type 0} → Option A → Bool
is_some none = false
is_some (some a) = true

-- the seen map of a loop: no id is empty, and none stands twice
unfoldable pub fresh_ids : List String → List String → Bool
fresh_ids seen [] = true
fresh_ids seen (id ∷ ids) =
    not (str_eq id "") && not (contains id seen) && fresh_ids (id ∷ seen) ids

unfoldable pub count_defaults : List NetworkEntry → ℕ
count_defaults [] = 0
count_defaults (n ∷ ns) = let rest = count_defaults ns in if n.is_default then 1 + rest else rest

abbrev pub network_ids : List NetworkEntry → List String
network_ids = map (λ n. n.id)

module _ (lib : NetLib) where
  -- validateCIDROrIP
  unfoldable pub is_cidr_or_ip : String → Bool
  is_cidr_or_ip s = if has_slash s then is_some (lib.parse_cidr s) else is_some (lib.parse_ip s)

  -- the switch on n.Mode
  unfoldable pub check_mode : NetworkEntry → Bool
  check_mode n =
      if str_eq n.mode "nat"
      then not (str_eq n.libvirt_network "")
        && (str_eq n.subnet "" || is_some (lib.parse_cidr n.subnet))
      else if str_eq n.mode "bridge"
      then not (str_eq n.bridge "")
        && not (is_empty n.ip_pool)
        && not (str_eq n.gateway "")
        && check_all is_cidr_or_ip n.ip_pool
      else false

  -- The loop of validateNetworks, which stops at the first entry that is refused: what it has seen,
  -- and how many networks were marked as the default.
  unfoldable pub network_loop : List String → ℕ → List NetworkEntry → Result ℕ
  network_loop seen defaults [] = ok defaults
  network_loop seen defaults (n ∷ ns) =
      let count = if n.is_default then defaults + 1 else defaults in
      let rest = network_loop (n.id ∷ seen) count ns in
      fail_if (str_eq n.id "") (fail_if (contains n.id seen) (fail_if (not (check_mode n)) rest))

  -- validateNetworks
  unfoldable pub validate_networks : List NetworkEntry → Result (Unit {0})
  validate_networks ns = if is_empty ns then err other else elim (network_loop [] 0 ns) [
    | err e ↦ err e
    | ok defaults ↦ fail_if (ltb 1 defaults) (ok tt)
  ]

-- the loop of validateFlavors
unfoldable pub flavor_loop : List String → List FlavorEntry → Result (Unit {0})
flavor_loop seen [] = ok tt
flavor_loop seen (f ∷ fs) =
    let rest = flavor_loop (f.id ∷ seen) fs in
    fail_if (str_eq f.id "") (
      fail_if (contains f.id seen) (
        fail_if (not (is_positive f.vcpus)) (
          fail_if (not (is_positive f.memory_mb)) (
            fail_if (not (is_positive f.disk_gb)) (
              fail_if (is_negative f.bandwidth_mbps)
                (fail_if (is_negative f.traffic_quota_gb) rest))))))

-- validateFlavors
unfoldable pub validate_flavors : List FlavorEntry → Result (Unit {0})
validate_flavors fs = fail_if (is_empty fs) (flavor_loop [] fs)

-- the loop of validateImages
unfoldable pub image_loop : List String → List Image → Result (Unit {0})
image_loop seen [] = ok tt
image_loop seen (i ∷ is) =
    let rest = image_loop (i.id ∷ seen) is in
    fail_if (str_eq i.id "") (fail_if (contains i.id seen) (fail_if (str_eq i.base_path "") rest))

-- validateImages
unfoldable pub validate_images : List Image → Result (Unit {0})
validate_images is = fail_if (is_empty is) (image_loop [] is)

module _ (lib : NetLib) (float_negative : ℕ → Bool) where
  abbrev pub continue_with : Result (Unit {0}) → Result (Unit {0}) → Result (Unit {0})
  continue_with (err e) rest = err e
  continue_with (ok _) rest = rest

  -- Validate; `float_negative` is the test below 0 on the bits of a float64
  unfoldable pub validate : Settings → Result (Unit {0})
  validate c =
      fail_if (not c.server.insecure && (str_eq c.server.tls_cert "" || str_eq c.server.tls_key ""))
        (fail_if (is_empty c.auth.tokens) (
          fail_if (not (check_all (λ t. not (str_eq (lib.trim_space t) "")) c.auth.tokens)) (
            fail_if (not (check_all (is_cidr_or_ip lib) c.auth.ip_allowlist)) (
              fail_if
                (float_negative c.capacity.cpu_overcommit
                  || float_negative c.capacity.mem_overcommit
                  || is_negative c.capacity.reserved_memory_mb
                  || is_negative c.capacity.max_vms)
                (continue_with (validate_networks lib c.networks)
                  (continue_with (validate_flavors c.flavors) (validate_images c.images)))))))

-- the network of an entry, as the services read it
abbrev pub network_of : NetworkMode → NetworkEntry → ConfigNetwork
network_of mode n = record {
  id = n.id;
  mode = mode;
  is_default = n.is_default;
  libvirt_network = n.libvirt_network;
  subnet = n.subnet;
  bridge = n.bridge;
  ip_pool = n.ip_pool;
  gateway = n.gateway;
  netmask = n.netmask;
  dns = n.dns;
  vlan = elim (n.vlan) [ pos k ↦ k | negsuc k ↦ 0 ];
}

-- NewManager: one strategy for each network, in the order of the configuration
unfoldable pub new_manager : List NetworkEntry → Result (List ConfigNetwork)
new_manager [] = ok []
new_manager (n ∷ ns) =
    let rest = new_manager ns in
    if str_eq n.mode "nat"
    then elim rest [ ok out ↦ ok (network_of NetworkMode.nat n ∷ out) | err e ↦ err e ]
    else if str_eq n.mode "bridge"
    then elim rest [ ok out ↦ ok (network_of NetworkMode.bridge n ∷ out) | err e ↦ err e ]
    else err other
