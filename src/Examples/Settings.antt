-- ===== src/Examples/Settings.antt =====
-- A configuration of one network of each mode.
use kite_kvm.Network.Strategy.{last_network}
use kite_kvm.Network.Subnet.{NetLib}
use kite_kvm.Config.Lookups.{validate-new_manager}
use kite_kvm.Config.Validation.{
  check_all, check_mode, flavor_loop, image_loop, is_cidr_or_ip, network_loop, new_manager,
  validate, validate_flavors, validate_images, validate_networks,
}
use kite_kvm.Config.Settings.{
  NetworkEntry, Settings, apply_defaults, apply_env, split_and_trim, trimmed,
}
use kite_kvm.Config.{ConfigNetwork, default_network, network_by_id}
use kite_kvm.Prelude.{
  pos, String, List, [], contains, false, if◌then◌else◌, none, ok, refl, some, str_eq, true, ◌∷◌,
  ◌≡◌,
}

abbrev lib : NetLib
lib = record {
  parse_cidr = λ s. none;
  parse_ip = λ s. some none;
  ip_string = λ a. "";
  mask_ones = λ a. 24;
  itoa = λ n. "24";
  trim_space = λ s. s;
}

abbrev nat_network : NetworkEntry
nat_network = record {
  id = "inside";
  mode = "nat";
  is_default = false;
  libvirt_network = "default";
  subnet = "";
  bridge = "";
  ip_pool = [];
  gateway = "";
  netmask = "";
  dns = [];
  vlan = pos 0;
}

abbrev bridge_network : NetworkEntry
bridge_network = record nat_network {
  id = "lan";
  mode = "bridge";
  is_default = true;
  bridge = "br0";
  ip_pool = "10.0.0.5" ∷ [];
  gateway = "10.0.0.1";
  vlan = pos 7;
}

abbrev settings : Settings
settings = record {
  server = record { addr = ":8443"; tls_cert = ""; tls_key = ""; insecure = true };
  auth = record { tokens = "secret" ∷ []; ip_allowlist = [] };
  libvirt = record { uri = ""; storage_pool = ""; image_base_dir = ""; instance_dir = "" };
  state_path = "";
  interval_seconds = pos 60;
  capacity = record {
    cpu_overcommit = 0;
    mem_overcommit = 0;
    reserved_memory_mb = pos 0;
    max_vms = pos 0;
  };
  networks = nat_network ∷ bridge_network ∷ [];
  flavors =
      record {
        id = "s1";
        name = "small";
        vcpus = pos 1;
        memory_mb = pos 1024;
        disk_gb = pos 10;
        bandwidth_mbps = pos 0;
        traffic_quota_gb = pos 0;
      }
      ∷ [];
  images =
      record {
        id = "debian";
        name = "Debian";
        os_variant = "debian12";
        base_path = "/images/debian.qcow2";
        default_user = "debian";
      }
      ∷ [];
}

accepted : validate lib (λ bits. false) settings ≡ ok tt
unfolding validate check_all is_cidr_or_ip check_mode network_loop validate_networks contains
    flavor_loop validate_flavors image_loop validate_images
accepted = refl

validate-new_manager_example :
    (nets : List ConfigNetwork) × (new_manager settings.networks ≡ ok nets)
    × (last_network "lan" nets ≡ network_by_id "lan" nets)
    × (d : ConfigNetwork) × (default_network nets ≡ some d)
    × (last_network d.id nets ≡ some d)
validate-new_manager_example = validate-new_manager lib (λ bits. false) settings "lan" accepted

-- an interval of 0 seconds is a minute, and blank entries of KITE_AUTH_TOKENS are left out
defaulted :
    (apply_defaults (record settings { interval_seconds = pos 0 })).interval_seconds ≡ pos 60
unfolding apply_defaults
defaulted = refl

abbrev only_tokens : String → String
only_tokens name = if str_eq name "KITE_AUTH_TOKENS" then "a,,b" else ""

from_environment :
    (apply_env (λ s. "a" ∷ "" ∷ "b" ∷ []) (λ s. s) only_tokens settings).auth.tokens
    ≡ "a" ∷ "b" ∷ []
unfolding apply_env split_and_trim trimmed
from_environment = refl
