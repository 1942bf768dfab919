-- ===== src/Config/Settings.antt =====
-- internal/config/config.go: the configuration as it is decoded from YAML, the values from the
-- environment and the defaults. Go's `int` fields are integers here, and a float64 is its bits.
use kite_kvm.Config.{Image}
use kite_kvm.Prelude.{
  pos, negsuc, String, Bool, List, [], if◌then◌else◌, str_eq, suc, zero, ℕ, ℤ, ◌∷◌,
}

pub record Server : Type 0 where
  pub addr : String
  pub tls_cert : String
  pub tls_key : String
  pub insecure : Bool

pub record Auth : Type 0 where
  pub tokens : List String
  pub ip_allowlist : List String

pub record LibvirtSettings : Type 0 where
  pub uri : String
  pub storage_pool : String
  pub image_base_dir : String
  pub instance_dir : String

pub record Capacity : Type 0 where
  pub cpu_overcommit : ℕ  -- the bits of a float64
  pub mem_overcommit : ℕ
  pub reserved_memory_mb : ℤ
  pub max_vms : ℤ

pub record NetworkEntry : Type 0 where
  pub id : String
  pub mode : String
  pub is_default : Bool
  pub libvirt_network : String
  pub subnet : String
  pub bridge : String
  pub ip_pool : List String
  pub gateway : String
  pub netmask : String
  pub dns : List String
  pub vlan : ℤ

pub record FlavorEntry : Type 0 where
  pub id : String
  pub name : String
  pub vcpus : ℤ
  pub memory_mb : ℤ
  pub disk_gb : ℤ
  pub bandwidth_mbps : ℤ
  pub traffic_quota_gb : ℤ

-- config.Config, with its parts
pub record Settings : Type 0 where
  pub server : Server
  pub auth : Auth
  pub libvirt : LibvirtSettings
  pub state_path : String
  pub interval_seconds : ℤ
  pub capacity : Capacity
  pub networks : List NetworkEntry
  pub flavors : List FlavorEntry
  pub images : List Image

-- if v := os.Getenv(…); v != "" { field = v }
abbrev pub overlay : String → String → String
overlay v field = if str_eq v "" then field else v

-- if field == "" { field = v }
abbrev pub default_to : String → String → String
default_to v field = if str_eq field "" then v else field

-- the entries that are not blank, without the space around them
unfoldable pub trimmed : (String → String) → List String → List String
trimmed trim_space [] = []
trimmed trim_space (p ∷ parts) =
    let rest = trimmed trim_space parts in
    if str_eq (trim_space p) "" then rest else trim_space p ∷ rest

-- splitAndTrim, with strings.Split at the commas and strings.TrimSpace
unfoldable pub split_and_trim : (String → List String) → (String → String) → String → List String
unfolding trimmed
split_and_trim split_commas trim_space s = trimmed trim_space (split_commas s)

-- applyEnv
unfoldable pub apply_env :
    (String → List String) → (String → String) → (String → String) → Settings → Settings
apply_env split_commas trim_space getenv c = record c {
  server = record (c.server) {
    addr = overlay (getenv "KITE_SERVER_ADDR") c.server.addr;
    tls_cert = overlay (getenv "KITE_TLS_CERT") c.server.tls_cert;
    tls_key = overlay (getenv "KITE_TLS_KEY") c.server.tls_key;
  };
  auth = record (c.auth) {
    tokens =
        if str_eq (getenv "KITE_AUTH_TOKENS") ""
        then c.auth.tokens
        else split_and_trim split_commas trim_space (getenv "KITE_AUTH_TOKENS");
  };
  libvirt = record (c.libvirt) { uri = overlay (getenv "KITE_LIBVIRT_URI") c.libvirt.uri };
  state_path = overlay (getenv "KITE_STATE_PATH") c.state_path;
}

-- an interval that is not above 0 is set to a minute
abbrev pub interval_or_default : ℤ → ℤ
interval_or_default (pos zero) = pos 60
interval_or_default (pos (suc n)) = pos (suc n)
interval_or_default (negsuc n) = pos 60

-- applyDefaults
unfoldable pub apply_defaults : Settings → Settings
apply_defaults c = record c {
  server = record (c.server) { addr = default_to ":8443" c.server.addr };
  libvirt = record {
    uri = default_to "qemu:///system" c.libvirt.uri;
    storage_pool = default_to "default" c.libvirt.storage_pool;
    image_base_dir = default_to "/var/lib/libvirt/images/base" c.libvirt.image_base_dir;
    instance_dir = default_to "/var/lib/libvirt/images" c.libvirt.instance_dir;
  };
  state_path = default_to "/var/lib/kite-kvm/state.db" c.state_path;
  interval_seconds = interval_or_default c.interval_seconds;
}
