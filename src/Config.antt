-- ===== src/Config.antt =====
-- internal/config/config.go and internal/catalog/catalog.go: what the services read of the
-- configuration.
pub mod Settings
pub mod Validation
pub mod Lookups
use kite_kvm.Prelude.{Bool, List, Option, String, [], if◌then◌else◌, none, some, str_eq, ℕ, ◌∷◌}
use kite_kvm.Model.{NetworkMode}

-- config.Network
pub record ConfigNetwork : Type 0 where
  pub id : String
  pub mode : NetworkMode
  pub is_default : Bool
  pub libvirt_network : String
  pub subnet : String
  pub bridge : String
  pub ip_pool : List String
  pub gateway : String
  pub netmask : String
  pub dns : List String
  pub vlan : ℕ

pub record Flavor : Type 0 where
  pub id : String
  pub name : String
  pub vcpus : ℕ
  pub memory_mb : ℕ
  pub disk_gb : ℕ
  pub bandwidth_mbps : ℕ
  pub traffic_quota_gb : ℕ

pub record Image : Type 0 where
  pub id : String
  pub name : String
  pub os_variant : String
  pub base_path : String
  pub default_user : String

pub record Config : Type 0 where
  pub networks : List ConfigNetwork
  pub flavors : List Flavor
  pub images : List Image
  pub storage_pool : String
  pub instance_dir : String

-- `flavorByID[fl.ID] = fl` in order: a later entry of an id replaces an earlier one.
unfoldable pub catalog_flavor : String → List Flavor → Option Flavor
catalog_flavor id [] = none
catalog_flavor id (f ∷ fs) = elim (catalog_flavor id fs) [
  | some g ↦ some g
  | none ↦ if str_eq f.id id then some f else none
]

unfoldable pub catalog_image : String → List Image → Option Image
catalog_image id [] = none
catalog_image id (i ∷ is) = elim (catalog_image id is) [
  | some j ↦ some j
  | none ↦ if str_eq i.id id then some i else none
]

-- NetworkByID
unfoldable pub network_by_id : String → List ConfigNetwork → Option ConfigNetwork
network_by_id id [] = none
network_by_id id (n ∷ ns) = if str_eq n.id id then some n else network_by_id id ns

-- DefaultNetwork
unfoldable pub flagged_network : List ConfigNetwork → Option ConfigNetwork
flagged_network [] = none
flagged_network (n ∷ ns) = if n.is_default then some n else flagged_network ns

unfoldable pub default_network : List ConfigNetwork → Option ConfigNetwork
unfolding flagged_network
default_network [] = none
default_network (n ∷ ns) = elim (flagged_network (n ∷ ns)) [ some d ↦ some d | none ↦ some n ]
