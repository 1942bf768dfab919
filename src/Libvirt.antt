-- ===== src/Libvirt.antt =====
-- internal/libvirt/conn.go: the interface to the hypervisor, over a state of its own, and the files
-- that the agent writes beside it.
pub mod Fake
pub mod Client
use kite_kvm.Prelude.{Bool, List, String, ℕ}
use kite_kvm.Prelude.Effects.{Exec}
use kite_kvm.Model.{PowerState}

pub data DomainState : Type 0 where
  state_unknown state_running state_shutoff state_paused : DomainState

pub record DomainStats : Type 0 where
  pub name : String
  pub state : DomainState
  pub cpu_time_ns : ℕ
  pub mem_balloon_kib : ℕ
  pub mem_rss_kib : ℕ
  pub net_rx_bytes : ℕ  -- uint64
  pub net_tx_bytes : ℕ  -- uint64
  pub block_rd_bytes : ℕ
  pub block_wr_bytes : ℕ
  pub block_allocation : ℕ
  pub block_capacity : ℕ

-- DomainStats{}
abbrev pub zero_stats : DomainStats
zero_stats = record {
  name = "";
  state = state_unknown;
  cpu_time_ns = 0;
  mem_balloon_kib = 0;
  mem_rss_kib = 0;
  net_rx_bytes = 0;
  net_tx_bytes = 0;
  block_rd_bytes = 0;
  block_wr_bytes = 0;
  block_allocation = 0;
  block_capacity = 0;
}

pub record HostInfo : Type 0 where
  pub hostname : String
  pub cpus : ℕ
  pub memory_total_bytes : ℕ
  pub memory_free_bytes : ℕ
  pub storage_bytes : ℕ
  pub storage_free_bytes : ℕ
  pub libvirt_version : String

pub record SnapshotInfo : Type 0 where
  pub name : String
  pub state : String
  pub creation_time : ℕ
  pub current : Bool

pub record StorageVolSpec : Type 0 where
  pub pool : String
  pub name : String
  pub capacity_bytes : ℕ
  pub backing_path : String
  pub backing_fmt : String

-- provision.SeedFile
pub record SeedFile : Type 0 where
  pub name : String
  pub content : List ℕ

-- The calls of `Conn` but Connect and Close, and those of provision.BuildSeedISO and of os.Remove.
-- `H` is the state of the host: domains, volumes, leases, files.
pub record Conn (H : Type 0) : Type 0 where
  pub ping : Exec H (Unit {0})
  pub host_info : String → Exec H HostInfo
  pub define_domain : String → Exec H String
  pub start_domain : String → Exec H (Unit {0})
  pub shutdown_domain : String → Exec H (Unit {0})
  pub reboot_domain : String → Exec H (Unit {0})
  pub destroy_domain : String → Exec H (Unit {0})
  pub suspend_domain : String → Exec H (Unit {0})
  pub resume_domain : String → Exec H (Unit {0})
  pub undefine_domain : String → Exec H (Unit {0})
  pub update_interface : String → String → Exec H (Unit {0})
  pub domain_state : String → Exec H DomainState
  pub list_domains : Exec H (List String)
  pub domain_xml : String → Exec H String
  pub domain_vnc_address : String → Exec H (String × ℕ)
  pub create_volume : StorageVolSpec → Exec H String
  pub delete_volume : String → String → Exec H (Unit {0})
  pub resize_volume : String → String → ℕ → Exec H (Unit {0})
  pub all_domain_stats : Exec H (List DomainStats)
  pub add_dhcp_host : String → String → String → String → Exec H (Unit {0})
  pub remove_dhcp_host : String → String → Exec H (Unit {0})
  pub create_snapshot : String → String → String → Exec H (Unit {0})
  pub list_snapshots : String → Exec H (List SnapshotInfo)
  pub delete_snapshot : String → String → Exec H (Unit {0})
  pub revert_snapshot : String → String → Exec H (Unit {0})
  pub build_seed_iso : String → List SeedFile → Exec H (Unit {0})
  pub remove_file : String → Exec H (Unit {0})

-- mapPowerState of internal/vm/service.go
unfoldable pub map_power_state : DomainState → PowerState
map_power_state state_running = PowerState.running
map_power_state state_shutoff = PowerState.shutoff
map_power_state state_paused = PowerState.paused
map_power_state state_unknown = PowerState.unknown
