-- ===== src/Libvirt/Client.antt =====
-- internal/libvirt/libvirtconn.go: the client of the real hypervisor. go-libvirt is a parameter: `Rpc`
-- has the calls that the client makes, over a state `L` of the daemon and the connection.
pub mod Documents
pub mod Calls
pub mod Storage
pub mod Reports
use kite_kvm.Prelude.Effects.{Exec, pure, raise, ◌>>=◌, ◌>>◌}
use kite_kvm.Prelude.{
  String, Bool, List, Result, domain_not_found, err, false, if◌then◌else◌, not, ok, other, true, ℕ,
  ℤ, ◌&&◌,
}

-- what the client tells apart in an error of go-libvirt
pub data RpcError : Type 0 where
  no_domain no_storage_pool no_storage_vol no_domain_snapshot operation_invalid : RpcError
  rpc_failed : RpcError

pub data RpcResult (A : Type 0) : Type 0 where
  answer : A → RpcResult A
  failure : RpcError → RpcResult A

abbrev pub Call : Type 0 → Type 0 → Type 0
Call L A = L → RpcResult A × L

pub record DomainRef : Type 0 where
  pub name : String
  pub uuid : List ℕ

-- golibvirt.TypedParam: the integers with a sign, those without, a float64, and what is left
pub data ParamValue : Type 0 where
  signed : ℤ → ParamValue
  unsigned float_bits : ℕ → ParamValue
  other_value : ParamValue

pub record StatsRecord : Type 0 where
  pub dom : DomainRef
  pub params : List (String × ParamValue)

-- the constants of golibvirt.DomainState
pub record StateCodes : Type 0 where
  pub running : ℕ
  pub paused : ℕ
  pub shutoff : ℕ
  pub shutdown : ℕ
  pub crashed : ℕ

-- what NetworkUpdate is asked for
pub data LeaseUpdate : Type 0 where
  add_last delete_host : LeaseUpdate

-- go-libvirt: `Vol`, `Pool`, `Net` and `Snap` are its handles
pub record Rpc (L Pool Vol Net Snap : Type 0) : Type 0 where
  pub is_connected : L → Bool
  pub connect_to_uri : String → Call L (Unit {0})
  pub disconnect : Call L (Unit {0})
  pub get_lib_version : Call L ℕ
  pub domain_lookup_by_name : String → Call L DomainRef
  pub domain_define_xml : String → Call L DomainRef
  pub domain_create : DomainRef → Call L (Unit {0})
  pub domain_shutdown : DomainRef → Call L (Unit {0})
  pub domain_reboot : DomainRef → Call L (Unit {0})
  pub domain_destroy : DomainRef → Call L (Unit {0})
  pub domain_suspend : DomainRef → Call L (Unit {0})
  pub domain_resume : DomainRef → Call L (Unit {0})
  pub domain_undefine : DomainRef → Call L (Unit {0})
  pub domain_get_state : DomainRef → Call L ℕ
  pub list_all_domains : Call L (List DomainRef)
  pub domain_get_xml_desc : DomainRef → Call L String
  pub domain_update_device : DomainRef → String → Call L (Unit {0})
  pub pool_lookup_by_name : String → Call L Pool
  pub pool_get_info : Pool → Call L (ℕ × ℕ)  -- the capacity and what is available
  pub vol_create_xml : Pool → String → Call L Vol
  pub vol_get_path : Vol → Call L String
  pub vol_lookup_by_name : Pool → String → Call L Vol
  pub vol_delete : Vol → Call L (Unit {0})
  pub vol_resize : Vol → ℕ → Call L (Unit {0})
  pub get_all_domain_stats : Call L (List StatsRecord)
  pub network_lookup_by_name : String → Call L Net
  pub network_update : Net → LeaseUpdate → String → Call L (Unit {0})
  pub node_get_info : Call L (ℕ × ℕ)  -- the memory in KiB and the CPUs
  pub node_get_free_memory : Call L ℕ
  pub connect_get_hostname : Call L String
  pub snapshot_create_xml : DomainRef → String → Call L (Unit {0})
  pub list_all_snapshots : DomainRef → Call L (List (String × Snap))
  pub snapshot_current : DomainRef → Call L String
  pub snapshot_get_xml_desc : Snap → Call L String
  pub snapshot_lookup_by_name : DomainRef → String → Call L Snap
  pub snapshot_delete : Snap → Call L (Unit {0})
  pub revert_to_snapshot : Snap → Call L (Unit {0})
  pub codes : StateCodes

-- libvirtConn: whether `l` is set, and the daemon
pub record Client (L : Type 0) : Type 0 where
  pub has_client : Bool
  pub daemon : L

-- a call whose error is passed on; `golibvirt.Error` is an error that no caller tells apart
abbrev pub passed_on : {A : Type 0} → RpcResult A → Result A
passed_on (answer a) = ok a
passed_on (failure e) = err other

module _ {L A : Type 0} where
  unfoldable pub rpc : Call L A → Exec (Client L) A
  rpc m c = (passed_on (m c.daemon).0, record c { daemon = (m c.daemon).1 })

  -- a call whose error is looked at
  unfoldable pub rpc_result : Call L A → Exec (Client L) (RpcResult A)
  rpc_result m c = (ok (m c.daemon).0, record c { daemon = (m c.daemon).1 })

module _ {L Pool Vol Net Snap : Type 0} (lib : Rpc L Pool Vol Net Snap) (uri : String) where
  -- ensure
  unfoldable pub ensure : Exec (Client L) (Unit {0})
  unfolding rpc
  ensure c =
      let dialed = rpc (lib.connect_to_uri uri) c in
      if c.has_client && lib.is_connected c.daemon then (ok tt, c) else elim (dialed.0) [
        | err e ↦ (err e, dialed.1)
        | ok _ ↦ (ok tt, record dialed.1 { has_client = true })
      ]

  -- Close
  unfoldable pub close : Exec (Client L) (Unit {0})
  unfolding rpc
  close c =
      let done = rpc lib.disconnect c in
      if not c.has_client then (ok tt, c) else (done.0, record done.1 { has_client = false })

  -- Ping: an answer that does not come resets the client
  unfoldable pub ping : Exec (Client L) (Unit {0})
  ping = do
    ensure
    version ← rpc_result lib.get_lib_version
    elim version [
      | answer v ↦ pure tt
      | failure e ↦ λ c. (err other, record c { has_client = false })
    ]

  -- lookup
  unfoldable pub lookup : String → Exec (Client L) DomainRef
  lookup name = do
    ensure
    found ← rpc_result (lib.domain_lookup_by_name name)
    elim found [
      | answer dom ↦ pure dom
      | failure no_domain ↦ raise domain_not_found
      | failure e ↦ raise other
    ]
