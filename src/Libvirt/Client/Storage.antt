-- ===== src/Libvirt/Client/Storage.antt =====
-- The calls of internal/libvirt/libvirtconn.go on volumes.
use kite_kvm.Libvirt.Client.Documents.{FmtLib, volume_xml}
use kite_kvm.Libvirt.Client.{
  Client, Rpc, answer, ensure, failure, no_storage_pool, no_storage_vol, rpc, rpc_result,
}
use kite_kvm.Libvirt.{StorageVolSpec}
use kite_kvm.Prelude.Effects.{Exec, pure, raise, ◌>>=◌, ◌>>◌}
use kite_kvm.Prelude.{String, other, ℕ}

module _ {L Pool Vol Net Snap : Type 0} (lib : Rpc L Pool Vol Net Snap) (fmt : FmtLib)
    (uri : String) where
  unfoldable pub create_volume : StorageVolSpec → Exec (Client L) String
  create_volume spec = do
    ensure lib uri
    pool ← rpc (lib.pool_lookup_by_name spec.pool)
    vol ← rpc (lib.vol_create_xml pool (volume_xml fmt spec))
    rpc (lib.vol_get_path vol)

  -- a pool or a volume that is not there is no error
  unfoldable pub delete_volume : String → String → Exec (Client L) (Unit {0})
  delete_volume pool name = do
    ensure lib uri
    there ← rpc_result (lib.pool_lookup_by_name pool)
    elim there [
      | failure no_storage_pool ↦ pure tt
      | failure e ↦ raise other
      | answer p ↦ do
        found ← rpc_result (lib.vol_lookup_by_name p name)
        elim found [
          | failure no_storage_vol ↦ pure tt
          | failure e ↦ raise other
          | answer vol ↦ rpc (lib.vol_delete vol)
        ]
    ]

  unfoldable pub resize_volume : String → String → ℕ → Exec (Client L) (Unit {0})
  resize_volume pool name bytes = do
    ensure lib uri
    p ← rpc (lib.pool_lookup_by_name pool)
    vol ← rpc (lib.vol_lookup_by_name p name)
    rpc (lib.vol_resize vol bytes)
