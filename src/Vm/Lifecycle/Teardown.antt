-- ===== src/Vm/Lifecycle/Teardown.antt =====
-- What a teardown leaves in the database, whatever the hypervisor answers: teardownPartial,
-- failCreate and runTerminate of internal/vm/service.go.

use kite_kvm.Vm.Lifecycle.{ended, run_terminate}
use kite_kvm.Store.Db.{Db}
use kite_kvm.Store.Vms.Rows.{
  clock-release_ip_by_vm, faults-release_ip_by_vm, ips-update_vm, release_ip_by_vm-ok, update_vm-ok,
  vm_row-update_vm, vms-release_ip_by_vm, clock-get_vm, faults-get_vm, get_vm-found, vm_row-get_vm,
}
use kite_kvm.Store.Vms.{set_columns, update_vm, vm_key, vm_row, get_vm}
use kite_kvm.Store.Ips.Ownership.{holds, release_ip_by_vm-holds}
use kite_kvm.Store.Table.{find}
use kite_kvm.Store.Ips.{release_ip_by_vm}
use kite_kvm.Model.{Vm, VmStatus, is_terminated}
use kite_kvm.Node.{Node}
use kite_kvm.Config.{ConfigNetwork}
use kite_kvm.Network.Strategy.{bridge_release, last_network, nat_release, network_release}
use kite_kvm.Vm.Links.{teardown_partial, fail_create}
use kite_kvm.Vm.{Env, fail_vm}
use mathlib.Core.Path.{subst}
use kite_kvm.Prelude.{
  String, arith, ok, some, ◌≡◌, Bool-cases, [], ap, false, inl, inr, str_eq, ◌∙◌, Error, err,
}

module _ {H : Type 0} (env : Env H) where
  module _ (id vm mac : String) (cfg : ConfigNetwork)
      (here : last_network id env.config.networks ≡ some cfg) (n : Node H) where
    network_release_db :
        (network_release env.net env.conn env.fuel env.config.networks id vm mac n).1.db
        ≡ (release_ip_by_vm vm n.db).1
    unfolding network_release nat_release bridge_release
    network_release_db = ground (arith, here)

  -- The address is released once, and nothing else of the database is touched.
  teardown_partial_db :
      (v : Vm) (mac : String) (cfg : ConfigNetwork) (n : Node H)
      → last_network v.network_id env.config.networks ≡ some cfg
      → (teardown_partial env v mac n).1.db ≡ (release_ip_by_vm v.id n.db).1
  unfolding teardown_partial
  teardown_partial_db v mac cfg n here = elim (Bool-cases (str_eq v.seed_path "")) [
    | inl none_built ↦ rw none_built (network_release_db v.network_id v.id mac cfg here _)
    | inr some_built ↦ rw some_built (network_release_db v.network_id v.id mac cfg here _)
  ]

  pub teardown_partial-ok :
      (v : Vm) (mac : String) (n : Node H) → (teardown_partial env v mac n).0 ≡ ok tt
  unfolding teardown_partial
  teardown_partial-ok v mac n = ground arith

  module _ (w old : Vm) (db : Db) (sound : db.faults ≡ []) (row : vm_row w.id db ≡ some old) where
    -- the database after the teardown of a VM
    abbrev freed : Db
    freed = (release_ip_by_vm w.id db).1

    freed_row : vm_row w.id freed ≡ some old
    unfolding vm_row
    freed_row = ap (find vm_key w.id) (vms-release_ip_by_vm w.id db) ∙ row

    freed_update :
        ((update_vm w freed).0 ≡ ok tt)
        × (vm_row w.id (update_vm w freed).1 ≡ some (set_columns db.clock w old))
        × ((network ip : String)
            → holds network ip w.id (update_vm w freed).1.ip_allocations ≡ false)
    freed_update =
        let sound' = faults-release_ip_by_vm w.id db sound in
        (
          update_vm-ok w freed old sound' freed_row,
          subst (λ c. vm_row w.id (update_vm w freed).1 ≡ some (set_columns c w old))
              (clock-release_ip_by_vm w.id db) (vm_row-update_vm w freed old sound' freed_row),
          λ network ip.
              rw (ips-update_vm w freed)
                (release_ip_by_vm-holds w.id w.id network ip db
                  (release_ip_by_vm-ok w.id db sound)).0,
        )

  -- The end of a VM that is not terminated yet, in a network that is configured and with a database
  -- that does not fail, succeeds whatever the hypervisor answers: the record is marked terminated,
  -- and the VM holds no address any more.
  pub run_terminate-frees :
      (v : Vm) (cfg : ConfigNetwork) (n : Node H)
      → n.db.faults ≡ []
      → vm_row v.id n.db ≡ some v
      → is_terminated v.status ≡ false
      → last_network v.network_id env.config.networks ≡ some cfg
      → let after = run_terminate env v.id n in
        (after.0 ≡ ok tt)
        × (vm_row v.id after.1.db ≡ some (set_columns n.db.clock (ended env v) v))
        × ((network ip : String) → holds network ip v.id after.1.db.ip_allocations ≡ false)
  unfolding run_terminate
  run_terminate-frees v cfg n sound row live here =
      let seen = (get_vm v.id n.db).1 in
      let n' : Node H = record n { db = seen } in
      let got = get_vm-found v.id n.db v sound row in
      let sound' = faults-get_vm v.id n.db sound in
      let row' : vm_row v.id seen ≡ some v = vm_row-get_vm v.id n.db v.id ∙ row in
      let torn = teardown_partial-ok v v.mac n' in
      let torn_db = teardown_partial_db v v.mac cfg n' here in
      let wrote = freed_update (ended env v) v seen sound' row' in
      let clock = clock-get_vm v.id n.db in
      (
        ground (arith, got, live, torn, torn_db, wrote.0),
        ground (arith, got, live, torn, torn_db, wrote.1, clock),
        λ network ip. ground (arith, got, live, torn, torn_db, wrote.2 network ip),
      )

  -- A creation that fails after the address was allocated, in a network that is configured and with
  -- a database that does not fail, returns its cause whatever the hypervisor answers to the
  -- teardown: the record is marked as an error, and the VM holds no address any more.
  pub fail_create-frees :
      {A : Type 0} (v old : Vm) (mac : String) (cause : Error) (cfg : ConfigNetwork) (n : Node H)
      → n.db.faults ≡ []
      → vm_row v.id n.db ≡ some old
      → last_network v.network_id env.config.networks ≡ some cfg
      → let after = fail_create env {A = A} v mac cause n in
        (after.0 ≡ err cause)
        × (vm_row v.id after.1.db
            ≡ some (set_columns n.db.clock (record v { status = VmStatus.error }) old))
        × ((network ip : String) → holds network ip v.id after.1.db.ip_allocations ≡ false)
  unfolding fail_create fail_vm
  fail_create-frees v old mac cause cfg n sound row here =
      let torn = teardown_partial-ok v mac n in
      let torn_db = teardown_partial_db v mac cfg n here in
      let wrote = freed_update (record v { status = VmStatus.error }) old n.db sound row in
      (
        ground (arith, torn, torn_db, wrote.0),
        ground (arith, torn, torn_db, wrote.1),
        λ network ip. ground (arith, torn, torn_db, wrote.2 network ip),
      )
