-- ===== src/Store/Vms/Rows.antt =====
-- The row of a VM after a statement on the table `vms`, and what such a statement leaves alone.
use kite_kvm.Store.Vms.{get_vm, list_vms, set_columns, update_vm, vm_key, vm_row}
use kite_kvm.Store.Ips.{allocate_ip, release_ip_by_vm, without_vm}
use kite_kvm.Store.Db.{Db}
use kite_kvm.Store.Table.{find, find-update_at, key-find}
use kite_kvm.Model.{Vm}
use kite_kvm.Prelude.{String, List, [], ap, arith, eq_iff, ok, refl, some, ◌≡◌}

module _ (id : String) (db : Db) where
  pub get_vm-found : (v : Vm) → db.faults ≡ [] → vm_row id db ≡ some v → (get_vm id db).0 ≡ ok v
  unfolding get_vm vm_row
  get_vm-found v sound h = ground arith

  pub jobs-get_vm : (get_vm id db).1.jobs ≡ db.jobs
  unfolding get_vm
  jobs-get_vm = ground arith

  pub vms-get_vm : (get_vm id db).1.vms ≡ db.vms
  unfolding get_vm
  vms-get_vm = ground arith

  pub clock-get_vm : (get_vm id db).1.clock ≡ db.clock
  unfolding get_vm
  clock-get_vm = ground arith

  pub faults-get_vm : db.faults ≡ [] → (get_vm id db).1.faults ≡ []
  unfolding get_vm
  faults-get_vm sound = ground arith

  pub vm_row-get_vm : (k : String) → vm_row k (get_vm id db).1 ≡ vm_row k db
  unfolding vm_row
  vm_row-get_vm k = ap (find vm_key k) vms-get_vm

module _ (v : Vm) (db : Db) where
  pub jobs-update_vm : (update_vm v db).1.jobs ≡ db.jobs
  unfolding update_vm
  jobs-update_vm = ground arith

  pub clock-update_vm : (update_vm v db).1.clock ≡ db.clock
  unfolding update_vm
  clock-update_vm = ground arith

  pub faults-update_vm : db.faults ≡ [] → (update_vm v db).1.faults ≡ []
  unfolding update_vm
  faults-update_vm sound = ground arith

  pub ips-update_vm : (update_vm v db).1.ip_allocations ≡ db.ip_allocations
  unfolding update_vm
  ips-update_vm = ground arith

  pub update_vm-ok :
      (old : Vm) → db.faults ≡ [] → vm_row v.id db ≡ some old → (update_vm v db).0 ≡ ok tt
  unfolding update_vm vm_row
  update_vm-ok old sound h = ground arith

  pub vm_row-update_vm :
      (old : Vm)
      → db.faults ≡ []
      → vm_row v.id db ≡ some old
      → vm_row v.id (update_vm v db).1 ≡ some (set_columns db.clock v old)
  unfolding update_vm vm_row
  vm_row-update_vm old sound h = ground (
    arith,
    find-update_at vm_key v.id v.id (set_columns db.clock v) db.vms (λ r. refl),
    eq_iff v.id v.id,
  )

pub id-vm_row : (id : String) (db : Db) (v : Vm) → vm_row id db ≡ some v → v.id ≡ id
unfolding vm_row
id-vm_row id db v h = key-find vm_key id db.vms v h

pub jobs-list_vms : (db : Db) → (list_vms db).1.jobs ≡ db.jobs
unfolding list_vms
jobs-list_vms db = ground arith

pub faults-list_vms : (db : Db) → db.faults ≡ [] → (list_vms db).1.faults ≡ []
unfolding list_vms
faults-list_vms db sound = ground arith

-- the same of the addresses
module _ (network vm mac : String) (candidates : List String) (db : Db) where
  pub jobs-allocate_ip : (allocate_ip network vm mac candidates db).1.jobs ≡ db.jobs
  unfolding allocate_ip
  jobs-allocate_ip = ground arith

  pub faults-allocate_ip : db.faults ≡ [] → (allocate_ip network vm mac candidates db).1.faults ≡ []
  unfolding allocate_ip
  faults-allocate_ip sound = ground arith

  pub vms-allocate_ip : (allocate_ip network vm mac candidates db).1.vms ≡ db.vms
  unfolding allocate_ip
  vms-allocate_ip = ground arith

module _ (vm : String) (db : Db) where
  pub jobs-release_ip_by_vm : (release_ip_by_vm vm db).1.jobs ≡ db.jobs
  unfolding release_ip_by_vm
  jobs-release_ip_by_vm = ground arith

  pub vms-release_ip_by_vm : (release_ip_by_vm vm db).1.vms ≡ db.vms
  unfolding release_ip_by_vm
  vms-release_ip_by_vm = ground arith

  pub clock-release_ip_by_vm : (release_ip_by_vm vm db).1.clock ≡ db.clock
  unfolding release_ip_by_vm
  clock-release_ip_by_vm = ground arith

  pub faults-release_ip_by_vm : db.faults ≡ [] → (release_ip_by_vm vm db).1.faults ≡ []
  unfolding release_ip_by_vm
  faults-release_ip_by_vm sound = ground arith

  pub ips-release_ip_by_vm :
      db.faults ≡ [] → (release_ip_by_vm vm db).1.ip_allocations ≡ without_vm vm db.ip_allocations
  unfolding release_ip_by_vm
  ips-release_ip_by_vm sound = ground arith

  pub release_ip_by_vm-ok : db.faults ≡ [] → (release_ip_by_vm vm db).0 ≡ ok tt
  unfolding release_ip_by_vm
  release_ip_by_vm-ok sound = ground arith
