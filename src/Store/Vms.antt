-- ===== src/Store/Vms.antt =====
-- The table `vms`: CreateVM, GetVM, ListVMs, UpdateVM and DeleteVM of internal/store/sqlite.go.
pub mod Rows
use kite_kvm.Prelude.{
  List, Option, String, [], conflict, err, if◌then◌else◌, none, not_found, ok, some, ℕ, ◌++◌, ◌==◌,
  ◌∷◌,
}
use kite_kvm.Prelude.Effects.{Exec}
use kite_kvm.Model.{Vm}
use kite_kvm.Store.Table.{delete_at, find, update_at, in_order}
use kite_kvm.Store.Db.{Db, statement}

abbrev pub vm_key : Vm → String
vm_key v = v.id

-- INSERT fails on the primary key.
unfoldable pub create_vm : Vm → Exec Db (Unit {0})
unfolding statement
create_vm v = statement λ db.
    let created = if v.created_at == 0 then db.clock else v.created_at in
    let row = record v { created_at = created; updated_at = db.clock } in
    elim (find vm_key v.id db.vms) [
      | some _ ↦ (err conflict, db)
      | none ↦ (ok tt, record db { vms = db.vms ++ row ∷ [] })
    ]

unfoldable pub get_vm : String → Exec Db Vm
unfolding statement
get_vm id =
    statement
      λ db. elim (find vm_key id db.vms) [ none ↦ (err not_found, db) | some v ↦ (ok v, db) ]

-- ORDER BY created_at, as times
unfoldable pub list_vms : Exec Db (List Vm)
unfolding statement
list_vms = statement λ db. (ok (in_order (λ v. v.created_at) db.vms), db)

-- every column but `created_at`
abbrev pub set_columns : ℕ → Vm → Vm → Vm
set_columns now v row = record v { created_at = row.created_at; updated_at = now }

unfoldable pub update_vm : Vm → Exec Db (Unit {0})
unfolding statement
update_vm v = statement λ db. elim (find vm_key v.id db.vms) [
  | none ↦ (err not_found, db)
  | some _ ↦ (ok tt, record db { vms = update_at vm_key v.id (set_columns db.clock v) db.vms })
]

unfoldable pub delete_vm : String → Exec Db (Unit {0})
unfolding statement
delete_vm id = statement λ db. elim (find vm_key id db.vms) [
  | none ↦ (err not_found, db)
  | some _ ↦ (ok tt, record db { vms = delete_at vm_key id db.vms })
]

-- the row of a VM
unfoldable pub vm_row : String → Db → Option Vm
vm_row id db = find vm_key id db.vms
