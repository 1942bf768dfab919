-- ===== src/Vm.antt =====
-- internal/vm: the VM service. `Env` is what a `Service` holds besides its state; the state is the
-- node. A runner reads the VM's record, works on a copy, and writes the copy back.
pub mod Links
pub mod Lifecycle
pub mod Provisioning
pub mod Traffic
pub mod Dispatch
pub mod Requests
pub mod Stats
use kite_kvm.Prelude.{
  Error, Option, Result, String, err, none, ok, some, ℕ, ◌%◌, ◌*◌, ◌^◌, if◌then◌else◌, not_found,
  vm_not_found, vm_terminated,
}
use kite_kvm.Prelude.Effects.{Exec}
use kite_kvm.Model.{Vm, VmStatus, is_terminated}
use kite_kvm.Store.Vms.{update_vm, get_vm}
use kite_kvm.Libvirt.{Conn}
use kite_kvm.DomainXml.{Marshal}
use kite_kvm.Config.{Config}
use kite_kvm.Network.Subnet.{IpNet, NetLib}
use kite_kvm.Node.{Node, on_db}

pub record Env (H : Type 0) : Type 0 where
  pub conn : Conn H
  pub marshal : Marshal
  pub net : NetLib
  pub join_path : String → String → String  -- filepath.Join
  pub fuel : ℕ
  pub config : Config

-- what a run draws at random: the result of generateMAC, and uuid.NewString()[:8]
pub record Fresh : Type 0 where
  pub mac : Result String
  pub nonce : String

abbrev pub gib : ℕ
gib = 2 ^ 30

-- uint64(gb) * gib
abbrev pub gib_bytes : ℕ → ℕ
gib_bytes gb = gb * gib % 2 ^ 64

module _ {H : Type 0} where
  -- loadOperable
  unfoldable pub load_operable : String → Exec (Node H) Vm
  load_operable id n =
      let got = on_db (get_vm id) n in
      elim (got.0) [
        | err Error.not_found ↦ (err vm_not_found, got.1)
        | err e ↦ (err e, got.1)
        | ok v ↦ if is_terminated v.status then (err vm_terminated, got.1) else (ok v, got.1)
      ]

  -- failVM: the record's error is the cause, whatever becomes of the write
  unfoldable pub fail_vm : {A : Type 0} → Vm → Error → Exec (Node H) A
  fail_vm v cause n = (err cause, (on_db (update_vm (record v { status = VmStatus.error })) n).1)

  -- the steps `if err := f(); err != nil { return s.failVM(…) }`
  unfoldable pub or_fail : {A : Type 0} → Vm → Exec (Node H) A → Exec (Node H) A
  or_fail v m n = elim ((m n).0) [ ok a ↦ (ok a, (m n).1) | err e ↦ fail_vm v e ((m n).1) ]
