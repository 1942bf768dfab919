-- ===== src/Vm/Lifecycle.antt =====
-- The runners that change a VM's power: runPower, runSuspend, runUnsuspend and runTerminate.
pub mod Suspension
pub mod Restored
pub mod Retry
pub mod Teardown
use kite_kvm.Prelude.{Bool, Result, String, err, false, if◌then◌else◌, not, ok, true, ◌&&◌}
use kite_kvm.Prelude.Effects.{Exec, attempt, pure, ◌>>=◌, ◌>>◌}
use kite_kvm.Model.{PowerState, Vm, VmStatus, is_power_on, is_suspended, is_terminated}
use kite_kvm.Store.Vms.{get_vm, update_vm}
use kite_kvm.Libvirt.{DomainState, map_power_state}
use kite_kvm.Node.{Node, on_db, on_host}
use kite_kvm.Vm.{Env}
use kite_kvm.Vm.Links.{apply_link, teardown_partial}

-- the four jobs of runPower
pub data PowerOp : Type 0 where
  op_start op_shutdown op_reboot op_stop : PowerOp

abbrev pub is_start : PowerOp → Bool
is_start op_start = true
is_start _ = false

-- newStatus
unfoldable pub status_after : PowerOp → VmStatus
status_after op_start = VmStatus.running
status_after op_shutdown = VmStatus.stopped
status_after op_reboot = VmStatus.running
status_after op_stop = VmStatus.stopped

module _ {H : Type 0} (env : Env H) where
  unfoldable pub power_call : PowerOp → String → Exec H (Unit {0})
  power_call op_start name = env.conn.start_domain name
  power_call op_shutdown name = env.conn.shutdown_domain name
  power_call op_reboot name = env.conn.reboot_domain name
  power_call op_stop name = env.conn.destroy_domain name

  -- if state, err := DomainState(…); err == nil { v.PowerState = mapPowerState(state) }
  abbrev pub with_power : Vm → Result DomainState → Vm
  with_power v (err e) = v
  with_power v (ok st) = record v { power_state = map_power_state st }

  unfoldable pub run_power : String → PowerOp → Exec (Node H) (Unit {0})
  run_power id op = do
    v ← on_db (get_vm id)
    on_host (power_call op v.domain_name)
    live ← attempt (on_host (env.conn.domain_state v.domain_name))
    let v' = with_power (record v { status = status_after op }) live
    _ ← if is_start op && v.network_blocked then attempt (apply_link env v') else pure (ok tt)
    on_db (update_vm v')

  -- prev := PowerShutoff, or the live state if it could be read
  abbrev pub power_before : Result DomainState → PowerState
  power_before (err e) = PowerState.shutoff
  power_before (ok st) = map_power_state st

  abbrev pub suspended_from : PowerState → Vm → Vm
  suspended_from prev v = record v {
    prev_power_state = prev;
    status = VmStatus.suspended;
    power_state = PowerState.shutoff;
  }

  unfoldable pub run_suspend : String → Exec (Node H) (Unit {0})
  run_suspend id = do
    v ← on_db (get_vm id)
    if is_suspended v.status then pure tt else do
      live ← attempt (on_host (env.conn.domain_state v.domain_name))
      let prev = power_before live
      if is_power_on prev then on_host (env.conn.destroy_domain v.domain_name) else pure tt
      on_db (update_vm (suspended_from prev v))

  unfoldable pub run_unsuspend : String → Exec (Node H) (Unit {0})
  run_unsuspend id = do
    v ← on_db (get_vm id)
    if not (is_suspended v.status)
        then pure tt
        else if is_power_on v.prev_power_state
        then (do
          on_host (env.conn.start_domain v.domain_name)
          on_db (
              update_vm (record v {
                status = VmStatus.running;
                power_state = PowerState.running;
                prev_power_state = PowerState.unknown;
              })))
        else on_db (
            update_vm (record v {
              status = VmStatus.stopped;
              power_state = PowerState.shutoff;
              prev_power_state = PowerState.unknown;
            }))

  abbrev pub ended : Vm → Vm
  ended v = record v { status = VmStatus.terminated; power_state = PowerState.shutoff }

  unfoldable pub run_terminate : String → Exec (Node H) (Unit {0})
  run_terminate id = do
    v ← on_db (get_vm id)
    if is_terminated v.status
        then pure tt
        else do teardown_partial env v v.mac; on_db (update_vm (ended v))
