-- ===== src/Vm/Lifecycle/Suspension.antt =====
-- A suspension and its end: runSuspend and runUnsuspend of internal/vm/suspend.go.
use mathlib.Core.Path.{subst}
use kite_kvm.Vm.Lifecycle.{power_before, run_suspend, suspended_from, run_unsuspend}
use kite_kvm.Libvirt.{DomainState}
use kite_kvm.Vm.{Env}
use kite_kvm.Node.{Node}
use kite_kvm.Store.Vms.Rows.{
  clock-get_vm, clock-update_vm, faults-get_vm, faults-update_vm, update_vm-ok, vm_row-get_vm,
  vm_row-update_vm, get_vm-found,
}
use kite_kvm.Store.Vms.{get_vm, set_columns, vm_row}
use kite_kvm.Store.Db.{Db}
use kite_kvm.Model.{PowerState, Vm, VmStatus, is_power_on, is_suspended}
use kite_kvm.Prelude.{
  Bool, [], if◌then◌else◌, ok, some, ℕ, ◌∙◌, ◌≡◌, Result, arith, false, inl, inr, Bool-cases, true,
  refl,
}

abbrev stored_at : ℕ → Vm → Vm
stored_at now v = record v { updated_at = now }

-- the record of a VM whose suspension has ended
abbrev pub resumed : Bool → Vm → Vm
resumed was_on v = record v {
  status = if was_on then VmStatus.running else VmStatus.stopped;
  power_state = if was_on then PowerState.running else PowerState.shutoff;
  prev_power_state = PowerState.unknown;
}

module _ {H : Type 0} (env : Env H) where
  module _ (v : Vm) (n : Node H) (sound : n.db.faults ≡ []) (row : vm_row v.id n.db ≡ some v) where
    -- the database after the record is read
    abbrev seen : Db
    seen = (get_vm v.id n.db).1

    seen_row : vm_row v.id seen ≡ some v
    seen_row = vm_row-get_vm v.id n.db v.id ∙ row

    -- The VM is stopped, unless it was off: the record says how it was.
    pub run_suspend-row :
        (live : Result DomainState)
        → is_suspended v.status ≡ false
        → (env.conn.domain_state v.domain_name n.host).0 ≡ live
        → ((h : H) → (env.conn.destroy_domain v.domain_name h).0 ≡ ok tt)
        → let w = suspended_from env (power_before env live) v in
          let after = run_suspend env v.id n in
          (after.0 ≡ ok tt)
          × (vm_row v.id after.1.db ≡ some (set_columns n.db.clock w v))
          × (after.1.db.faults ≡ [])
          × (after.1.db.clock ≡ n.db.clock)
    unfolding run_suspend
    run_suspend-row live active now stops =
        let stop = stops (env.conn.domain_state v.domain_name n.host).1 in
        let got = get_vm-found v.id n.db v sound row in
        let w = suspended_from env (power_before env live) v in
        let sound' = faults-get_vm v.id n.db sound in
        let wrote = update_vm-ok w seen v sound' seen_row in
        let after = vm_row-update_vm w seen v sound' seen_row in
        let clock = clock-get_vm v.id n.db in
        let clock' = clock-update_vm w seen in
        let sound'' = faults-update_vm w seen sound' in
        (
          ground (arith, got, active, now, stop, wrote),
          ground (arith, got, active, now, stop, wrote, after, clock),
          ground (arith, got, active, now, stop, wrote, sound''),
          ground (arith, got, active, now, stop, wrote, clock, clock'),
        )

    pub run_suspend-host :
        (live : Result DomainState)
        → is_suspended v.status ≡ false
        → (env.conn.domain_state v.domain_name n.host).0 ≡ live
        → ((h : H) → (env.conn.destroy_domain v.domain_name h).0 ≡ ok tt)
        → let seen_host = (env.conn.domain_state v.domain_name n.host).1 in
          (run_suspend env v.id n).1.host ≡ (
            if is_power_on (power_before env live)
            then (env.conn.destroy_domain v.domain_name seen_host).1
            else seen_host)
    unfolding run_suspend
    run_suspend-host live active now stops =
        let stop = stops (env.conn.domain_state v.domain_name n.host).1 in
        let got = get_vm-found v.id n.db v sound row in ground (arith, got, active, now, stop)

    pub run_unsuspend-host :
        is_suspended v.status ≡ true
        → (is_power_on v.prev_power_state ≡ true
            → (env.conn.start_domain v.domain_name n.host).0 ≡ ok tt)
        → (run_unsuspend env v.id n).1.host ≡ (
            if is_power_on v.prev_power_state
            then (env.conn.start_domain v.domain_name n.host).1
            else n.host)
    unfolding run_unsuspend
    run_unsuspend-host active starts =
        let got = get_vm-found v.id n.db v sound row in
        elim (Bool-cases (is_power_on v.prev_power_state)) [
          | inl on ↦ let start = starts on in ground (arith, got, active, on, start)
          | inr off ↦ ground (arith, got, active, off)
        ]

    -- The VM is started again if it was on.
    pub run_unsuspend-row :
        is_suspended v.status ≡ true
        → (is_power_on v.prev_power_state ≡ true
            → (env.conn.start_domain v.domain_name n.host).0 ≡ ok tt)
        → let w = resumed (is_power_on v.prev_power_state) v in
          let after = run_unsuspend env v.id n in
          (after.0 ≡ ok tt) × (vm_row v.id after.1.db ≡ some (set_columns n.db.clock w v))
    unfolding run_unsuspend
    run_unsuspend-row active starts =
        let got = get_vm-found v.id n.db v sound row in
        let sound' = faults-get_vm v.id n.db sound in
        let clock = clock-get_vm v.id n.db in
        elim (Bool-cases (is_power_on v.prev_power_state)) [
          | inl on ↦
              let w = resumed true v in
              let wrote = update_vm-ok w seen v sound' seen_row in
              let after = vm_row-update_vm w seen v sound' seen_row in
              let start = starts on in
              (
                ground (arith, got, active, on, start, wrote),
                ground (arith, got, active, on, start, after, clock),
              )
          | inr off ↦
              let w = resumed false v in
              let wrote = update_vm-ok w seen v sound' seen_row in
              let after = vm_row-update_vm w seen v sound' seen_row in
              (
                ground (arith, got, active, off, wrote),
                ground (arith, got, active, off, after, clock),
              )
        ]

  -- the record after a suspension and its end
  pub run_unsuspend-run_suspend_row :
      (v : Vm) (n : Node H) (live : Result DomainState)
      → n.db.faults ≡ []
      → vm_row v.id n.db ≡ some v
      → is_suspended v.status ≡ false
      → (env.conn.domain_state v.domain_name n.host).0 ≡ live
      → ((h : H) → (env.conn.destroy_domain v.domain_name h).0 ≡ ok tt)
      → ((h : H) → (env.conn.start_domain v.domain_name h).0 ≡ ok tt)
      → let w = resumed (is_power_on (power_before env live)) v in
        let after = run_unsuspend env v.id (run_suspend env v.id n).1 in
        (after.0 ≡ ok tt) × (vm_row v.id after.1.db ≡ some (set_columns n.db.clock w v))
  run_unsuspend-run_suspend_row v n live sound row active now stops starts =
      let first = run_suspend-row v n sound row live active now stops in
      let held = set_columns n.db.clock (suspended_from env (power_before env live) v) v in
      let middle = (run_suspend env v.id n).1 in
      let second = run_unsuspend-row held middle first.2 first.1 refl (λ _. starts middle.host) in
      (
        second.0,
        subst
            (λ c.
              vm_row v.id (run_unsuspend env v.id middle).1.db
              ≡ some (set_columns c (resumed (is_power_on (power_before env live)) v) v))
            first.3 second.1,
      )
