-- ===== src/Vm/Lifecycle/Retry.antt =====
-- What the queue's second attempt makes of a suspension: the record of how the domain was is lost.
use kite_kvm.Store.Vms.{get_vm, set_columns, update_vm, vm_row}
use kite_kvm.Model.{Vm, is_power_on, is_suspended}
use kite_kvm.Node.{Node}
use kite_kvm.Libvirt.{DomainState, map_power_state, state_shutoff}
use kite_kvm.Vm.Lifecycle.Suspension.{resumed, run_suspend-row, run_unsuspend-run_suspend_row}
use kite_kvm.Vm.Lifecycle.{run_suspend, run_unsuspend}
use kite_kvm.Vm.{Env}
use mathlib.Core.Path.{subst}
use kite_kvm.Prelude.{[], arith, db_failed, err, false, ok, some, sym, true, ◌∷◌, ◌≡◌}

module _ {H : Type 0} (env : Env H) where
  module _ (v : Vm) (n : Node H) (st : DomainState) (faults : n.db.faults ≡ false ∷ true ∷ [])
      (row : vm_row v.id n.db ≡ some v) (active : is_suspended v.status ≡ false)
      (now : (env.conn.domain_state v.domain_name n.host).0 ≡ ok st)
      (on : is_power_on (map_power_state st) ≡ true)
      (stops : (h : H) → (env.conn.destroy_domain v.domain_name h).0 ≡ ok tt)
      (off : (h : H)
        → (env.conn.domain_state v.domain_name (env.conn.destroy_domain v.domain_name h).1).0
          ≡ ok state_shutoff) where
    unwritten :
        let after = run_suspend env v.id n in
        let h = (env.conn.domain_state v.domain_name n.host).1 in
        (after.0 ≡ err db_failed)
        × (vm_row v.id after.1.db ≡ some v)
        × (after.1.db.faults ≡ [])
        × (after.1.db.clock ≡ n.db.clock)
        × (after.1.host ≡ (env.conn.destroy_domain v.domain_name h).1)
    unfolding run_suspend get_vm update_vm vm_row
    unwritten =
        let stop = stops (env.conn.domain_state v.domain_name n.host).1 in
        (
          ground (arith, faults, row, active, now, on, stop),
          ground (arith, faults, row, active, now, on, stop),
          ground (arith, faults, row, active, now, on, stop),
          ground (arith, faults, row, active, now, on, stop),
          ground (arith, faults, row, active, now, on, stop),
        )

  -- A domain that runs or is paused is suspended, and the write of the record fails: the queue's
  -- second attempt finds the domain off and records that, so that the end of the suspension leaves
  -- the VM stopped.
  pub run_suspend_forgets :
      (v : Vm) (n : Node H) (st : DomainState)
      → n.db.faults ≡ false ∷ true ∷ []
      → vm_row v.id n.db ≡ some v
      → is_suspended v.status ≡ false
      → (env.conn.domain_state v.domain_name n.host).0 ≡ ok st
      → is_power_on (map_power_state st) ≡ true
      → ((h : H) → (env.conn.destroy_domain v.domain_name h).0 ≡ ok tt)
      → ((h : H)
          → (env.conn.domain_state v.domain_name (env.conn.destroy_domain v.domain_name h).1).0
            ≡ ok state_shutoff)
      → ((h : H) → (env.conn.start_domain v.domain_name h).0 ≡ ok tt)
      → let first = run_suspend env v.id n in
        let second = run_suspend env v.id first.1 in
        let after = run_unsuspend env v.id second.1 in
        (first.0 ≡ err db_failed)
        × (second.0 ≡ ok tt)
        × (after.0 ≡ ok tt)
        × (vm_row v.id after.1.db ≡ some (set_columns n.db.clock (resumed false v) v))
  unfolding map_power_state
  run_suspend_forgets v n st faults row active now on stops off starts =
      let first = unwritten v n st faults row active now on stops off in
      let middle = (run_suspend env v.id n).1 in
      let h = (env.conn.domain_state v.domain_name n.host).1 in
      let found : (env.conn.domain_state v.domain_name middle.host).0 ≡ ok state_shutoff =
        subst (λ x. (env.conn.domain_state v.domain_name x).0 ≡ ok state_shutoff) (sym first.4)
          (off h) in
      let second =
        run_suspend-row env v middle first.2 first.1 (ok state_shutoff) active found stops in
      let last =
        run_unsuspend-run_suspend_row env v middle (ok state_shutoff) first.2 first.1 active found
          stops starts in
      (
        first.0,
        second.0,
        last.0,
        subst
            (λ c.
              vm_row v.id (run_unsuspend env v.id (run_suspend env v.id middle).1).1.db
              ≡ some (set_columns c (resumed false v) v))
            first.3 last.1,
      )
