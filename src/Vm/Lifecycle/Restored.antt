-- ===== src/Vm/Lifecycle/Restored.antt =====
-- What a suspension and its end make of the domain and of the record: runSuspend and runUnsuspend of
-- internal/vm/suspend.go.
use kite_kvm.Store.Vms.{set_columns, vm_row}
use kite_kvm.Vm.Lifecycle.Suspension.{
  resumed, run_suspend-host, run_suspend-row, run_unsuspend-host, run_unsuspend-row,
}
use kite_kvm.Vm.Lifecycle.{run_suspend, run_unsuspend, power_before, suspended_from}
use kite_kvm.Vm.{Env}
use kite_kvm.Libvirt.{DomainState, map_power_state, state_running, state_shutoff}
use kite_kvm.Node.{Node}
use kite_kvm.Model.{Vm, PowerState, is_power_on, is_suspended}
use mathlib.Core.Path.{subst}
use kite_kvm.Prelude.{
  Bool, [], false, if◌then◌else◌, ok, some, ◌≡◌, Bool-cases, Result, ap, inl, inr, refl, true, ◌∙◌,
}

-- how the domain is
abbrev pub power_of : {H : Type 0} → (H → DomainState) → Node H → PowerState
power_of state n = map_power_state (state n.host)

-- `state` is how the domain is on a host. Its state is read without being changed; it is stopped
-- whether it runs or not, and started when it is off.
module _ {H : Type 0} (env : Env H) (v : Vm) (state : H → DomainState)
    (reads : (h : H)
      → ((env.conn.domain_state v.domain_name h).0 ≡ ok (state h))
        × (state (env.conn.domain_state v.domain_name h).1 ≡ state h))
    (stops : (h : H)
      → ((env.conn.destroy_domain v.domain_name h).0 ≡ ok tt)
        × (state (env.conn.destroy_domain v.domain_name h).1 ≡ state_shutoff))
    (starts : (h : H)
      → state h ≡ state_shutoff
      → ((env.conn.start_domain v.domain_name h).0 ≡ ok tt)
        × (state (env.conn.start_domain v.domain_name h).1 ≡ state_running)) where
  module _ (n : Node H) (sound : n.db.faults ≡ []) (row : vm_row v.id n.db ≡ some v)
      (active : is_suspended v.status ≡ false) where
    abbrev was_on : Bool
    was_on = is_power_on (power_of state n)

    middle_state :
        state (run_suspend env v.id n).1.host ≡ (if was_on then state_shutoff else state n.host)
    middle_state =
        let host =
          run_suspend-host env v n sound row (ok (state n.host)) active (reads n.host).0
            (λ h. (stops h).0) in
        let seen = (env.conn.domain_state v.domain_name n.host).1 in
        elim (Bool-cases was_on) [
          | inl on ↦ ap state (host ∙ rw on refl) ∙ (stops seen).1 ∙ rw on refl
          | inr off ↦ ap state (host ∙ rw off refl) ∙ (reads n.host).1 ∙ rw off refl
        ]

    middle_off : is_power_on (power_of state (run_suspend env v.id n).1) ≡ false
    unfolding map_power_state
    middle_off = elim (Bool-cases was_on) [
      | inl on ↦
          let here : state (run_suspend env v.id n).1.host ≡ state_shutoff =
            middle_state ∙ rw on refl in
          ap (λ st. is_power_on (map_power_state st)) here
      | inr off ↦
          let here : state (run_suspend env v.id n).1.host ≡ state n.host =
            middle_state ∙ rw off refl in
          ap (λ st. is_power_on (map_power_state st)) here ∙ off
    ]

    last_state :
        (middle : Node H)
        → state middle.host ≡ (if was_on then state_shutoff else state n.host)
        → state
            (if was_on then (env.conn.start_domain v.domain_name middle.host).1 else middle.host)
          ≡ (if was_on then state_running else state n.host)
    last_state middle h = elim (Bool-cases was_on) [
      | inl on ↦
          let off : state middle.host ≡ state_shutoff = h ∙ rw on refl in
          rw on (starts middle.host off).1
      | inr off ↦ rw off (h ∙ rw off refl)
    ]

    -- A VM that is not suspended, and a domain whose state can be read, that is stopped when it is
    -- destroyed and runs when it is started, with a database that does not fail. The suspension
    -- succeeds, and the domain is no longer running or paused. The end of the suspension succeeds as
    -- well, and the domain runs if it was running or paused at first, and is as it was otherwise. The
    -- record says that the VM runs, or that it is stopped, accordingly; the recorded earlier power
    -- state is unset, and of the rest of the record only the time of the write has changed.
    pub run_unsuspend-run_suspend :
        let middle = run_suspend env v.id n in
        let after = run_unsuspend env v.id middle.1 in
        (middle.0 ≡ ok tt)
        × (is_power_on (power_of state middle.1) ≡ false)
        × (after.0 ≡ ok tt)
        × (state after.1.host ≡ (if was_on then state_running else state n.host))
        × (vm_row v.id after.1.db ≡ some (set_columns n.db.clock (resumed was_on v) v))
    run_unsuspend-run_suspend =
        let live : Result DomainState = ok (state n.host) in
        let stopped : (h : H) → (env.conn.destroy_domain v.domain_name h).0 ≡ ok tt =
          λ h. (stops h).0 in
        let first = run_suspend-row env v n sound row live active (reads n.host).0 stopped in
        let held = set_columns n.db.clock (suspended_from env (power_before env live) v) v in
        let middle = (run_suspend env v.id n).1 in
        let start : was_on ≡ true → (env.conn.start_domain v.domain_name middle.host).0 ≡ ok tt =
          λ on. (starts middle.host (middle_state ∙ rw on refl)).0 in
        let second = run_unsuspend-row env held middle first.2 first.1 refl start in
        let host = run_unsuspend-host env held middle first.2 first.1 refl start in
        (
          first.0,
          middle_off,
          second.0,
          ap state host ∙ last_state middle middle_state,
          subst
              (λ c.
                vm_row v.id (run_unsuspend env v.id middle).1.db
                ≡ some (set_columns c (resumed was_on v) v))
              first.3 second.1,
        )
