-- ===== src/Vm/Dispatch/JobsTable/Runners.antt =====
-- The runners, one by one, and RunJob: none writes the table `jobs`.
use kite_kvm.Vm.Lifecycle.{
  PowerOp, is_start, power_before, power_call, run_power, run_suspend, run_terminate, run_unsuspend,
  status_after, with_power, suspended_from,
}
use kite_kvm.DomainXml.{render_interface}
use kite_kvm.Vm.Dispatch.JobsTable.{
  Keeps, attempt-Keeps, handler-Keeps, if-Keeps, lift-Keeps, on_host-Keeps, option-Keeps,
  pure-Keeps, raise-Keeps, release-Keeps, result-Keeps, then-Keeps, update-Keeps, get-Keeps,
}
use kite_kvm.Vm.Links.{
  apply_link, update_link, link_spec, fail_create, or_teardown, teardown_partial, volume_name,
}
use kite_kvm.Vm.{Env, fail_vm, or_fail}
use kite_kvm.Node.{Node}
use kite_kvm.Network.Strategy.{bridge_release, last_network, nat_release, network_release}
use kite_kvm.Libvirt.{map_power_state}
use kite_kvm.Model.{
  Vm, VmStatus, is_bridge, is_power_running, is_power_on, is_suspended, is_terminated,
}
use kite_kvm.Prelude.Effects.{Exec}
use kite_kvm.Prelude.{String, Error, str_eq, ok, arith, not, ◌&&◌}

module _ {H : Type 0} (env : Env H) where
  pub apply_link-Keeps : (v : Vm) → Keeps (apply_link env v)
  unfolding apply_link update_link
  apply_link-Keeps v =
      then-Keeps (attempt-Keeps (on_host-Keeps (env.conn.domain_state v.domain_name))) λ live.
        result-Keeps live (λ e. pure-Keeps tt)
          λ st.
            if-Keeps (is_power_running (map_power_state st))
              (then-Keeps (lift-Keeps (render_interface env.marshal (link_spec env v)))
                λ xml. on_host-Keeps (env.conn.update_interface v.domain_name xml))
              (pure-Keeps tt)

  pub fail_vm-Keeps : {A : Type 0} (v : Vm) (e : Error) → Keeps (fail_vm {H = H} {A = A} v e)
  unfolding fail_vm
  fail_vm-Keeps v e =
      let wrote = update-Keeps (record v { status = VmStatus.error }) in
      record { jobs = wrote.jobs; faults = wrote.faults }

  pub or_fail-Keeps : {A : Type 0} (v : Vm) {m : Exec (Node H) A} → Keeps m → Keeps (or_fail v m)
  unfolding or_fail
  or_fail-Keeps v k = handler-Keeps (fail_vm v) (λ n. ground arith) k (fail_vm-Keeps v)

  pub network_release-Keeps :
      (id vm mac : String)
      → Keeps (network_release env.net env.conn env.fuel env.config.networks id vm mac)
  unfolding network_release nat_release bridge_release
  network_release-Keeps id vm mac =
      option-Keeps (last_network id env.config.networks) (pure-Keeps tt) λ cfg.
        if-Keeps (is_bridge cfg.mode) (release-Keeps vm) (
          then-Keeps
            (if-Keeps (str_eq mac "") (pure-Keeps (ok tt))
              (attempt-Keeps (on_host-Keeps (env.conn.remove_dhcp_host cfg.libvirt_network mac))))
            λ lease.
              then-Keeps (attempt-Keeps (release-Keeps vm))
                λ freed. result-Keeps lease (λ e. raise-Keeps e) λ _. lift-Keeps freed)

  pub teardown_partial-Keeps : (v : Vm) (mac : String) → Keeps (teardown_partial env v mac)
  unfolding teardown_partial
  teardown_partial-Keeps v mac =
      then-Keeps (attempt-Keeps (on_host-Keeps (env.conn.destroy_domain v.domain_name))) λ _.
        then-Keeps (attempt-Keeps (on_host-Keeps (env.conn.undefine_domain v.domain_name))) λ _.
          then-Keeps
            (attempt-Keeps
              (on_host-Keeps (env.conn.delete_volume env.config.storage_pool (volume_name v))))
            λ _.
              then-Keeps
                (if-Keeps (str_eq v.seed_path "") (pure-Keeps (ok tt))
                  (attempt-Keeps (on_host-Keeps (env.conn.remove_file v.seed_path))))
                λ _.
                  then-Keeps (attempt-Keeps (network_release-Keeps v.network_id v.id mac))
                    λ _. pure-Keeps tt

  pub fail_create-Keeps :
      {A : Type 0} (v : Vm) (mac : String) (e : Error)
      → Keeps (fail_create {H = H} env {A = A} v mac e)
  unfolding fail_create
  fail_create-Keeps v mac e = then-Keeps (teardown_partial-Keeps v mac) λ _. fail_vm-Keeps v e

  pub or_teardown-Keeps :
      {A : Type 0} (v : Vm) (mac : String) {m : Exec (Node H) A}
      → Keeps m
      → Keeps (or_teardown env v mac m)
  unfolding or_teardown
  or_teardown-Keeps v mac k =
      handler-Keeps (fail_create env v mac) (λ n. ground arith) k (fail_create-Keeps v mac)

  pub run_power-Keeps : (id : String) (op : PowerOp) → Keeps (run_power env id op)
  unfolding run_power
  run_power-Keeps id op = then-Keeps (get-Keeps id) λ v.
      then-Keeps (on_host-Keeps (power_call env op v.domain_name)) λ _.
        then-Keeps (attempt-Keeps (on_host-Keeps (env.conn.domain_state v.domain_name))) λ live.
          let v' = with_power env (record v { status = status_after op }) live in
          then-Keeps
            (if-Keeps (is_start op && v.network_blocked) (attempt-Keeps (apply_link-Keeps v'))
              (pure-Keeps (ok tt)))
            λ _. update-Keeps v'

  pub run_suspend-Keeps : (id : String) → Keeps (run_suspend env id)
  unfolding run_suspend
  run_suspend-Keeps id = then-Keeps (get-Keeps id) λ v.
      if-Keeps (is_suspended v.status) (pure-Keeps tt) (
        then-Keeps (attempt-Keeps (on_host-Keeps (env.conn.domain_state v.domain_name))) λ live.
          then-Keeps
            (if-Keeps (is_power_on (power_before env live))
              (on_host-Keeps (env.conn.destroy_domain v.domain_name)) (pure-Keeps tt))
            λ _. update-Keeps (suspended_from env (power_before env live) v))

  pub run_unsuspend-Keeps : (id : String) → Keeps (run_unsuspend env id)
  unfolding run_unsuspend
  run_unsuspend-Keeps id = then-Keeps (get-Keeps id) λ v.
      if-Keeps (not (is_suspended v.status)) (pure-Keeps tt) (
        if-Keeps (is_power_on v.prev_power_state)
          (then-Keeps (on_host-Keeps (env.conn.start_domain v.domain_name)) λ _. update-Keeps _)
          (update-Keeps _))

  pub run_terminate-Keeps : (id : String) → Keeps (run_terminate env id)
  unfolding run_terminate
  run_terminate-Keeps id = then-Keeps (get-Keeps id) λ v.
      if-Keeps (is_terminated v.status) (pure-Keeps tt)
        (then-Keeps (teardown_partial-Keeps v v.mac) λ _. update-Keeps _)
