-- ===== src/Vm/Dispatch/JobsTable/Provision.antt =====
-- The runners that provision: none writes the table `jobs`.

use kite_kvm.DomainXml.{render}
use kite_kvm.Vm.Links.{build_domain_spec, flavor_bandwidth, volume_name}
use kite_kvm.Vm.Dispatch.JobsTable.Runners.{or_fail-Keeps, or_teardown-Keeps}
use kite_kvm.Provision.CloudInit.{files}
use kite_kvm.Vm.Dispatch.JobsTable.{
  Keeps, allocate-Keeps, attempt-Keeps, if-Keeps, lift-Keeps, on_host-Keeps, option-Keeps,
  pure-Keeps, raise-Keeps, release-Keeps, result-Keeps, then-Keeps, get-Keeps, update-Keeps,
}
use kite_kvm.Vm.Provisioning.{
  PrepareRequest, image_of, prepare, artifacts, attached, built, create_spec, is_live,
  network_config_for, now_off, now_running, overlay_of, prepare_request, reseed_of, reseed_vm,
  run_create, run_rebuild, run_resize, seed_of, seed_path_of, wired, run_reseed,
}
use kite_kvm.Vm.{Env, Fresh, gib_bytes}
use kite_kvm.Network.Pool.{expand_pool}
use kite_kvm.Network.Subnet.{subnet_hosts}
use kite_kvm.Network.Strategy.{
  bridge_allocate, last_network, lift_loop, max_candidates, nat_allocate, network_allocate,
  no_candidates, sanitize_hostname, bridge_attachment, nat_attachment,
}
use kite_kvm.Config.{ConfigNetwork, catalog_image}
use kite_kvm.Model.{Vm, is_bridge}
use kite_kvm.Prelude.{
  String, List, Option, Result, network_not_found, none, other, refl, some, str_eq,
}

module _ {H : Type 0} (env : Env H) where
  pub nat_allocate-Keeps :
      (cfg : ConfigNetwork) (mac : Result String) (vm hostname : String)
      → Keeps (nat_allocate env.net env.conn env.fuel cfg mac vm hostname)
  unfolding nat_allocate
  nat_allocate-Keeps cfg mac vm hostname = then-Keeps (lift-Keeps mac) λ m.
      if-Keeps (str_eq cfg.subnet "") (raise-Keeps other) (
        then-Keeps (lift-Keeps (subnet_hosts env.net cfg.subnet max_candidates)) λ hosts.
          then-Keeps (allocate-Keeps cfg.id vm m hosts.1) λ ip.
            then-Keeps
              (attempt-Keeps (
                on_host-Keeps (
                  env.conn.add_dhcp_host cfg.libvirt_network m (sanitize_hostname hostname vm) ip)))
              λ leased.
                result-Keeps leased
                  (λ e. then-Keeps (attempt-Keeps (release-Keeps vm)) λ _. raise-Keeps e)
                  (λ _. pure-Keeps (nat_attachment env.net env.conn env.fuel cfg m ip hosts.0)))

  pub bridge_allocate-Keeps :
      (cfg : ConfigNetwork) (mac : Result String) (vm hostname : String)
      → Keeps (bridge_allocate env.net env.conn env.fuel cfg mac vm hostname)
  unfolding bridge_allocate
  bridge_allocate-Keeps cfg mac vm hostname = then-Keeps (lift-Keeps mac) λ m.
      then-Keeps (loop-Keeps (expand_pool env.net env.fuel cfg.ip_pool cfg.gateway max_candidates))
        λ found. if-Keeps (no_candidates found) (raise-Keeps other) (
          then-Keeps (allocate-Keeps cfg.id vm m found)
            λ ip. pure-Keeps (bridge_attachment env.net env.conn env.fuel cfg m ip))
    where
      loop-Keeps :
          (o : Option (Result (List String))) → Keeps (lift_loop env.net env.conn env.fuel o)
      loop-Keeps none = record { jobs = λ n. refl; faults = λ n s. s }
      loop-Keeps (some r) = record { jobs = λ n. refl; faults = λ n s. s }

  pub network_allocate-Keeps :
      (id vm hostname : String) (mac : Result String)
      → Keeps (network_allocate env.net env.conn env.fuel env.config.networks id mac vm hostname)
  unfolding network_allocate
  network_allocate-Keeps id vm hostname mac =
      option-Keeps (last_network id env.config.networks) (raise-Keeps network_not_found) λ cfg.
        if-Keeps (is_bridge cfg.mode) (bridge_allocate-Keeps cfg mac vm hostname)
          (nat_allocate-Keeps cfg mac vm hostname)

  pub image_of-Keeps : (v : Vm) → Keeps (image_of env v)
  image_of-Keeps v =
      option-Keeps (catalog_image v.image_id env.config.images) (raise-Keeps other)
        λ i. pure-Keeps i

  pub prepare-Keeps : (req : PrepareRequest) → Keeps (prepare env req)
  unfolding prepare
  prepare-Keeps req =
      then-Keeps (on_host-Keeps (env.conn.create_volume (overlay_of env req))) λ disk.
        then-Keeps
          (on_host-Keeps (env.conn.build_seed_iso (seed_path_of env req) (files (seed_of env req))))
          λ _. pure-Keeps (artifacts env disk (seed_path_of env req))

  pub reseed_vm-Keeps : (nonce : String) (v : Vm) → Keeps (reseed_vm env nonce v)
  unfolding reseed_vm
  reseed_vm-Keeps nonce v = then-Keeps (image_of-Keeps v) λ image.
      if-Keeps (str_eq v.seed_path "") (raise-Keeps other)
        (on_host-Keeps (env.conn.build_seed_iso v.seed_path (files (reseed_of env nonce image v))))

  pub run_reseed-Keeps : (fresh : Fresh) (id : String) → Keeps (run_reseed env fresh id)
  unfolding run_reseed
  run_reseed-Keeps fresh id = then-Keeps (get-Keeps id) λ v. reseed_vm-Keeps fresh.nonce v

  pub run_create-Keeps : (fresh : Fresh) (id : String) → Keeps (run_create env fresh id)
  unfolding run_create
  run_create-Keeps fresh id = then-Keeps (get-Keeps id) λ v.
      then-Keeps (or_fail-Keeps env v (image_of-Keeps v)) λ image.
        then-Keeps
          (or_fail-Keeps env v (network_allocate-Keeps v.network_id v.id v.hostname fresh.mac))
          λ att.
            let v1 = wired att v in
            then-Keeps (attempt-Keeps (update-Keeps v1)) λ _.
              then-Keeps
                (or_teardown-Keeps env v1 att.mac
                  (prepare-Keeps (prepare_request env v1 image (attached env att))))
                λ art.
                  let v2 = built art v1 in
                  then-Keeps
                    (or_teardown-Keeps env v2 att.mac (
                      lift-Keeps (
                        render env.marshal
                          (create_spec (flavor_bandwidth env v2.flavor_id) v2 att))))
                    λ xml.
                      then-Keeps
                        (or_teardown-Keeps env v2 att.mac
                          (on_host-Keeps (env.conn.define_domain xml)))
                        λ uuid.
                          let v3 : Vm = record v2 { domain_uuid = uuid } in
                          then-Keeps
                            (or_teardown-Keeps env v3 att.mac
                              (on_host-Keeps (env.conn.start_domain v3.domain_name)))
                            λ _. update-Keeps (now_running v3)

  pub run_rebuild-Keeps : (id : String) → Keeps (run_rebuild env id)
  unfolding run_rebuild
  run_rebuild-Keeps id = then-Keeps (get-Keeps id) λ v.
      then-Keeps (or_fail-Keeps env v (image_of-Keeps v)) λ image.
        then-Keeps (attempt-Keeps (on_host-Keeps (env.conn.destroy_domain v.domain_name))) λ _.
          then-Keeps
            (or_fail-Keeps env v
              (on_host-Keeps (env.conn.delete_volume env.config.storage_pool (volume_name v))))
            λ _.
              then-Keeps
                (or_fail-Keeps env v
                  (prepare-Keeps (prepare_request env v image (network_config_for env v))))
                λ art.
                  let v1 = built art v in
                  then-Keeps
                    (or_fail-Keeps env v1
                      (lift-Keeps (render env.marshal (build_domain_spec env v1))))
                    λ xml.
                      then-Keeps (or_fail-Keeps env v1 (on_host-Keeps (env.conn.define_domain xml)))
                        λ _.
                          then-Keeps
                            (or_fail-Keeps env v1
                              (on_host-Keeps (env.conn.start_domain v1.domain_name)))
                            λ _. update-Keeps (now_running v1)

  pub run_resize-Keeps : (fresh : Fresh) (id : String) → Keeps (run_resize env fresh id)
  unfolding run_resize
  run_resize-Keeps fresh id = then-Keeps (get-Keeps id) λ v.
      then-Keeps (attempt-Keeps (on_host-Keeps (env.conn.domain_state v.domain_name))) λ live.
        then-Keeps
          (if-Keeps (is_live env live)
            (or_fail-Keeps env v (on_host-Keeps (env.conn.destroy_domain v.domain_name)))
            (pure-Keeps tt))
          λ _.
            then-Keeps
              (or_fail-Keeps env v (
                on_host-Keeps (
                  env.conn.resize_volume env.config.storage_pool (volume_name v)
                    (gib_bytes v.disk_gb))))
              λ _. then-Keeps (or_fail-Keeps env v (reseed_vm-Keeps fresh.nonce v)) λ _.
                then-Keeps
                  (or_fail-Keeps env v (lift-Keeps (render env.marshal (build_domain_spec env v))))
                  λ xml.
                    then-Keeps (or_fail-Keeps env v (on_host-Keeps (env.conn.define_domain xml)))
                      λ _.
                        if-Keeps (is_live env live)
                          (then-Keeps
                            (or_fail-Keeps env v
                              (on_host-Keeps (env.conn.start_domain v.domain_name)))
                            λ _. update-Keeps (now_running v))
                          (update-Keeps (now_off v))
