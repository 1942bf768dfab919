-- ===== src/Vm/Provisioning/VmsTable.antt =====
-- An allocation of an address leaves the table `vms` as it is.
use kite_kvm.Model.{is_bridge}
use kite_kvm.Prelude.{
  Bool, Error, List, Option, Result, String, err, false, if◌then◌else◌, network_not_found, none, ok,
  other, refl, some, str_eq, true, ◌∙◌, ◌≡◌,
}
use kite_kvm.Prelude.Effects.{Exec, attempt, continue, lift, pure, raise, ◌>>=◌}
use kite_kvm.Store.Vms.Rows.{vms-allocate_ip, vms-release_ip_by_vm}
use kite_kvm.Store.Ips.{allocate_ip, release_ip_by_vm}
use kite_kvm.Node.{Node, on_db, on_host}
use kite_kvm.Vm.{Env}
use kite_kvm.Network.Strategy.{
  bridge_allocate, bridge_attachment, last_network, lift_loop, max_candidates, nat_allocate,
  nat_attachment, network_allocate, no_candidates, sanitize_hostname,
}
use kite_kvm.Network.Pool.{expand_pool}
use kite_kvm.Network.Subnet.{subnet_hosts}
use kite_kvm.Config.{ConfigNetwork}

module _ {H : Type 0} where
  -- a method that leaves the table `vms` as it is
  pub record KeepsVms {A : Type 0} (m : Exec (Node H) A) : Type 0 where
    pub vms : (n : Node H) → (m n).1.db.vms ≡ n.db.vms

  plain-KeepsVms :
      {A : Type 0} {m : Exec (Node H) A} → ((n : Node H) → (m n).1.db.vms ≡ n.db.vms) → KeepsVms m
  plain-KeepsVms h = record { vms = h }

  module _ {A : Type 0} where
    pure-KeepsVms : (a : A) → KeepsVms (pure a)
    pure-KeepsVms a = record { vms = λ n. refl }

    raise-KeepsVms : (e : Error) → KeepsVms (raise {A = A} e)
    raise-KeepsVms e = record { vms = λ n. refl }

    if-KeepsVms :
        {m m' : Exec (Node H) A} (b : Bool)
        → KeepsVms m
        → KeepsVms m'
        → KeepsVms (if b then m else m')
    if-KeepsVms true k k' = k
    if-KeepsVms false k k' = k'

  module _ {A B : Type 0} where
    continue_vms :
        (r : Result A) (f : A → Exec (Node H) B)
        → ((a : A) → KeepsVms (f a))
        → (n : Node H) → (continue r f n).1.db.vms ≡ n.db.vms
    continue_vms (ok a) f k n = (k a).vms n
    continue_vms (err e) f k n = refl

    then-KeepsVms :
        {m : Exec (Node H) A} {f : A → Exec (Node H) B}
        → KeepsVms m
        → ((a : A) → KeepsVms (f a))
        → KeepsVms (m >>= f)
    then-KeepsVms {m} {f} k k' = record { vms = λ n. continue_vms (m n).0 f k' (m n).1 ∙ k.vms n }

    option-KeepsVms :
        {m : Exec (Node H) B} {f : A → Exec (Node H) B} (o : Option A)
        → KeepsVms m
        → ((a : A) → KeepsVms (f a))
        → KeepsVms (elim o [ none ↦ m | some a ↦ f a ])
    option-KeepsVms none k k' = k
    option-KeepsVms (some a) k k' = k' a

    result-KeepsVms :
        {m : Error → Exec (Node H) B} {f : A → Exec (Node H) B} (r : Result A)
        → ((e : Error) → KeepsVms (m e))
        → ((a : A) → KeepsVms (f a))
        → KeepsVms (elim r [ err e ↦ m e | ok a ↦ f a ])
    result-KeepsVms (err e) k k' = k e
    result-KeepsVms (ok a) k k' = k' a

  module _ (env : Env H) where
    same_vms : {A : Type 0} (r : Result A) → KeepsVms (lift r)
    same_vms r = record { vms = λ n. refl }

    nat_allocate-KeepsVms :
        (cfg : ConfigNetwork) (mac : Result String) (vm hostname : String)
        → KeepsVms (nat_allocate env.net env.conn env.fuel cfg mac vm hostname)
    unfolding nat_allocate
    nat_allocate-KeepsVms cfg mac vm hostname = then-KeepsVms (same_vms mac) λ m.
        if-KeepsVms (str_eq cfg.subnet "") (raise-KeepsVms other) (
          then-KeepsVms (same_vms (subnet_hosts env.net cfg.subnet max_candidates)) λ hosts.
            then-KeepsVms
              (plain-KeepsVms {m = on_db (allocate_ip cfg.id vm m hosts.1)}
                λ n. vms-allocate_ip cfg.id vm m hosts.1 n.db)
              λ ip.
                then-KeepsVms
                  (plain-KeepsVms
                    {m = attempt (
                      on_host (
                        env.conn.add_dhcp_host cfg.libvirt_network m (sanitize_hostname hostname vm)
                          ip))}
                    λ n. refl)
                  λ leased.
                    result-KeepsVms leased
                      (λ e.
                        then-KeepsVms
                          (plain-KeepsVms {m = attempt (on_db (release_ip_by_vm vm))}
                            λ n. vms-release_ip_by_vm vm n.db)
                          λ _. raise-KeepsVms e)
                      (λ _.
                        pure-KeepsVms (nat_attachment env.net env.conn env.fuel cfg m ip hosts.0)))

    bridge_allocate-KeepsVms :
        (cfg : ConfigNetwork) (mac : Result String) (vm hostname : String)
        → KeepsVms (bridge_allocate env.net env.conn env.fuel cfg mac vm hostname)
    unfolding bridge_allocate
    bridge_allocate-KeepsVms cfg mac vm hostname = then-KeepsVms (same_vms mac) λ m.
        then-KeepsVms
          (loop_vms (expand_pool env.net env.fuel cfg.ip_pool cfg.gateway max_candidates))
          λ found. if-KeepsVms (no_candidates found) (raise-KeepsVms other) (
            then-KeepsVms
              (plain-KeepsVms {m = on_db (allocate_ip cfg.id vm m found)}
                λ n. vms-allocate_ip cfg.id vm m found n.db)
              λ ip. pure-KeepsVms (bridge_attachment env.net env.conn env.fuel cfg m ip))
      where
        loop_vms :
            (o : Option (Result (List String))) → KeepsVms (lift_loop env.net env.conn env.fuel o)
        loop_vms none = record { vms = λ n. refl }
        loop_vms (some r) = record { vms = λ n. refl }

    pub network_allocate-KeepsVms :
        (id vm hostname : String) (mac : Result String)
        → KeepsVms
            (network_allocate env.net env.conn env.fuel env.config.networks id mac vm hostname)
    unfolding network_allocate
    network_allocate-KeepsVms id vm hostname mac =
        option-KeepsVms (last_network id env.config.networks) (raise-KeepsVms network_not_found)
          λ cfg.
            if-KeepsVms (is_bridge cfg.mode) (bridge_allocate-KeepsVms cfg mac vm hostname)
              (nat_allocate-KeepsVms cfg mac vm hostname)
