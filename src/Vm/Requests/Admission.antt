-- ===== src/Vm/Requests/Admission.antt =====
-- internal/vm/host.go: what the VMs that are not terminated take up, the report on it, and the
-- limits that a new VM must keep to. `vcpus` and `vms` are Go's `int`, and memory and disk uint64.

use kite_kvm.Store.Vms.{list_vms}
use kite_kvm.Node.{Node, on_db, on_host}
use kite_kvm.Libvirt.{HostInfo}
use kite_kvm.Config.{Flavor}
use kite_kvm.Model.{Vm, is_running, is_terminated}
use kite_kvm.Prelude.Effects.{Exec, attempt, pure, raise, ◌>>=◌}
use kite_kvm.Prelude.{
  pos, negsuc, zero, suc, String, Bool, List, [], err, false, if◌then◌else◌, insufficient_capacity,
  leb, ok, ℕ, ℤ, ◌%◌, ◌&&◌, ◌+◌, ◌/◌, ◌^◌, ◌||◌, ◌∷◌,
}
use kite_kvm.Vm.Requests.{RequestEnv}

pub record Commitment : Type 0 where
  pub vms : ℕ
  pub running : ℕ
  pub vcpus : ℕ
  pub mem_mb : ℕ
  pub disk_gb : ℕ

abbrev pub nothing : Commitment
nothing = record { vms = 0; running = 0; vcpus = 0; mem_mb = 0; disk_gb = 0 }

-- one round of the loop of `committed`
abbrev pub with_vm : Vm → Commitment → Commitment
with_vm v c = if is_terminated v.status then c else record {
  vms = c.vms + 1;
  running = if is_running v.status then c.running + 1 else c.running;
  vcpus = c.vcpus + v.vcpus;
  mem_mb = (c.mem_mb + v.memory_mb) % 2 ^ 64;
  disk_gb = (c.disk_gb + v.disk_gb) % 2 ^ 64;
}

unfoldable pub committed_from : Commitment → List Vm → Commitment
committed_from c [] = c
committed_from c (v ∷ vms) = committed_from (with_vm v c) vms

pub record HostReport : Type 0 where
  pub hostname : String
  pub libvirt_version : String
  pub cpu_cores : ℕ
  pub committed_vcpus : ℕ
  pub memory_total_mb : ℕ
  pub memory_free_mb : ℕ
  pub committed_mem_mb : ℕ
  pub storage_total_gb : ℕ
  pub storage_free_gb : ℕ
  pub committed_disk_gb : ℕ
  pub vm_count : ℕ
  pub running_count : ℕ

-- cap.MaxVMs > 0 && c.vms >= cap.MaxVMs
abbrev pub is_full : ℤ → ℕ → Bool
is_full (pos zero) vms = false
is_full (pos (suc n)) vms = leb (suc n) vms
is_full (negsuc n) vms = false

module _ {H : Type 0} where
  unfoldable pub committed : Exec (Node H) Commitment
  committed = do vms ← on_db list_vms; pure (committed_from nothing vms)

module _ {H : Type 0} (renv : RequestEnv H) where
  -- HostReport
  unfoldable pub host_report : Exec (Node H) HostReport
  host_report = do
    hi ← on_host (renv.env.conn.host_info renv.env.config.storage_pool)
    c ← committed
    pure (record {
      hostname = hi.hostname;
      libvirt_version = hi.libvirt_version;
      cpu_cores = hi.cpus;
      committed_vcpus = c.vcpus;
      memory_total_mb = hi.memory_total_bytes / 2 ^ 20;
      memory_free_mb = hi.memory_free_bytes / 2 ^ 20;
      committed_mem_mb = c.mem_mb;
      storage_total_gb = hi.storage_bytes / 2 ^ 30;
      storage_free_gb = hi.storage_free_bytes / 2 ^ 30;
      committed_disk_gb = c.disk_gb;
      vm_count = c.vms;
      running_count = c.running;
    })

  -- a ratio above 0 is set
  abbrev pub is_set : ℕ → Bool
  is_set ratio = renv.floats.less 0 ratio

  -- float64(cap.ReservedMemoryMB): 0 - x for a negative x, which Validate does not accept
  abbrev pub of_int : ℤ → ℕ
  of_int (pos n) = renv.floats.of_nat n
  of_int (negsuc n) = renv.floats.sub 0 (renv.floats.of_nat (suc n))

  -- the test of `if cap.MemOvercommit > 0`
  unfoldable pub lacks_memory : HostInfo → Commitment → Flavor → Bool
  lacks_memory hi c flavor =
      let f = renv.floats in
      let total = f.of_nat (hi.memory_total_bytes / 2 ^ 20) in
      let usable = f.sub total (of_int renv.capacity.reserved_memory_mb) in
      let allowed = f.mul usable renv.capacity.mem_overcommit in
      is_set renv.capacity.mem_overcommit
      && f.less allowed (f.add (f.of_nat c.mem_mb) (f.of_nat flavor.memory_mb))

  -- the test of `if cap.CPUOvercommit > 0`
  unfoldable pub lacks_cpu : HostInfo → Commitment → Flavor → Bool
  lacks_cpu hi c flavor =
      let f = renv.floats in
      let allowed = f.mul (f.of_nat hi.cpus) renv.capacity.cpu_overcommit in
      is_set renv.capacity.cpu_overcommit
      && f.less allowed (f.add (f.of_nat c.vcpus) (f.of_nat flavor.vcpus))

  -- admit
  unfoldable pub admit : Flavor → Exec (Node H) (Unit {0})
  admit flavor = do
    c ← committed
    if is_full renv.capacity.max_vms c.vms
        then raise insufficient_capacity
        else if renv.floats.leq renv.capacity.mem_overcommit 0
            && renv.floats.leq renv.capacity.cpu_overcommit 0
        then pure tt
        else do
          info ← attempt (on_host (renv.env.conn.host_info renv.env.config.storage_pool))
          elim info [
            | err e ↦ pure tt
            | ok hi ↦
                if lacks_memory hi c flavor || lacks_cpu hi c flavor
                then raise insufficient_capacity
                else pure tt
          ]
