-- ===== src/Vm/Requests/Accepted.antt =====
-- An accepted Create: what it has checked, and what it leaves for the job.

use kite_kvm.Vm.Requests.Chosen.{IsChosen, IsNamed, hostname_of-IsNamed, resolve_network-IsChosen}
use kite_kvm.Store.Table.{find}
use kite_kvm.Vm.Requests.Submission.{create_vm-stores, created_row, queued_row, submit-accepts}
use kite_kvm.Store.Jobs.{job_row}
use kite_kvm.Store.Vms.{create_vm, vm_row, vm_key}
use kite_kvm.Job.{Queue}
use kite_kvm.Prelude.Effects.{Exec, bind-ok, ◌>>◌}
use kite_kvm.Vm.Requests.Admission.{admit}
use kite_kvm.Vm.Requests.Validation.{validate_password, validate_ssh_keys}
use kite_kvm.Vm.Requests.Create.{
  CreateRequest, check_create, hostname_of, new_vm, resolve_network, quota_of, Drawn,
  create_request,
}
use kite_kvm.Vm.Requests.{RequestEnv, new_job, on_node, submit}
use kite_kvm.Node.{Node, on_db}
use kite_kvm.Config.{ConfigNetwork, Flavor, Image, catalog_flavor, catalog_image}
use kite_kvm.Model.{PowerState, Vm, VmStatus, Job, JobState, JobType}
use mathlib.Core.Path.{subst}
use kite_kvm.Prelude.{
  String, Result-cases, arith, inl, inr, ok, some, ◌≡◌, ℕ, Option-cases, [], ap, refl, sym, ◌++◌,
  ◌∙◌, ◌∷◌,
}

-- a row that Create may insert for a request: what it takes from the catalog, the network chosen,
-- and the texts that it has checked
pub record IsRequested {H : Type 0} (renv : RequestEnv H) (req : CreateRequest) (v : Vm)
    : Type 0 where
  pub flavor : Flavor
  pub in_catalog : catalog_flavor req.flavor_id renv.env.config.flavors ≡ some flavor
  pub resources :
      (v.vcpus ≡ flavor.vcpus) × (v.memory_mb ≡ flavor.memory_mb) × (v.disk_gb ≡ flavor.disk_gb)
  pub image : Image
  pub image_known : catalog_image req.image_id renv.env.config.images ≡ some image
  pub image_id : v.image_id ≡ image.id
  pub network : ConfigNetwork
  pub resolved : resolve_network req.network renv.env.config.networks ≡ ok network
  pub chosen : IsChosen req.network renv.env.config.networks network
  pub placed : (v.network_id ≡ network.id) × (v.network_mode ≡ network.mode)
  pub password : (v.password ≡ req.password) × (validate_password req.password ≡ ok tt)
  pub keys :
      (v.ssh_keys ≡ req.ssh_keys)
      × (validate_ssh_keys renv.env.net.trim_space renv.parses_key req.ssh_keys ≡ ok tt)
  pub named : IsNamed (renv.env.net.trim_space req.hostname) v.id v.hostname
  pub waits : (v.status ≡ VmStatus.provisioning) × (v.power_state ≡ PowerState.shutoff)

module _ {H : Type 0} (renv : RequestEnv H) where
  -- what is left of Create's checks once the flavor, the image and the network are known
  check_create-rest :
      (id : String) (req : CreateRequest) (v : Vm) (n : Node H) (f : Flavor) (i : Image)
      (w : ConfigNetwork)
      → catalog_flavor req.flavor_id renv.env.config.flavors ≡ some f
      → catalog_image req.image_id renv.env.config.images ≡ some i
      → resolve_network req.network renv.env.config.networks ≡ ok w
      → (check_create renv id req n).0 ≡ ok v
      → (name : String) × (quota now : ℕ) × (hostname_of (renv.env.net.trim_space req.hostname) id
          ≡ ok name)
        × (validate_password req.password ≡ ok tt)
        × (validate_ssh_keys renv.env.net.trim_space renv.parses_key req.ssh_keys ≡ ok tt)
        × (v ≡ new_vm req id f i w name quota now)
  unfolding check_create
  check_create-rest id req v n f i w ef ei ew h =
      elim (Result-cases (hostname_of (renv.env.net.trim_space req.hostname) id)) [
        | inl (x, e) ↦ ground (arith, e, ef, ei, ew, h)
        | inr (name, en) ↦ elim (Result-cases (quota_of req.traffic_quota_gb f)) [
          | inl (x, e) ↦ ground (arith, e, en, ef, ei, ew, h)
          | inr (quota, eq) ↦ (
            name,
            quota,
            (admit renv f n).1.db.clock,
            en,
            ground (arith, ef, ei, ew, h),
            ground (arith, ef, ei, ew, h),
            ground (arith, en, eq, ef, ei, ew, h),
          )
        ]
      ]

  new_vm-IsRequested :
      (id : String) (req : CreateRequest) (n : Node H) (v : Vm) (f : Flavor) (i : Image)
      (w : ConfigNetwork)
      → catalog_flavor req.flavor_id renv.env.config.flavors ≡ some f
      → catalog_image req.image_id renv.env.config.images ≡ some i
      → resolve_network req.network renv.env.config.networks ≡ ok w
      → (check_create renv id req n).0 ≡ ok v
      → (v.id ≡ id) × IsRequested renv req v
  unfolding new_vm
  new_vm-IsRequested id req n v f i w ef ei ew h =
      let (name, quota, now, en, pw, ks, row) = check_create-rest id req v n f i w ef ei ew h in
      subst (λ u. (u.id ≡ id) × IsRequested renv req u) (sym row)
        (
          refl,
          record {
            flavor = f;
            in_catalog = ef;
            resources = (refl, refl, refl);
            image = i;
            image_known = ei;
            image_id = refl;
            network = w;
            resolved = ew;
            chosen = resolve_network-IsChosen req.network renv.env.config.networks w ew;
            placed = (refl, refl);
            password = (refl, pw);
            keys = (refl, ks);
            named = hostname_of-IsNamed (renv.env.net.trim_space req.hostname) id name en;
            waits = (refl, refl);
          },
        )

  check_create-IsRequested :
      (id : String) (req : CreateRequest) (v : Vm) (n : Node H)
      → (check_create renv id req n).0 ≡ ok v
      → (v.id ≡ id) × IsRequested renv req v
  unfolding check_create
  check_create-IsRequested id req v n h =
      let config = renv.env.config in
      elim (Option-cases (catalog_flavor req.flavor_id config.flavors)) [
        | inl e ↦ ground (arith, e, h)
        | inr (f, ef) ↦ elim (Option-cases (catalog_image req.image_id config.images)) [
          | inl e ↦ ground (arith, e, ef, h)
          | inr (i, ei) ↦ elim (Result-cases (resolve_network req.network config.networks)) [
            | inl (x, e) ↦ ground (arith, e, ef, ei, h)
            | inr (w, ew) ↦ new_vm-IsRequested id req n v f i w ef ei ew h
          ]
        ]
      ]

  -- what an accepted Create leaves: the row of the VM, and a job for it that waits and is scheduled
  pub record IsAccepted (drawn : Drawn) (req : CreateRequest) (q after : Queue H) : Type 0 where
    pub row : Vm
    pub stored : vm_row drawn.vm_id after.node.db ≡ some row
    pub requested : IsRequested renv req row
    pub job : Job
    pub waiting : job_row drawn.job_id after.node.db ≡ some job
    pub for_it : (job.typ ≡ JobType.create) × (job.vm_id ≡ drawn.vm_id)
    pub fresh : (job.state ≡ JobState.queued) × (job.attempts ≡ 0)
    pub scheduled : after.scheduled ≡ q.scheduled ++ (drawn.job_id, 0) ∷ []

  created_row-IsRequested :
      (req : CreateRequest) (now : ℕ) (v : Vm)
      → IsRequested renv req v
      → IsRequested renv req (created_row now v)
  created_row-IsRequested req now v r = record {
    flavor = r.flavor;
    in_catalog = r.in_catalog;
    resources = r.resources;
    image = r.image;
    image_known = r.image_known;
    image_id = r.image_id;
    network = r.network;
    resolved = r.resolved;
    chosen = r.chosen;
    placed = r.placed;
    password = r.password;
    keys = r.keys;
    named = r.named;
    waits = r.waits;
  }

  -- If Create succeeds, then the row of the VM stands under the id that was drawn for it. It is
  -- provisioning and shut off; it has the resources of the flavor that the request names and the id
  -- of the image that it names, both in the catalog, and the id and the mode of the network that
  -- resolveNetwork returns: one of the configured networks, that with the id that the request names,
  -- or, if it names none, one of the mode that it names. Its password and keys are those of the
  -- request, and validatePassword and validateSSHKeys accept them. Its host name is the trimmed one
  -- of the request, which validateHostname accepts, or is made from the id if that is blank. A job of
  -- kind create with no attempts is stored for the VM as waiting, and its id is the one scheduled
  -- anew.
  pub create_request-IsAccepted :
      (drawn : Drawn) (req : CreateRequest) (q : Queue H) (j : Job)
      → (create_request renv drawn req q).0 ≡ ok j
      → IsAccepted drawn req q (create_request renv drawn req q).1
  unfolding create_request new_job vm_row
  create_request-IsAccepted drawn req q j h =
      let checked = check_create renv drawn.vm_id req in
      let insert : Vm → Exec (Queue H) (Unit {0}) = λ v. on_node (on_db (create_vm v)) in
      let job : Vm → Job = λ v. new_job drawn.job_id JobType.create v.id [] in
      let rest : Vm → Exec (Queue H) Job = λ v. insert v >> submit (job v) in
      let (v, first, past) = bind-ok (on_node checked) rest q j h in
      let q1 = (on_node checked q).1 in
      let h1 : (rest v q1).0 ≡ ok j = sym (ap (λ p. p.0) past) ∙ h in
      let (u, second, past1) = bind-ok (insert v) (λ _. submit (job v)) q1 j h1 in
      let q2 = (insert v q1).1 in
      let h2 : (submit (job v) q2).0 ≡ ok j = sym (ap (λ p. p.0) past1) ∙ h1 in
      let (named, requested) = check_create-IsRequested drawn.vm_id req v q.node first in
      let (stored, clock) = create_vm-stores v q1.node.db second in
      let stored_as_drawn : vm_row drawn.vm_id q2.node.db ≡ some (created_row q1.node.db.clock v) =
        subst (λ i. vm_row i q2.node.db ≡ some (created_row q1.node.db.clock v)) named stored in
      let (same, waiting, vms, scheduled) = submit-accepts (job v) j q2 h2 in
      let out : (create_request renv drawn req q).1 ≡ (submit (job v) q2).1 =
        ap (λ p. p.1) (past ∙ past1) in
      rw out (record {
        row = created_row q1.node.db.clock v;
        stored = ap (find vm_key drawn.vm_id) vms ∙ stored_as_drawn;
        requested = created_row-IsRequested req q1.node.db.clock v requested;
        job = queued_row q2.node.db.clock (job v);
        waiting = waiting;
        for_it = (refl, named);
        fresh = (refl, refl);
        scheduled = scheduled;
      })
