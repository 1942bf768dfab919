-- ===== src/Vm/Requests/KeyTable.antt =====
-- No request of the VM service writes the table idempotency_keys: that is the middleware's alone.
use kite_kvm.Vm.Requests.Completion.{faults-check_create}
use kite_kvm.Vm.Requests.Admission.{admit, committed}
use kite_kvm.Vm.Requests.Create.{CreateRequest, Drawn, check_create, create_request}
use kite_kvm.Config.{Flavor, catalog_flavor}
use kite_kvm.Vm.Requests.Validation.{validate_password, validate_hostname, validate_ssh_keys}
use kite_kvm.Vm.Requests.Submission.{faults-create_vm, faults-submit}
use kite_kvm.Vm.Requests.{
  enqueue_op, new_job, on_node, password_reset, submit, terminate, vm_or_not_found, RebuildRequest,
  RequestEnv, keys_of, known_image, rebuild, rebuilt, resize, resized, set_hostname,
  snapshot_create, snapshot_name, snapshot_op,
}
use kite_kvm.Store.Jobs.{create_job}
use kite_kvm.Store.Vms.Rows.{faults-update_vm}
use kite_kvm.Store.Vms.{create_vm, get_vm, update_vm, list_vms}
use kite_kvm.Vm.{load_operable}
use kite_kvm.Job.{Queue, enqueue}
use kite_kvm.Node.{on_db, Node}
use kite_kvm.Model.{Job, JobType, Vm}
use kite_kvm.Prelude.Effects.{Exec, continue, lift, pure, raise, ◌>>=◌}
use kite_kvm.Prelude.{
  String, Bool, Error, Option, Result, [], arith, err, false, if◌then◌else◌, invalid_request, none,
  ok, refl, some, str_eq, true, ◌∙◌, ◌≡◌, Option-cases, flavor_not_found, image_not_found, inl, inr,
  ltb, not, ◌&&◌, ◌∷◌,
}

module _ {H : Type 0} where
  -- a request that leaves the table as it is, and a working database working
  pub record LeavesKeys {A : Type 0} (m : Exec (Queue H) A) : Type 0 where
    pub keys : (q : Queue H) → (m q).1.node.db.idempotency_keys ≡ q.node.db.idempotency_keys
    pub faults : (q : Queue H) → q.node.db.faults ≡ [] → (m q).1.node.db.faults ≡ []

  module _ {A : Type 0} where
    pub pure-LeavesKeys : (a : A) → LeavesKeys (pure a)
    pure-LeavesKeys a = record { keys = λ q. refl; faults = λ q s. s }

    lift-LeavesKeys : (r : Result A) → LeavesKeys (lift r)
    lift-LeavesKeys r = record { keys = λ q. refl; faults = λ q s. s }

    raise-LeavesKeys : (e : Error) → LeavesKeys (raise {A = A} e)
    raise-LeavesKeys e = record { keys = λ q. refl; faults = λ q s. s }

    if-LeavesKeys :
        {m m' : Exec (Queue H) A} (b : Bool)
        → LeavesKeys m
        → LeavesKeys m'
        → LeavesKeys (if b then m else m')
    if-LeavesKeys true k k' = k
    if-LeavesKeys false k k' = k'

  module _ {A B : Type 0} where
    continue_keys :
        (r : Result A) (f : A → Exec (Queue H) B)
        → ((a : A) → LeavesKeys (f a))
        → (q : Queue H) → (continue r f q).1.node.db.idempotency_keys ≡ q.node.db.idempotency_keys
    continue_keys (ok a) f k q = (k a).keys q
    continue_keys (err e) f k q = refl

    continue_faults :
        (r : Result A) (f : A → Exec (Queue H) B)
        → ((a : A) → LeavesKeys (f a))
        → (q : Queue H) → q.node.db.faults ≡ []
        → (continue r f q).1.node.db.faults ≡ []
    continue_faults (ok a) f k q s = (k a).faults q s
    continue_faults (err e) f k q s = s

    then-LeavesKeys :
        {m : Exec (Queue H) A} {f : A → Exec (Queue H) B}
        → LeavesKeys m
        → ((a : A) → LeavesKeys (f a))
        → LeavesKeys (m >>= f)
    then-LeavesKeys {m} {f} k k' = record {
      keys = λ q. continue_keys (m q).0 f k' (m q).1 ∙ k.keys q;
      faults = λ q s. continue_faults (m q).0 f k' (m q).1 (k.faults q s);
    }

    option-LeavesKeys :
        {m : Exec (Queue H) B} {f : A → Exec (Queue H) B} (o : Option A)
        → LeavesKeys m
        → ((a : A) → LeavesKeys (f a))
        → LeavesKeys (elim o [ none ↦ m | some a ↦ f a ])
    option-LeavesKeys none k k' = k
    option-LeavesKeys (some a) k k' = k' a

  load-LeavesKeys : (id : String) → LeavesKeys (on_node (load_operable id))
  load-LeavesKeys id = record {
    keys = λ q. unfold load_operable get_vm in ground arith;
    faults = λ q s. unfold load_operable get_vm in ground (arith, s);
  }

  found-LeavesKeys : (id : String) → LeavesKeys (on_node (vm_or_not_found id))
  found-LeavesKeys id = record {
    keys = λ q. unfold vm_or_not_found get_vm in ground arith;
    faults = λ q s. unfold vm_or_not_found get_vm in ground (arith, s);
  }

  update-LeavesKeys : (v : Vm) → LeavesKeys (on_node (on_db (update_vm v)))
  update-LeavesKeys v = record {
    keys = λ q. unfold update_vm in ground arith;
    faults = λ q s. faults-update_vm v q.node.db s;
  }

  insert-LeavesKeys : (v : Vm) → LeavesKeys (on_node (on_db (create_vm v)))
  insert-LeavesKeys v = record {
    keys = λ q. unfold create_vm in ground arith;
    faults = λ q s. faults-create_vm v q.node.db s;
  }

  submit-LeavesKeys : (j : Job) → LeavesKeys (submit j)
  submit-LeavesKeys j = record {
    keys = λ q. unfold submit enqueue create_job in ground arith;
    faults = λ q s. faults-submit j q s;
  }

  pub enqueue_op-LeavesKeys :
      (job_id id : String) (typ : JobType) → LeavesKeys (enqueue_op job_id id typ)
  unfolding enqueue_op
  enqueue_op-LeavesKeys job_id id typ =
      then-LeavesKeys (load-LeavesKeys id) λ v. submit-LeavesKeys (new_job job_id typ v.id [])

  pub terminate-LeavesKeys : (job_id id : String) → LeavesKeys (terminate job_id id)
  unfolding terminate
  terminate-LeavesKeys job_id id =
      then-LeavesKeys (found-LeavesKeys id)
        λ v. submit-LeavesKeys (new_job job_id JobType.terminate id [])

  pub password_reset-LeavesKeys :
      (job_id id password : String) → LeavesKeys (password_reset job_id id password)
  unfolding password_reset
  password_reset-LeavesKeys job_id id password =
      if-LeavesKeys (str_eq password "") (raise-LeavesKeys invalid_request) (
        then-LeavesKeys (lift-LeavesKeys (validate_password password)) λ _.
          then-LeavesKeys (load-LeavesKeys id) λ v.
            then-LeavesKeys (update-LeavesKeys (record v { password = password }))
              λ _. submit-LeavesKeys (new_job job_id JobType.password v.id []))

module _ {H : Type 0} (renv : RequestEnv H) where
  pub set_hostname-LeavesKeys :
      (job_id id given : String) → LeavesKeys (set_hostname renv job_id id given)
  unfolding set_hostname
  set_hostname-LeavesKeys job_id id given =
      let name = renv.env.net.trim_space given in
      then-LeavesKeys (lift-LeavesKeys (validate_hostname name)) λ _.
        then-LeavesKeys (load-LeavesKeys id) λ v.
          then-LeavesKeys (update-LeavesKeys (record v { hostname = name }))
            λ _. submit-LeavesKeys (new_job job_id JobType.hostname v.id [])

  pub rebuild-LeavesKeys :
      (job_id id : String) (req : RebuildRequest) → LeavesKeys (rebuild renv job_id id req)
  unfolding rebuild
  rebuild-LeavesKeys job_id id req =
      let unknown =
        not (str_eq req.image_id "") && not (known_image req.image_id renv.env.config.images) in
      then-LeavesKeys (lift-LeavesKeys (validate_password req.password)) λ _.
        then-LeavesKeys
          (lift-LeavesKeys
            (validate_ssh_keys renv.env.net.trim_space renv.parses_key (keys_of req.ssh_keys)))
          λ _. then-LeavesKeys (load-LeavesKeys id) λ v.
            if-LeavesKeys unknown (raise-LeavesKeys image_not_found) (
              then-LeavesKeys (update-LeavesKeys (rebuilt renv req v))
                λ _. submit-LeavesKeys (new_job job_id JobType.rebuild id []))

  pub resize-LeavesKeys :
      (job_id id flavor_id : String) → LeavesKeys (resize renv job_id id flavor_id)
  unfolding resize
  resize-LeavesKeys job_id id flavor_id = then-LeavesKeys (load-LeavesKeys id) λ v.
      option-LeavesKeys (catalog_flavor flavor_id renv.env.config.flavors)
        (raise-LeavesKeys flavor_not_found)
        λ f. if-LeavesKeys (ltb f.disk_gb v.disk_gb) (raise-LeavesKeys invalid_request) (
          then-LeavesKeys (update-LeavesKeys (resized renv f v))
            λ _. submit-LeavesKeys (new_job job_id JobType.resize id []))

  pub snapshot_create-LeavesKeys :
      (job_id drawn id name description : String)
      → LeavesKeys (snapshot_create renv job_id drawn id name description)
  unfolding snapshot_create
  snapshot_create-LeavesKeys job_id drawn id name description =
      let named = ("name", snapshot_name renv name drawn) ∷ ("description", description) ∷ [] in
      then-LeavesKeys (load-LeavesKeys id)
        λ v. submit-LeavesKeys (new_job job_id JobType.snapshot_create v.id named)

  pub snapshot_op-LeavesKeys :
      (job_id : String) (typ : JobType) (id name : String)
      → LeavesKeys (snapshot_op renv job_id typ id name)
  unfolding snapshot_op
  snapshot_op-LeavesKeys job_id typ id name = then-LeavesKeys (load-LeavesKeys id) λ v.
      if-LeavesKeys (str_eq name "") (raise-LeavesKeys invalid_request)
        (submit-LeavesKeys (new_job job_id typ v.id (("name", name) ∷ [])))

  keys-admit :
      (f : Flavor) (n : Node H) → (admit renv f n).1.db.idempotency_keys ≡ n.db.idempotency_keys
  unfolding admit committed list_vms
  keys-admit f n = ground arith

  keys-check_create :
      (id : String) (req : CreateRequest) (n : Node H)
      → (check_create renv id req n).1.db.idempotency_keys ≡ n.db.idempotency_keys
  unfolding check_create
  keys-check_create id req n =
      elim (Option-cases (catalog_flavor req.flavor_id renv.env.config.flavors)) [
        | inl e ↦ ground (arith, e)
        | inr (f, e) ↦ ground (arith, e, keys-admit f n)
      ]

  pub create_request-LeavesKeys :
      (drawn : Drawn) (req : CreateRequest) → LeavesKeys (create_request renv drawn req)
  unfolding create_request
  create_request-LeavesKeys drawn req =
      let checked : LeavesKeys (on_node (check_create renv drawn.vm_id req)) = record {
        keys = λ q. keys-check_create drawn.vm_id req q.node;
        faults = λ q s. faults-check_create renv drawn.vm_id req q.node s;
      } in
      then-LeavesKeys checked λ v.
        then-LeavesKeys (insert-LeavesKeys v)
          λ _. submit-LeavesKeys (new_job drawn.job_id JobType.create v.id [])
