-- ===== src/Vm/Provisioning/Failure.antt =====
-- What a creation that fails leaves in the database: runCreate of internal/vm/service.go.
use kite_kvm.Store.Table.{find}
use kite_kvm.DomainXml.{render}
use kite_kvm.Vm.Dispatch.JobsTable.Provision.{network_allocate-Keeps}
use kite_kvm.Vm.Provisioning.VmsTable.{network_allocate-KeepsVms}
use kite_kvm.Vm.Lifecycle.Teardown.{fail_create-frees}
use kite_kvm.Vm.Provisioning.{
  PrepareRequest, attached, built, create_spec, image_of, now_running, prepare, prepare_request,
  run_create, wired,
}
use kite_kvm.Vm.Links.{fail_create, flavor_bandwidth, or_teardown}
use kite_kvm.Store.Vms.Rows.{faults-update_vm, update_vm-ok, vm_row-update_vm, get_vm-found}
use kite_kvm.Config.{ConfigNetwork, Image, catalog_image}
use kite_kvm.Network.Strategy.{Attachment, last_network, network_allocate}
use kite_kvm.Vm.{Env, Fresh, or_fail}
use kite_kvm.Node.{Node, on_db, on_host}
use kite_kvm.Store.Vms.{get_vm, set_columns, update_vm, vm_key, vm_row}
use kite_kvm.Model.{Vm, VmStatus}
use mathlib.Core.Path.{subst}
use kite_kvm.Prelude.{
  Error, Result-cases, String, [], ap, arith, err, inl, inr, ok, refl, some, sym, ◌∙◌, ◌≡◌,
}
use kite_kvm.Vm.Provisioning.GivesUp.{
  GivesUp, IsGivenUp, IsStored, bind-known, known-GivesUp, then-GivesUp,
}
use kite_kvm.Prelude.Effects.{Exec, attempt, lift, ◌>>=◌, ◌>>◌}

module _ {H : Type 0} (env : Env H) where
  module _ {A : Type 0} (w : Vm) (mac : String) (cfg : ConfigNetwork) (m : Exec (Node H) A)
      (n : Node H) (here : last_network w.network_id env.config.networks ≡ some cfg)
      (stored : IsStored w.id (m n).1) where
    or_teardown-err :
        (e : Error) → (m n).0 ≡ err e → or_teardown env w mac m n ≡ fail_create env w mac e (m n).1
    unfolding or_teardown
    or_teardown-err e failed = rw (failed, or_teardown) refl

    or_teardown-ok : (a : A) → (m n).0 ≡ ok a → or_teardown env w mac m n ≡ (ok a, (m n).1)
    unfolding or_teardown
    or_teardown-ok a got = rw (got, or_teardown) refl

    freed : (e : Error) → IsGivenUp w.id (fail_create env {A = A} w mac e (m n).1).1
    freed e =
        let (sound, old, row) = stored in
        let torn = fail_create-frees env {A = A} w old mac e cfg (m n).1 sound row here in
        (
          set_columns (m n).1.db.clock (record w { status = VmStatus.error }) old,
          torn.1,
          refl,
          torn.2,
        )

    or_teardown-GivesUp : GivesUp w.id (or_teardown env w mac m) n
    or_teardown-GivesUp = elim (Result-cases ((m n).0)) [
      | inl (x, failed) ↦ record { given_up = λ e h. rw (or_teardown-err x failed) (freed x) }
      | inr (a, got) ↦ record {
        given_up = λ e h.
            let went : ok a ≡ err e = sym (ap (λ p. p.0) (or_teardown-ok a got)) ∙ h in cc went;
      }
    ]

    -- where a step succeeds, the VM is still stored
    or_teardown-IsStored :
        (a : A) → (or_teardown env w mac m n).0 ≡ ok a → IsStored w.id (or_teardown env w mac m n).1
    or_teardown-IsStored a h = elim (Result-cases ((m n).0)) [
      | inl (x, failed) ↦
          let (sound, old, row) = stored in
          let torn = fail_create-frees env {A = A} w old mac x cfg (m n).1 sound row here in
          let went : err x ≡ ok a =
            sym torn.0 ∙ sym (ap (λ p. p.0) (or_teardown-err x failed)) ∙ h in
          cc went
      | inr (b, got) ↦ rw (or_teardown-ok b got) stored
    ]

  or_fail-ok :
      {A : Type 0} (w : Vm) (m : Exec (Node H) A) (n : Node H) (a : A)
      → (m n).0 ≡ ok a
      → or_fail w m n ≡ (ok a, (m n).1)
  unfolding or_fail
  or_fail-ok w m n a got = rw (got, or_fail) refl

  prepare_db : (req : PrepareRequest) (n : Node H) → (prepare env req n).1.db ≡ n.db
  unfolding prepare
  prepare_db req n = ground arith

  looked_up : (id : String) (n : Node H) → n.db.faults ≡ [] → (on_db (get_vm id) n).1 ≡ n
  unfolding get_vm
  looked_up id n sound = ground (arith, sound)

  update_vm-IsStored :
      (w : Vm) (n : Node H) → IsStored w.id n → IsStored w.id (on_db (update_vm w) n).1
  update_vm-IsStored w n (sound, old, row) = (
    faults-update_vm w n.db sound,
    set_columns n.db.clock w old,
    vm_row-update_vm w n.db old sound row,
  )

  -- the end of a creation: the record is written
  written-GivesUp : (w : Vm) (n : Node H) → IsStored w.id n → GivesUp w.id (on_db (update_vm w)) n
  written-GivesUp w n (sound, old, row) = record {
    given_up =
        λ e h. let went : ok tt ≡ err e = sym (update_vm-ok w n.db old sound row) ∙ h in cc went;
  }

  module _ (fresh : Fresh) (v : Vm) (image : Image) (att : Attachment) (cfg : ConfigNetwork)
      (here : last_network v.network_id env.config.networks ≡ some cfg) where
    -- the last steps, once the domain's document is rendered
    defined-GivesUp :
        (v2 : Vm) (xml : String) (n : Node H)
        → last_network v2.network_id env.config.networks ≡ some cfg
        → IsStored v2.id n
        → GivesUp v2.id
            (do
              uuid ← or_teardown env v2 att.mac (on_host (env.conn.define_domain xml))
              let v3 = record v2 { domain_uuid = uuid }
              or_teardown env v3 att.mac (on_host (env.conn.start_domain v3.domain_name))
              on_db (update_vm (now_running v3)))
            n
    defined-GivesUp v2 xml n here2 stored =
        let define = on_host (env.conn.define_domain xml) in
        then-GivesUp _ (or_teardown-GivesUp v2 att.mac cfg define n here2 stored) λ uuid got.
          let n' = (or_teardown env v2 att.mac define n).1 in
          let stored' = or_teardown-IsStored v2 att.mac cfg define n here2 stored uuid got in
          let v3 = record v2 { domain_uuid = uuid } in
          let start = on_host (env.conn.start_domain v3.domain_name) in
          then-GivesUp _ (or_teardown-GivesUp v3 att.mac cfg start n' here2 stored') λ done ran.
            written-GivesUp (now_running v3) (or_teardown env v3 att.mac start n').1
              (or_teardown-IsStored v3 att.mac cfg start n' here2 stored' done ran)

    -- the steps from the disk on
    abbrev built_rest : Attachment → Exec (Node H) (Unit {0})
    built_rest a = do
      let v1 = wired a v
      art ← or_teardown env v1 a.mac (prepare env (prepare_request env v1 image (attached env a)))
      let v2 = built art v1
      xml ←
          or_teardown env v2 a.mac
            (lift (render env.marshal (create_spec (flavor_bandwidth env v2.flavor_id) v2 a)))
      uuid ← or_teardown env v2 a.mac (on_host (env.conn.define_domain xml))
      let v3 = record v2 { domain_uuid = uuid }
      or_teardown env v3 a.mac (on_host (env.conn.start_domain v3.domain_name))
      on_db (update_vm (now_running v3))

    abbrev rest_of_create : Attachment → Exec (Node H) (Unit {0})
    rest_of_create a = do _ ← attempt (on_db (update_vm (wired a v))); built_rest a

    rest_of_create-GivesUp : (n : Node H) → IsStored v.id n → GivesUp v.id (rest_of_create att) n
    rest_of_create-GivesUp n stored =
        let v1 = wired att v in
        let n1 = (on_db (update_vm v1) n).1 in
        let stored1 : IsStored v.id n1 = update_vm-IsStored v1 n stored in
        let prepared = prepare env (prepare_request env v1 image (attached env att)) in
        let stored2 : IsStored v.id (prepared n1).1 =
          subst (λ db. (db.faults ≡ []) × (old : Vm) × (vm_row v.id db ≡ some old))
            (sym (prepare_db (prepare_request env v1 image (attached env att)) n1)) stored1 in
        known-GivesUp (attempt (on_db (update_vm v1))) (λ _. built_rest att) _ refl
          (then-GivesUp _ (or_teardown-GivesUp v1 att.mac cfg prepared n1 here stored2) λ art got.
            let v2 = built art v1 in
            let n2 = (or_teardown env v1 att.mac prepared n1).1 in
            let stored3 = or_teardown-IsStored v1 att.mac cfg prepared n1 here stored2 art got in
            let rendered : Exec (Node H) String =
              lift (render env.marshal (create_spec (flavor_bandwidth env v2.flavor_id) v2 att)) in
            then-GivesUp _ (or_teardown-GivesUp v2 att.mac cfg rendered n2 here stored3)
              λ xml wrote.
                defined-GivesUp v2 xml (or_teardown env v2 att.mac rendered n2).1 here
                  (or_teardown-IsStored v2 att.mac cfg rendered n2 here stored3 xml wrote))

    abbrev allocated_on : Exec (Node H) Attachment
    allocated_on =
        network_allocate env.net env.conn env.fuel env.config.networks v.network_id fresh.mac v.id
          v.hostname

    imaged_ok :
        (n : Node H)
        → catalog_image v.image_id env.config.images ≡ some image
        → image_of env v n ≡ (ok image, n)
    imaged_ok n found = rw (found, image_of) refl

    run_create-past :
        (n : Node H)
        → n.db.faults ≡ []
        → vm_row v.id n.db ≡ some v
        → catalog_image v.image_id env.config.images ≡ some image
        → (allocated_on n).0 ≡ ok att
        → run_create env fresh v.id n ≡ rest_of_create att (allocated_on n).1
    unfolding run_create
    run_create-past n sound row found allocated =
        let got = get_vm-found v.id n.db v sound row in
        let back : (get_vm v.id n.db).1 ≡ n.db = ap (λ x. x.db) (looked_up v.id n sound) in
        let seen = imaged_ok n found in
        let imaged : or_fail v (image_of env v) n ≡ (ok image, n) =
          or_fail-ok v (image_of env v) n image (ap (λ p. p.0) seen)
          ∙ ap (λ p. (ok image, p.1)) seen in
        let linked = or_fail-ok v allocated_on n att allocated in
        rw (got, back)
          (rw imaged
            (bind-known (or_fail v allocated_on) rest_of_create n (allocated_on n).1 att linked))

    -- A creation for a VM that is stored, whose image and network are configured, with a database that
    -- does not fail, and whose address could be allocated. If the creation fails, at the disk, the
    -- seed, the document, the definition or the start of the domain, and whatever the hypervisor
    -- answers to the teardown: the record is marked as an error, and the VM holds no address.
    pub run_create-gives_up :
        (n : Node H) (e : Error)
        → n.db.faults ≡ []
        → vm_row v.id n.db ≡ some v
        → catalog_image v.image_id env.config.images ≡ some image
        → (network_allocate env.net env.conn env.fuel env.config.networks v.network_id fresh.mac
            v.id v.hostname n).0
          ≡ ok att
        → (run_create env fresh v.id n).0 ≡ err e
        → IsGivenUp v.id (run_create env fresh v.id n).1
    unfolding vm_row
    run_create-gives_up n e sound row found allocated failed =
        let past = run_create-past n sound row found allocated in
        let stored : IsStored v.id (allocated_on n).1 = (
          (network_allocate-Keeps env v.network_id v.id v.hostname fresh.mac).faults n sound,
          v,
          ap (find vm_key v.id)
                ((network_allocate-KeepsVms env v.network_id v.id v.hostname fresh.mac).vms n)
              ∙ row,
        ) in
        rw past (
          (rest_of_create-GivesUp (allocated_on n).1 stored).given_up e
            (sym (ap (λ p. p.0) past) ∙ failed))
