-- ===== src/Api/Router/Retried.antt =====
-- A repeated request to a route of the group with `r.Use(idem)` in internal/api/router.go.
use kite_kvm.Store.Db.{Db}
use kite_kvm.Node.{Node}
use kite_kvm.Api.Router.{
  ApiEnv, KeyedRoute, create_snapshot_route, create_vm_route, delete_snapshot_route, hostname_route,
  op_route, password_route, rebuild_route, resize_route, revert_snapshot_route, serve_keyed,
  terminate_route, Beside, captured_write, unpack, Served,
}
use kite_kvm.Api.Handlers.{
  accepted, create_handler, create_snapshot_handler, delete_snapshot_handler, hostname_handler,
  job_type_of, op_handler, password_handler, rebuild_handler, resize_handler,
  revert_snapshot_handler, terminate_handler, with_body, with_optional_body,
}
use kite_kvm.Api.Exchange.{Decoded, Draw, Response, Site, malformed, no_value, value}
use kite_kvm.Vm.Requests.KeyTable.{
  LeavesKeys, create_request-LeavesKeys, enqueue_op-LeavesKeys, password_reset-LeavesKeys,
  rebuild-LeavesKeys, resize-LeavesKeys, set_hostname-LeavesKeys, snapshot_create-LeavesKeys,
  snapshot_op-LeavesKeys, terminate-LeavesKeys,
}
use kite_kvm.Vm.Requests.Create.{create_request}
use kite_kvm.Vm.Requests.{
  enqueue_op, password_reset, rebuild, resize, set_hostname, snapshot_create, snapshot_op,
  terminate,
}
use kite_kvm.Model.{Job, JobType}
use kite_kvm.Job.{Queue}
use kite_kvm.Prelude.Effects.{Exec}
use kite_kvm.Prelude.{List, [], none, refl, ℕ, ◌≡◌, true}

module _ {H : Type 0} where
  -- a handler that leaves the table idempotency_keys, and a working database working
  record Leaves (handle : Site H → Response × Site H) : Type 0 where
    keys :
        (s : Site H)
        → (handle s).1.queue.node.db.idempotency_keys ≡ s.queue.node.db.idempotency_keys
    faults : (s : Site H) → s.queue.node.db.faults ≡ [] → (handle s).1.queue.node.db.faults ≡ []

  with_body-Leaves :
      {A : Type 0} (d : Decoded A) (f : A → Site H → Response × Site H)
      → ((a : A) → Leaves (f a))
      → Leaves (with_body d f)
  with_body-Leaves (value a) f k = k a
  with_body-Leaves no_value f k = record { keys = λ s. refl; faults = λ s e. e }
  with_body-Leaves malformed f k = record { keys = λ s. refl; faults = λ s e. e }

  with_optional_body-Leaves :
      {A : Type 0} (zero_value : A) (d : Decoded A) (f : A → Site H → Response × Site H)
      → ((a : A) → Leaves (f a))
      → Leaves (with_optional_body zero_value d f)
  with_optional_body-Leaves zero_value (value a) f k = k a
  with_optional_body-Leaves zero_value no_value f k = k zero_value
  with_optional_body-Leaves zero_value malformed f k = record {
    keys = λ s. refl;
    faults = λ s e. e;
  }

module _ {H Ip Net : Type 0} (api : ApiEnv H Ip Net) (draw : Draw) where
  accepted-Leaves :
      (m : Exec (Queue H) Job) → LeavesKeys m → Leaves (accepted api.renv api.codec draw m)
  accepted-Leaves m k = record { keys = λ s. k.keys s.queue; faults = λ s e. k.faults s.queue e }

  serve_keyed-Leaves :
      (route : KeyedRoute) (body : List ℕ) → Leaves (serve_keyed api draw route body)
  unfolding serve_keyed create_handler terminate_handler op_handler password_handler
      hostname_handler rebuild_handler resize_handler create_snapshot_handler
      delete_snapshot_handler revert_snapshot_handler
  serve_keyed-Leaves create_vm_route body =
      with_body-Leaves (api.codec.create body)
        (λ req. accepted api.renv api.codec draw (create_request api.renv draw.drawn req))
        λ req.
          accepted-Leaves (create_request api.renv draw.drawn req)
            (create_request-LeavesKeys api.renv draw.drawn req)
  serve_keyed-Leaves (terminate_route id) body =
      accepted-Leaves (terminate draw.drawn.job_id id) (terminate-LeavesKeys draw.drawn.job_id id)
  serve_keyed-Leaves (op_route op id) body =
      accepted-Leaves (enqueue_op draw.drawn.job_id id (job_type_of op))
        (enqueue_op-LeavesKeys draw.drawn.job_id id (job_type_of op))
  serve_keyed-Leaves (password_route id) body =
      with_body-Leaves (api.codec.password body)
        (λ text. accepted api.renv api.codec draw (password_reset draw.drawn.job_id id text))
        λ text.
          accepted-Leaves (password_reset draw.drawn.job_id id text)
            (password_reset-LeavesKeys draw.drawn.job_id id text)
  serve_keyed-Leaves (hostname_route id) body =
      with_body-Leaves (api.codec.hostname body)
        (λ text. accepted api.renv api.codec draw (set_hostname api.renv draw.drawn.job_id id text))
        λ text.
          accepted-Leaves (set_hostname api.renv draw.drawn.job_id id text)
            (set_hostname-LeavesKeys api.renv draw.drawn.job_id id text)
  serve_keyed-Leaves (rebuild_route id) body =
      with_optional_body-Leaves (record { image_id = ""; password = ""; ssh_keys = none })
        (api.codec.rebuild body)
        (λ req. accepted api.renv api.codec draw (rebuild api.renv draw.drawn.job_id id req))
        λ req.
          accepted-Leaves (rebuild api.renv draw.drawn.job_id id req)
            (rebuild-LeavesKeys api.renv draw.drawn.job_id id req)
  serve_keyed-Leaves (resize_route id) body =
      with_body-Leaves (api.codec.flavor body)
        (λ flavor. accepted api.renv api.codec draw (resize api.renv draw.drawn.job_id id flavor))
        λ flavor.
          accepted-Leaves (resize api.renv draw.drawn.job_id id flavor)
            (resize-LeavesKeys api.renv draw.drawn.job_id id flavor)
  serve_keyed-Leaves (create_snapshot_route id) body =
      with_optional_body-Leaves ("", "") (api.codec.snapshot body)
        (λ p.
          accepted api.renv api.codec draw
            (snapshot_create api.renv draw.drawn.job_id draw.snapshot id p.0 p.1))
        λ p.
          accepted-Leaves (snapshot_create api.renv draw.drawn.job_id draw.snapshot id p.0 p.1)
            (snapshot_create-LeavesKeys api.renv draw.drawn.job_id draw.snapshot id p.0 p.1)
  serve_keyed-Leaves (delete_snapshot_route id snap) body =
      accepted-Leaves (snapshot_op api.renv draw.drawn.job_id JobType.snapshot_delete id snap)
        (snapshot_op-LeavesKeys api.renv draw.drawn.job_id JobType.snapshot_delete id snap)
  serve_keyed-Leaves (revert_snapshot_route id snap) body =
      accepted-Leaves (snapshot_op api.renv draw.drawn.job_id JobType.snapshot_revert id snap)
        (snapshot_op-LeavesKeys api.renv draw.drawn.job_id JobType.snapshot_revert id snap)

  pub captured_write-leaves :
      (route : KeyedRoute) (body : List ℕ) (n : Node (Beside H))
      → ((captured_write api draw route body n).1.db.idempotency_keys ≡ n.db.idempotency_keys)
        × (n.db.faults ≡ [] → (captured_write api draw route body n).1.db.faults ≡ [])
  unfolding captured_write
  captured_write-leaves route body n = (
    (serve_keyed-Leaves route body).keys (unpack n),
    (serve_keyed-Leaves route body).faults (unpack n),
  )

-- an answer as `replay` writes it: marked, and without the header Location
abbrev pub as_replay : Served → Served
as_replay a = record a { location = none; replayed = true }
