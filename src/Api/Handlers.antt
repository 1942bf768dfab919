-- ===== src/Api/Handlers.antt =====
-- The handlers of internal/api: vms.go, jobs.go, catalog.go, health.go and console.go. A handler is
-- given the request's parts and the state of the agent, and returns the response and the new state.
use kite_kvm.Api.Exchange.{
  Codec, Decoded, Draw, Reply, Response, Site, accepted_response, at_node, at_queue, at_samples,
  error_response, malformed, no_value, ok_response, value,
}
use kite_kvm.Vm.Traffic.{set_traffic_quota}
use kite_kvm.Store.Jobs.{get_job}
use kite_kvm.Console.{MintCall, Ticket, mint, redeem}
use kite_kvm.Api.Errors.{bad_request, forbidden, internal, map_vm_error, no_such}
use kite_kvm.Vm.Stats.{stats_request, traffic_info, traffic_usage}
use kite_kvm.Vm.Requests.Admission.{host_report}
use kite_kvm.Vm.Requests.Listing.{get_request, list_page, status_request}
use kite_kvm.Vm.Requests.Create.{create_request}
use kite_kvm.Vm.Requests.{
  RequestEnv, console_endpoint, enqueue_op, password_reset, rebuild, resize, set_hostname,
  snapshot_create, snapshot_list, snapshot_op, terminate,
}
use kite_kvm.Job.{Queue}
use kite_kvm.Node.{on_db, on_host}
use kite_kvm.Prelude.Effects.{Exec}
use kite_kvm.Model.{JobType, Job}
use kite_kvm.Prelude.{
  pos, String, Bool, Error, List, Option, err, if◌then◌else◌, none, ok, some, str_eq, ℕ, ℤ,
}

module _ {H : Type 0} where
  -- if err != nil { writeError(w, mapVMError(err)); return }
  abbrev pub respond : {A : Type 0} → (A → Response) → Exec (Site H) A → Site H → Response × Site H
  respond answer m s =
      (elim ((m s).0) [ ok a ↦ answer a | err e ↦ error_response (map_vm_error e) ], (m s).1)

  -- a body that is not decoded is answered with 400
  abbrev pub with_body :
      {A : Type 0} → Decoded A → (A → Site H → Response × Site H) → Site H → Response × Site H
  with_body (value a) handle s = handle a s
  with_body no_value handle s = (error_response bad_request, s)
  with_body malformed handle s = (error_response bad_request, s)

  -- the same, with errors.Is(err, io.EOF) let through: the request is then the zero value
  abbrev pub with_optional_body :
      {A : Type 0} → A → Decoded A → (A → Site H → Response × Site H) → Site H → Response × Site H
  with_optional_body zero_value (value a) handle s = handle a s
  with_optional_body zero_value no_value handle s = handle zero_value s
  with_optional_body zero_value malformed handle s = (error_response bad_request, s)

  -- jobsHandler.get
  unfoldable pub get_job_handler : String → Site H → Response × Site H
  get_job_handler id s =
      let got = at_node (on_db (get_job id)) s in
      elim (got.0) [
        | err Error.not_found ↦ (error_response no_such, got.1)
        | err e ↦ (error_response internal, got.1)
        | ok j ↦ (ok_response (Reply.one_job j), got.1)
      ]

-- atoiOr; strconv.Atoi is a parameter
unfoldable pub atoi_or_zero : (String → Option ℤ) → String → ℤ
atoi_or_zero atoi s = if str_eq s "" then pos 0 else elim (atoi s) [ none ↦ pos 0 | some n ↦ n ]

-- the operations that powerOp is given
pub data Op : Type 0 where
  start shutdown reboot stop suspend unsuspend reset block unblock : Op

unfoldable pub job_type_of : Op → JobType
job_type_of start = JobType.start
job_type_of shutdown = JobType.shutdown
job_type_of reboot = JobType.reboot
job_type_of stop = JobType.stop
job_type_of suspend = JobType.suspend
job_type_of unsuspend = JobType.unsuspend
job_type_of reset = JobType.traffic_reset
job_type_of block = JobType.net_block
job_type_of unblock = JobType.net_unblock

module _ {H : Type 0} (renv : RequestEnv H) (codec : Codec) (draw : Draw) where
  abbrev pub job_id : String
  job_id = draw.drawn.job_id

  -- a request that ends with a job
  abbrev pub accepted : Exec (Queue H) Job → Site H → Response × Site H
  accepted m = respond accepted_response (at_queue m)

  unfoldable pub create_handler : List ℕ → Site H → Response × Site H
  create_handler body =
      with_body (codec.create body) λ req. accepted (create_request renv draw.drawn req)

  unfoldable pub terminate_handler : String → Site H → Response × Site H
  terminate_handler id = accepted (terminate job_id id)

  -- powerOp
  unfoldable pub op_handler : Op → String → Site H → Response × Site H
  op_handler op id = accepted (enqueue_op job_id id (job_type_of op))

  unfoldable pub password_handler : String → List ℕ → Site H → Response × Site H
  password_handler id body =
      with_body (codec.password body) λ text. accepted (password_reset job_id id text)

  unfoldable pub hostname_handler : String → List ℕ → Site H → Response × Site H
  hostname_handler id body =
      with_body (codec.hostname body) λ text. accepted (set_hostname renv job_id id text)

  unfoldable pub rebuild_handler : String → List ℕ → Site H → Response × Site H
  rebuild_handler id body =
      with_optional_body (record { image_id = ""; password = ""; ssh_keys = none })
        (codec.rebuild body) λ req. accepted (rebuild renv job_id id req)

  unfoldable pub resize_handler : String → List ℕ → Site H → Response × Site H
  resize_handler id body =
      with_body (codec.flavor body) λ flavor. accepted (resize renv job_id id flavor)

  unfoldable pub create_snapshot_handler : String → List ℕ → Site H → Response × Site H
  create_snapshot_handler id body =
      with_optional_body ("", "") (codec.snapshot body)
        λ p. accepted (snapshot_create renv job_id draw.snapshot id p.0 p.1)

  unfoldable pub delete_snapshot_handler : String → String → Site H → Response × Site H
  delete_snapshot_handler id snap =
      accepted (snapshot_op renv job_id JobType.snapshot_delete id snap)

  unfoldable pub revert_snapshot_handler : String → String → Site H → Response × Site H
  revert_snapshot_handler id snap =
      accepted (snapshot_op renv job_id JobType.snapshot_revert id snap)

  unfoldable pub list_handler : (String → String) → Site H → Response × Site H
  list_handler query =
      respond (λ page. ok_response (Reply.vm_page page))
        (at_node (
          list_page renv (record {
            limit = atoi_or_zero codec.atoi (query "limit");
            offset = atoi_or_zero codec.atoi (query "offset");
            status = query "status";
            network_id = query "network_id";
          })))

  unfoldable pub get_handler : String → Site H → Response × Site H
  get_handler id = respond (λ v. ok_response (Reply.one_vm v)) (at_node (get_request renv id))

  unfoldable pub status_handler : String → Site H → Response × Site H
  status_handler id =
      respond (λ st. ok_response (Reply.vm_status st)) (at_node (status_request renv id))

  unfoldable pub stats_handler : String → Site H → Response × Site H
  stats_handler id =
      respond (λ info. ok_response (Reply.vm_stats info)) (at_samples (stats_request renv id))

  unfoldable pub host_handler : Site H → Response × Site H
  host_handler = respond (λ r. ok_response (Reply.host_capacity r)) (at_node (host_report renv))

  unfoldable pub traffic_handler : String → Site H → Response × Site H
  traffic_handler id =
      respond (λ info. ok_response (Reply.vm_traffic info)) (at_node (traffic_usage renv id))

  unfoldable pub quota_handler : String → List ℕ → Site H → Response × Site H
  quota_handler id body = with_body (codec.quota body) λ quota_gb.
      respond (λ v. ok_response (Reply.vm_traffic (traffic_info renv.floats v)))
        (at_node (set_traffic_quota renv.env id quota_gb))

  unfoldable pub list_snapshots_handler : String → Site H → Response × Site H
  list_snapshots_handler id =
      respond (λ snaps. ok_response (Reply.snapshots snaps)) (at_node (snapshot_list renv id))

  -- handleReady, with Ping
  unfoldable pub ready_handler : Site H → Response × Site H
  ready_handler s =
      let pinged = at_node (on_host renv.env.conn.ping) s in
      elim (pinged.0) [
        | ok _ ↦ (ok_response Reply.ready, pinged.1)
        | err e ↦ (record { status = 503; location = none; reply = Reply.unavailable }, pinged.1)
      ]

  -- what consoleHandler.request does with the endpoint: Mint
  unfoldable pub mint_response : String → String × ℕ → Site H → Response × Site H
  mint_response id endpoint s =
      let call : MintCall = record {
        drawn = draw.token;
        vm_id = id;
        host = endpoint.0;
        port = endpoint.1;
        now = s.queue.node.db.clock;
        later = draw.later;
      } in
      let minted = mint call s.tokens in
      let after = record s { tokens = minted.1 } in
      elim (minted.0) [
        | err e ↦ (error_response internal, after)
        | ok t ↦ (ok_response (Reply.console_token t.0 t.1), after)
      ]

  -- consoleHandler.request
  unfoldable pub console_handler : String → Site H → Response × Site H
  console_handler id s =
      let found = at_node (console_endpoint renv id) s in
      elim (found.0) [
        | err e ↦ (error_response (map_vm_error e), found.1)
        | ok endpoint ↦ mint_response id endpoint found.1
      ]

  -- serveWS; `dials` tells whether the VNC port is reached
  unfoldable pub console_ws_handler : (Ticket → Bool) → String → Site H → Response × Site H
  console_ws_handler dials token s =
      let redeemed = redeem s.queue.node.db.clock token s.tokens in
      let after = record s { tokens = redeemed.1 } in
      elim (redeemed.0) [
        | none ↦ (error_response forbidden, after)
        | some t ↦
            if dials t
            then (record { status = 101; location = none; reply = Reply.proxied t }, after)
            else (error_response internal, after)
      ]
