-- ===== src/Api/Router.antt =====
-- internal/api/router.go: the routes in their groups, and the middleware before them. chi's matching
-- of a path is not modelled: a `Route` is what it has found, with the parameters of the path.

pub mod Guard
pub mod Retried
use kite_kvm.Console.{Ticket, TokenStore}
use kite_kvm.Api.Handlers.{
  Op, console_handler, console_ws_handler, create_handler, create_snapshot_handler,
  delete_snapshot_handler, get_handler, get_job_handler, host_handler, hostname_handler,
  list_handler, list_snapshots_handler, op_handler, password_handler, quota_handler, ready_handler,
  rebuild_handler, resize_handler, revert_snapshot_handler, stats_handler, status_handler,
  terminate_handler, traffic_handler,
}
use kite_kvm.Api.Exchange.{
  Codec, Draw, Reply, Response, Site, error_response, ok_response, flavors, images, live, version,
}
use kite_kvm.Api.Access.{AddressLib, source_allowed, token_valid}
use kite_kvm.Api.Errors.{ApiError, bad_request, forbidden, in_conflict, internal, unauthorized}
use kite_kvm.Vm.Stats.{StatsSample}
use kite_kvm.Vm.Requests.{RequestEnv}
use kite_kvm.Node.{Node}
use kite_kvm.Config.Settings.{Auth}
use kite_kvm.Api.Idempotency.{
  Answer, Captured, Request, different_request, handled, idempotency, in_progress, key_required,
  store_failed, unreadable_body, replayed,
}
use kite_kvm.Prelude.{
  String, Bool, List, Option, Result, err, false, if◌then◌else◌, none, not, ok, true, ℕ,
}

-- outside the middleware of /v1
pub data PublicRoute : Type 0 where
  healthz readyz api_version : PublicRoute
  console_ws : String → PublicRoute

-- /v1, without the middleware of idempotency: the routes that read, that which sets a quota, and
-- that which opens a console
pub data PlainRoute : Type 0 where
  host_route flavors_route images_route vms_route : PlainRoute
  job_route vm_route status_route stats_route : String → PlainRoute
  snapshots_route traffic_route set_quota_route console_route : String → PlainRoute

-- /v1/vms with the middleware of idempotency: the routes that enqueue a job
pub data KeyedRoute : Type 0 where
  create_vm_route : KeyedRoute
  terminate_route password_route hostname_route rebuild_route : String → KeyedRoute
  resize_route create_snapshot_route : String → KeyedRoute
  op_route : Op → String → KeyedRoute
  delete_snapshot_route revert_snapshot_route : String → String → KeyedRoute

pub data Route : Type 0 where
  at_root : PublicRoute → Route
  plain_route : PlainRoute → Route
  keyed_route : KeyedRoute → Route

abbrev pub is_v1 : Route → Bool
is_v1 (at_root r) = false
is_v1 (plain_route r) = true
is_v1 (keyed_route r) = true

-- a request beside its route: `base` is what the middleware of idempotency reads
pub record HttpRequest : Type 0 where
  pub base : Request
  pub authorization : String
  pub remote_addr : String
  pub query : String → String

-- what is written to the client
pub record Served : Type 0 where
  pub status : ℕ
  pub location : Option String
  pub replayed : Bool
  pub body : List ℕ

-- Options, with what the handlers need of other packages
pub record ApiEnv (H Ip Net : Type 0) : Type 0 where
  pub renv : RequestEnv H
  pub auth : Auth
  pub net : AddressLib Ip Net
  pub codec : Codec
  pub encode : Reply → List ℕ  -- json.Encoder.Encode
  pub sha256_hex : List ℕ → String
  pub dials : Ticket → Bool

-- the host as the middleware of idempotency sees it: what a handler changes besides the database,
-- and the header Location that it sets
pub record Beside (H : Type 0) : Type 0 where
  pub host : H
  pub scheduled : List (String × ℕ)
  pub tokens : TokenStore
  pub last_stats : String → Option StatsSample
  pub location : Option String

module _ {H : Type 0} where
  abbrev pub pack : Option String → Site H → Node (Beside H)
  pack location s = record {
    db = s.queue.node.db;
    host = record {
      host = s.queue.node.host;
      scheduled = s.queue.scheduled;
      tokens = s.tokens;
      last_stats = s.last_stats;
      location = location;
    };
    traffic_last = s.queue.node.traffic_last;
  }

  abbrev pub unpack : Node (Beside H) → Site H
  unpack n = record {
    queue = record {
      node = record { db = n.db; host = n.host.host; traffic_last = n.traffic_last };
      scheduled = n.host.scheduled;
    };
    tokens = n.host.tokens;
    last_stats = n.host.last_stats;
  }

module _ {H Ip Net : Type 0} (api : ApiEnv H Ip Net) where
  -- what writeJSON sends of a response
  abbrev pub served : Response → Served
  served r = record {
    status = r.status;
    location = r.location;
    replayed = false;
    body = api.encode r.reply;
  }

  -- `writeError(w, …)` of a middleware
  abbrev pub refused : ApiError → Served
  refused e = served (error_response e)

  module _ (draw : Draw) where
    unfoldable pub serve_public : PublicRoute → Site H → Response × Site H
    serve_public healthz s = (ok_response Reply.live, s)
    serve_public readyz s = ready_handler api.renv api.codec draw s
    serve_public api_version s = (ok_response Reply.version, s)
    serve_public (console_ws token) s = console_ws_handler api.renv api.codec draw api.dials token s

    -- the body of a request outside the middleware of idempotency
    abbrev pub quota_body : Result (List ℕ) → String → Site H → Response × Site H
    quota_body (ok body) id s = quota_handler api.renv api.codec draw id body s
    quota_body (err e) id s = (error_response bad_request, s)

    unfoldable pub serve_plain : PlainRoute → HttpRequest → Site H → Response × Site H
    serve_plain host_route req s = host_handler api.renv api.codec draw s
    serve_plain flavors_route req s = (ok_response (Reply.flavors api.renv.env.config.flavors), s)
    serve_plain images_route req s = (ok_response (Reply.images api.renv.env.config.images), s)
    serve_plain vms_route req s = list_handler api.renv api.codec draw req.query s
    serve_plain (job_route id) req s = get_job_handler id s
    serve_plain (vm_route id) req s = get_handler api.renv api.codec draw id s
    serve_plain (status_route id) req s = status_handler api.renv api.codec draw id s
    serve_plain (stats_route id) req s = stats_handler api.renv api.codec draw id s
    serve_plain (snapshots_route id) req s = list_snapshots_handler api.renv api.codec draw id s
    serve_plain (traffic_route id) req s = traffic_handler api.renv api.codec draw id s
    serve_plain (set_quota_route id) req s = quota_body req.base.body id s
    serve_plain (console_route id) req s = console_handler api.renv api.codec draw id s

    unfoldable pub serve_keyed : KeyedRoute → List ℕ → Site H → Response × Site H
    serve_keyed create_vm_route body s = create_handler api.renv api.codec draw body s
    serve_keyed (terminate_route id) body s = terminate_handler api.renv api.codec draw id s
    serve_keyed (password_route id) body s = password_handler api.renv api.codec draw id body s
    serve_keyed (hostname_route id) body s = hostname_handler api.renv api.codec draw id body s
    serve_keyed (rebuild_route id) body s = rebuild_handler api.renv api.codec draw id body s
    serve_keyed (resize_route id) body s = resize_handler api.renv api.codec draw id body s
    serve_keyed (create_snapshot_route id) body s =
        create_snapshot_handler api.renv api.codec draw id body s
    serve_keyed (op_route op id) body s = op_handler api.renv api.codec draw op id s
    serve_keyed (delete_snapshot_route id snap) body s =
        delete_snapshot_handler api.renv api.codec draw id snap s
    serve_keyed (revert_snapshot_route id snap) body s =
        revert_snapshot_handler api.renv api.codec draw id snap s

    -- a handler as the middleware of idempotency calls it: the response is captured without headers
    unfoldable pub captured_write :
        KeyedRoute → List ℕ → Node (Beside H) → Captured × Node (Beside H)
    captured_write route body n =
        let out = serve_keyed route body (unpack n) in
        (record { status = out.0.status; body = api.encode out.0.reply }, pack out.0.location out.1)

    -- what the middleware of idempotency writes
    unfoldable pub served_answer : Answer → Option String → Served
    served_answer key_required location = refused bad_request
    served_answer unreadable_body location = refused bad_request
    served_answer different_request location = refused in_conflict
    served_answer in_progress location = refused in_conflict
    served_answer (store_failed e) location = refused internal
    served_answer (replayed c) location = record {
      status = c.status;
      location = none;
      replayed = true;
      body = c.body;
    }
    served_answer (handled c) location = record {
      status = c.status;
      location = location;
      replayed = false;
      body = c.body;
    }

    -- r.Use(idem)
    unfoldable pub serve_idempotent : KeyedRoute → HttpRequest → Site H → Served × Site H
    serve_idempotent route req s =
        let out = idempotency api.sha256_hex (captured_write route) req.base (pack none s) in
        (served_answer out.0 out.1.host.location, unpack out.1)

    -- the routes of /v1 behind their middleware
    unfoldable pub serve_route : Route → HttpRequest → Site H → Served × Site H
    serve_route (at_root r) req s = (served (serve_public r s).0, (serve_public r s).1)
    serve_route (plain_route r) req s = (served (serve_plain r req s).0, (serve_plain r req s).1)
    serve_route (keyed_route r) req s = serve_idempotent r req s

    -- the handler of NewRouter, from the route on: ipAllowlist and bearerAuth gate all of /v1
    unfoldable pub serve : Route → HttpRequest → Site H → Served × Site H
    serve route req s =
        if not (is_v1 route)
        then serve_route route req s
        else if not (source_allowed api.net api.auth.ip_allowlist req.remote_addr)
        then (refused forbidden, s)
        else if not (token_valid api.net api.auth.tokens req.authorization)
        then (refused unauthorized, s)
        else serve_route route req s
