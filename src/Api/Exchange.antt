-- ===== src/Api/Exchange.antt =====
-- The state behind the HTTP API of internal/api, what a handler draws and decodes, and what it
-- writes. The bytes of JSON are the work of encoding/json, which a `Codec` stands for.
use kite_kvm.Api.Errors.{ApiError}
use kite_kvm.Vm.Stats.{StatsInfo, StatsSample, TrafficInfo}
use kite_kvm.Vm.Requests.Admission.{HostReport}
use kite_kvm.Vm.Requests.Listing.{ListResult, StatusInfo}
use kite_kvm.Vm.Requests.{RebuildRequest, on_node}
use kite_kvm.Job.{Queue}
use kite_kvm.Node.{Node}
use kite_kvm.Libvirt.{SnapshotInfo}
use kite_kvm.Config.{Flavor, Image}
use kite_kvm.Model.{Job, Vm}
use kite_kvm.Prelude.Effects.{Exec}
use Prim.Native.String.{◌++◌ as str_append}
use kite_kvm.Console.{Ticket, TokenStore}
use kite_kvm.Vm.Requests.Create.{CreateRequest, Drawn}
use kite_kvm.Prelude.{String, List, Option, Result, none, some, ℕ, ℤ}

-- the queue with the node, the console tokens, and the map lastStats of the service
pub record Site (H : Type 0) : Type 0 where
  pub queue : Queue H
  pub tokens : TokenStore
  pub last_stats : String → Option StatsSample

-- what a handler draws at random, and the second time that Mint reads
pub record Draw : Type 0 where
  pub drawn : Drawn
  pub snapshot : String
  pub token : Result String
  pub later : ℕ

-- the result of json.Decoder.Decode: io.EOF is a body without a value
pub data Decoded (A : Type 0) : Type 0 where
  value : A → Decoded A
  no_value malformed : Decoded A

-- the decoders, each of the first mebibyte of a body, and strconv.Atoi
pub record Codec : Type 0 where
  pub create : List ℕ → Decoded CreateRequest
  pub password : List ℕ → Decoded String
  pub hostname : List ℕ → Decoded String
  pub rebuild : List ℕ → Decoded RebuildRequest
  pub flavor : List ℕ → Decoded String
  pub snapshot : List ℕ → Decoded (String × String)
  pub quota : List ℕ → Decoded ℤ
  pub atoi : String → Option ℤ

-- the values that are encoded
pub data Reply : Type 0 where
  failure : ApiError → Reply
  job_accepted one_job : Job → Reply
  one_vm : Vm → Reply
  vm_page : ListResult → Reply
  vm_status : StatusInfo → Reply
  vm_stats : StatsInfo → Reply
  vm_traffic : TrafficInfo → Reply
  snapshots : List SnapshotInfo → Reply
  host_capacity : HostReport → Reply
  flavors : List Flavor → Reply
  images : List Image → Reply
  console_token : String → Ticket → Reply
  proxied : Ticket → Reply
  live ready unavailable version : Reply

pub record Response : Type 0 where
  pub status : ℕ
  pub location : Option String
  pub reply : Reply

-- writeJSON(w, http.StatusOK, v)
abbrev pub ok_response : Reply → Response
ok_response reply = record { status = 200; location = none; reply = reply }

-- writeError of an APIError
unfoldable pub error_response : ApiError → Response
error_response e = record { status = e.status; location = none; reply = failure e }

-- w.Header().Set("Location", "/v1/jobs/"+j.ID); writeJSON(w, http.StatusAccepted, acceptedJob(j))
unfoldable pub accepted_response : Job → Response
accepted_response j = record {
  status = 202;
  location = some (str_append "/v1/jobs/" j.id);
  reply = job_accepted j;
}

module _ {H A : Type 0} where
  abbrev pub at_queue : Exec (Queue H) A → Exec (Site H) A
  at_queue m s = ((m s.queue).0, record s { queue = (m s.queue).1 })

  abbrev pub at_node : Exec (Node H) A → Exec (Site H) A
  at_node m = at_queue (on_node m)

  -- a call that reads the node and lastStats
  abbrev pub at_samples : Exec (Node H × (String → Option StatsSample)) A → Exec (Site H) A
  at_samples m s =
      let after = m (s.queue.node, s.last_stats) in
      (after.0, record s { queue = record (s.queue) { node = after.1.0 }; last_stats = after.1.1 })
