-- ===== src/Agent.antt =====
-- cmd/kite-kvm/main.go: what run does with the database and the host before the API is served.
pub mod Start
use kite_kvm.Vm.Dispatch.{reconcile_on_start}
use kite_kvm.Vm.{Env}
use kite_kvm.Job.{Queue, recover}

-- queue.Start and ReconcileOnStart, in the order in which no worker takes up a job between the two
unfoldable pub start_agent : {H : Type 0} → Env H → Queue H → Queue H
start_agent env q =
    let recovered = recover q in
    record recovered { node = (reconcile_on_start env recovered.node).1 }
