-- ===== src/Vm/Traffic.antt =====
-- Traffic accounting and the network block: internal/vm/traffic.go.
pub mod Quota
pub mod Counters
use kite_kvm.Prelude.{
  Bool, List, Option, String, [], false, if◌then◌else◌, leb, ltb, none, not, ok, some, str_eq, true,
  vm_terminated, ℕ, ◌%◌, ◌&&◌, ◌+◌, ◌-◌, ◌==◌, ◌^◌, ◌||◌, ◌∷◌, invalid_request, ℤ, pos, negsuc,
}
use kite_kvm.Prelude.Effects.{Exec, attempt, pure, raise, ◌>>=◌, ◌>>◌}
use kite_kvm.Model.{BlockReason, Vm, is_quota, is_terminated}
use kite_kvm.Store.Vms.{get_vm, list_vms, update_vm}
use kite_kvm.Libvirt.{DomainStats}
use kite_kvm.Node.{NetCounters, Node, on_db, on_host}
use kite_kvm.Vm.{Env, gib_bytes, load_operable}
use kite_kvm.Vm.Links.{apply_link}

-- resetAwareDelta
unfoldable pub reset_aware_delta : ℕ → ℕ → ℕ
reset_aware_delta prev cur = if ltb cur prev then cur else cur - prev

abbrev pub blocked_for : BlockReason → Vm → Vm
blocked_for reason v = record v { network_blocked = true; network_block_reason = reason }

abbrev pub unblocked : Vm → Vm
unblocked v = record v { network_blocked = false; network_block_reason = BlockReason.unset }

abbrev pub has_quota_block : Vm → Bool
has_quota_block v = v.network_blocked && is_quota v.network_block_reason

-- reconcileQuota: the new record, if the block changes
unfoldable pub quota_change : Vm → Option Vm
quota_change v =
    let over = leb v.traffic_quota_bytes v.traffic_used_bytes in
    if is_terminated v.status
    then none
    else if v.traffic_quota_bytes == 0
    then if has_quota_block v then some (unblocked v) else none
    else if over && not v.network_blocked
    then some (blocked_for BlockReason.quota v)
    else if not over && has_quota_block v
    then some (unblocked v)
    else none

-- if delta > 0 { v.TrafficUsedBytes += delta }, on uint64
abbrev pub add_traffic : ℕ → Vm → Vm
add_traffic delta v =
    if delta == 0
    then v
    else record v { traffic_used_bytes = (v.traffic_used_bytes + delta) % 2 ^ 64 }

-- the map `trafficLast`
unfoldable pub last_counters : String → List (String × NetCounters) → Option NetCounters
last_counters name [] = none
last_counters name ((k, c) ∷ m) = if str_eq k name then some c else last_counters name m

unfoldable pub forget_counters : String → List (String × NetCounters) → List (String × NetCounters)
forget_counters name [] = []
forget_counters name ((k, c) ∷ m) =
    let rest = forget_counters name m in if str_eq k name then rest else (k, c) ∷ rest

-- byDomain: a later entry of a name replaces an earlier one
unfoldable pub stats_of : String → List DomainStats → Option DomainStats
stats_of name [] = none
stats_of name (st ∷ stats) = elim (stats_of name stats) [
  | some later ↦ some later
  | none ↦ if str_eq st.name name then some st else none
]

-- The bytes since the last sample, on uint64. The first sighting only sets the baseline.
unfoldable pub traffic_delta : Option NetCounters → DomainStats → ℕ
unfolding reset_aware_delta
traffic_delta none st = 0
traffic_delta (some prev) st =
    (reset_aware_delta prev.rx st.net_rx_bytes + reset_aware_delta prev.tx st.net_tx_bytes) % 2 ^ 64

abbrev pub is_changed : Option Vm → Bool
is_changed none = false
is_changed (some v) = true

module _ {H : Type 0} (env : Env H) where
  -- reconcileQuota, with the link set where the block changes
  unfoldable pub reconcile_quota : Vm → Node H → Vm × Node H
  reconcile_quota v n = elim (quota_change v) [
    | none ↦ (v, n)
    | some v' ↦ (v', (apply_link env v' n).1)
  ]

  abbrev pub reconciled : Vm → Exec (Node H) Vm
  reconciled v n = (ok (reconcile_quota v n).0, (reconcile_quota v n).1)

  -- SetTrafficQuota; the answer's TrafficInfo is read off the record
  unfoldable pub set_traffic_quota : String → ℤ → Exec (Node H) Vm
  set_traffic_quota id (negsuc k) = raise invalid_request
  set_traffic_quota id (pos quota_gb) = do
    v ← load_operable id
    v' ← reconciled (record v { traffic_quota_bytes = gib_bytes quota_gb })
    on_db (update_vm v')
    pure v'

  unfoldable pub run_net_block : String → Exec (Node H) (Unit {0})
  run_net_block id = do
    v ← on_db (get_vm id)
    let v' = blocked_for BlockReason.manual v
    _ ← attempt (apply_link env v')
    on_db (update_vm v')

  unfoldable pub run_net_unblock : String → Exec (Node H) (Unit {0})
  run_net_unblock id = do
    v ← on_db (get_vm id)
    let v' = unblocked v
    _ ← attempt (apply_link env v')
    on_db (update_vm v')

  -- the record of a VM whose period starts
  abbrev pub after_reset : ℕ → Vm → Vm
  after_reset now v =
      let zeroed = record v { traffic_used_bytes = 0; traffic_period_start = now } in
      if has_quota_block v then unblocked zeroed else zeroed

  unfoldable pub run_traffic_reset : String → Exec (Node H) (Unit {0})
  run_traffic_reset id = do
    v ← on_db (get_vm id)
    now ← λ n. (ok n.db.clock, n)
    let v' = after_reset now v
    _ ← if has_quota_block v then attempt (apply_link env v') else pure (ok tt)
    _ ← λ n. (ok tt, record n { traffic_last = forget_counters v.domain_name n.traffic_last })
    on_db (update_vm v')

  -- the bytes of one VM since the last sample, and its new baseline
  unfoldable pub sample : List DomainStats → Vm → Node H → ℕ × Node H
  sample stats v n = elim (stats_of v.domain_name stats) [
    | none ↦ (0, n)
    | some st ↦
        let now : NetCounters = record { rx = st.net_rx_bytes; tx = st.net_tx_bytes } in
        (
          traffic_delta (last_counters v.domain_name n.traffic_last) st,
          record n {
            traffic_last = (v.domain_name, now) ∷ forget_counters v.domain_name n.traffic_last;
          },
        )
  ]

  -- one round of the loop of accountTick
  unfoldable pub account_vm : List DomainStats → Vm → Node H → Node H
  account_vm stats v n =
      let sampled = sample stats v n in
      let counted = add_traffic sampled.0 v in
      let settled = reconcile_quota counted sampled.1 in
      let changed = not (sampled.0 == 0) || is_changed (quota_change counted) in
      if is_terminated v.status
      then n
      else if changed
      then (on_db (update_vm settled.0) settled.1).1
      else settled.1

  unfoldable pub account_all : List DomainStats → List Vm → Node H → Node H
  account_all stats [] n = n
  account_all stats (v ∷ vms) n = account_all stats vms (account_vm stats v n)

  -- accountTick
  unfoldable pub account_tick : Exec (Node H) (Unit {0})
  account_tick = do
    stats ← on_host env.conn.all_domain_stats
    vms ← on_db list_vms
    λ n. (ok tt, account_all stats vms n)
