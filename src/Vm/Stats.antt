-- ===== src/Vm/Stats.antt =====
-- internal/vm/stats.go, and the TrafficInfo of internal/vm/traffic.go: what is reported of a VM's
-- use. A float64 is its bits; `last` is the map lastStats, with the time of each sample.
use kite_kvm.Vm.Requests.Listing.{reconcile_power}
use kite_kvm.Vm.Requests.{RequestEnv, vm_or_not_found}
use kite_kvm.Vm.{load_operable}
use kite_kvm.Node.{Node, on_host}
use kite_kvm.Libvirt.{DomainStats, map_power_state, zero_stats}
use kite_kvm.Prelude.Floats.{FloatLib}
use kite_kvm.Prelude.Effects.{Exec, pure, ◌>>=◌}
use kite_kvm.Model.{PowerState, BlockReason, Vm}
use kite_kvm.Prelude.{
  String, Bool, List, Option, [], if◌then◌else◌, ltb, none, not, ok, some, str_eq, ℕ, ◌%◌, ◌-◌, ◌/◌,
  ◌==◌, ◌^◌, ◌||◌, ◌∷◌,
}

-- statsSample
pub record StatsSample : Type 0 where
  pub time : ℕ
  pub stats : DomainStats

pub record StatsInfo : Type 0 where
  pub id : String
  pub power_state : PowerState
  pub usage : DomainStats  -- the counters, copied one by one
  pub interval_seconds : ℕ
  pub cpu_percent : ℕ
  pub net_rx_bps : ℕ
  pub net_tx_bps : ℕ
  pub block_rd_bps : ℕ
  pub block_wr_bps : ℕ

-- the first entry of that name
unfoldable pub first_stats : String → List DomainStats → Option DomainStats
first_stats name [] = none
first_stats name (st ∷ stats) = if str_eq st.name name then some st else first_stats name stats

abbrev pub without_rates : String → PowerState → DomainStats → StatsInfo
without_rates id power usage = record {
  id = id;
  power_state = power;
  usage = usage;
  interval_seconds = 0;
  cpu_percent = 0;
  net_rx_bps = 0;
  net_tx_bps = 0;
  block_rd_bps = 0;
  block_wr_bps = 0;
}

-- lastStats[name] = sample
unfoldable pub put_sample :
    String → StatsSample → (String → Option StatsSample) → String → Option StatsSample
put_sample name sample last key = if str_eq name key then some sample else last key

module _ (f : FloatLib) where
  -- rate
  unfoldable pub rate : ℕ → ℕ → ℕ → ℕ
  rate prev cur elapsed =
      if ltb cur prev || f.leq elapsed 0 then 0 else f.div (f.of_nat (cur - prev)) elapsed

  -- cpuPercent
  unfoldable pub cpu_percent : ℕ → ℕ → ℕ → ℕ → ℕ
  cpu_percent prev_ns cur_ns elapsed vcpus =
      let available = f.mul (f.mul elapsed (f.of_nat (10 ^ 9))) (f.of_nat vcpus) in
      if ltb cur_ns prev_ns || f.leq elapsed 0 || vcpus == 0
      then 0
      else f.mul (f.div (f.of_nat (cur_ns - prev_ns)) available) (f.of_nat 100)

  -- Duration.Seconds, of nanoseconds
  abbrev pub seconds : ℕ → ℕ
  seconds d = f.add (f.of_nat (d / 10 ^ 9)) (f.div (f.of_nat (d % 10 ^ 9)) (f.of_nat (10 ^ 9)))

  -- the part of Stats under `if ok`
  unfoldable pub with_rates : ℕ → ℕ → StatsSample → StatsInfo → StatsInfo
  with_rates now vcpus prev info =
      let elapsed = seconds (now - prev.time) in
      if not (f.less 0 elapsed) then info else record info {
        interval_seconds = elapsed;
        cpu_percent = cpu_percent prev.stats.cpu_time_ns info.usage.cpu_time_ns elapsed vcpus;
        net_rx_bps = rate prev.stats.net_rx_bytes info.usage.net_rx_bytes elapsed;
        net_tx_bps = rate prev.stats.net_tx_bytes info.usage.net_tx_bytes elapsed;
        block_rd_bps = rate prev.stats.block_rd_bytes info.usage.block_rd_bytes elapsed;
        block_wr_bps = rate prev.stats.block_wr_bytes info.usage.block_wr_bytes elapsed;
      }

  abbrev pub with_previous : ℕ → ℕ → Option StatsSample → StatsInfo → StatsInfo
  with_previous now vcpus none info = info
  with_previous now vcpus (some prev) info = with_rates now vcpus prev info

pub record TrafficInfo : Type 0 where
  pub id : String
  pub quota_bytes : ℕ
  pub used_bytes : ℕ
  pub unlimited : Bool
  pub percent : ℕ
  pub period_start : ℕ
  pub blocked : Bool
  pub block_reason : BlockReason

-- trafficInfo
unfoldable pub traffic_info : FloatLib → Vm → TrafficInfo
traffic_info f v = record {
  id = v.id;
  quota_bytes = v.traffic_quota_bytes;
  used_bytes = v.traffic_used_bytes;
  unlimited = v.traffic_quota_bytes == 0;
  percent =
      if v.traffic_quota_bytes == 0
      then 0
      else f.mul (f.div (f.of_nat v.traffic_used_bytes) (f.of_nat v.traffic_quota_bytes))
          (f.of_nat 100);
  period_start = v.traffic_period_start;
  blocked = v.network_blocked;
  block_reason = v.network_block_reason;
}

module _ {H : Type 0} (renv : RequestEnv H) where
  -- the node, and the map lastStats
  abbrev pub Sampled : Type 0
  Sampled = Node H × (String → Option StatsSample)

  abbrev pub on_sampled : {A : Type 0} → Exec (Node H) A → Exec Sampled A
  on_sampled m s = ((m s.0).0, ((m s.0).1, s.1))

  -- what Stats does with the live counters
  unfoldable pub take_sample : Vm → DomainStats → Exec Sampled StatsInfo
  take_sample v cur s =
      let now = s.0.db.clock in
      let info = without_rates v.id (map_power_state cur.state) cur in
      (
        ok (with_previous renv.floats now v.vcpus (s.1 v.domain_name) info),
        (s.0, put_sample v.domain_name (record { time = now; stats = cur }) s.1),
      )

  -- Stats
  unfoldable pub stats_request : String → Exec Sampled StatsInfo
  stats_request id = do
    v ← on_sampled (vm_or_not_found id)
    all ← on_sampled (on_host renv.env.conn.all_domain_stats)
    elim (first_stats v.domain_name all) [
      | none ↦ do
        live ← on_sampled (reconcile_power renv v)
        pure (without_rates live.id live.power_state zero_stats)
      | some cur ↦ take_sample v cur
    ]

  -- TrafficUsage
  unfoldable pub traffic_usage : String → Exec (Node H) TrafficInfo
  traffic_usage id = do v ← load_operable id; pure (traffic_info renv.floats v)
