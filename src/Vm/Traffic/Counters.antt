-- ===== src/Vm/Traffic/Counters.antt =====
-- What the samples of accountTick in internal/vm/traffic.go add to a VM's traffic.
use kite_kvm.Libvirt.{DomainStats, zero_stats}
use kite_kvm.Node.{NetCounters, Node}
use kite_kvm.Model.{Vm}
use kite_kvm.Vm.Traffic.{add_traffic, sample}
use kite_kvm.Vm.{Env}
use kite_kvm.Prelude.{List, String, [], if◌then◌else◌, ltb, ℕ, ◌%◌, ◌+◌, ◌<◌, ◌^◌, ◌∷◌}

-- What happens to a byte counter between two samples: it goes on and counts `n` bytes; or it counts
-- `lost` bytes, the domain's device is made anew, and it counts `n` from 0.
pub data Interval : Type 0 where
  goes_on : ℕ → Interval
  restarts : ℕ → ℕ → Interval

-- the counter at the next sample, on uint64
abbrev pub next_counter : ℕ → Interval → ℕ
next_counter c (goes_on n) = (c + n) % 2 ^ 64
next_counter c (restarts lost n) = n % 2 ^ 64

-- the counter does not pass 2⁶⁴ in the interval
abbrev pub Fits : ℕ → Interval → Type 0
Fits c (goes_on n) = c + n < 2 ^ 64
Fits c (restarts lost n) = n < 2 ^ 64

abbrev pub bytes_of : Interval → ℕ
bytes_of (goes_on n) = n
bytes_of (restarts lost n) = lost + n

-- What no sample shows: the bytes before the device was made anew, and as many as the old counter
-- stood at, where the new one has already reached that.
abbrev pub unseen_of : ℕ → Interval → ℕ
unseen_of c (goes_on n) = 0
unseen_of c (restarts lost n) = lost + (if ltb n c then 0 else c)

-- the two counters of a VM between two samples: received and sent
abbrev pub Span : Type 0
Span = Interval × Interval

abbrev pub moved : NetCounters → Span → NetCounters
moved c i = record { rx = next_counter c.rx i.0; tx = next_counter c.tx i.1 }

abbrev pub AllFit : NetCounters → List Span → Type 0
AllFit c [] = Unit
AllFit c (i ∷ is) = Fits c.rx i.0 × Fits c.tx i.1 × AllFit (moved c i) is

-- the bytes that went through the VM's devices
abbrev pub transferred : List Span → ℕ
transferred [] = 0
transferred (i ∷ is) = bytes_of i.0 + bytes_of i.1 + transferred is

abbrev pub unseen : NetCounters → List Span → ℕ
unseen c [] = 0
unseen c (i ∷ is) = unseen_of c.rx i.0 + unseen_of c.tx i.1 + unseen (moved c i) is

abbrev pub stats_at : String → NetCounters → DomainStats
stats_at name c = record zero_stats { name = name; net_rx_bytes = c.rx; net_tx_bytes = c.tx }

module _ {H : Type 0} (env : Env H) where
  -- The rounds of accountTick for one VM: the domain's statistics are sampled, and what they add is
  -- added to the record.
  unfoldable pub metered : List Span → NetCounters → Vm → Node H → Vm × Node H
  metered [] c v n = (v, n)
  metered (i ∷ is) c v n =
      let sampled = sample env (stats_at v.domain_name (moved c i) ∷ []) v n in
      metered is (moved c i) (add_traffic sampled.0 v) sampled.1
