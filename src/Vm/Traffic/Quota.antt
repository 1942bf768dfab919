-- ===== src/Vm/Traffic/Quota.antt =====
-- What reconcileQuota of internal/vm/traffic.go makes of a VM's network block.
use kite_kvm.Node.{Node}
use kite_kvm.Vm.Traffic.{quota_change}
use kite_kvm.Model.{Vm, is_quota}
use kite_kvm.Prelude.{Bool, leb, none, not, some, ◌&&◌, ◌==◌}

-- there is a quota, and it is used up
abbrev pub is_exhausted : Vm → Bool
is_exhausted v = not (v.traffic_quota_bytes == 0) && leb v.traffic_quota_bytes v.traffic_used_bytes

-- a block that the accountant does not lift
abbrev pub has_other_block : Vm → Bool
has_other_block v = v.network_blocked && not (is_quota v.network_block_reason)

unfoldable pub settled_vm : Vm → Vm
unfolding quota_change
settled_vm v = elim (quota_change v) [ none ↦ v | some v' ↦ v' ]
