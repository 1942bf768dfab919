-- ===== src/Examples/Store.antt =====
-- The tables at concrete rows.
use kite_kvm.Prelude.Texts.{text_ltb}
use kite_kvm.Prelude.{
  List, String, [], contains, err, false, if◌then◌else◌, no_ip_available, ok, refl, str_eq, true,
  ◌++◌, ◌∷◌, ◌≡◌, ◌≢◌,
}
use kite_kvm.Store.Db.{Db}
use kite_kvm.Store.Ips.{allocate_ip, first_free, release_ip_by_vm, taken_ips, without_vm}
use kite_kvm.Store.Ips.Allocation.{
  IsUnique, allocate_ip-no_ip_available, allocate_ip-taken_ips, allocated,
}
use kite_kvm.Store.Ips.Ownership.{
  IpOp, allocate, allocate_ip-never_twice, holds, ip_op, ip_ops, ip_ops-exclusive, release,
  release_ip_by_vm-holds,
}

abbrev empty_db : Db
empty_db = record {
  vms = [];
  jobs = [];
  idempotency_keys = [];
  ip_allocations = [];
  clock = 1000;
  faults = [];
}

abbrev hosts : List String
hosts = "10.0.0.2" ∷ "10.0.0.3" ∷ []

first_ip : (allocate_ip "nat" "vm1" "m1" hosts empty_db).0 ≡ ok "10.0.0.2"
unfolding allocate_ip taken_ips first_free contains
first_ip = refl

abbrev one_taken : Db
one_taken = (allocate_ip "nat" "vm1" "m1" hosts empty_db).1

second_ip : (allocate_ip "nat" "vm2" "m2" hosts one_taken).0 ≡ ok "10.0.0.3"
unfolding allocate_ip taken_ips first_free contains
second_ip = refl

full_net : (allocate_ip "nat" "vm2" "m2" ("10.0.0.2" ∷ []) one_taken).0 ≡ err no_ip_available
unfolding allocate_ip taken_ips first_free contains
full_net = refl

allocate_ip-taken_ips_example :
    (contains "10.0.0.3" hosts ≡ true)
    × (contains "10.0.0.3" (taken_ips "nat" one_taken.ip_allocations) ≡ false)
    × ((network : String)
        → taken_ips network (allocated "nat" "vm2" "m2" hosts one_taken).ip_allocations ≡ (
            if str_eq "nat" network
            then taken_ips network one_taken.ip_allocations ++ "10.0.0.3" ∷ []
            else taken_ips network one_taken.ip_allocations))
allocate_ip-taken_ips_example =
    allocate_ip-taken_ips "nat" "vm2" "m2" hosts one_taken "10.0.0.3" second_ip

in_full_net : contains "10.0.0.2" ("10.0.0.2" ∷ []) ≡ true
unfolding contains
in_full_net = refl

allocate_ip-no_ip_available_example :
    contains "10.0.0.2" (taken_ips "nat" one_taken.ip_allocations) ≡ true
allocate_ip-no_ip_available_example =
    allocate_ip-no_ip_available "nat" "vm2" "m2" ("10.0.0.2" ∷ []) one_taken "10.0.0.2" full_net
      in_full_net

no_rows : IsUnique empty_db.ip_allocations
unfolding taken_ips
no_rows network = tt

abbrev traffic : List IpOp
traffic = allocate "nat" "vm1" "m1" hosts ∷ allocate "nat" "vm2" "m2" hosts ∷ release "vm1" ∷ []

vm2_holds : holds "nat" "10.0.0.3" "vm2" (ip_ops traffic empty_db).ip_allocations ≡ true
unfolding ip_ops ip_op holds allocate_ip release_ip_by_vm without_vm taken_ips first_free contains
vm2_holds = refl

ip_ops-exclusive_example : ◌≡◌ {A = String} "vm2" "vm2"
ip_ops-exclusive_example =
    ip_ops-exclusive traffic empty_db "nat" "10.0.0.3" "vm2" "vm2" no_rows vm2_holds vm2_holds

abbrev others : List IpOp
others = allocate "nat" "vm3" "m3" hosts ∷ release "vm3" ∷ []

again : (allocate_ip "nat" "vm2" "m2" hosts (ip_ops others one_taken)).0 ≡ ok "10.0.0.3"
unfolding ip_ops ip_op allocate_ip release_ip_by_vm without_vm taken_ips first_free contains
again = refl

allocate_ip-never_twice_example : ◌≢◌ {A = String} "10.0.0.3" "10.0.0.2"
allocate_ip-never_twice_example =
    allocate_ip-never_twice "nat" "vm1" "m1" "10.0.0.2" "vm2" "m2" "10.0.0.3" hosts hosts others
      empty_db first_ip (refl, (refl, tt)) again

released : (release_ip_by_vm "vm1" one_taken).0 ≡ ok tt
unfolding release_ip_by_vm allocate_ip first_free contains taken_ips
released = refl

release_ip_by_vm-holds_example :
    (holds "nat" "10.0.0.2" "vm1" (release_ip_by_vm "vm1" one_taken).1.ip_allocations ≡ false)
    × (str_eq "vm1" "vm2" ≡ false
        → holds "nat" "10.0.0.2" "vm2" one_taken.ip_allocations ≡ true
        → holds "nat" "10.0.0.2" "vm2" (release_ip_by_vm "vm1" one_taken).1.ip_allocations ≡ true)
release_ip_by_vm-holds_example =
    release_ip_by_vm-holds "vm1" "vm2" "nat" "10.0.0.2" one_taken released

-- the order of the texts is not the order of the times
half_second : text_ltb "2026-01-01T00:00:00.5Z" "2026-01-01T00:00:00Z" ≡ true
unfolding text_ltb
half_second = refl
