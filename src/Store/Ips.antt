-- ===== src/Store/Ips.antt =====
-- The table `ip_allocations`: AllocateIP, ReleaseIPByVM and AllocatedIPs.
pub mod Allocation
pub mod Ownership
use kite_kvm.Prelude.{
  List, Option, String, [], contains, err, if◌then◌else◌, no_ip_available, none, ok, some, str_eq,
  ◌++◌, ◌∷◌,
}
use kite_kvm.Prelude.Effects.{Exec}
use kite_kvm.Model.{IpAllocation}
use kite_kvm.Store.Db.{Db, statement}

-- SELECT ip FROM ip_allocations WHERE network_id = ?
unfoldable pub taken_ips : String → List IpAllocation → List String
taken_ips network [] = []
taken_ips network (r ∷ rows) =
    let rest = taken_ips network rows in if str_eq r.network_id network then r.ip ∷ rest else rest

-- for _, ip := range candidates: the first that is not taken
unfoldable pub first_free : List String → List String → Option String
first_free taken [] = none
first_free taken (ip ∷ candidates) =
    let rest = first_free taken candidates in if contains ip taken then rest else some ip

-- DELETE FROM ip_allocations WHERE vm_id = ?
unfoldable pub without_vm : String → List IpAllocation → List IpAllocation
without_vm vm [] = []
without_vm vm (r ∷ rows) =
    let rest = without_vm vm rows in if str_eq r.vm_id vm then rest else r ∷ rest

unfoldable pub allocate_ip : String → String → String → List String → Exec Db String
unfolding statement
allocate_ip network vm mac candidates = statement λ db.
    elim (first_free (taken_ips network db.ip_allocations) candidates) [
      | none ↦ (err no_ip_available, db)
      | some ip ↦
          let row : IpAllocation = record {
            network_id = network;
            ip = ip;
            vm_id = vm;
            mac = mac;
            created_at = db.clock;
          } in
          (ok ip, record db { ip_allocations = db.ip_allocations ++ row ∷ [] })
    ]

unfoldable pub release_ip_by_vm : String → Exec Db (Unit {0})
unfolding statement
release_ip_by_vm vm =
    statement λ db. (ok tt, record db { ip_allocations = without_vm vm db.ip_allocations })

unfoldable pub allocated_ips : String → Exec Db (List String)
unfolding statement
allocated_ips network = statement λ db. (ok (taken_ips network db.ip_allocations), db)
