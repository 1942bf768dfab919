-- ===== src/Store/Ips/Ownership.antt =====
-- Any sequence of allocations and releases, by any VMs, in any order: an address is held by one VM
-- at a time, from its allocation to the VM's release.
use kite_kvm.Prelude.{
  Bool, Distinct, List, String, [], arith, contains, eq_iff, false, str_eq, true, ◌&&◌, ◌++◌, ◌||◌,
  ◌∷◌, ◌≡◌, All, Bool-cases, inl, inr, ok, refl, ◌≢◌, Result, err,
}
use kite_kvm.Model.{IpAllocation}
use kite_kvm.Store.Db.{Db}
use kite_kvm.Store.Ips.Allocation.{
  IsUnique, allocate_ip-IsUnique, allocate_ip-err, allocate_ip-ok, allocate_ip-taken_ips, new_row,
  release_ip_by_vm-IsUnique,
}
use kite_kvm.Store.Ips.{allocate_ip, release_ip_by_vm, taken_ips, without_vm}

-- a transaction on the table, as one of the workers makes it
pub data IpOp : Type 0 where
  allocate : String → String → String → List String → IpOp
  release : String → IpOp

unfoldable pub ip_op : IpOp → Db → Db
ip_op (allocate network vm mac candidates) db = (allocate_ip network vm mac candidates db).1
ip_op (release vm) db = (release_ip_by_vm vm db).1

unfoldable pub ip_ops : List IpOp → Db → Db
ip_ops [] db = db
ip_ops (op ∷ ops) db = ip_ops ops (ip_op op db)

-- the row of an address: this VM holds it in this network
unfoldable pub holds : String → String → String → List IpAllocation → Bool
holds network ip vm [] = false
holds network ip vm (r ∷ rows) =
    (str_eq r.network_id network && str_eq r.ip ip && str_eq r.vm_id vm) || holds network ip vm rows

abbrev pub is_release_of : String → IpOp → Bool
is_release_of vm (allocate network owner mac candidates) = false
is_release_of vm (release owner) = str_eq owner vm

holds-append :
    (network ip vm : String) (rows : List IpAllocation) (r : IpAllocation)
    → holds network ip vm rows ≡ true
    → holds network ip vm (rows ++ r ∷ []) ≡ true
unfolding holds
holds-append network ip vm [] r h = cc
holds-append network ip vm (x ∷ rows) r h = ground (arith, holds-append network ip vm rows r)

holds_new :
    (r : IpAllocation) (rows : List IpAllocation)
    → holds r.network_id r.ip r.vm_id (rows ++ r ∷ []) ≡ true
unfolding holds
holds_new r [] =
    ground (arith, eq_iff r.network_id r.network_id, eq_iff r.ip r.ip, eq_iff r.vm_id r.vm_id)
holds_new r (x ∷ rows) = ground (arith, holds_new r rows)

holds-without_vm :
    (network ip vm owner : String) (rows : List IpAllocation)
    → str_eq owner vm ≡ false
    → holds network ip vm rows ≡ true
    → holds network ip vm (without_vm owner rows) ≡ true
unfolding holds without_vm
holds-without_vm network ip vm owner [] d h = cc
holds-without_vm network ip vm owner (r ∷ rows) d h = ground (
  arith,
  holds-without_vm network ip vm owner rows d,
  eq_iff r.vm_id owner,
  eq_iff r.vm_id vm,
  eq_iff owner vm,
)

-- what a VM holds is taken
holds-contains :
    (network ip vm : String) (rows : List IpAllocation)
    → holds network ip vm rows ≡ true
    → contains ip (taken_ips network rows) ≡ true
unfolding holds taken_ips contains
holds-contains network ip vm [] h = cc
holds-contains network ip vm (r ∷ rows) h = ground (arith, holds-contains network ip vm rows)

-- an address that is listed once has one owner
holds_one :
    (network ip vm owner : String) (rows : List IpAllocation)
    → Distinct (taken_ips network rows)
    → holds network ip vm rows ≡ true
    → holds network ip owner rows ≡ true
    → vm ≡ owner
unfolding holds taken_ips
holds_one network ip vm owner [] d h k = cc
holds_one network ip vm owner (r ∷ rows) d h k = elim (Bool-cases (str_eq r.network_id network)) [
  | inr elsewhere ↦
      holds_one network ip vm owner rows (rw elsewhere at d) (ground (arith, elsewhere, h))
        (ground (arith, elsewhere, k))
  | inl here ↦
      let split : Distinct (r.ip ∷ taken_ips network rows) = rw here at d in
      elim (Bool-cases (str_eq r.ip ip)) [
        | inl same ↦
            let at_ip : r.ip ≡ ip = (eq_iff r.ip ip).0 same in
            let absent : contains ip (taken_ips network rows) ≡ false = rw at_ip at (split.0) in
            let mine = holds-contains network ip vm rows in
            let theirs = holds-contains network ip owner rows in
            ground (
              arith,
              here,
              same,
              h,
              k,
              absent,
              mine,
              theirs,
              eq_iff r.vm_id vm,
              eq_iff r.vm_id owner,
            )
        | inr differs ↦
            holds_one network ip vm owner rows split.1 (ground (arith, here, differs, h))
              (ground (arith, here, differs, k))
      ]
]

ip_op-IsUnique :
    (op : IpOp) (db : Db) → IsUnique db.ip_allocations → IsUnique (ip_op op db).ip_allocations
unfolding ip_op
ip_op-IsUnique (allocate network vm mac candidates) db u =
    allocate_ip-IsUnique network vm mac candidates db u
ip_op-IsUnique (release vm) db u = release_ip_by_vm-IsUnique vm db u

pub ip_ops-IsUnique :
    (ops : List IpOp) (db : Db)
    → IsUnique db.ip_allocations
    → IsUnique (ip_ops ops db).ip_allocations
unfolding ip_ops
ip_ops-IsUnique [] db u = u
ip_ops-IsUnique (op ∷ ops) db u = ip_ops-IsUnique ops (ip_op op db) (ip_op-IsUnique op db u)

-- From a table with no address twice, whatever allocations and releases are carried out or fail,
-- in any order, two VMs that hold one address of a network are one VM.
pub ip_ops-exclusive :
    (ops : List IpOp) (db : Db) (network ip vm owner : String)
    → IsUnique db.ip_allocations
    → holds network ip vm (ip_ops ops db).ip_allocations ≡ true
    → holds network ip owner (ip_ops ops db).ip_allocations ≡ true
    → vm ≡ owner
ip_ops-exclusive ops db network ip vm owner u =
    holds_one network ip vm owner (ip_ops ops db).ip_allocations (ip_ops-IsUnique ops db u network)

allocate_ip-keeps :
    (n owner mac network ip vm : String) (candidates : List String) (db : Db)
    → holds network ip vm db.ip_allocations ≡ true
    → holds network ip vm (allocate_ip n owner mac candidates db).1.ip_allocations ≡ true
allocate_ip-keeps n owner mac network ip vm candidates db h =
    go ((allocate_ip n owner mac candidates db).0) refl
  where
    go :
        (r : Result String)
        → (allocate_ip n owner mac candidates db).0 ≡ r
        → holds network ip vm (allocate_ip n owner mac candidates db).1.ip_allocations ≡ true
    go (err e) k = rw (allocate_ip-err n owner mac candidates db e k) h
    go (ok new) k =
        rw ((allocate_ip-ok n owner mac candidates db new k).1)
          (holds-append network ip vm db.ip_allocations (new_row n owner mac new db) h)

ip_op-holds :
    (op : IpOp) (db : Db) (network ip vm : String)
    → is_release_of vm op ≡ false
    → holds network ip vm db.ip_allocations ≡ true
    → holds network ip vm (ip_op op db).ip_allocations ≡ true
unfolding ip_op release_ip_by_vm
ip_op-holds (allocate n owner mac candidates) db network ip vm kept h =
    allocate_ip-keeps n owner mac network ip vm candidates db h
ip_op-holds (release owner) db network ip vm kept h =
    ground (arith, holds-without_vm network ip vm owner db.ip_allocations kept h)

ip_ops-holds :
    (ops : List IpOp) (db : Db) (network ip vm : String)
    → All (λ op. is_release_of vm op ≡ false) ops
    → holds network ip vm db.ip_allocations ≡ true
    → holds network ip vm (ip_ops ops db).ip_allocations ≡ true
unfolding ip_ops
ip_ops-holds [] db network ip vm kept h = h
ip_ops-holds (op ∷ ops) db network ip vm kept h =
    ip_ops-holds ops (ip_op op db) network ip vm kept.1 (ip_op-holds op db network ip vm kept.0 h)

allocate_ip-holds :
    (network vm mac ip : String) (candidates : List String) (db : Db)
    → (allocate_ip network vm mac candidates db).0 ≡ ok ip
    → holds network ip vm (allocate_ip network vm mac candidates db).1.ip_allocations ≡ true
allocate_ip-holds network vm mac ip candidates db h =
    rw ((allocate_ip-ok network vm mac candidates db ip h).1)
      (holds_new (new_row network vm mac ip db) db.ip_allocations)

-- From the moment that a VM is given an address, and for as long as the VM is not released, no
-- allocation in that network returns the address, whatever other VMs allocate and release.
pub allocate_ip-never_twice :
    (network vm mac ip owner mac' ip' : String) (candidates candidates' : List String)
    (ops : List IpOp) (db : Db)
    → (allocate_ip network vm mac candidates db).0 ≡ ok ip
    → All (λ op. is_release_of vm op ≡ false) ops
    → let after = ip_ops ops (allocate_ip network vm mac candidates db).1 in
      (allocate_ip network owner mac' candidates' after).0 ≡ ok ip' → ip' ≢ ip
allocate_ip-never_twice network vm mac ip owner mac' ip' candidates candidates' ops db h kept k
      same =
    let after = ip_ops ops (allocate_ip network vm mac candidates db).1 in
    let held =
      ip_ops-holds ops (allocate_ip network vm mac candidates db).1 network ip vm kept
        (allocate_ip-holds network vm mac ip candidates db h) in
    let taken = holds-contains network ip vm after.ip_allocations held in
    let free = (allocate_ip-taken_ips network owner mac' candidates' after ip' k).1 in
    cc (taken, free, same)

unreleased :
    (vm network ip : String) (rows : List IpAllocation)
    → holds network ip vm (without_vm vm rows) ≡ false
unfolding holds without_vm
unreleased vm network ip [] = refl
unreleased vm network ip (r ∷ rows) = ground (arith, unreleased vm network ip rows)

-- A release that is carried out leaves the VM no address in any network, and takes none from
-- another VM.
pub release_ip_by_vm-holds :
    (vm owner network ip : String) (db : Db)
    → (release_ip_by_vm vm db).0 ≡ ok tt
    → (holds network ip vm (release_ip_by_vm vm db).1.ip_allocations ≡ false)
      × (str_eq vm owner ≡ false
          → holds network ip owner db.ip_allocations ≡ true
          → holds network ip owner (release_ip_by_vm vm db).1.ip_allocations ≡ true)
unfolding release_ip_by_vm
release_ip_by_vm-holds vm owner network ip db h = (
  ground (arith, unreleased vm network ip db.ip_allocations),
  λ d k. ground (arith, holds-without_vm network ip owner vm db.ip_allocations d k),
)
