-- ===== src/Store/Ips/Allocation.antt =====
-- What `AllocateIP` and `ReleaseIPByVM` do to the addresses of a network.
use kite_kvm.Prelude.{
  Distinct, List, String, [], arith, contains, eq_iff, false, if◌then◌else◌, none, ok, some, str_eq,
  true, ◌++◌, ◌∷◌, ◌≡◌, Bool-cases, Distinct-append, Error, Result, err, inl, inr, no_ip_available,
  refl,
}
use kite_kvm.Model.{IpAllocation}
use kite_kvm.Store.Db.{Db, next_fails}
use kite_kvm.Store.Ips.{allocate_ip, first_free, taken_ips, without_vm, release_ip_by_vm}

-- no address of a network is allocated twice: the primary key (network_id, ip)
abbrev pub IsUnique : List IpAllocation → Type 0
IsUnique rows = (network : String) → Distinct (taken_ips network rows)

taken_ips-append :
    (network : String) (rows : List IpAllocation) (r : IpAllocation)
    → taken_ips network (rows ++ r ∷ []) ≡ (
        if str_eq r.network_id network
        then taken_ips network rows ++ r.ip ∷ []
        else taken_ips network rows)
unfolding taken_ips
taken_ips-append network [] r = ground arith
taken_ips-append network (x ∷ rows) r = ground (arith, taken_ips-append network rows r)

-- what `first_free` finds
first_free_lem :
    (taken candidates : List String) (ip : String)
    → first_free taken candidates ≡ some ip
    → (contains ip taken ≡ false) × (contains ip candidates ≡ true)
unfolding first_free contains
first_free_lem taken [] ip h = cc
first_free_lem taken (c ∷ candidates) ip h =
    ground (arith, first_free_lem taken candidates ip, eq_iff c ip, eq_iff ip ip)

first_free-none :
    (taken candidates : List String) (ip : String)
    → first_free taken candidates ≡ none
    → contains ip candidates ≡ true
    → contains ip taken ≡ true
unfolding first_free contains
first_free-none taken [] ip h m = cc
first_free-none taken (c ∷ candidates) ip h m =
    ground (arith, first_free-none taken candidates ip, eq_iff c ip)

-- the row that an allocation adds
abbrev pub new_row : String → String → String → String → Db → IpAllocation
new_row network vm mac ip db = record {
  network_id = network;
  ip = ip;
  vm_id = vm;
  mac = mac;
  created_at = db.clock;
}

module _ (network vm mac : String) (candidates : List String) (db : Db) where
  abbrev pub allocated : Db
  allocated = (allocate_ip network vm mac candidates db).1

  pub allocate_ip-ok :
      (ip : String)
      → (allocate_ip network vm mac candidates db).0 ≡ ok ip
      → (first_free (taken_ips network db.ip_allocations) candidates ≡ some ip)
        × (allocated.ip_allocations ≡ db.ip_allocations ++ new_row network vm mac ip db ∷ [])
  unfolding allocate_ip
  allocate_ip-ok ip h = ground arith

  pub allocate_ip-err :
      (e : Error)
      → (allocate_ip network vm mac candidates db).0 ≡ err e
      → allocated.ip_allocations ≡ db.ip_allocations
  unfolding allocate_ip
  allocate_ip-err e h = ground arith

  -- An allocation that succeeds returns a candidate that was free in its network, and from then on
  -- the network's addresses are the old ones and that one; those of the other networks stay.
  pub allocate_ip-taken_ips :
      (ip : String)
      → (allocate_ip network vm mac candidates db).0 ≡ ok ip
      → (contains ip candidates ≡ true)
        × (contains ip (taken_ips network db.ip_allocations) ≡ false)
        × ((other_network : String)
            → taken_ips other_network allocated.ip_allocations ≡ (
                if str_eq network other_network
                then taken_ips other_network db.ip_allocations ++ ip ∷ []
                else taken_ips other_network db.ip_allocations))
  allocate_ip-taken_ips ip h =
      let (found, rows) = allocate_ip-ok ip h in
      let (free, offered) =
        first_free_lem (taken_ips network db.ip_allocations) candidates ip found in
      (
        offered,
        free,
        λ n. rw rows (taken_ips-append n db.ip_allocations (new_row network vm mac ip db)),
      )

  -- An allocation is refused for want of an address only if every candidate is taken.
  pub allocate_ip-no_ip_available :
      (ip : String)
      → (allocate_ip network vm mac candidates db).0 ≡ err no_ip_available
      → contains ip candidates ≡ true
      → contains ip (taken_ips network db.ip_allocations) ≡ true
  unfolding allocate_ip
  allocate_ip-no_ip_available ip h m =
      first_free-none (taken_ips network db.ip_allocations) candidates ip (ground arith) m

  pub allocate_ip-IsUnique : IsUnique db.ip_allocations → IsUnique allocated.ip_allocations
  allocate_ip-IsUnique u n = go ((allocate_ip network vm mac candidates db).0) refl
    where
      go :
          (r : Result String)
          → (allocate_ip network vm mac candidates db).0 ≡ r
          → Distinct (taken_ips n allocated.ip_allocations)
      go (err e) h = rw (allocate_ip-err e h) (u n)
      go (ok ip) h =
          let (offered, free, after) = allocate_ip-taken_ips ip h in
          elim (Bool-cases (str_eq network n)) [
            | inl same ↦
                let at : network ≡ n = (eq_iff network n).0 same in
                rw (after n) (
                  rw same
                    (Distinct-append (taken_ips n db.ip_allocations) ip (u n) (rw at at free)))
            | inr differs ↦ rw (after n) (rw differs (u n))
          ]

-- a deletion leaves a part of the addresses
contains-without_vm :
    (vm network ip : String) (rows : List IpAllocation)
    → contains ip (taken_ips network rows) ≡ false
    → contains ip (taken_ips network (without_vm vm rows)) ≡ false
unfolding taken_ips without_vm contains
contains-without_vm vm network ip [] h = h
contains-without_vm vm network ip (r ∷ rows) h =
    ground (arith, contains-without_vm vm network ip rows)

without_vm-Distinct :
    (vm network : String) (rows : List IpAllocation)
    → Distinct (taken_ips network rows)
    → Distinct (taken_ips network (without_vm vm rows))
unfolding taken_ips without_vm
without_vm-Distinct vm network [] d = d
without_vm-Distinct vm network (r ∷ rows) d = elim (Bool-cases (str_eq r.network_id network)) [
  | inl here ↦
      let split : Distinct (r.ip ∷ taken_ips network rows) = rw here at d in
      let tail = without_vm-Distinct vm network rows split.1 in
      elim (Bool-cases (str_eq r.vm_id vm)) [
        | inl held ↦ rw held tail
        | inr kept ↦ rw kept (rw here (contains-without_vm vm network r.ip rows split.0, tail))
      ]
  | inr elsewhere ↦
      let tail = without_vm-Distinct vm network rows (rw elsewhere at d) in
      elim (Bool-cases (str_eq r.vm_id vm)) [
        | inl held ↦ rw held tail
        | inr kept ↦ rw kept (rw elsewhere tail)
      ]
]

pub release_ip_by_vm-IsUnique :
    (vm : String) (db : Db)
    → IsUnique db.ip_allocations
    → IsUnique (release_ip_by_vm vm db).1.ip_allocations
unfolding release_ip_by_vm
release_ip_by_vm-IsUnique vm db u n = elim (Bool-cases (next_fails db.faults)) [
  | inl broken ↦ rw broken (u n)
  | inr done ↦ rw done (without_vm-Distinct vm n db.ip_allocations (u n))
]
