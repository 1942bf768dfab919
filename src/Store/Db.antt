-- ===== src/Store/Db.antt =====
-- The database of one agent, and what a statement does when it fails.
use kite_kvm.Prelude.{Bool, List, [], db_failed, err, false, if◌then◌else◌, ℕ, ◌∷◌}
use kite_kvm.Prelude.Effects.{Exec}
use kite_kvm.Model.{IdempotencyRecord, IpAllocation, Job, Vm}

-- `clock` is what time.Now() reads. `faults` says of the statements to come which fail (a locked
-- or a full disk, a closed database); after the end of the list none does.
pub record Db : Type 0 where
  pub vms : List Vm
  pub jobs : List Job
  pub idempotency_keys : List IdempotencyRecord
  pub ip_allocations : List IpAllocation
  pub clock : ℕ
  pub faults : List Bool

abbrev pub next_fails : List Bool → Bool
next_fails [] = false
next_fails (b ∷ bs) = b

abbrev pub rest_faults : List Bool → List Bool
rest_faults [] = []
rest_faults (b ∷ bs) = bs

-- a statement, or a transaction: it fails and changes nothing, or is carried out
unfoldable pub statement : {A : Type 0} → Exec Db A → Exec Db A
statement m db =
    let after = record db { faults = rest_faults db.faults } in
    if next_fails db.faults then (err db_failed, after) else m after
