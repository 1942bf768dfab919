-- ===== src/Vm/Provisioning/GivesUp.antt =====
-- Methods that give a VM up when they fail, and how they are composed.
use kite_kvm.Model.{Vm, VmStatus}
use kite_kvm.Prelude.{
  Error, Result-cases, String, [], ap, err, false, inl, inr, ok, refl, some, sym, ◌∙◌, ◌≡◌,
}
use kite_kvm.Prelude.Effects.{Exec, ◌>>=◌}
use kite_kvm.Store.Vms.{vm_row}
use kite_kvm.Store.Ips.Ownership.{holds}
use kite_kvm.Node.{Node}

-- the VM's record is marked as an error, and the VM holds no address
abbrev pub IsGivenUp : {H : Type 0} → String → Node H → Type 0
IsGivenUp id n =
    (row : Vm) × (vm_row id n.db ≡ some row)
    × (row.status ≡ VmStatus.error)
    × ((network ip : String) → holds network ip id n.db.ip_allocations ≡ false)

-- the VM has a row, in a database that does not fail
abbrev pub IsStored : {H : Type 0} → String → Node H → Type 0
IsStored id n = (n.db.faults ≡ []) × (old : Vm) × (vm_row id n.db ≡ some old)

module _ {H : Type 0} where
  -- a method that gives the VM up when it fails on this node
  pub record GivesUp {A : Type 0} (id : String) (m : Exec (Node H) A) (n : Node H) : Type 0 where
    pub given_up : (e : Error) → (m n).0 ≡ err e → IsGivenUp id (m n).1

  module _ {A B : Type 0} where
    pub bind-known :
        (m : Exec (Node H) A) (f : A → Exec (Node H) B) (n after : Node H) (a : A)
        → m n ≡ (ok a, after)
        → (m >>= f) n ≡ f a after
    bind-known m f n after a ran = rw ran refl

    -- a step whose outcome is known
    pub known-GivesUp :
        (m : Exec (Node H) A) (f : A → Exec (Node H) B) {id : String} {n : Node H} (a : A)
        → (m n).0 ≡ ok a
        → GivesUp id (f a) (m n).1
        → GivesUp id (m >>= f) n
    known-GivesUp m f {id} {n} a got rest = record {
      given_up = λ e h.
          let past : (m >>= f) n ≡ f a (m n).1 = rw got refl in
          rw past (rest.given_up e (sym (ap (λ p. p.0) past) ∙ h));
    }

    pub then-GivesUp :
        {m : Exec (Node H) A} (f : A → Exec (Node H) B) {id : String} {n : Node H}
        → GivesUp id m n
        → ((a : A) → (m n).0 ≡ ok a → GivesUp id (f a) (m n).1)
        → GivesUp id (m >>= f) n
    then-GivesUp {m} f {id} {n} first rest = elim (Result-cases ((m n).0)) [
      | inl (x, failed) ↦ record {
        given_up = λ e h.
            let stop : (m >>= f) n ≡ (err x, (m n).1) = rw failed refl in
            rw stop (first.given_up x failed);
      }
      | inr (a, got) ↦ known-GivesUp m f a got (rest a got)
    ]
