-- ===== src/Vm/Dispatch/JobsTable.antt =====
-- No runner of internal/vm writes the table `jobs`: that is the queue's alone.
pub mod Runners
pub mod Provision
pub mod RunJob
use mathlib.Core.Path.{subst}
use kite_kvm.Node.{Node, on_db, on_host}
use kite_kvm.Store.Vms.Rows.{
  faults-allocate_ip, faults-get_vm, faults-release_ip_by_vm, faults-update_vm, jobs-allocate_ip,
  jobs-get_vm, jobs-release_ip_by_vm, jobs-update_vm,
}
use kite_kvm.Store.Ips.{allocate_ip, release_ip_by_vm}
use kite_kvm.Store.Vms.{get_vm, update_vm}
use kite_kvm.Model.{Vm}
use kite_kvm.Prelude.Effects.{Exec, attempt, continue, lift, pure, raise, ◌>>=◌}
use kite_kvm.Prelude.{
  String, Bool, Error, List, Result, [], err, false, if◌then◌else◌, ok, refl, true, ◌∙◌, ◌≡◌,
  Option, none, some, sym,
}

module _ {H : Type 0} where
  -- a method that leaves the table `jobs` as it is, and a working database working
  pub record Keeps {A : Type 0} (m : Exec (Node H) A) : Type 0 where
    pub jobs : (n : Node H) → (m n).1.db.jobs ≡ n.db.jobs
    pub faults : (n : Node H) → n.db.faults ≡ [] → (m n).1.db.faults ≡ []

  module _ {A : Type 0} where
    pub pure-Keeps : (a : A) → Keeps (pure a)
    pure-Keeps a = record { jobs = λ n. refl; faults = λ n s. s }

    pub lift-Keeps : (r : Result A) → Keeps (lift r)
    lift-Keeps r = record { jobs = λ n. refl; faults = λ n s. s }

    pub raise-Keeps : (e : Error) → Keeps (raise {A = A} e)
    raise-Keeps e = record { jobs = λ n. refl; faults = λ n s. s }

    pub on_host-Keeps : (m : Exec H A) → Keeps (on_host m)
    on_host-Keeps m = record { jobs = λ n. refl; faults = λ n s. s }

    pub attempt-Keeps : {m : Exec (Node H) A} → Keeps m → Keeps (attempt m)
    attempt-Keeps k = record { jobs = k.jobs; faults = k.faults }

    pub if-Keeps :
        {m m' : Exec (Node H) A} (b : Bool) → Keeps m → Keeps m' → Keeps (if b then m else m')
    if-Keeps true k k' = k
    if-Keeps false k k' = k'

  module _ {A B : Type 0} where
    continue_jobs :
        (r : Result A) (f : A → Exec (Node H) B)
        → ((a : A) → Keeps (f a))
        → (n : Node H) → (continue r f n).1.db.jobs ≡ n.db.jobs
    continue_jobs (ok a) f k n = (k a).jobs n
    continue_jobs (err e) f k n = refl

    continue_faults :
        (r : Result A) (f : A → Exec (Node H) B)
        → ((a : A) → Keeps (f a))
        → (n : Node H) → n.db.faults ≡ []
        → (continue r f n).1.db.faults ≡ []
    continue_faults (ok a) f k n s = (k a).faults n s
    continue_faults (err e) f k n s = s

    pub then-Keeps :
        {m : Exec (Node H) A} {f : A → Exec (Node H) B}
        → Keeps m
        → ((a : A) → Keeps (f a))
        → Keeps (m >>= f)
    then-Keeps {m} {f} k k' = record {
      jobs = λ n. continue_jobs (m n).0 f k' (m n).1 ∙ k.jobs n;
      faults = λ n s. continue_faults (m n).0 f k' (m n).1 (k.faults n s);
    }

    pub option-Keeps :
        {m : Exec (Node H) B} {f : A → Exec (Node H) B} (o : Option A)
        → Keeps m
        → ((a : A) → Keeps (f a))
        → Keeps (elim o [ none ↦ m | some a ↦ f a ])
    option-Keeps none k k' = k
    option-Keeps (some a) k k' = k' a

    pub result-Keeps :
        {m : Error → Exec (Node H) B} {f : A → Exec (Node H) B} (r : Result A)
        → ((e : Error) → Keeps (m e))
        → ((a : A) → Keeps (f a))
        → Keeps (elim r [ err e ↦ m e | ok a ↦ f a ])
    result-Keeps (err e) k k' = k e
    result-Keeps (ok a) k k' = k' a

  module _ {A : Type 0} where
    -- what a step's failure handler makes of its result
    abbrev pub handled : (Error → Exec (Node H) A) → Result A → Exec (Node H) A
    handled h (ok a) n = (ok a, n)
    handled h (err e) n = h e n

    -- the failure handler of a step
    pub handler-Keeps :
        {m m' : Exec (Node H) A} (h : Error → Exec (Node H) A)
        → ((n : Node H) → m' n ≡ handled h (m n).0 (m n).1)
        → Keeps m
        → ((e : Error) → Keeps (h e))
        → Keeps m'
    handler-Keeps {m} h same k k' = record {
      jobs = λ n.
          subst (λ p. p.1.db.jobs ≡ n.db.jobs) (sym (same n))
            ((jobs_of (m n).0 (m n).1) ∙ k.jobs n);
      faults = λ n s.
          subst (λ p. p.1.db.faults ≡ []) (sym (same n)) (faults_of (m n).0 (m n).1 (k.faults n s));
    }
      where
        jobs_of : (r : Result A) (n' : Node H) → (handled h r n').1.db.jobs ≡ n'.db.jobs
        jobs_of (ok a) n' = refl
        jobs_of (err x) n' = (k' x).jobs n'

        faults_of :
            (r : Result A) (n' : Node H) → n'.db.faults ≡ [] → (handled h r n').1.db.faults ≡ []
        faults_of (ok a) n' e = e
        faults_of (err x) n' e = (k' x).faults n' e

  pub get-Keeps : (id : String) → Keeps (on_db (get_vm id))
  get-Keeps id = record { jobs = λ n. jobs-get_vm id n.db; faults = λ n s. faults-get_vm id n.db s }

  pub update-Keeps : (v : Vm) → Keeps (on_db (update_vm v))
  update-Keeps v = record {
    jobs = λ n. jobs-update_vm v n.db;
    faults = λ n s. faults-update_vm v n.db s;
  }

  pub release-Keeps : (vm : String) → Keeps (on_db (release_ip_by_vm vm))
  release-Keeps vm = record {
    jobs = λ n. jobs-release_ip_by_vm vm n.db;
    faults = λ n s. faults-release_ip_by_vm vm n.db s;
  }

  pub allocate-Keeps :
      (network vm mac : String) (candidates : List String)
      → Keeps (on_db (allocate_ip network vm mac candidates))
  allocate-Keeps network vm mac candidates = record {
    jobs = λ n. jobs-allocate_ip network vm mac candidates n.db;
    faults = λ n s. faults-allocate_ip network vm mac candidates n.db s;
  }
