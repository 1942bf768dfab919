-- ===== src/Node.antt =====
-- The state that a job changes: the database, the host, and the traffic counters that
-- `vm.Service` keeps in memory (`trafficLast`).
use kite_kvm.Prelude.{List, String, ℕ}
use kite_kvm.Prelude.Effects.{Exec}
use kite_kvm.Store.Db.{Db}

-- netCounters of internal/vm/traffic.go
pub record NetCounters : Type 0 where
  pub rx : ℕ
  pub tx : ℕ

pub record Node (H : Type 0) : Type 0 where
  pub db : Db
  pub host : H
  pub traffic_last : List (String × NetCounters)

module _ {H A : Type 0} where
  -- a call of the store
  abbrev pub on_db : Exec Db A → Exec (Node H) A
  on_db m n = ((m n.db).0, record n { db = (m n.db).1 })

  -- a call of libvirt or of the file system
  abbrev pub on_host : Exec H A → Exec (Node H) A
  on_host m n = ((m n.host).0, record n { host = (m n.host).1 })
