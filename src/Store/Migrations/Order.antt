-- ===== src/Store/Migrations/Order.antt =====
-- The order in which migrate applies its files: that of sort.Slice by the version.
use kite_kvm.Prelude.{All, Bool-cases, List, [], arith, inl, inr, leb, leb→le, ℕ, ◌<◌, ◌∷◌, ◌≢◌}
use kite_kvm.Store.Migrations.{Migration, insert_migration, sort_migrations}

-- the versions ascend, so that none stands twice
abbrev pub Ascending : List Migration → Type 0
Ascending [] = Unit
Ascending (m ∷ ms) = All (λ n. m.version < n.version) ms × Ascending ms

-- no version stands twice
abbrev pub OneEach : List Migration → Type 0
OneEach [] = Unit
OneEach (m ∷ ms) = All (λ n. n.version ≢ m.version) ms × OneEach ms

All-insert_migration :
    (P : Migration → Type 0) (m : Migration) (ms : List Migration)
    → P m
    → All P ms
    → All P (insert_migration m ms)
unfolding insert_migration
All-insert_migration P m [] p ps = (p, tt)
All-insert_migration P m (n ∷ ns) p ps = elim (Bool-cases (leb m.version n.version)) [
  | inl h ↦ rw h (p, ps)
  | inr h ↦ rw h (ps.0, All-insert_migration P m ns p ps.1)
]

All-sort_migrations :
    (P : Migration → Type 0) (ms : List Migration) → All P ms → All P (sort_migrations ms)
unfolding sort_migrations
All-sort_migrations P [] ps = tt
All-sort_migrations P (m ∷ ms) ps =
    All-insert_migration P m (sort_migrations ms) ps.0 (All-sort_migrations P ms ps.1)

above_trans :
    (u v : ℕ) (ms : List Migration)
    → u < v
    → All (λ n. v < n.version) ms
    → All (λ n. u < n.version) ms
above_trans u v [] h a = tt
above_trans u v (m ∷ ms) h a = (omega (arith, a.0), above_trans u v ms h a.1)

insert_migration-Ascending :
    (m : Migration) (ms : List Migration)
    → All (λ n. n.version ≢ m.version) ms
    → Ascending ms
    → Ascending (insert_migration m ms)
unfolding insert_migration
insert_migration-Ascending m [] new asc = (tt, tt)
insert_migration-Ascending m (n ∷ ns) new asc = elim (Bool-cases (leb m.version n.version)) [
  | inl h ↦
      let below : m.version < n.version = omega (arith, leb→le m.version n.version h, new.0) in
      rw h ((below, above_trans m.version n.version ns below asc.0), asc)
  | inr h ↦
      let above : n.version < m.version = ground arith in
      rw h (
        All-insert_migration (λ x. n.version < x.version) m ns above asc.0,
        insert_migration-Ascending m ns new.1 asc.1,
      )
]

pub sort_migrations-Ascending : (ms : List Migration) → OneEach ms → Ascending (sort_migrations ms)
unfolding sort_migrations
sort_migrations-Ascending [] one = tt
sort_migrations-Ascending (m ∷ ms) one =
    insert_migration-Ascending m (sort_migrations ms)
      (All-sort_migrations (λ n. n.version ≢ m.version) ms one.0)
      (sort_migrations-Ascending ms one.1)
