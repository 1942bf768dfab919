-- ===== src/Store/Migrations/Resumed.antt =====
-- Runs of migrate that break off, and what the next run makes of the database.
use kite_kvm.Prelude.{
  Bool, Bool-cases, List, Option, Result, String, [], arith, inl, inr, ok, refl, ℕ, ◌<◌, ◌∷◌, ◌≡◌,
  ◌≤◌, ◌⊎◌, ℤ,
}
use kite_kvm.Store.Db.{next_fails, rest_faults}
use kite_kvm.Store.Migrations.{
  Entry, Migration, SchemaDb, apply_migration, apply_newer, load_migrations, max_version, migrate,
  read_entries, schema_statement, sort_migrations,
}
use kite_kvm.Store.Migrations.Order.{Ascending, OneEach, sort_migrations-Ascending}
use kite_kvm.Store.Migrations.Rounds.{
  Newer, Newer-ascending, Newer-same, applied, apply_migration-cases, apply_newer-Newer,
  apply_newer-le, apply_newer-next, apply_newer-skip, calm, le_or_lt, max_version-cons,
}

module _ {S : Type 0} (run_sql : String → S → Option S) where
  -- a run from `broken` on ends as a run from `db` on does, when no statement fails
  abbrev GoesOn : ℕ → List Migration → SchemaDb S → SchemaDb S → Type 0
  GoesOn c ms db broken =
      apply_newer run_sql (max_version broken.versions) ms (calm broken)
      ≡ apply_newer run_sql c ms (calm db)

  apply_newer-nil : (c : ℕ) (db : SchemaDb S) → apply_newer run_sql c [] db ≡ (ok tt, db)
  unfolding apply_newer
  apply_newer-nil c db = refl

  GoesOn-nil :
      (c : ℕ) (db broken : SchemaDb S)
      → broken ≡ (apply_newer run_sql c [] db).1
      → GoesOn c [] db broken
  GoesOn-nil c db broken at =
      rw (at, apply_newer-nil c db, apply_newer-nil c (calm db)) (apply_newer-nil _ (calm db))

  GoesOn-skip :
      (c : ℕ) (m : Migration) (ms : List Migration) (db broken : SchemaDb S)
      → m.version ≤ c
      → c ≤ max_version broken.versions
      → GoesOn c ms db broken
      → GoesOn c (m ∷ ms) db broken
  GoesOn-skip c m ms db broken h le on =
      rw
        (
          apply_newer-skip run_sql c m ms h,
          apply_newer-skip run_sql (max_version broken.versions) m ms (omega arith),
        )
        on

  GoesOn-stopped :
      (c : ℕ) (ms : List Migration) (db broken : SchemaDb S)
      → c ≤ max_version db.versions
      → Newer c (max_version db.versions) ms
      → broken ≡ record db { faults = rest_faults db.faults }
      → GoesOn c ms db broken
  GoesOn-stopped c ms db broken le new at =
      rw (at, apply_newer-Newer run_sql c (max_version db.versions) ms le new) refl

  GoesOn-applied :
      (c : ℕ) (m : Migration) (ms : List Migration) (after : S) (db broken : SchemaDb S)
      → c < m.version
      → m.version ≤ max_version broken.versions
      → apply_migration run_sql m (calm db) ≡ (ok tt, calm (applied run_sql m after db))
      → GoesOn c ms (applied run_sql m after db) broken
      → GoesOn c (m ∷ ms) db broken
  GoesOn-applied c m ms after db broken h le ran on =
      rw (apply_newer-next run_sql c m ms (calm db) _ _ h ran, apply_newer-skip run_sql _ m ms le)
        on

  -- the next run goes on where a run broke off
  apply_newer-GoesOn :
      (c : ℕ) (ms : List Migration) (db broken : SchemaDb S)
      → Ascending ms
      → c ≤ max_version db.versions
      → Newer c (max_version db.versions) ms
      → broken ≡ (apply_newer run_sql c ms db).1
      → GoesOn c ms db broken
  apply_newer-GoesOn c [] db broken asc le new at = GoesOn-nil c db broken at
  apply_newer-GoesOn c (m ∷ ms) db broken asc le new at = elim (le_or_lt m.version c) [
    | inl h ↦
        let here : broken ≡ (apply_newer run_sql c ms db).1 =
          rw at (rw (apply_newer-skip run_sql c m ms h) refl) in
        GoesOn-skip c m ms db broken h (rw here omega (arith, le, apply_newer-le run_sql c ms db))
          (apply_newer-GoesOn c ms db broken asc.1 le new.1 here)
    | inr h ↦ elim (apply_migration-cases run_sql m db) [
      | inl (after, ran, calmly) ↦
          let here : broken ≡ (apply_newer run_sql c ms (applied run_sql m after db)).1 =
            rw at (rw (apply_newer-next run_sql c m ms db _ _ h ran) refl) in
          let top = max_version-cons m.version db.versions (new.0 h) in
          GoesOn-applied c m ms after db broken h
            (rw here omega (arith, top, apply_newer-le run_sql c ms (applied run_sql m after db)))
            calmly
            (apply_newer-GoesOn c ms (applied run_sql m after db) broken asc.1 omega (arith, top)
              (rw top (Newer-ascending c m.version ms asc.0)) here)
      | inr (e, ran) ↦
          GoesOn-stopped c (m ∷ ms) db broken le new
            (rw at (rw (apply_newer-next run_sql c m ms db _ _ h ran) refl))
    ]
  ]

  module _ (atoi : String → Option ℤ) (entries : Result (List Entry)) (ms : List Migration)
      (loaded : load_migrations atoi entries ≡ ok ms) where
    migrate-calm :
        (db : SchemaDb S)
        → migrate run_sql atoi entries (calm db)
          ≡ apply_newer run_sql (max_version db.versions) ms (calm db)
    unfolding migrate schema_statement
    migrate-calm db = rw loaded refl

    -- a run fails before its first file, or is the loop over the files
    migrate-cases :
        (db : SchemaDb S)
        → (faults : List Bool) × (((migrate run_sql atoi entries db).1
              ≡ record db { faults = faults })
            ⊎ ((migrate run_sql atoi entries db).1
                ≡ (apply_newer run_sql
                    (max_version db.versions)
                    ms
                    (record db { faults = faults })).1))
    unfolding migrate schema_statement
    migrate-cases db = elim (Bool-cases (next_fails db.faults)) [
      | inl h ↦ (rest_faults db.faults, inl (rw h refl))
      | inr h ↦ elim (Bool-cases (next_fails (rest_faults db.faults))) [
        | inl g ↦ (rest_faults (rest_faults db.faults), inl (rw (h, g) refl))
        | inr g ↦ (rest_faults (rest_faults db.faults), inr (rw (h, g, loaded) refl))
      ]
    ]

    migrate-resumed_loaded :
        (db : SchemaDb S)
        → Ascending ms
        → migrate run_sql atoi entries (calm (migrate run_sql atoi entries db).1)
          ≡ migrate run_sql atoi entries (calm db)
    migrate-resumed_loaded db asc =
        let (fs, how) = migrate-cases db in
        elim how [
          | inl at ↦ rw at refl
          | inr at ↦
              rw (migrate-calm (migrate run_sql atoi entries db).1, migrate-calm db)
                (apply_newer-GoesOn (max_version db.versions) ms (record db { faults = fs })
                  (migrate run_sql atoi entries db).1 asc omega arith
                  (Newer-same (max_version db.versions) ms) at)
        ]

  -- When the files can be read, and no version stands twice among them: whichever statements of a
  -- run of migrate fail, wherever the run breaks off, and whatever the SQL of the files does, the
  -- next run in which no statement fails returns what such a run would have returned in the first
  -- place, and leaves the same schema and the same versions.
  pub migrate-resumed :
      (atoi : String → Option ℤ) (entries : List Entry) (files : List Migration) (db : SchemaDb S)
      → read_entries atoi entries ≡ ok files
      → OneEach files
      → migrate run_sql atoi (ok entries) (calm (migrate run_sql atoi (ok entries) db).1)
        ≡ migrate run_sql atoi (ok entries) (calm db)
  unfolding load_migrations
  migrate-resumed atoi entries files db h one =
      migrate-resumed_loaded atoi (ok entries) (sort_migrations files)
        (rw (load_migrations, h) refl) db (sort_migrations-Ascending files one)
