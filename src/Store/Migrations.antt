-- ===== src/Store/Migrations.antt =====
-- internal/store/migrations.go, and Open of sqlite.go: the versioned SQL files, and the runner that
-- brings a database up to date. What the SQL of a file does to the schema is a parameter, and so is
-- strconv.Atoi.
pub mod Order
pub mod Rounds
pub mod Resumed
use kite_kvm.Store.Db.{next_fails, rest_faults}
use kite_kvm.Prelude.Texts.{has_suffix, split_at_first}
use kite_kvm.Prelude.Effects.{Exec, lift, pure, ◌>>=◌, ◌>>◌}
use kite_kvm.Prelude.{
  pos, negsuc, Bool, List, Option, Result, String, [], conflict, db_failed, err, false,
  if◌then◌else◌, leb, none, not, ok, other, some, ℕ, ◌==◌, ◌||◌, ◌∷◌, ℤ,
}

-- a file of the embedded directory; its body is absent if it cannot be read
pub record Entry : Type 0 where
  pub is_dir : Bool
  pub name : String
  pub body : Option String

pub record Migration : Type 0 where
  pub version : ℕ
  pub name : String
  pub sql : String

-- The schema with the versions in schema_migrations, none when there is no such table, and the
-- statements to come that fail, as in a `Db`.
pub record SchemaDb (S : Type 0) : Type 0 where
  pub schema : S
  pub versions : List ℕ
  pub faults : List Bool

-- sort.Slice by the version
unfoldable pub insert_migration : Migration → List Migration → List Migration
insert_migration m [] = m ∷ []
insert_migration m (n ∷ ns) =
    let rest = insert_migration m ns in if leb m.version n.version then m ∷ n ∷ ns else n ∷ rest

unfoldable pub sort_migrations : List Migration → List Migration
sort_migrations [] = []
sort_migrations (m ∷ ms) = insert_migration m (sort_migrations ms)

-- A version below 0 is below every current one, and the loop of migrate passes it over: it is left
-- out here.
abbrev pub numbered : ℤ → String → String → Option Migration
numbered (negsuc k) name sql = none
numbered (pos v) name sql = some (record { version = v; name = name; sql = sql })

module _ (atoi : String → Option ℤ) where
  -- one round of the loop over the directory: a file that is passed over, or its migration
  unfoldable pub migration_of : Entry → Result (Option Migration)
  migration_of e =
      if e.is_dir || not (has_suffix e.name ".sql")
      then ok none
      else elim (split_at_first "_" e.name) [
        | none ↦ err other
        | some p ↦ elim (atoi p.0) [
          | none ↦ err other
          | some v ↦ elim e.body [ none ↦ err other | some sql ↦ ok (numbered v e.name sql) ]
        ]
      ]

  unfoldable pub read_entries : List Entry → Result (List Migration)
  read_entries [] = ok []
  read_entries (e ∷ es) = elim (migration_of e) [
    | err x ↦ err x
    | ok none ↦ read_entries es
    | ok (some m) ↦ elim (read_entries es) [ err x ↦ err x | ok ms ↦ ok (m ∷ ms) ]
  ]

  unfoldable pub load_migrations : Result (List Entry) → Result (List Migration)
  load_migrations (err x) = err x
  load_migrations (ok es) = elim (read_entries es) [
    | err x ↦ err x
    | ok ms ↦ ok (sort_migrations ms)
  ]

-- SELECT COALESCE(MAX(version), 0)
unfoldable pub max_version : List ℕ → ℕ
max_version [] = 0
max_version (v ∷ vs) = let rest = max_version vs in if leb rest v then v else rest

unfoldable pub has_version : ℕ → List ℕ → Bool
has_version v [] = false
has_version v (x ∷ xs) = let rest = has_version v xs in x == v || rest

module _ {S : Type 0} where
  -- a statement, or a transaction: it fails and changes nothing, or is carried out
  unfoldable pub schema_statement : {A : Type 0} → Exec (SchemaDb S) A → Exec (SchemaDb S) A
  schema_statement m db =
      let after = record db { faults = rest_faults db.faults } in
      if next_fails db.faults then (err db_failed, after) else m after

module _ {S : Type 0} (run_sql : String → S → Option S) where
  -- One file and its row, in a transaction. The version is the primary key of schema_migrations.
  unfoldable pub apply_migration : Migration → Exec (SchemaDb S) (Unit {0})
  unfolding schema_statement
  apply_migration m = schema_statement λ db. elim (run_sql m.sql db.schema) [
    | none ↦ (err db_failed, db)
    | some after ↦
        if has_version m.version db.versions
        then (err conflict, db)
        else (ok tt, record db { schema = after; versions = m.version ∷ db.versions })
  ]

  -- the loop of migrate
  unfoldable pub apply_newer : ℕ → List Migration → Exec (SchemaDb S) (Unit {0})
  apply_newer current [] = pure tt
  apply_newer current (m ∷ ms) =
      let rest = apply_newer current ms in
      if leb m.version current then rest else (apply_migration m >> rest)

  unfoldable pub migrate : (String → Option ℤ) → Result (List Entry) → Exec (SchemaDb S) (Unit {0})
  unfolding schema_statement
  migrate atoi entries =
      schema_statement (pure tt)
      >> schema_statement (λ db. (ok (max_version db.versions), db))
      >>= λ current. lift (load_migrations atoi entries) >>= apply_newer current

  -- Open, after the directory of the file: the connection, three pragmas, and the migrations. An
  -- error closes the connection.
  unfoldable pub open_store :
      (String → Option ℤ)
      → Result (List Entry)
      → Result (Unit {0})
      → Result (Unit {0})
      → Exec (SchemaDb S) (Unit {0})
  unfolding schema_statement
  open_store atoi entries directory connection =
      lift directory
      >> lift connection
      >> schema_statement (pure tt)
      >> schema_statement (pure tt)
      >> schema_statement (pure tt)
      >> migrate atoi entries
