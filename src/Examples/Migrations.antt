-- ===== src/Examples/Migrations.antt =====
-- A database that is brought up to date in two runs.
use kite_kvm.Store.Migrations.Resumed.{migrate-resumed}
use kite_kvm.Store.Migrations.Rounds.{calm}
use kite_kvm.Store.Migrations.Order.{OneEach}
use kite_kvm.Store.Migrations.{
  Entry, Migration, SchemaDb, apply_migration, apply_newer, has_version, insert_migration,
  load_migrations, max_version, migrate, migration_of, read_entries, schema_statement,
  sort_migrations,
}
use kite_kvm.Prelude.Texts.{behind, has_suffix, split_at_first}
use kite_kvm.Prelude.{
  pos, List, Option, String, [], arith, false, if◌then◌else◌, none, ok, refl, some, str_eq, true,
  ◌++◌, ◌∷◌, ◌≡◌, ℤ,
}

-- a schema is the list of what was carried out
abbrev carry_out : String → List String → Option (List String)
carry_out sql done = some (done ++ sql ∷ [])

abbrev file_number : String → Option ℤ
file_number prefix =
    if str_eq prefix "0001"
    then some (pos 1)
    else if str_eq prefix "0002"
    then some (pos 2)
    else none

abbrev sql_files : List Entry
sql_files =
    record { is_dir = false; name = "0002_vm_password.sql"; body = some "ALTER" }
    ∷ record { is_dir = true; name = "old"; body = none }
    ∷ record { is_dir = false; name = "0001_init.sql"; body = some "CREATE" }
    ∷ []

abbrev read_files : List Migration
read_files =
    record { version = 2; name = "0002_vm_password.sql"; sql = "ALTER" }
    ∷ record { version = 1; name = "0001_init.sql"; sql = "CREATE" }
    ∷ []

-- the fourth statement fails, the second file's transaction
abbrev breaking : SchemaDb (List String)
breaking = record { schema = []; versions = []; faults = false ∷ false ∷ false ∷ true ∷ [] }

files_read : read_entries file_number sql_files ≡ ok read_files
unfolding read_entries migration_of split_at_first behind has_suffix
files_read = refl

broken_versions : (migrate carry_out file_number (ok sql_files) breaking).1.versions ≡ 1 ∷ []
unfolding migrate load_migrations read_entries migration_of split_at_first behind has_suffix
    sort_migrations insert_migration apply_newer apply_migration schema_statement max_version
    has_version
broken_versions = refl

complete_schema :
    (migrate carry_out file_number (ok sql_files) (calm breaking)).1.schema
    ≡ "CREATE" ∷ "ALTER" ∷ []
unfolding migrate load_migrations read_entries migration_of split_at_first behind has_suffix
    sort_migrations insert_migration apply_newer apply_migration schema_statement max_version
    has_version
complete_schema = refl

two_versions : OneEach read_files
two_versions = (((λ h. omega (arith, h)), tt), (tt, tt))

migrate-resumed_example :
    migrate carry_out file_number
      (ok sql_files)
      (calm (migrate carry_out file_number (ok sql_files) breaking).1)
    ≡ migrate carry_out file_number (ok sql_files) (calm breaking)
migrate-resumed_example =
    migrate-resumed carry_out file_number sql_files read_files breaking files_read two_versions
