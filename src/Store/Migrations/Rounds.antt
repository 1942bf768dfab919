-- ===== src/Store/Migrations/Rounds.antt =====
-- One round of the loop of migrate, and what a run does with the versions.
use kite_kvm.Prelude.{
  All, Bool-cases, Error, List, Option, Option-cases, Result, String, [], arith, conflict,
  db_failed, err, false, inl, inr, leb, leb→le, ok, refl, ℕ, ◌<◌, ◌∷◌, ◌≡◌, ◌≤◌, ◌⊎◌,
}
use kite_kvm.Prelude.Effects.{continue}
use kite_kvm.Store.Db.{next_fails, rest_faults}
use kite_kvm.Store.Migrations.{
  Migration, SchemaDb, apply_migration, apply_newer, has_version, max_version, schema_statement,
}

-- no statement fails from here on
abbrev pub calm : {S : Type 0} → SchemaDb S → SchemaDb S
calm db = record db { faults = [] }

-- of these files, those that are newer than `current` are newer than `reached`
abbrev pub Newer : ℕ → ℕ → List Migration → Type 0
Newer current reached ms = All (λ m. current < m.version → reached < m.version) ms

pub Newer-same : (v : ℕ) (ms : List Migration) → Newer v v ms
Newer-same v [] = tt
Newer-same v (m ∷ ms) = (λ h. h, Newer-same v ms)

pub Newer-ascending :
    (current v : ℕ) (ms : List Migration) → All (λ n. v < n.version) ms → Newer current v ms
Newer-ascending current v [] h = tt
Newer-ascending current v (m ∷ ms) h = (λ _. h.0, Newer-ascending current v ms h.1)

pub le_or_lt : (a b : ℕ) → (a ≤ b) ⊎ (b < a)
le_or_lt a b = elim (Bool-cases (leb a b)) [
  | inl h ↦ inl (leb→le a b h)
  | inr h ↦ inr (ground arith)
]

pub max_version-cons : (v : ℕ) (vs : List ℕ) → (max_version vs < v) → max_version (v ∷ vs) ≡ v
unfolding max_version
max_version-cons v vs h = ground arith

max_version-le : (v : ℕ) (vs : List ℕ) → max_version vs ≤ max_version (v ∷ vs)
unfolding max_version
max_version-le v vs = ground arith

module _ {S : Type 0} (run_sql : String → S → Option S) where
  abbrev pub applied : Migration → S → SchemaDb S → SchemaDb S
  applied m after db = record db {
    schema = after;
    versions = m.version ∷ db.versions;
    faults = rest_faults db.faults;
  }

  abbrev pub Applied : Migration → SchemaDb S → Type 0
  Applied m db =
      (after : S) × (apply_migration run_sql m db ≡ (ok tt, applied m after db))
      × (apply_migration run_sql m (calm db) ≡ (ok tt, calm (applied m after db)))

  abbrev pub Stopped : Migration → SchemaDb S → Type 0
  Stopped m db =
      (e : Error) × (apply_migration run_sql m db
        ≡ (err e, record db { faults = rest_faults db.faults }))

  pub apply_migration-cases : (m : Migration) (db : SchemaDb S) → Applied m db ⊎ Stopped m db
  unfolding apply_migration schema_statement
  apply_migration-cases m db = elim (Bool-cases (next_fails db.faults)) [
    | inl h ↦ inr (db_failed, rw h refl)
    | inr h ↦ elim (Option-cases (run_sql m.sql db.schema)) [
      | inl g ↦ inr (db_failed, rw (h, g) refl)
      | inr (after, g) ↦ elim (Bool-cases (has_version m.version db.versions)) [
        | inl k ↦ inr (conflict, rw (h, g, k) refl)
        | inr k ↦ inl (after, rw (h, g, k) refl, rw (g, k) refl)
      ]
    ]
  ]

  pub apply_newer-skip :
      (c : ℕ) (m : Migration) (ms : List Migration)
      → m.version ≤ c
      → apply_newer run_sql c (m ∷ ms) ≡ apply_newer run_sql c ms
  unfolding apply_newer
  apply_newer-skip c m ms h = ground arith

  pub apply_newer-next :
      (c : ℕ) (m : Migration) (ms : List Migration) (db after : SchemaDb S) (r : Result Unit)
      → c < m.version
      → apply_migration run_sql m db ≡ (r, after)
      → apply_newer run_sql c (m ∷ ms) db ≡ continue r (λ _. apply_newer run_sql c ms) after
  unfolding apply_newer
  apply_newer-next c m ms db after r h ran =
      let later : leb m.version c ≡ false = ground arith in rw (later, ran) refl

  pub apply_newer-Newer :
      (c r : ℕ) (ms : List Migration)
      → c ≤ r
      → Newer c r ms
      → apply_newer run_sql r ms ≡ apply_newer run_sql c ms
  unfolding apply_newer
  apply_newer-Newer c r [] h n = refl
  apply_newer-Newer c r (m ∷ ms) h n = ground (arith, n.0, apply_newer-Newer c r ms h n.1)

  -- a run takes no version away
  pub apply_newer-le :
      (c : ℕ) (ms : List Migration) (db : SchemaDb S)
      → max_version db.versions ≤ max_version (apply_newer run_sql c ms db).1.versions
  unfolding apply_newer
  apply_newer-le c [] db = omega arith
  apply_newer-le c (m ∷ ms) db = elim (le_or_lt m.version c) [
    | inl h ↦ rw (apply_newer-skip c m ms h) (apply_newer-le c ms db)
    | inr h ↦ elim (apply_migration-cases m db) [
      | inl (after, ran, _) ↦
          rw (apply_newer-next c m ms db _ _ h ran) omega
            (arith, apply_newer-le c ms (applied m after db), max_version-le m.version db.versions)
      | inr (e, ran) ↦ rw (apply_newer-next c m ms db _ _ h ran) (omega arith)
    ]
  ]
