-- ===== src/Store/Idempotency.antt =====
-- The table `idempotency_keys`: GetIdempotency, PutIdempotency, UpdateIdempotency and
-- DeleteIdempotency of internal/store/sqlite.go.
use kite_kvm.Prelude.Texts.{text_ltb}
use kite_kvm.Prelude.{
  String, [], conflict, err, if◌then◌else◌, ltb, none, not_found, ok, some, ◌++◌, ◌==◌, ◌∷◌, keep,
  length, not, ℕ, ◌-◌,
}
use kite_kvm.Prelude.Effects.{Exec}
use kite_kvm.Model.{IdempotencyRecord}
use kite_kvm.Store.Table.{delete_at, find, update_at}
use kite_kvm.Store.Db.{Db, statement}

abbrev pub record_key : IdempotencyRecord → String
record_key r = r.key

-- An expired record is treated as absent: time.Now().After(rec.ExpiresAt).
unfoldable pub get_idempotency : String → Exec Db IdempotencyRecord
unfolding statement
get_idempotency key = statement λ db. elim (find record_key key db.idempotency_keys) [
  | none ↦ (err not_found, db)
  | some r ↦ if ltb r.expires_at db.clock then (err not_found, db) else (ok r, db)
]

unfoldable pub put_idempotency : IdempotencyRecord → Exec Db (Unit {0})
unfolding statement
put_idempotency r = statement λ db.
    let row = record r { created_at = if r.created_at == 0 then db.clock else r.created_at } in
    elim (find record_key r.key db.idempotency_keys) [
      | some _ ↦ (err conflict, db)
      | none ↦ (ok tt, record db { idempotency_keys = db.idempotency_keys ++ row ∷ [] })
    ]

-- SET job_id, response, status_code
abbrev pub set_reply : IdempotencyRecord → IdempotencyRecord → IdempotencyRecord
set_reply r row = record row {
  job_id = r.job_id;
  response = r.response;
  status_code = r.status_code;
}

unfoldable pub update_idempotency : IdempotencyRecord → Exec Db (Unit {0})
unfolding statement
update_idempotency r = statement λ db. elim (find record_key r.key db.idempotency_keys) [
  | none ↦ (err not_found, db)
  | some _ ↦ (
    ok tt,
    record db { idempotency_keys = update_at record_key r.key (set_reply r) db.idempotency_keys },
  )
]

unfoldable pub delete_idempotency : String → Exec Db (Unit {0})
unfolding statement
delete_idempotency key =
    statement
      λ db. (ok tt, record db { idempotency_keys = delete_at record_key key db.idempotency_keys })

-- DELETE … WHERE expires_at < ?, which compares the texts of the times. `fmt_time` is what fmtTime
-- writes. The result is the number of rows that were deleted.
unfoldable pub delete_expired_idempotency : (ℕ → String) → Exec Db ℕ
unfolding statement
delete_expired_idempotency fmt_time = statement λ db.
    let rest =
      keep (λ r. not (text_ltb (fmt_time r.expires_at) (fmt_time db.clock))) db.idempotency_keys in
    (ok (length db.idempotency_keys - length rest), record db { idempotency_keys = rest })
