-- ===== src/Examples/Requests.antt =====
-- Requests with an idempotency key, and a handler that counts its calls on the host.
use kite_kvm.Api.Idempotency.Reclaim.{freed, idempotency-reclaims}
use kite_kvm.Api.Idempotency.Replay.{
  claimed, finished_row, idempotency-held, idempotency-replays, idempotency_expired, key_row,
  IsUnchanged,
}
use kite_kvm.Api.Idempotency.{
  Captured, Request, claim_and_run, handled, idempotency, idempotency_ttl, in_progress, replayed,
}
use kite_kvm.Node.{Node}
use kite_kvm.Model.{IdempotencyRecord}
use kite_kvm.Store.Idempotency.{
  get_idempotency, put_idempotency, update_idempotency, delete_idempotency,
}
use kite_kvm.Store.Table.{find, delete_at}
use kite_kvm.Prelude.{
  String, List, [], false, ltb, none, ok, refl, some, ℕ, ◌+◌, ◌∷◌, ◌≡◌, ◌*◌, ◌^◌,
}

abbrev request : Request
request = record { key = "k1"; method = "POST"; path = "/v1/vms"; body = ok (123 ∷ 125 ∷ []) }

abbrev hash : List ℕ → String
hash bytes = "digest"

abbrev accepted : List ℕ → Node ℕ → Captured × Node ℕ
accepted body n = (record { status = 202; body = 123 ∷ [] }, record n { host = n.host + 1 })

abbrev node_at : ℕ → List IdempotencyRecord → Node ℕ
node_at now rows = record {
  db = record {
    vms = [];
    jobs = [];
    idempotency_keys = rows;
    ip_allocations = [];
    clock = now;
    faults = [];
  };
  host = 0;
  traffic_last = [];
}

abbrev kept : IdempotencyRecord
kept = finished_row "k1" "digest" 1000 (record { status = 202; body = 123 ∷ [] })

kept_row : key_row "k1" (node_at 2000 (kept ∷ [])).db ≡ some kept
unfolding find
kept_row = refl

no_row : key_row "k1" (node_at 1000 []).db ≡ none
unfolding find
no_row = refl

idempotency-held_example :
    let n = node_at 2000 (kept ∷ []) in
    ((idempotency hash accepted request n).0 ≡ replayed (record { status = 202; body = 123 ∷ [] }))
    × IsUnchanged (idempotency hash accepted request n).1 n
idempotency-held_example =
    idempotency-held hash accepted request (123 ∷ 125 ∷ []) (node_at 2000 (kept ∷ [])) refl refl
      refl kept kept_row refl refl

abbrev expired : IdempotencyRecord
expired = record kept { expires_at = 1500 }

expired_row : key_row "k1" (node_at 2000 (expired ∷ [])).db ≡ some expired
unfolding find
expired_row = refl

idempotency_expired_example :
    let n = node_at 2000 (expired ∷ []) in
    ((idempotency hash accepted request n).0 ≡ in_progress)
    × IsUnchanged (idempotency hash accepted request n).1 n
idempotency_expired_example =
    idempotency_expired hash accepted request (123 ∷ 125 ∷ []) (node_at 2000 (expired ∷ [])) refl
      refl refl expired expired_row refl

abbrev later : Node ℕ
later = record (idempotency hash accepted request (node_at 1000 [])).1 { host = 7 }

later_works : later.db.faults ≡ []
unfolding idempotency claim_and_run get_idempotency put_idempotency update_idempotency find
later_works = refl

later_lives : ltb (1000 + idempotency_ttl) later.db.clock ≡ false
unfolding idempotency claim_and_run get_idempotency put_idempotency update_idempotency find
later_lives = refl

works : (claimed hash accepted "k1" "digest" (node_at 1000 [])).db.faults ≡ []
unfolding put_idempotency find
works = refl

repeated_request :
    ((idempotency hash accepted request (node_at 1000 [])).0
      ≡ handled (record { status = 202; body = 123 ∷ [] }))
    × ((idempotency hash accepted request later).0
        ≡ replayed (record { status = 202; body = 123 ∷ [] }))
    × IsUnchanged (idempotency hash accepted request later).1 later
repeated_request =
    idempotency-replays hash accepted request (123 ∷ 125 ∷ []) (node_at 1000 []) later refl refl
      refl no_row refl works refl refl later_works later_lives

-- a claim whose request crashed sixteen minutes ago
abbrev abandoned : IdempotencyRecord
abandoned = record kept { response = []; status_code = 0; created_at = 1000 }

abbrev sixteen_minutes_on : Node ℕ
sixteen_minutes_on = node_at (1000 + 16 * 60 * 10 ^ 9) (abandoned ∷ [])

abandoned_row : key_row "k1" sixteen_minutes_on.db ≡ some abandoned
unfolding find
abandoned_row = refl

still_working : (claimed hash accepted "k1" "digest" (freed "k1" sixteen_minutes_on)).db.faults ≡ []
unfolding put_idempotency delete_idempotency find delete_at
still_working = refl

idempotency-reclaims_example :
    let now = 1000 + 16 * 60 * 10 ^ 9 in
    let answer : Captured = record { status = 202; body = 123 ∷ [] } in
    let start = claimed hash accepted "k1" "digest" (freed "k1" sixteen_minutes_on) in
    let after = idempotency hash accepted request sixteen_minutes_on in
    (after.0 ≡ handled answer)
    × (key_row "k1" after.1.db ≡ some (finished_row "k1" "digest" now answer))
    × (after.1.host ≡ start.host + 1)
idempotency-reclaims_example =
    idempotency-reclaims hash accepted request (123 ∷ 125 ∷ []) sixteen_minutes_on refl refl refl
      abandoned abandoned_row refl refl refl refl refl still_working
