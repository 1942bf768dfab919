-- ===== src/Api/Idempotency/Reclaim.antt =====
-- What a request with a key is answered whose first request never came to its end.
use kite_kvm.Api.Idempotency.Replay.{claimed, finished, finished_row, hash_of, key_row, looked_up}
use kite_kvm.Api.Idempotency.{
  Captured, Request, claim_and_run, handled, has_response, idempotency, max_idempotent_body, meet,
  stale_claim_window,
}
use kite_kvm.Store.Idempotency.{delete_idempotency, get_idempotency, record_key}
use kite_kvm.Store.Table.{find-delete_at}
use kite_kvm.Node.{Node, on_db}
use kite_kvm.Model.{IdempotencyRecord}
use kite_kvm.Prelude.{
  List, String, [], ap, arith, eq_iff, false, leb, ltb, none, ok, some, str_eq, take, true, ℕ, ◌-◌,
  ◌∙◌, ◌≡◌,
}

-- the node without the stale claim
abbrev pub freed : {H : Type 0} → String → Node H → Node H
freed key n = (on_db (delete_idempotency key) n).1

module _ {H : Type 0} (sha256_hex : List ℕ → String)
    (handler : List ℕ → Node H → Captured × Node H) where
  freed_row :
      (key : String) (n : Node H)
      → n.db.faults ≡ []
      → (key_row key (freed key n).db ≡ none)
        × ((freed key n).db.faults ≡ [])
        × ((freed key n).db.clock ≡ n.db.clock)
  unfolding delete_idempotency
  freed_row key n sound =
      let gone = find-delete_at record_key key key n.db.idempotency_keys in
      let here = eq_iff key key in
      (ground (arith, sound, gone, here), ground (arith, sound), ground (arith, sound))

  module _ (r : Request) (whole : List ℕ) (n : Node H) (named : str_eq r.key "" ≡ false)
      (read : r.body ≡ ok whole) (sound : n.db.faults ≡ []) where
    looked_found :
        (rec : IdempotencyRecord)
        → key_row r.key n.db ≡ some rec
        → ltb rec.expires_at n.db.clock ≡ false
        → (get_idempotency r.key n.db).0 ≡ ok rec
    unfolding get_idempotency
    looked_found rec row live = ground (arith, sound, row, live)

    reclaims :
        (rec : IdempotencyRecord)
        → key_row r.key n.db ≡ some rec
        → ltb rec.expires_at n.db.clock ≡ false
        → str_eq rec.request_hash (hash_of sha256_hex r whole) ≡ true
        → has_response rec ≡ false
        → leb (n.db.clock - rec.created_at) stale_claim_window ≡ false
        → idempotency sha256_hex handler r n
          ≡ claim_and_run sha256_hex handler r.key
              (hash_of sha256_hex r whole)
              (take max_idempotent_body whole)
              (freed r.key n)
    unfolding idempotency meet
    reclaims rec row live same empty old =
        let found : (get_idempotency r.key n.db).0 ≡ ok rec = looked_found rec row live in
        let looked = looked_up sha256_hex handler r whole n named read sound in
        ground (arith, named, read, found, looked, same, empty, old)

    -- A claim without a response, of the same request and older than the window of fifteen minutes,
    -- does not hold its key. With a database that does not fail, and a handler that leaves the new
    -- claim's row and a working database: the next such request reaches the handler and is given its
    -- response, the response is stored, and the time to live begins anew.
    pub idempotency-reclaims :
        (rec : IdempotencyRecord)
        → key_row r.key n.db ≡ some rec
        → ltb rec.expires_at n.db.clock ≡ false
        → str_eq rec.request_hash (hash_of sha256_hex r whole) ≡ true
        → has_response rec ≡ false
        → leb (n.db.clock - rec.created_at) stale_claim_window ≡ false
        → let hash = hash_of sha256_hex r whole in
          let start = claimed sha256_hex handler r.key hash (freed r.key n) in
          let ran = handler (take max_idempotent_body whole) start in
          key_row r.key ran.1.db ≡ key_row r.key start.db
          → ran.1.db.faults ≡ []
          → let after = idempotency sha256_hex handler r n in
            (after.0 ≡ handled ran.0)
            × (key_row r.key after.1.db ≡ some (finished_row r.key hash n.db.clock ran.0))
            × (after.1.host ≡ ran.1.host)
    idempotency-reclaims rec row live same empty old kept working =
        let (absent, sound', now) = freed_row r.key n sound in
        let reached = reclaims rec row live same empty old in
        let hash = hash_of sha256_hex r whole in
        let start = claimed sha256_hex handler r.key hash (freed r.key n) in
        let answer = (handler (take max_idempotent_body whole) start).0 in
        let done =
          finished sha256_hex handler r.key hash (take max_idempotent_body whole) (freed r.key n)
            sound' absent kept working in
        (
          ap (λ p. p.0) reached ∙ done.0,
          ap (λ p. key_row r.key p.1.db) reached
              ∙ done.1
              ∙ ap (λ t. some (finished_row r.key hash t answer)) now,
          ap (λ p. p.1.host) reached ∙ done.2,
        )
