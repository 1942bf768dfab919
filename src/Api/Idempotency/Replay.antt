-- ===== src/Api/Idempotency/Replay.antt =====
-- What a second request with a key is answered.
use kite_kvm.Api.Idempotency.{
  Captured, Request, captured_of, claim_of, different_request, has_response, idempotency,
  in_progress, max_idempotent_body, meet, replayed, stale_claim_window, claim_and_run, handled,
  idempotency_ttl, hash_request,
}
use kite_kvm.Model.{IdempotencyRecord}
use kite_kvm.Store.Db.{Db}
use kite_kvm.Store.Table.{find, find-append, find-update_at_same}
use kite_kvm.Store.Idempotency.{
  get_idempotency, record_key, put_idempotency, update_idempotency, set_reply,
}
use kite_kvm.Node.{Node, on_db}
use kite_kvm.Prelude.{
  String, List, Option, [], arith, false, if◌then◌else◌, leb, ltb, not, ok, some, str_eq, take,
  true, ℕ, ◌-◌, ◌||◌, ◌≡◌, eq_iff, none, refl, ◌∙◌, err, not_found, ◌+◌, ap,
}

-- the row of a key
abbrev pub key_row : String → Db → Option IdempotencyRecord
key_row key db = find record_key key db.idempotency_keys

-- the hash of a request with that body
abbrev pub hash_of : (List ℕ → String) → Request → List ℕ → String
hash_of sha256_hex r whole =
    hash_request sha256_hex r.method r.path (take max_idempotent_body whole)

-- the row once the handler has answered
abbrev pub finished_row : String → String → ℕ → Captured → IdempotencyRecord
finished_row key hash now c = record (claim_of key hash now) {
  response = c.body;
  status_code = c.status;
  created_at = now;
}

-- a node is left as it was, but for the schedule of failing statements
abbrev pub IsUnchanged : {H : Type 0} → Node H → Node H → Type 0
IsUnchanged after n =
    (after.host ≡ n.host)
    × (after.db.vms ≡ n.db.vms)
    × (after.db.jobs ≡ n.db.jobs)
    × (after.db.ip_allocations ≡ n.db.ip_allocations)
    × (after.db.idempotency_keys ≡ n.db.idempotency_keys)

module _ {H : Type 0} (sha256_hex : List ℕ → String)
    (handler : List ℕ → Node H → Captured × Node H) where
  module _ (r : Request) (whole : List ℕ) (n : Node H) (named : str_eq r.key "" ≡ false)
      (read : r.body ≡ ok whole) (sound : n.db.faults ≡ []) where
    -- While a record of the key is held that is not expired, and that has a response or is a recent
    -- claim, no request with the key reaches the handler: another request is refused, the same one
    -- is given the stored response if there is one, and is told to wait otherwise. Nothing changes.
    pub idempotency-held :
        (rec : IdempotencyRecord)
        → key_row r.key n.db ≡ some rec
        → ltb rec.expires_at n.db.clock ≡ false
        → (has_response rec || leb (n.db.clock - rec.created_at) stale_claim_window) ≡ true
        → ((idempotency sha256_hex handler r n).0 ≡ (
            if not (str_eq rec.request_hash (hash_of sha256_hex r whole))
            then different_request
            else if has_response rec
            then replayed (captured_of rec)
            else in_progress))
          × IsUnchanged (idempotency sha256_hex handler r n).1 n
    unfolding idempotency meet get_idempotency
    idempotency-held rec row live held = (
      ground (arith, named, read, sound, row, live, held),
      (
        ground (arith, named, read, sound, row, live, held),
        ground (arith, named, read, sound, row, live, held),
        ground (arith, named, read, sound, row, live, held),
        ground (arith, named, read, sound, row, live, held),
        ground (arith, named, read, sound, row, live, held),
      ),
    )

    -- A record that has expired is not found by the look-up, and its row still refuses the claim: a
    -- request with the key is told that one is in progress, and does not reach the handler.
    pub idempotency_expired :
        (rec : IdempotencyRecord)
        → key_row r.key n.db ≡ some rec
        → ltb rec.expires_at n.db.clock ≡ true
        → ((idempotency sha256_hex handler r n).0 ≡ in_progress)
          × IsUnchanged (idempotency sha256_hex handler r n).1 n
    unfolding idempotency claim_and_run get_idempotency put_idempotency
    idempotency_expired rec row late = (
      ground (arith, named, read, sound, row, late),
      (
        ground (arith, named, read, sound, row, late),
        ground (arith, named, read, sound, row, late),
        ground (arith, named, read, sound, row, late),
        ground (arith, named, read, sound, row, late),
        ground (arith, named, read, sound, row, late),
      ),
    )

    -- a look-up leaves a working database as it is
    pub looked_up : (on_db (get_idempotency r.key) n).1 ≡ n
    unfolding get_idempotency
    looked_up = ground (arith, sound)

    looked_missing : key_row r.key n.db ≡ none → (get_idempotency r.key n.db).0 ≡ err not_found
    unfolding get_idempotency
    looked_missing absent = ground (arith, sound, absent)

    claims :
        key_row r.key n.db ≡ none
        → idempotency sha256_hex handler r n
          ≡ claim_and_run sha256_hex handler r.key
              (hash_of sha256_hex r whole)
              (take max_idempotent_body whole)
              n
    unfolding idempotency
    claims absent =
        let missing : (get_idempotency r.key n.db).0 ≡ err not_found = looked_missing absent in
        ground (arith, named, read, missing, looked_up)

  -- the node that the handler of a first request is called with
  abbrev pub claimed : String → String → Node H → Node H
  claimed key hash n = (on_db (put_idempotency (claim_of key hash n.db.clock)) n).1

  module _ (key hash : String) (body : List ℕ) (n : Node H) (sound : n.db.faults ≡ [])
      (absent : key_row key n.db ≡ none) where
    claimed_row :
        (key_row key (claimed key hash n).db
          ≡ some (record (claim_of key hash n.db.clock) { created_at = n.db.clock }))
        × ((put_idempotency (claim_of key hash n.db.clock) n.db).0 ≡ ok tt)
    unfolding put_idempotency
    claimed_row =
        let row : IdempotencyRecord = record (claim_of key hash n.db.clock) {
          created_at = n.db.clock;
        } in
        let added = find-append record_key key n.db.idempotency_keys row in
        let here = eq_iff key key in
        (ground (arith, absent, sound, added, here), ground (arith, absent, sound))

    pub finished :
        let ran = handler body (claimed key hash n) in
        key_row key ran.1.db ≡ key_row key (claimed key hash n).db
        → ran.1.db.faults ≡ []
        → let after = claim_and_run sha256_hex handler key hash body n in
          (after.0 ≡ handled ran.0)
          × (key_row key after.1.db ≡ some (finished_row key hash n.db.clock ran.0))
          × (after.1.host ≡ ran.1.host)
    unfolding claim_and_run update_idempotency
    finished kept working =
        let ran = handler body (claimed key hash n) in
        let got = claimed_row.1 in
        let row = kept ∙ claimed_row.0 in
        let last : IdempotencyRecord = record (claim_of key hash n.db.clock) {
          response = ran.0.body;
          status_code = ran.0.status;
        } in
        let set =
          find-update_at_same record_key key key (set_reply last) ran.1.db.idempotency_keys
            (λ x. refl) in
        let here = eq_iff key key in
        (
          ground (arith, got),
          ground (arith, got, row, working, set, here),
          ground (arith, got, working, row),
        )

module _ {H : Type 0} (sha256_hex : List ℕ → String)
    (handler : List ℕ → Node H → Captured × Node H) where
  -- the same for a handler that draws afresh for the later request
  pub replays-redrawn :
      (again : List ℕ → Node H → Captured × Node H) (r : Request) (whole : List ℕ)
      (n later : Node H)
      → str_eq r.key "" ≡ false
      → r.body ≡ ok whole
      → n.db.faults ≡ []
      → key_row r.key n.db ≡ none
      → let hash = hash_of sha256_hex r whole in
        let ran =
          handler (take max_idempotent_body whole) (claimed sha256_hex handler r.key hash n) in
        key_row r.key ran.1.db ≡ key_row r.key (claimed sha256_hex handler r.key hash n).db
        → ran.1.db.faults ≡ []
        → has_response (finished_row r.key hash n.db.clock ran.0) ≡ true
        → let first = idempotency sha256_hex handler r n in
          key_row r.key later.db ≡ key_row r.key first.1.db
          → later.db.faults ≡ []
          → ltb (n.db.clock + idempotency_ttl) later.db.clock ≡ false
          → (first.0 ≡ handled ran.0)
            × ((idempotency sha256_hex again r later).0 ≡ replayed ran.0)
            × IsUnchanged (idempotency sha256_hex again r later).1 later
  replays-redrawn again r whole n later named read sound absent kept working full stays sound'
        live =
      let hash = hash_of sha256_hex r whole in
      let ran =
        handler (take max_idempotent_body whole) (claimed sha256_hex handler r.key hash n) in
      let row = finished_row r.key hash n.db.clock ran.0 in
      let body = take max_idempotent_body whole in
      let reached = claims sha256_hex handler r whole n named read sound absent in
      let done = finished sha256_hex handler r.key hash body n sound absent kept working in
      let stored : key_row r.key later.db ≡ some row =
        stays ∙ (ap (λ p. key_row r.key p.1.db) reached ∙ done.1) in
      let kept_on : (has_response row || leb (later.db.clock - row.created_at) stale_claim_window)
          ≡ true =
        ground (arith, full) in
      let held =
        idempotency-held sha256_hex again r whole later named read sound' row stored live kept_on in
      let same = eq_iff hash hash in
      (ap (λ p. p.0) reached ∙ done.0, ground (arith, held.0, full, same), held.1)

  -- The first request with a key reaches the handler, once, and is given its response. If the
  -- handler leaves the claim's row and a working database, every later request with the key, the
  -- same method, path and body, is given that response as well, and changes nothing, as long as the
  -- row stays, the response has a body, and the time to live has not run out.
  pub idempotency-replays :
      (r : Request) (whole : List ℕ) (n later : Node H)
      → str_eq r.key "" ≡ false
      → r.body ≡ ok whole
      → n.db.faults ≡ []
      → key_row r.key n.db ≡ none
      → let hash = hash_of sha256_hex r whole in
        let ran =
          handler (take max_idempotent_body whole) (claimed sha256_hex handler r.key hash n) in
        key_row r.key ran.1.db ≡ key_row r.key (claimed sha256_hex handler r.key hash n).db
        → ran.1.db.faults ≡ []
        → has_response (finished_row r.key hash n.db.clock ran.0) ≡ true
        → let first = idempotency sha256_hex handler r n in
          key_row r.key later.db ≡ key_row r.key first.1.db
          → later.db.faults ≡ []
          → ltb (n.db.clock + idempotency_ttl) later.db.clock ≡ false
          → (first.0 ≡ handled ran.0)
            × ((idempotency sha256_hex handler r later).0 ≡ replayed ran.0)
            × IsUnchanged (idempotency sha256_hex handler r later).1 later
  idempotency-replays r whole n later named read sound absent kept working full stays sound' live =
      replays-redrawn handler r whole n later named read sound absent kept working full stays sound'
        live
