-- ===== src/Api/Idempotency.antt =====
-- internal/api/idempotency.go: the middleware that answers a repeated request with the stored
-- response. The handler behind it is a parameter: it is given the body, and changes the node.
pub mod Replay
pub mod Reclaim
use kite_kvm.Model.{IdempotencyRecord}
use kite_kvm.Store.Idempotency.{
  delete_idempotency, get_idempotency, put_idempotency, update_idempotency,
}
use kite_kvm.Node.{Node, on_db}
use kite_kvm.Prelude.{
  String, Bool, Error, List, Result, [], conflict, err, false, if◌then◌else◌, leb, not, not_found,
  ok, str_eq, take, true, ℕ, ◌*◌, ◌+◌, ◌-◌, ◌^◌, ◌∷◌, codes, ◌++◌,
}

-- the responseCapture of a request: the status, 200 unless it was set, and the body
pub record Captured : Type 0 where
  pub status : ℕ
  pub body : List ℕ

-- what the middleware writes
pub data Answer : Type 0 where
  key_required unreadable_body different_request in_progress : Answer
  store_failed : Error → Answer
  replayed handled : Captured → Answer

pub record Request : Type 0 where
  pub key : String  -- the header Idempotency-Key, "" if it is missing
  pub method : String
  pub path : String
  pub body : Result (List ℕ)  -- the body, or the error of reading it up to the limit

-- idempotencyTTL, in nanoseconds
abbrev pub idempotency_ttl : ℕ
idempotency_ttl = 24 * 3600 * 10 ^ 9

abbrev pub max_idempotent_body : ℕ
max_idempotent_body = 1048576

-- staleClaimWindow
abbrev pub stale_claim_window : ℕ
stale_claim_window = 15 * 60 * 10 ^ 9

abbrev pub is_not_found : Error → Bool
is_not_found Error.not_found = true
is_not_found _ = false

abbrev pub is_conflict : Error → Bool
is_conflict Error.conflict = true
is_conflict _ = false

-- len(existing.Response) > 0
abbrev pub has_response : IdempotencyRecord → Bool
has_response r = elim (r.response) [ [] ↦ false | b ∷ bs ↦ true ]

abbrev pub captured_of : IdempotencyRecord → Captured
captured_of r = record { status = r.status_code; body = r.response }

-- the record of a claim
abbrev pub claim_of : String → String → ℕ → IdempotencyRecord
claim_of key hash now = record {
  key = key;
  job_id = "";
  request_hash = hash;
  response = [];
  status_code = 0;
  created_at = 0;
  expires_at = now + idempotency_ttl;
}

-- hashRequest; `sha256_hex` is the digest of what was written, in hexadecimal digits
abbrev pub hash_request : (List ℕ → String) → String → String → List ℕ → String
hash_request sha256_hex method path body =
    sha256_hex (codes method ++ 10 ∷ (codes path ++ 10 ∷ body))

module _ {H : Type 0} (sha256_hex : List ℕ → String) where
  module _ (handler : List ℕ → Node H → Captured × Node H) where
    -- the second half of the middleware: the claim, the handler, and the stored response
    unfoldable pub claim_and_run : String → String → List ℕ → Node H → Answer × Node H
    claim_and_run key hash body n =
        let claim = claim_of key hash n.db.clock in
        let claimed = on_db (put_idempotency claim) n in
        let ran = handler body claimed.1 in
        let finished = record claim { response = ran.0.body; status_code = ran.0.status } in
        elim (claimed.0) [
          | err e ↦ (if is_conflict e then in_progress else store_failed e, claimed.1)
          | ok _ ↦ (handled ran.0, (on_db (update_idempotency finished) ran.1).1)
        ]

    -- what is made of a record that is found
    unfoldable pub meet : String → String → List ℕ → IdempotencyRecord → Node H → Answer × Node H
    unfolding claim_and_run
    meet key hash body found n =
        let freed = on_db (delete_idempotency key) n in
        if not (str_eq found.request_hash hash)
        then (different_request, n)
        else if has_response found
        then (replayed (captured_of found), n)
        else if leb (n.db.clock - found.created_at) stale_claim_window
        then (in_progress, n)
        else claim_and_run key hash body freed.1

    -- idempotency
    unfoldable pub idempotency : Request → Node H → Answer × Node H
    idempotency r n = if str_eq r.key "" then (key_required, n) else elim (r.body) [
      | err e ↦ (unreadable_body, n)
      | ok whole ↦
          let body = take max_idempotent_body whole in
          let hash = hash_request sha256_hex r.method r.path body in
          let found = on_db (get_idempotency r.key) n in
          elim (found.0) [
            | ok rec ↦ meet r.key hash body rec found.1
            | err e ↦
                if is_not_found e
                then claim_and_run r.key hash body found.1
                else (store_failed e, found.1)
          ]
    ]
